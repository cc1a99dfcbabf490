-- ===== src/Dispatcher/Attempts.antt =====
-- internal/dispatcher/dispatcher.go: what the loop over the attempts leaves alone, and its bounds.
use easy_cron.Prelude.{
  ℕ, zero, suc, ◌+◌, ◌*◌, ◌≤◌, ◌≡◌, refl, List, [], ◌∷◌, if◌then◌else◌, ltb, arith, length,
}
use easy_cron.Domain.{Uuid, TriggerEvent}
use easy_cron.Dispatcher.{
  Store, World, Env, WebhookRequest, WebhookResult, max_webhook_attempt_timeout,
}
use easy_cron.Dispatcher.Loop.{attempts, wait, try, backoff_of}

-- A case rule for one round: what holds of the three ways out and of the next round holds.
module _ (st : Store) (env : Env) (event : TriggerEvent) (req : WebhookRequest) where
  open st use {S, view, insert_view}

  breaker-try : (k : ℕ) (w : World S) → (try st env event req k w).0.breaker ≡ w.breaker
  unfolding try
  breaker-try k w = refl

  breaker-wait :
      (k : ℕ) (last : WebhookResult) (w : World S) → (wait st k last w).breaker ≡ w.breaker
  unfolding wait
  breaker-wait k last w = refl

  -- The loop does not touch the breaker.
  pub breaker-attempts :
      (n k : ℕ) (last : WebhookResult) (w : World S)
      → (attempts st env event req n k last w).0.breaker ≡ w.breaker
  unfolding attempts
  breaker-attempts zero k last w = refl
  breaker-attempts (suc n) k last w =
      let w1 = if ltb 1 k then wait st k last w else w in
      ground (
        arith,
        breaker-attempts n (k + 1) (try st env event req k w1).1 (try st env event req k w1).0,
      )

  view-try :
      (k : ℕ) (w : World S) (i : Uuid) → view i (try st env event req k w).0.store ≡ view i w.store
  unfolding try
  view-try k w i = insert_view _ w.store i

  view-wait :
      (k : ℕ) (last : WebhookResult) (w : World S) (i : Uuid)
      → view i (wait st k last w).store ≡ view i w.store
  unfolding wait
  view-wait k last w i = refl

  -- The loop records attempts and changes no status.
  pub view-attempts :
      (n k : ℕ) (last : WebhookResult) (w : World S) (i : Uuid)
      → view i (attempts st env event req n k last w).0.store ≡ view i w.store
  unfolding attempts
  view-attempts zero k last w i = refl
  view-attempts (suc n) k last w i =
      let w1 = if ltb 1 k then wait st k last w else w in
      ground (
        arith,
        view-attempts n (k + 1) (try st env event req k w1).1 (try st env event req k w1).0 i,
        view-try k w1 i,
        view-wait k last w i,
      )

abbrev pub total : List ℕ → ℕ
total [] = 0
total (d ∷ ds) = d + total ds

-- The time that a world's timers and requests may have taken: each request is cut off at 60 seconds.
abbrev pub spent : {S : Type 0} → World S → ℕ
spent w = total w.waited + max_webhook_attempt_timeout * length w.sent

-- The time that the rounds from an attempt on may take.
abbrev pub allowance : ℕ → ℕ → ℕ
allowance zero k = 0
allowance (suc n) k =
    (if ltb 1 k then backoff_of k else 0) + max_webhook_attempt_timeout + allowance n (k + 1)

module _ (st : Store) (env : Env) (event : TriggerEvent) (req : WebhookRequest) where
  open st use {S}

  spent-try :
      (k : ℕ) (w : World S)
      → spent (try st env event req k w).0 ≡ spent w + max_webhook_attempt_timeout
  unfolding try
  spent-try k w = omega arith

  spent-wait :
      (k : ℕ) (last : WebhookResult) (w : World S)
      → spent (wait st k last w) ≡ spent w + backoff_of k
  unfolding wait
  spent-wait k last w = omega arith

  pub spent-attempts-le :
      (n k : ℕ) (last : WebhookResult) (w : World S)
      → spent (attempts st env event req n k last w).0 ≤ spent w + allowance n k
  unfolding attempts
  spent-attempts-le zero k last w = omega arith
  spent-attempts-le (suc n) k last w =
      let w1 = if ltb 1 k then wait st k last w else w in
      ground (
        arith,
        spent-attempts-le n (k + 1) (try st env event req k w1).1 (try st env event req k w1).0,
        spent-try k w1,
        spent-wait k last w,
      )

  -- One dispatch sends at most four requests.
  sent-try : (k : ℕ) (w : World S) → length (try st env event req k w).0.sent ≡ suc (length w.sent)
  unfolding try
  sent-try k w = refl

  sent-wait :
      (k : ℕ) (last : WebhookResult) (w : World S) → length (wait st k last w).sent ≡ length w.sent
  unfolding wait
  sent-wait k last w = refl

  pub sent-attempts-le :
      (n k : ℕ) (last : WebhookResult) (w : World S)
      → length (attempts st env event req n k last w).0.sent ≤ length w.sent + n
  unfolding attempts
  sent-attempts-le zero k last w = omega arith
  sent-attempts-le (suc n) k last w =
      let w1 = if ltb 1 k then wait st k last w else w in
      ground (
        arith,
        sent-attempts-le n (k + 1) (try st env event req k w1).1 (try st env event req k w1).0,
        sent-try k w1,
        sent-wait k last w,
      )
