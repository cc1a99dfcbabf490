-- ===== src/Dispatcher/Verdict.antt =====
-- internal/dispatcher/dispatcher.go: how the loop ends, against a description of the sender's
-- answers that does not mention the loop.
use easy_cron.Prelude.{
  ℕ, zero, suc, ◌+◌, ◌≤◌, ◌<◌, ◌≡◌, ◌≢◌, ◌⊎◌, refl, true, false, arith, Bool-cases, inl, inr,
  dec_lt, if◌then◌else◌, ltb,
}
use easy_cron.Domain.{TriggerEvent}
use easy_cron.Dispatcher.{
  Store, World, Env, WebhookRequest, WebhookResult, is_success, is_retryable,
}
use easy_cron.Dispatcher.Loop.{succeeded, gave_up, interrupted, attempts, wait, try}

-- The sender's answer to an attempt.
abbrev pub answer : Env → WebhookRequest → ℕ → WebhookResult
answer env req k = env.send k (record req { attempt_id = env.attempt_id k })

-- Attempt `j`, one of the `n` from `k` on, succeeds, and each one before it may be retried.
pub record DeliversAt (env : Env) (req : WebhookRequest) (n k j : ℕ) : Type 0 where
  pub first : k ≤ j
  pub last : j < k + n
  pub success : is_success (answer env req j) ≡ true
  pub retried : (i : ℕ) → k ≤ i → i < j → is_retryable (answer env req i) ≡ true

abbrev pub Delivers : Env → WebhookRequest → ℕ → ℕ → Type 0
Delivers env req n k = (j : ℕ) × DeliversAt env req n k j

not_both : (r : WebhookResult) → is_success r ≡ true → is_retryable r ≡ true → ⊥
unfolding is_success is_retryable
not_both r s t = ground arith

Delivers-next :
    (env : Env) (req : WebhookRequest) (n k : ℕ)
    → is_retryable (answer env req k) ≡ true
    → Delivers env req n (k + 1)
    → Delivers env req (suc n) k
Delivers-next env req n k r (j, d) = (
  j,
  record {
    first = omega (arith, d.first);
    last = omega (arith, d.last);
    success = d.success;
    retried = λ i p q. elim (dec_lt k i) [
      | yes l ↦ d.retried i (omega arith) q
      | no l ↦ let e : i ≡ k = omega arith in rw e r
    ];
  },
)

Delivers-inv :
    (env : Env) (req : WebhookRequest) (n k : ℕ)
    → Delivers env req (suc n) k
    → (is_success (answer env req k) ≡ true)
      ⊎ ((is_retryable (answer env req k) ≡ true) × Delivers env req n (k + 1))
Delivers-inv env req n k (j, d) = elim (dec_lt k j) [
  | yes l ↦ inr (
    d.retried k (omega arith) l,
    (
      j,
      record {
        first = omega arith;
        last = omega (arith, d.last);
        success = d.success;
        retried = λ i p q. d.retried i (omega arith) q;
      },
    ),
  )
  | no l ↦ let e : k ≡ j = omega (arith, d.first) in inl (rw e d.success)
]

module _ (st : Store) (env : Env) (event : TriggerEvent) (req : WebhookRequest) where
  open st use {S}

  result-try : (k : ℕ) (w : World S) → (try st env event req k w).1 ≡ answer env req k
  unfolding try
  result-try k w = refl

  stopped :
      (k : ℕ) (last : WebhookResult) (w : World S)
      → (attempts st env event req zero k last w).1 ≡ gave_up
  unfolding attempts
  stopped k last w = refl

  -- The world after one attempt and the wait before it.
  abbrev next : ℕ → WebhookResult → World S → World S
  next k last w = (try st env event req k (if ltb 1 k then wait st k last w else w)).0

  -- A round with no cancellation, by the sender's answer.
  round :
      (n k : ℕ) (last : WebhookResult) (w : World S)
      → env.cancelled k ≡ false
      → let r = answer env req k in
        (attempts st env event req (suc n) k last w).1 ≡ (
          if is_success r
          then succeeded
          else if is_retryable r
          then (attempts st env event req n (k + 1) r (next k last w)).1
          else gave_up)
  unfolding attempts
  round n k last w c =
      let w1 = if ltb 1 k then wait st k last w else w in ground (arith, result-try k w1)

  module _ (never : (k : ℕ) → env.cancelled k ≡ false) where
    -- The loop does not end by the context.
    pub not_interrupted :
        (n k : ℕ) (last : WebhookResult) (w : World S)
        → (attempts st env event req n k last w).1 ≢ interrupted
    not_interrupted zero k last w h = ground (arith, stopped k last w)
    not_interrupted (suc n) k last w h = ground (
      arith,
      round n k last w (never k),
      not_interrupted n (k + 1) (answer env req k) (next k last w),
    )

    pub Delivers-of_succeeded :
        (n k : ℕ) (last : WebhookResult) (w : World S)
        → (attempts st env event req n k last w).1 ≡ succeeded
        → Delivers env req n k
    Delivers-of_succeeded zero k last w h = ground (arith, stopped k last w)
    Delivers-of_succeeded (suc n) k last w h = elim (Bool-cases (is_success (answer env req k))) [
      | inl s ↦ (
        k,
        record {
          first = omega arith;
          last = omega arith;
          success = s;
          retried = λ i p q. absurd (omega arith);
        },
      )
      | inr f ↦ elim (Bool-cases (is_retryable (answer env req k))) [
        | inl r ↦ Delivers-next env req n k r (
            Delivers-of_succeeded n (k + 1) (answer env req k) (next k last w)
              (ground (arith, round n k last w (never k))))
        | inr r ↦ ground (arith, round n k last w (never k))
      ]
    ]

    pub succeeded_of_Delivers :
        (n k : ℕ) (last : WebhookResult) (w : World S)
        → Delivers env req n k
        → (attempts st env event req n k last w).1 ≡ succeeded
    succeeded_of_Delivers zero k last w (j, d) = absurd (omega (arith, d.first, d.last))
    succeeded_of_Delivers (suc n) k last w h = elim (Delivers-inv env req n k h) [
      | inl s ↦ ground (arith, round n k last w (never k))
      | inr (r, rest) ↦ ground (
        arith,
        round n k last w (never k),
        not_both (answer env req k),
        succeeded_of_Delivers n (k + 1) (answer env req k) (next k last w) rest,
      )
    ]
