-- ===== src/Dispatcher/Workers/Keeps.antt =====
-- internal/dispatcher/dispatcher.go: a dispatch changes the store by recording attempts and setting a final
-- status only, so it keeps what these keep.
use mathlib.Core.Path.{subst}
use easy_cron.Prelude.{
  ℕ, zero, suc, ◌+◌, ◌≡◌, ◌⊎◌, inl, inr, refl, sym, true, false, String, if◌then◌else◌, ltb,
  Bool-cases, Option-cases,
}
use easy_cron.Domain.{
  Uuid, ExecutionStatus, delivered, failed, TriggerEvent, Job, DeliveryAttempt, sub,
}
use easy_cron.Store.{is_terminal}
use easy_cron.Breaker.{CircuitBreaker, record_success, record_failure}
use easy_cron.Dispatcher.{
  Store, World, Env, WebhookRequest, WebhookResult, is_success, is_retryable, observe, updated,
  denied, update_failed, UpdateResult, delivery_outcome, execution_latency_observe,
  events_in_flight_incr,
}
use easy_cron.Dispatcher.Loop.{
  LoopExit, succeeded, gave_up, interrupted, attempts, try, wait, zero_result,
}
use easy_cron.Dispatcher.Run.{
  conclude, after_loop, deliver, dispatch, write_analytics, make_request,
}
use easy_cron.Dispatcher.Outcome.{
  deliver_cases, left, entered, store-ask_breaker, view-write_analytics,
}

module _ (st : Store) (P : st.S → Type 0)
    (ins : (a : DeliveryAttempt) (s : st.S) → P s → P (st.insert_delivery_attempt a s))
    (upd : (i : Uuid) (x : ExecutionStatus) (s : st.S)
      → is_terminal x ≡ true
      → P s
      → P (st.update_execution_status i x s).0) where
  try-keeps :
      (env : Env) (event : TriggerEvent) (req : WebhookRequest) (k : ℕ) (w : World st.S)
      → P w.store
      → P (try st env event req k w).0.store
  unfolding try
  try-keeps env event req k w h = ins _ w.store h

  wait-keeps :
      (k : ℕ) (last : WebhookResult) (w : World st.S)
      → P w.store
      → P (if ltb 1 k then wait st k last w else w).store
  unfolding wait
  wait-keeps k last w h = elim (Bool-cases (ltb 1 k)) [ inl e ↦ rw e h | inr e ↦ rw e h ]

  attempts-keeps :
      (env : Env) (event : TriggerEvent) (req : WebhookRequest) (n k : ℕ) (last : WebhookResult)
      (w : World st.S)
      → P w.store
      → P (attempts st env event req n k last w).0.store
  unfolding attempts
  attempts-keeps env event req zero k last w h = h
  attempts-keeps env event req (suc n) k last w h =
      let w1 = if ltb 1 k then wait st k last w else w in
      let h1 = wait-keeps k last w h in
      let h2 = try-keeps env event req k w1 h1 in
      let result = (try st env event req k w1).1 in
      elim (Bool-cases (if ltb 1 k then env.cancelled k else false)) [
        | inl a ↦ rw (attempts, a) h1
        | inr a ↦ elim (Bool-cases (is_success result)) [
          | inl b ↦ rw (attempts, a, b) h2
          | inr b ↦ elim (Bool-cases (is_retryable result)) [
            | inr c ↦ rw (attempts, a, b, c) h2
            | inl c ↦
                rw (attempts, a, b, c)
                  (attempts-keeps env event req n (k + 1) result (try st env event req k w1).0 h2)
          ]
        ]
      ]

  result-cases : (r : UpdateResult) → (r ≡ updated) ⊎ ((r ≡ denied) ⊎ (r ≡ update_failed))
  result-cases updated = inl refl
  result-cases denied = inr (inl refl)
  result-cases update_failed = inr (inr refl)

  conclude-keeps :
      (event : TriggerEvent) (x : ExecutionStatus) (report : CircuitBreaker → CircuitBreaker)
      (w : World st.S)
      → is_terminal x ≡ true
      → P w.store
      → P (conclude st event x report w).0.store
  unfolding conclude
  conclude-keeps event x report w t h =
      let k = upd event.execution_id x w.store t h in
      elim (result-cases (st.update_execution_status event.execution_id x w.store).1) [
        | inl e ↦ rw (conclude, e) k
        | inr r ↦ elim r [ inl e ↦ rw (conclude, e) k | inr e ↦ rw (conclude, e) k ]
      ]

  after_loop-keeps :
      (env : Env) (event : TriggerEvent) (url : String) (w : World st.S) (x : LoopExit)
      → P w.store
      → P (after_loop st env event url (w, x)).0.store
  unfolding after_loop
  after_loop-keeps env event url w succeeded h =
      conclude-keeps event delivered (λ cb. record_success cb url)
        (observe (execution_latency_observe (sub env.done_at event.scheduled_at))
          (observe (delivery_outcome "success") w))
        refl h
  after_loop-keeps env event url w gave_up h =
      conclude-keeps event failed (λ cb. record_failure cb url env.done_at)
        (observe (delivery_outcome "failed") w) refl h
  after_loop-keeps env event url w interrupted h = h

  deliver-keeps :
      (env : Env) (event : TriggerEvent) (job : Job) (w : World st.S)
      → P w.store
      → P (deliver st env event job w).0.store
  deliver-keeps env event job w h =
      let asked : P (entered st env job w).store =
        subst P (sym (store-ask_breaker st job.delivery.webhook_url env w)) h in
      elim (deliver_cases st env event job w) [
        | inl (e, d) ↦ subst (λ r. P r.0.store) (sym d) h
        | inr (inl (f, c, d)) ↦ subst (λ r. P r.0.store) (sym d) asked
        | inr (inr (f, n, d)) ↦
            let l = left st env event job w in
            subst (λ r. P r.0.store) (sym d)
              (after_loop-keeps env event job.delivery.webhook_url l.0 l.1 (
                attempts-keeps env event (make_request st event job) 4 1 zero_result
                  (entered st env job w) asked))
      ]

  pub dispatch-keeps :
      (env : Env) (event : TriggerEvent) (w : World st.S)
      → P w.store
      → P (dispatch st env event w).0.store
  unfolding dispatch
  dispatch-keeps env event w h = elim (Option-cases (st.get_job_by_id event.job_id w.store)) [
    | inl e ↦ rw (dispatch, e) h
    | inr (job, e) ↦
        let w1 = observe events_in_flight_incr w in
        rw (dispatch, e)
          (deliver-keeps env event job (write_analytics st event job w1)
            (subst P (sym (view-write_analytics st event job w1).0) h))
  ]
