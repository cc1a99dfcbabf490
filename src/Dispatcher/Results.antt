-- ===== src/Dispatcher/Results.antt =====
-- internal/dispatcher/dispatcher.go: the result of a dispatch that reaches the sender.
use mathlib.Core.Path.{subst}
use easy_cron.Prelude.{
  ℕ, ◌+◌, ◌≤◌, ◌≡◌, ◌≢◌, ◌⊎◌, ◌∙◌, refl, sym, ap, false, arith, inl, inr, Option, none, some,
  String, str_eq, length,
}
use easy_cron.Domain.{Uuid, TriggerEvent, Job, ExecutionStatus, delivered, failed, sub}
use easy_cron.Store.{is_terminal}
use easy_cron.Breaker.{CircuitBreaker, record_success, record_failure}
use easy_cron.Dispatcher.{
  Store, World, Env, DispatchError, delivery_outcome, execution_latency_observe,
  events_in_flight_incr, events_in_flight_decr, update_failed, max_attempts, max_retry_duration,
  observe,
}
use easy_cron.Dispatcher.Loop.{LoopExit, succeeded, gave_up, interrupted, zero_result, backoff_of}
use easy_cron.Dispatcher.Run.{ask_breaker, make_request, conclude, after_loop, dispatch}
use easy_cron.Dispatcher.Attempts.{
  breaker-attempts, spent, spent-attempts-le, sent-attempts-le, allowance,
}
use easy_cron.Dispatcher.Verdict.{
  Delivers, not_interrupted, Delivers-of_succeeded, succeeded_of_Delivers,
}
use easy_cron.Dispatcher.Outcome.{
  deliver_cases, view-left, dispatch_found, asked_same, entered, left, begun, view-write_analytics,
}

-- What a report does to the optional breaker.
abbrev pub report_to :
    (CircuitBreaker → CircuitBreaker) → Option CircuitBreaker → Option CircuitBreaker
report_to f none = none
report_to f (some cb) = some (f cb)

-- The rounds' time is that of `MaxRetryDuration`.
allowance_all : allowance max_attempts 1 ≡ max_retry_duration
unfolding max_retry_duration backoff_of
allowance_all = refl

module _ (st : Store) where
  open st use {S, view, get_job_by_id, update_execution_status, update_view, denied_terminal}

  -- How a dispatch ends: the breaker's state after `Allow`, then the result.
  abbrev pub HasOutcome :
      Env → TriggerEvent → Job → Option CircuitBreaker → World S × Option DispatchError → Type 0
  HasOutcome env event job asked r =
      let url = job.delivery.webhook_url in
      let delivers = Delivers env (make_request st event job) max_attempts 1 in
      (r.1 ≡ none)
      × ((delivers
            × (view event.execution_id r.0.store ≡ some delivered)
            × (r.0.breaker ≡ report_to (λ cb. record_success cb url) asked))
          ⊎ (¬ delivers
              × (view event.execution_id r.0.store ≡ some failed)
              × (r.0.breaker ≡ report_to (λ cb. record_failure cb url env.done_at) asked)))

  -- The end of a dispatch for an execution that is not terminal, on a store that does not fail.
  conclude_open :
      (event : TriggerEvent) (x old : ExecutionStatus) (report : CircuitBreaker → CircuitBreaker)
      (w : World S)
      → view event.execution_id w.store ≡ some old
      → is_terminal old ≡ false
      → (update_execution_status event.execution_id x w.store).1 ≢ update_failed
      → let r = conclude st event x report w in
        (r.1 ≡ none)
        × (view event.execution_id r.0.store ≡ some x)
        × (r.0.breaker ≡ report_to report w.breaker)
  unfolding conclude
  conclude_open event x old report w v o ok = ground (
    arith,
    update_view event.execution_id x w.store,
    denied_terminal event.execution_id x w.store,
  )

  after_loop_sent :
      (env : Env) (event : TriggerEvent) (url : String) (w : World S) (exit : LoopExit)
      → ((after_loop st env event url (w, exit)).0.sent ≡ w.sent)
        × ((after_loop st env event url (w, exit)).0.waited ≡ w.waited)
  unfolding after_loop conclude
  after_loop_sent env event url w succeeded = ground arith
  after_loop_sent env event url w gave_up = ground arith
  after_loop_sent env event url w interrupted = (refl, refl)

  module _ (env : Env) (event : TriggerEvent) (job : Job) (w : World S)
      (found : get_job_by_id event.job_id w.store ≡ some job)
      (has_url : str_eq job.delivery.webhook_url "" ≡ false)
      (passes : (ask_breaker st job.delivery.webhook_url env w).1 ≡ none) where
    -- The world and the exit of the loop.
    abbrev pub ended : World S × LoopExit
    ended = left st env event job (begun st event job w)

    -- A dispatch that passes the breaker is the end that follows the loop.
    reached : dispatch st env event w ≡ (
        let r = after_loop st env event job.delivery.webhook_url ended in
        (observe events_in_flight_decr r.0, r.1))
    reached = elim (deliver_cases st env event job (begun st event job w)) [
      | inl (e, d) ↦ ground arith
      | inr (inl (f, e, d)) ↦ ground (arith, asked_same st env event job w found has_url)
      | inr (inr (f, e, d)) ↦
          dispatch_found st env event job w found
          ∙ ap (λ r. (observe events_in_flight_decr r.0, r.1)) d
    ]

    ended_view : (i : Uuid) → view i ended.0.store ≡ view i w.store
    ended_view i =
        view-left st env event job (begun st event job w) i
        ∙ ap (view i) (view-write_analytics st event job (observe events_in_flight_incr w)).0

    ended_breaker : ended.0.breaker ≡ (ask_breaker st job.delivery.webhook_url env w).0.breaker
    ended_breaker =
        breaker-attempts st env event (make_request st event job) max_attempts 1 zero_result
          (entered st env job (begun st event job w))
        ∙ (asked_same st env event job w found has_url).1

    ended_sent :
        (length ended.0.sent ≤ length w.sent + 4)
        × (spent ended.0 ≤ spent w + allowance max_attempts 1)
    ended_sent = ground (
      arith,
      sent-attempts-le st env event (make_request st event job) max_attempts 1 zero_result
          (entered st env job (begun st event job w)),
      spent-attempts-le st env event (make_request st event job) max_attempts 1 zero_result
          (entered st env job (begun st event job w)),
      asked_same st env event job w found has_url,
      view-write_analytics st event job (observe events_in_flight_incr w),
    )

    -- A dispatch whose job is found, with a webhook URL that the breaker lets pass, sends at most
    -- four requests, and its timers together with 60 seconds for each request never take longer
    -- than `MaxRetryDuration`.
    pub dispatch_bounds :
        let r = dispatch st env event w in
        (length r.0.sent ≤ length w.sent + 4) × (spent r.0 ≤ spent w + max_retry_duration)
    dispatch_bounds = ground (
      arith,
      reached,
      after_loop_sent env event job.delivery.webhook_url ended.0 ended.1,
      ended_sent,
      allowance_all,
    )

    module _ (never : (k : ℕ) → env.cancelled k ≡ false) (old : ExecutionStatus)
        (pending : view event.execution_id w.store ≡ some old)
        (not_terminal : is_terminal old ≡ false)
        (reliable : (x : ExecutionStatus)
          → (update_execution_status event.execution_id x ended.0.store).1 ≢ update_failed) where
      seen : view event.execution_id ended.0.store ≡ some old
      seen = ended_view event.execution_id ∙ pending

      finish :
          (exit : LoopExit)
          → ended.1 ≡ exit
          → let r = after_loop st env event job.delivery.webhook_url (ended.0, exit) in
            HasOutcome env event job
              (ask_breaker st job.delivery.webhook_url env w).0.breaker
              (observe events_in_flight_decr r.0, r.1)
      unfolding after_loop
      finish succeeded e =
          let c =
            conclude_open event delivered old (λ cb. record_success cb job.delivery.webhook_url)
              (observe (execution_latency_observe (sub env.done_at event.scheduled_at))
                (observe (delivery_outcome "success") ended.0))
              seen not_terminal (reliable delivered) in
          (
            c.0,
            inl (
              Delivers-of_succeeded st env event (make_request st event job) never max_attempts 1
                  zero_result (entered st env job (begun st event job w)) e,
              c.1,
              c.2 ∙ ap (report_to (λ cb. record_success cb job.delivery.webhook_url)) ended_breaker,
            ),
          )
      finish gave_up e =
          let c =
            conclude_open event failed old
              (λ cb. record_failure cb job.delivery.webhook_url env.done_at)
              (observe (delivery_outcome "failed") ended.0) seen not_terminal (reliable failed) in
          (
            c.0,
            inr (
              (λ d. ground (
                arith,
                succeeded_of_Delivers st env event (make_request st event job) never max_attempts 1
                    zero_result (entered st env job (begun st event job w)) d,
              )),
              c.1,
              c.2
                  ∙ ap (report_to (λ cb. record_failure cb job.delivery.webhook_url env.done_at))
                      ended_breaker,
            ),
          )
      finish interrupted e = absurd (
          not_interrupted st env event (make_request st event job) never max_attempts 1 zero_result
            (entered st env job (begun st event job w)) e)

      -- Where the job is found, has a webhook URL and the breaker lets that URL pass, the context
      -- lasts and no update of the status fails, a dispatch of an execution that is not terminal
      -- ends without error. The execution is delivered, and a success reported to the breaker,
      -- exactly if one of the four attempts succeeds with only retryable failures before it;
      -- otherwise it is failed, and one failure is reported.
      pub dispatch_outcome :
          HasOutcome env event job
            (ask_breaker st job.delivery.webhook_url env w).0.breaker
            (dispatch st env event w)
      dispatch_outcome =
          subst (HasOutcome env event job (ask_breaker st job.delivery.webhook_url env w).0.breaker)
            (sym reached) (finish ended.1 refl)
