-- ===== src/Dispatcher/Run.antt =====
-- internal/dispatcher/dispatcher.go: writeAnalytics and Dispatch.
use easy_cron.Prelude.{String, Option, none, some, ◌∷◌, if◌then◌else◌, str_eq}
use easy_cron.Domain.{TriggerEvent, Job, ExecutionStatus, delivered, failed, sub}
use easy_cron.Breaker.{CircuitBreaker, BreakerError, allow, record_success, record_failure}
use easy_cron.Dispatcher.{
  Store, World, Env, WebhookRequest, DispatchError, get_job_failed, no_webhook_url, context_done,
  store_failed, updated, denied, update_failed, max_attempts, delivery_outcome,
  events_in_flight_incr, events_in_flight_decr, execution_latency_observe, observe,
}
use easy_cron.Dispatcher.Loop.{LoopExit, succeeded, gave_up, interrupted, attempts, zero_result}

module _ (st : Store) where
  open st use {S, get_job_by_id, update_execution_status}

  unfoldable pub write_analytics : TriggerEvent → Job → World S → World S
  write_analytics event job w = elim w.analytics [
    | none ↦ w
    | some calls ↦
        if job.analytics.enabled
        then record w { analytics = some ((event, job.analytics) ∷ calls) }
        else w
  ]

  -- `if d.breaker != nil { d.breaker.Allow(url) }`.
  unfoldable pub ask_breaker : String → Env → World S → World S × Option BreakerError
  ask_breaker url env w = elim w.breaker [
    | none ↦ (w, none)
    | some cb ↦ let (cb', err) = allow cb url env.allow_at in (record w { breaker = some cb' }, err)
  ]

  unfoldable pub make_request : TriggerEvent → Job → WebhookRequest
  make_request event job = record {
    url = job.delivery.webhook_url;
    secret = job.delivery.secret;
    timeout = job.delivery.timeout;
    payload = record {
      job_id = event.job_id;
      job_name = job.name;
      execution_id = event.execution_id;
      scheduled_at = event.scheduled_at;
      fired_at = event.fired_at;
    };
    attempt_id = 0;
  }

  -- The end of both paths: the status update, its errors, and the report to the breaker.
  unfoldable pub conclude :
      TriggerEvent
      → ExecutionStatus
      → (CircuitBreaker → CircuitBreaker)
      → World S
      → World S × Option DispatchError
  conclude event status report w =
      let (s, result) = update_execution_status event.execution_id status w.store in
      let w1 = record w { store = s } in
      elim result [
        | denied ↦ (w1, none)
        | update_failed ↦ (w1, some store_failed)
        | updated ↦ (
          record w1 { breaker = elim w1.breaker [ none ↦ none | some cb ↦ some (report cb) ] },
          none,
        )
      ]

  -- What follows the loop, by how it ended.
  unfoldable pub after_loop :
      Env → TriggerEvent → String → World S × LoopExit → World S × Option DispatchError
  after_loop env event url (w, succeeded) =
      let w1 =
        observe (execution_latency_observe (sub env.done_at event.scheduled_at))
          (observe (delivery_outcome "success") w) in
      conclude event delivered (λ cb. record_success cb url) w1
  after_loop env event url (w, gave_up) =
      conclude event failed (λ cb. record_failure cb url env.done_at)
        (observe (delivery_outcome "failed") w)
  after_loop env event url (w, interrupted) = (w, some context_done)

  -- `Dispatch`, from the check of the webhook URL on.
  unfoldable pub deliver : Env → TriggerEvent → Job → World S → World S × Option DispatchError
  deliver env event job w =
      let url = job.delivery.webhook_url in
      let (w1, err) = ask_breaker url env w in
      let req = make_request event job in
      if str_eq url "" then (w, some no_webhook_url) else elim err [
        | some e ↦ (observe (delivery_outcome "circuit_open") w1, none)
        | none ↦ after_loop env event url (attempts st env event req max_attempts 1 zero_result w1)
      ]

  -- `Dispatch`; the deferred call of the metrics sink comes last.
  unfoldable pub dispatch : Env → TriggerEvent → World S → World S × Option DispatchError
  dispatch env event w =
      let w1 = observe events_in_flight_incr w in
      let job = get_job_by_id event.job_id w1.store in
      let r : World S × Option DispatchError = elim job [
        | none ↦ (w1, some get_job_failed)
        | some j ↦ deliver env event j (write_analytics event j w1)
      ] in
      (observe events_in_flight_decr r.0, r.1)
