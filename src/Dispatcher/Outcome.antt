-- ===== src/Dispatcher/Outcome.antt =====
-- internal/dispatcher/dispatcher.go: what `Dispatch` leaves behind.
use easy_cron.Prelude.{
  ◌≡◌, ◌⊎◌, ◌∙◌, refl, ap, true, false, arith, Bool-cases, Option-cases, inl, inr, none, some,
  String, str_eq,
}
use easy_cron.Domain.{Uuid, TriggerEvent, Job, ExecutionStatus, delivered, failed}
use easy_cron.Store.{is_terminal}
use easy_cron.Breaker.{CircuitBreaker, circuit_open}
use easy_cron.Dispatcher.{
  Store, World, Env, no_webhook_url, delivery_outcome, events_in_flight_incr, events_in_flight_decr,
  max_attempts, observe,
}
use easy_cron.Dispatcher.Loop.{LoopExit, succeeded, gave_up, interrupted, attempts, zero_result}
use easy_cron.Dispatcher.Run.{
  write_analytics, ask_breaker, make_request, conclude, after_loop, deliver, dispatch,
}
use easy_cron.Dispatcher.Attempts.{view-attempts}

module _ (st : Store) where
  open st use {
    S, view, get_job_by_id, update_execution_status, update_view, terminal_kept, terminal_denied,
    denied_terminal,
  }

  -- A terminal execution is left alone by the end of a dispatch.
  conclude_terminal :
      (event : TriggerEvent) (x old : ExecutionStatus) (report : CircuitBreaker → CircuitBreaker)
      (w : World S) (i : Uuid)
      → view event.execution_id w.store ≡ some old
      → is_terminal old ≡ true
      → view i (conclude st event x report w).0.store ≡ view i w.store
  unfolding conclude
  conclude_terminal event x old report w i v t = ground (
    arith,
    terminal_denied event.execution_id x old w.store v t,
    terminal_kept event.execution_id i x old w.store v t,
  )

  after_loop_terminal :
      (env : Env) (event : TriggerEvent) (url : String) (w : World S) (exit : LoopExit)
      (old : ExecutionStatus) (i : Uuid)
      → view event.execution_id w.store ≡ some old
      → is_terminal old ≡ true
      → view i (after_loop st env event url (w, exit)).0.store ≡ view i w.store
  unfolding after_loop
  after_loop_terminal env event url w succeeded old i v t =
      conclude_terminal event delivered old _ _ i v t
  after_loop_terminal env event url w gave_up old i v t =
      conclude_terminal event failed old _ _ i v t
  after_loop_terminal env event url w interrupted old i v t = refl

  pub store-ask_breaker :
      (url : String) (env : Env) (w : World S) → (ask_breaker st url env w).0.store ≡ w.store
  unfolding ask_breaker
  store-ask_breaker url env w = ground arith

  -- The world when the loop is entered, and when it is left.
  abbrev pub entered : Env → Job → World S → World S
  entered env job w = (ask_breaker st job.delivery.webhook_url env w).0

  abbrev pub left : Env → TriggerEvent → Job → World S → World S × LoopExit
  left env event job w =
      attempts st env event (make_request st event job) max_attempts 1 zero_result
        (entered env job w)

  pub view-left :
      (env : Env) (event : TriggerEvent) (job : Job) (w : World S) (i : Uuid)
      → view i (left env event job w).0.store ≡ view i w.store
  view-left env event job w i =
      view-attempts st env event (make_request st event job) max_attempts 1 zero_result
        (entered env job w) i
      ∙ ap (view i) (store-ask_breaker job.delivery.webhook_url env w)

  -- The three ways through `deliver`.
  pub deliver_cases :
      (env : Env) (event : TriggerEvent) (job : Job) (w : World S)
      → ((str_eq job.delivery.webhook_url "" ≡ true)
          × (deliver st env event job w ≡ (w, some no_webhook_url)))
        ⊎ ((str_eq job.delivery.webhook_url "" ≡ false)
            × ((ask_breaker st job.delivery.webhook_url env w).1 ≡ some circuit_open)
            × (deliver st env event job w
                ≡ (observe (delivery_outcome "circuit_open") (entered env job w), none)))
        ⊎ ((str_eq job.delivery.webhook_url "" ≡ false)
            × ((ask_breaker st job.delivery.webhook_url env w).1 ≡ none)
            × (deliver st env event job w
                ≡ after_loop st env event job.delivery.webhook_url (left env event job w)))
  unfolding deliver
  deliver_cases env event job w = elim (Bool-cases (str_eq job.delivery.webhook_url "")) [
    | inl e ↦ inl (e, ground arith)
    | inr f ↦ inr (elim (Option-cases (ask_breaker st job.delivery.webhook_url env w).1) [
      | inl n ↦ inr (f, n, ground arith)
      | inr (circuit_open, c) ↦ inl (f, c, ground arith)
    ])
  ]

  deliver_terminal :
      (env : Env) (event : TriggerEvent) (job : Job) (w : World S) (old : ExecutionStatus)
      (i : Uuid)
      → view event.execution_id w.store ≡ some old
      → is_terminal old ≡ true
      → view i (deliver st env event job w).0.store ≡ view i w.store
  deliver_terminal env event job w old i v t = elim (deliver_cases env event job w) [
    | inl (e, d) ↦ ap (λ r. view i r.0.store) d
    | inr (inl (f, c, d)) ↦
        ap (λ r. view i r.0.store) d
        ∙ ap (view i) (store-ask_breaker job.delivery.webhook_url env w)
    | inr (inr (f, n, d)) ↦
        let l = left env event job w in
        ap (λ r. view i r.0.store) d
        ∙ after_loop_terminal env event job.delivery.webhook_url l.0 l.1 old i
            (view-left env event job w event.execution_id ∙ v) t
        ∙ view-left env event job w i
  ]

  pub view-write_analytics :
      (event : TriggerEvent) (job : Job) (w : World S)
      → ((write_analytics st event job w).store ≡ w.store)
        × ((write_analytics st event job w).breaker ≡ w.breaker)
        × ((write_analytics st event job w).sent ≡ w.sent)
        × ((write_analytics st event job w).waited ≡ w.waited)
  unfolding write_analytics
  view-write_analytics event job w = ground arith

  -- A dispatch of an execution that is delivered or failed already changes no execution's status,
  -- whatever the sender, the clock, the breaker and the context do.
  pub dispatch_terminal :
      (env : Env) (event : TriggerEvent) (w : World S) (old : ExecutionStatus) (i : Uuid)
      → view event.execution_id w.store ≡ some old
      → is_terminal old ≡ true
      → view i (dispatch st env event w).0.store ≡ view i w.store
  unfolding dispatch
  dispatch_terminal env event w old i v t =
      elim (Option-cases (get_job_by_id event.job_id w.store)) [
        | inl e ↦ ground arith
        | inr (job, e) ↦
            let w1 = observe events_in_flight_incr w in
            let w2 = write_analytics st event job w1 in
            ground
              (arith, view-write_analytics event job w1, deliver_terminal env event job w2 old i)
      ]

  -- The world that `deliver` starts from.
  abbrev pub begun : TriggerEvent → Job → World S → World S
  begun event job w = write_analytics st event job (observe events_in_flight_incr w)

  pub dispatch_found :
      (env : Env) (event : TriggerEvent) (job : Job) (w : World S)
      → get_job_by_id event.job_id w.store ≡ some job
      → dispatch st env event w ≡ (
        observe events_in_flight_decr (deliver st env event job (begun event job w)).0,
        (deliver st env event job (begun event job w)).1,
      )
  unfolding dispatch
  dispatch_found env event job w e = ground arith

  ask_breaker_congr :
      (url : String) (env : Env) (w w' : World S)
      → w.breaker ≡ w'.breaker
      → ((ask_breaker st url env w).1 ≡ (ask_breaker st url env w').1)
        × ((ask_breaker st url env w).0.breaker ≡ (ask_breaker st url env w').0.breaker)
        × ((ask_breaker st url env w).0.sent ≡ w.sent)
        × ((ask_breaker st url env w).0.waited ≡ w.waited)
  unfolding ask_breaker
  ask_breaker_congr url env w w' e = ground arith

  module _ (env : Env) (event : TriggerEvent) (job : Job) (w : World S)
      (found : get_job_by_id event.job_id w.store ≡ some job)
      (has_url : str_eq job.delivery.webhook_url "" ≡ false) where
    pub asked_same :
        ((ask_breaker st job.delivery.webhook_url env (begun event job w)).1
          ≡ (ask_breaker st job.delivery.webhook_url env w).1)
        × ((ask_breaker st job.delivery.webhook_url env (begun event job w)).0.breaker
            ≡ (ask_breaker st job.delivery.webhook_url env w).0.breaker)
        × ((ask_breaker st job.delivery.webhook_url env (begun event job w)).0.sent
            ≡ (begun event job w).sent)
        × ((ask_breaker st job.delivery.webhook_url env (begun event job w)).0.waited
            ≡ (begun event job w).waited)
    asked_same =
        ask_breaker_congr job.delivery.webhook_url env (begun event job w) w
          (view-write_analytics event job (observe events_in_flight_incr w)).1

    -- While the circuit of the job's URL is open, a dispatch returns no error, sends nothing and
    -- leaves the store as it was: the execution keeps the status that it has.
    pub circuit_open_defers :
        (ask_breaker st job.delivery.webhook_url env w).1 ≡ some circuit_open
        → let r = dispatch st env event w in
          (r.1 ≡ none) × (r.0.store ≡ w.store) × (r.0.sent ≡ w.sent)
    circuit_open_defers c = elim (deliver_cases env event job (begun event job w)) [
      | inl (e, d) ↦ ground arith
      | inr (inl (f, e, d)) ↦ ground (
        arith,
        dispatch_found env event job w found,
        asked_same,
        view-write_analytics event job (observe events_in_flight_incr w),
        store-ask_breaker job.delivery.webhook_url env (begun event job w),
      )
      | inr (inr (f, e, d)) ↦ ground (arith, asked_same)
    ]
