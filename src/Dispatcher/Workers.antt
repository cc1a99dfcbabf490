-- ===== src/Dispatcher/Workers.antt =====
-- internal/dispatcher/dispatcher.go: Run, drain and dbPollWorker, over a dispatch that each meets its own
-- environment. A channel is the list of the events that it holds, and the producers are an argument.
pub mod Drain
pub mod Keeps
pub mod Once
use easy_cron.Prelude.{
  ℕ, zero, suc, Bool, true, false, Option, none, some, ◌⊎◌, inl, inr, List, [], ◌∷◌, ◌++◌,
  if◌then◌else◌,
}
use easy_cron.Domain.{TriggerEvent, Execution}
use easy_cron.Dispatcher.{Store, World, Env, DispatchError}
use easy_cron.Dispatcher.Run.{dispatch}

-- The event of a claimed row.
abbrev pub claimed_event : Execution → TriggerEvent
claimed_event e = record {
  execution_id = e.id;
  job_id = e.job_id;
  namespace = e.namespace;
  scheduled_at = e.scheduled_at;
  fired_at = e.fired_at;
  created_at = e.created_at;
}

-- The three ways out of `drain`: the deadline, a closed channel and an empty one.
pub data DrainEnd : Type 0 where
  timeout channel_closed no_more : DrainEnd

module _ (st : Store) (env : ℕ → Env) where
  -- `drain`, from its select number `i` on, for as many selects as the fuel says; the result is none
  -- where it goes on after them. `expired` tells which selects take the deadline, `closed` at which
  -- of them the channel is closed, and `sent` what the producers have added when the dispatch number
  -- `i` is done. The result has what is left in the channel, and the world.
  unfoldable pub drain :
      (ℕ → Bool)
      → (ℕ → Bool)
      → (ℕ → List TriggerEvent)
      → ℕ
      → ℕ
      → List TriggerEvent
      → World st.S
      → Option (DrainEnd × List TriggerEvent × World st.S)
  unfolding dispatch
  drain expired closed sent zero i ch w = none
  drain expired closed sent (suc n) i [] w =
      if expired i
      then some (timeout, [], w)
      else if closed i
      then some (channel_closed, [], w)
      else some (no_more, [], w)
  drain expired closed sent (suc n) i (e ∷ es) w =
      let rest = drain expired closed sent n (suc i) (es ++ sent i) (dispatch st (env i) e w).0 in
      if expired i then some (timeout, e ∷ es, w) else rest

  -- The events that are dispatched before the context ends, one after the other.
  unfoldable pub dispatch_all : ℕ → List TriggerEvent → World st.S → World st.S
  unfolding dispatch
  dispatch_all i [] w = w
  dispatch_all i (e ∷ es) w = dispatch_all (suc i) es (dispatch st (env i) e w).0

  -- One turn of the select of `Run`: an event, or the end of the context with what is buffered then.
  pub data Turn : Type 0 where
    event : TriggerEvent → Turn
    done : List TriggerEvent → Turn

  -- `Run`; turns after the end are not taken. The result is none where the context has not ended, or
  -- the drain goes on after its fuel.
  unfoldable pub run :
      (ℕ → Bool)
      → (ℕ → Bool)
      → (ℕ → List TriggerEvent)
      → ℕ
      → ℕ
      → List Turn
      → World st.S
      → Option (DrainEnd × List TriggerEvent × World st.S)
  unfolding dispatch drain
  run expired closed sent fuel i [] w = none
  run expired closed sent fuel i (event e ∷ turns) w =
      run expired closed sent fuel (suc i) turns (dispatch st (env i) e w).0
  run expired closed sent fuel i (done buffered ∷ turns) w =
      drain expired closed sent fuel i buffered w

  -- `dbPollWorker`, for as many rounds as it takes; `dequeue` is none where the store fails, `ended` tells
  -- in which round the context is found ended. The list has the executions that it dispatched.
  unfoldable pub poll_worker :
      (ℕ → st.S → Option (st.S × Option Execution))
      → (ℕ → Bool)
      → ℕ
      → ℕ
      → World st.S
      → World st.S × List Execution
  unfolding dispatch
  poll_worker dequeue ended zero i w = (w, [])
  poll_worker dequeue ended (suc n) i w =
      let idle = poll_worker dequeue ended n (suc i) in
      if ended i then (w, []) else elim (dequeue i w.store) [
        | none ↦ idle w
        | some (s, none) ↦ idle (record w { store = s })
        | some (s, some e) ↦
            let (w1, es) =
              idle (dispatch st (env i) (claimed_event e) (record w { store = s })).0 in
            (w1, e ∷ es)
      ]
