-- ===== src/Dispatcher/Workers/Once.antt =====
-- internal/dispatcher/dispatcher.go with internal/store/postgres: the executions that a poll worker
-- dispatches.
use mathlib.Core.Path.{subst}
use easy_cron.Prelude.{
  ℕ, zero, suc, ◌≡◌, ◌≢◌, ◌∙◌, inl, inr, sym, ap, Bool, true, false, Option, none, some, List, [],
  ◌∷◌, All, if◌then◌else◌, arith, Bool-cases, Option-cases,
}
use easy_cron.Domain.{Time, Uuid, DeliveryAttempt, Execution, ExecutionStatus}
use easy_cron.Store.{Table, dequeue_execution, is_terminal, is_emitted}
use easy_cron.Store.Rows.{IsUnique}
use easy_cron.Store.Terminal.{update, dequeue, step, step-IsUnique}
use easy_cron.Store.Claims.{
  IsTaken, step-IsTaken, returned, IsTaken-of_dequeue, not_ready_of_IsTaken,
}
use easy_cron.Dispatcher.{World, Env}
use easy_cron.Dispatcher.Run.{dispatch}
use easy_cron.Dispatcher.Postgres.{Database, Faults, postgres, update_status, insert_attempt}
use easy_cron.Dispatcher.Workers.{poll_worker, claimed_event}
use easy_cron.Dispatcher.Workers.Keeps.{dispatch-keeps}

pub dequeue-IsUnique :
    (locked : Uuid → Bool) (now : Time) (t : Table)
    → IsUnique t
    → IsUnique (dequeue_execution locked now t).0
unfolding step
dequeue-IsUnique locked now t u = step-IsUnique t (dequeue locked now) u

dequeue-IsTaken :
    (locked : Uuid → Bool) (now : Time) (t : Table) (j : Uuid)
    → IsTaken t j
    → IsTaken (dequeue_execution locked now t).0 j
unfolding step
dequeue-IsTaken locked now t j k = step-IsTaken t (dequeue locked now) j tt k

-- The tables after a dequeue, and what fails from then on.
abbrev pub dequeued : Faults → (Uuid → Bool) → Time → Database → Database
dequeued faults locked now db = record db {
  faults = faults;
  executions = (dequeue_execution locked now db.executions).0;
  unique = dequeue-IsUnique locked now db.executions db.unique;
}

-- The dequeue of a worker, with the rows that others hold and the clock in each round. In some rounds
-- it fails, and in each of them other statements may fail.
abbrev pub dequeue_of :
    (ℕ → Bool)
    → (ℕ → Faults)
    → (ℕ → Uuid → Bool)
    → (ℕ → Time)
    → ℕ
    → Database
    → Option (Database × Option Execution)
dequeue_of down faults locked now i db =
    if down i
    then none
    else some (
      dequeued (faults i) (locked i) (now i) db,
      (dequeue_execution (locked i) (now i) db.executions).1,
    )

emitted_not_terminal : (x : ExecutionStatus) → is_terminal x ≡ true → is_emitted x ≡ false
emitted_not_terminal x h = ground (arith, h)

insert-keeps :
    (j : Uuid) (a : DeliveryAttempt) (db : Database)
    → IsTaken db.executions j
    → IsTaken (insert_attempt a db).executions j
unfolding insert_attempt
insert-keeps j a db k = elim (Bool-cases (db.faults.inserts a.id)) [
  | inl e ↦ rw (insert_attempt, e) k
  | inr e ↦ rw (insert_attempt, e) k
]

update-keeps :
    (j i : Uuid) (x : ExecutionStatus) (db : Database)
    → is_terminal x ≡ true
    → IsTaken db.executions j
    → IsTaken (update_status i x db).0.executions j
unfolding update_status step
update-keeps j i x db t k = elim (Bool-cases (db.faults.updates i x)) [
  | inl e ↦ rw (update_status, e) k
  | inr e ↦
      rw (update_status, e) (step-IsTaken db.executions (update i x) j (emitted_not_terminal x t) k)
]

dispatch-IsTaken :
    (env : Env) (w : World Database) (e : Execution) (j : Uuid)
    → IsTaken w.store.executions j
    → IsTaken (dispatch postgres env (claimed_event e) w).0.store.executions j
dispatch-IsTaken env w e j h =
    dispatch-keeps postgres (λ db. IsTaken db.executions j) (insert-keeps j) (update-keeps j) env
      (claimed_event e) w h

module _ (env : ℕ → Env) (down ended : ℕ → Bool) (faults : ℕ → Faults) (locked : ℕ → Uuid → Bool)
    (now : ℕ → Time) where
  abbrev pub work : ℕ → ℕ → World Database → World Database × List Execution
  work n i w = poll_worker postgres env (dequeue_of down faults locked now) ended n i w

  -- What a dequeue returns is not a row that was taken before.
  dequeued-other :
      (i : ℕ) (db : Database) (e : Execution) (j : Uuid)
      → IsTaken db.executions j
      → (dequeue_execution (locked i) (now i) db.executions).1 ≡ some e
      → e.id ≢ j
  dequeued-other i db e j k d same =
      let t = db.executions in
      let q : dequeue_execution (locked i) (now i) t
          ≡ ((dequeue_execution (locked i) (now i) t).0, some e) =
        ap (λ o. ((dequeue_execution (locked i) (now i) t).0, o)) d in
      let (r, m, ready, a, p, f) =
        returned (locked i) (now i) t (dequeue_execution (locked i) (now i) t).0 e db.unique q in
      not_ready_of_IsTaken (locked i) t r db.unique
        (subst (IsTaken t) (sym same ∙ ap (λ (z : Execution). z.id) p) k) m ready

  -- A row that is taken is not dispatched again.
  work-other :
      (n i : ℕ) (w : World Database) (j : Uuid)
      → IsTaken w.store.executions j
      → All (λ (e : Execution). e.id ≢ j) (work n i w).1
  unfolding poll_worker
  work-other zero i w j k = tt
  work-other (suc n) i w j k = elim (Bool-cases (ended i)) [
    | inl a ↦ rw (poll_worker, a) tt
    | inr a ↦ elim (Bool-cases (down i)) [
      | inl b ↦ rw (poll_worker, a, b) (work-other n (suc i) w j k)
      | inr b ↦
          let db = w.store in
          let k1 = dequeue-IsTaken (locked i) (now i) db.executions j k in
          let db1 : Database = dequeued (faults i) (locked i) (now i) db in
          let w1 : World Database = record w { store = db1 } in
          elim (Option-cases (dequeue_execution (locked i) (now i) db.executions).1) [
            | inl c ↦ rw (poll_worker, a, b, c) (work-other n (suc i) w1 j k1)
            | inr (e, c) ↦
                rw (poll_worker, a, b, c)
                  (
                    dequeued-other i db e j k c,
                    work-other n (suc i) (dispatch postgres (env i) (claimed_event e) w1).0 j
                        (dispatch-IsTaken (env i) w1 e j k1),
                  )
          ]
    ]
  ]

-- The ids of a list of executions are pairwise different.
abbrev pub AreDistinct : List Execution → Type 0
AreDistinct [] = Unit
AreDistinct (e ∷ es) = All (λ (y : Execution). y.id ≢ e.id) es × AreDistinct es

module _ (env : ℕ → Env) (down ended : ℕ → Bool) (faults : ℕ → Faults) (locked : ℕ → Uuid → Bool)
    (now : ℕ → Time) where
  -- In any number of rounds, with any failures of the dequeues and, in each round, of the read of
  -- the job, the inserts of attempts and the update of the status, with any rows held by others and
  -- any answers to the webhooks, the executions that one poll worker dispatches are pairwise
  -- different, while nothing else changes the tables.
  pub dispatched_once :
      (n i : ℕ) (w : World Database) → AreDistinct (work env down ended faults locked now n i w).1
  unfolding poll_worker
  dispatched_once zero i w = tt
  dispatched_once (suc n) i w = elim (Bool-cases (ended i)) [
    | inl a ↦ rw (poll_worker, a) tt
    | inr a ↦ elim (Bool-cases (down i)) [
      | inl b ↦ rw (poll_worker, a, b) (dispatched_once n (suc i) w)
      | inr b ↦
          let db = w.store in
          let t = db.executions in
          let db1 : Database = dequeued (faults i) (locked i) (now i) db in
          let w1 : World Database = record w { store = db1 } in
          elim (Option-cases (dequeue_execution (locked i) (now i) t).1) [
            | inl c ↦ rw (poll_worker, a, b, c) (dispatched_once n (suc i) w1)
            | inr (e, c) ↦
                let taken =
                  IsTaken-of_dequeue (locked i) (now i) t db1.executions e db.unique
                    (ap (λ o. (db1.executions, o)) c) in
                let w2 = (dispatch postgres (env i) (claimed_event e) w1).0 in
                rw (poll_worker, a, b, c)
                  (
                    work-other env down ended faults locked now n (suc i) w2 e.id
                        (dispatch-IsTaken (env i) w1 e e.id taken),
                    dispatched_once n (suc i) w2,
                  )
          ]
    ]
  ]
