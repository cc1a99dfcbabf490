-- ===== src/Dispatcher/Postgres.antt =====
-- internal/store/postgres as the dispatcher's `Store`: GetJobByID, InsertDeliveryAttempt and
-- UpdateExecutionStatus on the tables, and a claimed execution whose dispatch is deferred.
use mathlib.Core.Path.{subst}
use easy_cron.Prelude.{
  ◌≡◌, ◌≢◌, ◌∙◌, refl, sym, ap, Bool, true, false, arith, Bool-cases, Option-cases, inl, inr,
  Option, none, some, List, [], ◌∷◌, if◌then◌else◌, ◌==◌, str_eq, All,
}
use easy_cron.Domain.{Time, Uuid, TriggerEvent, Job, Execution, ExecutionStatus, DeliveryAttempt}
use easy_cron.Store.{
  Table, StoreError, status_transition_denied, is_terminal, find, count_where, is_open,
  update_execution_status, dequeue_execution,
}
use easy_cron.Store.Rows.{
  IsUnique, map_row, find-update_where, update_where-IsUnique, find_id, find-In, find_of_In,
  count_where_none, count_where_some,
}
use easy_cron.Store.Terminal.{Op, run, update_table}
use easy_cron.Store.Claims.{IsForward, claimed_once}
use easy_cron.Breaker.{circuit_open}
use easy_cron.Dispatcher.{Store, World, Env, UpdateResult, updated, denied, update_failed}
use easy_cron.Dispatcher.Run.{ask_breaker, dispatch}
use easy_cron.Dispatcher.Outcome.{circuit_open_defers}

-- The statements that the driver fails: the read of a job, the insert of an attempt, the update of
-- an execution's status.
pub record Faults : Type 0 where
  pub reads : Uuid → Bool
  pub inserts : Uuid → Bool
  pub updates : Uuid → ExecutionStatus → Bool

abbrev pub no_faults : Faults
no_faults = record { reads = λ i. false; inserts = λ i. false; updates = λ i x. false }

-- The tables that a dispatch reads and writes, with the constraints of the schema, and the faults of
-- its time.
pub record Database : Type 0 where
  pub faults : Faults
  pub jobs : List Job
  pub executions : Table
  pub attempts : List DeliveryAttempt
  pub unique : IsUnique executions

-- `GetJobByID`; no row is an error.
unfoldable pub find_job : Uuid → List Job → Option Job
find_job i [] = none
find_job i (j ∷ js) = if j.id == i then some j else find_job i js

unfoldable pub get_job_by_id : Uuid → Database → Option Job
unfolding find_job
get_job_by_id i db = if db.faults.reads i then none else find_job i db.jobs

abbrev pub status_of : Option Execution → Option ExecutionStatus
status_of none = none
status_of (some r) = some r.status

abbrev pub result_of : Option StoreError → UpdateResult
result_of none = updated
result_of (some status_transition_denied) = denied
result_of (some _) = update_failed

pub update-IsUnique :
    (i : Uuid) (x : ExecutionStatus) (t : Table)
    → IsUnique t
    → IsUnique (update_execution_status i x t).0
update-IsUnique i x t u =
    subst IsUnique (sym (update_table i x t))
      (update_where-IsUnique (is_open i) _ (λ r. (refl, refl, refl)) t u)

unfoldable pub insert_attempt : DeliveryAttempt → Database → Database
insert_attempt a db =
    if db.faults.inserts a.id then db else record db { attempts = a ∷ db.attempts }

unfoldable pub update_status : Uuid → ExecutionStatus → Database → Database × UpdateResult
update_status i x db = if db.faults.updates i x then (db, update_failed) else (
  record db {
    executions = (update_execution_status i x db.executions).0;
    unique = update-IsUnique i x db.executions db.unique;
  },
  result_of (update_execution_status i x db.executions).1,
)

-- An open row that is counted is the row found by the id.
found_of_count :
    (i : Uuid) (t : Table)
    → IsUnique t
    → (count_where (is_open i) t == 0) ≡ false
    → (r : Execution) × (find i t ≡ some r) × (is_terminal r.status ≡ false)
found_of_count i t u h =
    let (r, m, p) = count_where_some (is_open i) t h in
    let e : r.id ≡ i = ground arith in
    (r, ap (λ j. find j t) (sym e) ∙ find_of_In t r u m, ground arith)

-- The answer of the update, by the row that has the id.
update_answer :
    (i : Uuid) (x : ExecutionStatus) (t : Table)
    → IsUnique t
    → result_of (update_execution_status i x t).1 ≡ (elim (find i t) [
      | none ↦ update_failed
      | some r ↦ if is_terminal r.status then denied else updated
    ])
unfolding update_execution_status
update_answer i x t u = elim (Bool-cases (count_where (is_open i) t == 0)) [
  | inl h ↦ elim (Option-cases (find i t)) [
    | inl n ↦ ground arith
    | inr (r, e) ↦
        ground (arith, find_id i t r e, count_where_none (is_open i) t r h (find-In i t r e))
  ]
  | inr h ↦ ground (arith, found_of_count i t u h)
]

-- The row of each id after the update.
find-update :
    (i j : Uuid) (x : ExecutionStatus) (t : Table)
    → find j (update_execution_status i x t).0
      ≡ map_row (is_open i) (λ r. record r { status = x }) (find j t)
find-update i j x t =
    ap (find j) (update_table i x t)
    ∙ find-update_where (is_open i) (λ r. record r { status = x }) (λ r. (refl, refl, refl)) j t

abbrev pub view : Uuid → Database → Option ExecutionStatus
view i db = status_of (find i db.executions)

pub insert_view :
    (a : DeliveryAttempt) (db : Database) (i : Uuid) → view i (insert_attempt a db) ≡ view i db
unfolding insert_attempt
insert_view a db i = elim (Bool-cases (db.faults.inserts a.id)) [
  | inl e ↦ rw (insert_attempt, e) refl
  | inr e ↦ rw (insert_attempt, e) refl
]

pub update_view :
    (i : Uuid) (x : ExecutionStatus) (db : Database)
    → (update_status i x db).1 ≡ updated
    → view i (update_status i x db).0 ≡ some x
unfolding update_status
update_view i x db h = elim (Option-cases (find i db.executions)) [
  | inl n ↦ ground (arith, update_answer i x db.executions db.unique)
  | inr (r, e) ↦ ground (
    arith,
    update_answer i x db.executions db.unique,
    find-update i i x db.executions,
    find_id i db.executions r e,
  )
]

update_refused :
    (i j : Uuid) (x : ExecutionStatus) (db : Database)
    → ((update_status i x db).1 ≡ updated → ⊥)
    → view j (update_status i x db).0 ≡ view j db
unfolding update_status
update_refused i j x db h = elim (Option-cases (find j db.executions)) [
  | inl n ↦ ground (arith, find-update i j x db.executions)
  | inr (r, e) ↦ ground (
    arith,
    update_answer i x db.executions db.unique,
    find-update i j x db.executions,
    find_id j db.executions r e,
  )
]

pub terminal_denied :
    (i : Uuid) (x st : ExecutionStatus) (db : Database)
    → view i db ≡ some st
    → is_terminal st ≡ true
    → (update_status i x db).1 ≡ updated
    → ⊥
unfolding update_status
terminal_denied i x st db v t h = elim (Option-cases (find i db.executions)) [
  | inl n ↦ ground arith
  | inr (r, e) ↦ ground (arith, update_answer i x db.executions db.unique)
]

pub denied_terminal :
    (i : Uuid) (x : ExecutionStatus) (db : Database)
    → (update_status i x db).1 ≡ denied
    → (st : ExecutionStatus) × (view i db ≡ some st) × (is_terminal st ≡ true)
unfolding update_status
denied_terminal i x db h = elim (Option-cases (find i db.executions)) [
  | inl n ↦ ground (arith, update_answer i x db.executions db.unique)
  | inr (r, e) ↦ (r.status, ground arith, ground (arith, update_answer i x db.executions db.unique))
]

pub terminal_kept :
    (i j : Uuid) (x st : ExecutionStatus) (db : Database)
    → view i db ≡ some st
    → is_terminal st ≡ true
    → view j (update_status i x db).0 ≡ view j db
terminal_kept i j x st db v t = update_refused i j x db (terminal_denied i x st db v t)

-- The update of a row that is there does not fail, except for a fault of the driver.
pub update_reliable :
    (i : Uuid) (x st : ExecutionStatus) (db : Database)
    → db.faults.updates i x ≡ false
    → view i db ≡ some st
    → (update_status i x db).1 ≢ update_failed
unfolding update_status
update_reliable i x st db o v h = elim (Option-cases (find i db.executions)) [
  | inl n ↦ ground arith
  | inr (r, e) ↦ ground (arith, update_answer i x db.executions db.unique)
]

-- The tables keep what the dispatcher asks of its store.
abbrev pub postgres : Store
postgres = record {
  S = Database;
  view = view;
  get_job_by_id = get_job_by_id;
  insert_delivery_attempt = insert_attempt;
  update_execution_status = update_status;
  insert_view = insert_view;
  update_view = update_view;
  terminal_kept = terminal_kept;
  terminal_denied = terminal_denied;
  denied_terminal = denied_terminal;
}

-- An execution that a worker claimed and then deferred because the circuit of its URL is open stays
-- claimed: until a requeue or the deletion of a job, no dequeue of any worker returns it, and it was
-- not sent.
pub deferred_not_redelivered :
    (locked locked' : Uuid → Bool) (now now' : Time) (t t' : Table) (x y : Execution) (env : Env)
    (event : TriggerEvent) (job : Job) (w : World Database) (os : List Op)
    → IsUnique t
    → dequeue_execution locked now t ≡ (w.store.executions, some x)
    → event.execution_id ≡ x.id
    → get_job_by_id event.job_id w.store ≡ some job
    → str_eq job.delivery.webhook_url "" ≡ false
    → (ask_breaker postgres job.delivery.webhook_url env w).1 ≡ some circuit_open
    → All IsForward os
    → dequeue_execution locked' now' (run (dispatch postgres env event w).0.store.executions os)
      ≡ (t', some y)
    → let r = dispatch postgres env event w in
      (r.1 ≡ none) × (r.0.sent ≡ w.sent) × (y.id ≢ event.execution_id)
deferred_not_redelivered locked locked' now now' t t' x y env event job w os u d i f url c fwd e =
    let (quiet, same, unsent) = circuit_open_defers postgres env event job w f url c in
    let e' =
      subst
        (λ (db : Database). dequeue_execution locked' now' (run db.executions os) ≡ (t', some y))
        same e in
    (
      quiet,
      unsent,
      λ q. claimed_once locked locked' now now' t w.store.executions t' os x y u d fwd e' (q ∙ i),
    )
