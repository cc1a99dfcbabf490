-- ===== src/Store.antt =====
-- internal/store/postgres: the table `executions`. Each method is one statement or one transaction,
-- so one step on the table; a call that the driver fails changes nothing and is the callers' error
-- path. `locked` tells which rows other transactions hold (`SKIP LOCKED`), and `now` is `NOW()`.
pub mod Rows
pub mod Terminal
pub mod Claims
mod Tests
use easy_cron.Prelude.{
  ℕ, zero, suc, Bool, true, false, not, ◌&&◌, ◌||◌, String, Option, none, some, List, [], ◌∷◌, map,
  if◌then◌else◌, leb, ltb, ◌==◌, str_eq, length, take, keep,
}
use easy_cron.Domain.{
  Time, Uuid, Execution, ExecutionStatus, emitted, in_progress, delivered, failed, before,
}

abbrev pub Table : Type 0
Table = List Execution

pub data StoreError : Type 0 where
  duplicate_execution status_transition_denied no_rows execution_not_found : StoreError

abbrev pub is_emitted : ExecutionStatus → Bool
is_emitted emitted = true
is_emitted _ = false

abbrev pub is_in_progress : ExecutionStatus → Bool
is_in_progress in_progress = true
is_in_progress _ = false

-- `status IN ('delivered', 'failed')`.
abbrev pub is_terminal : ExecutionStatus → Bool
is_terminal delivered = true
is_terminal failed = true
is_terminal _ = false

abbrev pub is_null : Option Time → Bool
is_null none = true
is_null (some t) = false

-- `SELECT … WHERE id = $1`.
unfoldable pub find : Uuid → Table → Option Execution
find i [] = none
find i (r ∷ t) = if r.id == i then some r else find i t

-- `UPDATE executions SET … WHERE p`.
unfoldable pub update_where : (Execution → Bool) → (Execution → Execution) → Table → Table
update_where p f [] = []
update_where p f (r ∷ t) = (if p r then f r else r) ∷ update_where p f t

-- `RowsAffected`.
unfoldable pub count_where : (Execution → Bool) → Table → ℕ
count_where p t = length (keep p t)

-- The primary key and UNIQUE (job_id, scheduled_at) of schema/001_initial.sql.
abbrev pub conflicts : Execution → Execution → Bool
conflicts e r = r.id == e.id || (r.job_id == e.job_id && r.scheduled_at == e.scheduled_at)

-- The statement writes eight columns; the two others start as NULL.
unfoldable pub insert_execution : Execution → Table → Table × Option StoreError
unfolding count_where
insert_execution e t =
    if count_where (conflicts e) t == 0
    then (record e { acknowledged_at = none; claimed_at = none } ∷ t, none)
    else (t, some duplicate_execution)

-- `WHERE id = $2 AND status NOT IN ('delivered', 'failed')`.
abbrev pub is_open : Uuid → Execution → Bool
is_open i r = r.id == i && not (is_terminal r.status)

unfoldable pub update_execution_status : Uuid → ExecutionStatus → Table → Table × Option StoreError
unfolding count_where
update_execution_status i status t =
    let t' = update_where (is_open i) (λ r. record r { status = status }) t in
    if count_where (is_open i) t == 0
    then elim (find i t) [
      | none ↦ (t', some no_rows)
      | some r ↦ (t', some status_transition_denied)
    ]
    else (t', none)

-- `ORDER BY key ASC`, by insertion.
unfoldable pub insert_by : (Execution → Time) → Execution → List Execution → List Execution
insert_by key e [] = e ∷ []
insert_by key e (r ∷ rs) = if leb (key e) (key r) then e ∷ r ∷ rs else r ∷ insert_by key e rs

unfoldable pub order_by : (Execution → Time) → List Execution → List Execution
unfolding insert_by
order_by key [] = []
order_by key (r ∷ rs) = insert_by key r (order_by key rs)

abbrev pub created : Execution → Time
created r = r.created_at

abbrev pub first : List Execution → Option Execution
first [] = none
first (r ∷ rs) = some r

-- The rows that a dequeue may take: emitted, and not locked by another transaction.
abbrev pub is_ready : (Uuid → Bool) → Execution → Bool
is_ready locked r = is_emitted r.status && not (locked r.id)

abbrev pub claim : Time → Execution → Execution
claim now r = record r { status = in_progress; claimed_at = some now }

-- `DequeueExecution`: the oldest ready row is locked, claimed and returned. The row was read before
-- the claim, without `claimed_at`, and its status is set by hand.
unfoldable pub dequeue_execution : (Uuid → Bool) → Time → Table → Table × Option Execution
unfolding order_by update_where
dequeue_execution locked now t = elim (first (order_by created (keep (is_ready locked) t))) [
  | none ↦ (t, none)
  | some e ↦ (
    update_where (λ r. r.id == e.id) (claim now) t,
    some (record e { status = in_progress; claimed_at = none }),
  )
]

-- `GetOrphanedExecutions`.
abbrev pub is_orphan : Time → Execution → Bool
is_orphan older_than r = is_emitted r.status && before r.created_at older_than

unfoldable pub get_orphaned_executions : Time → ℕ → Table → List Execution
unfolding order_by
get_orphaned_executions older_than max_results t =
    take max_results (order_by created (keep (is_orphan older_than) t))

-- `claimed_at < $1` is not true of NULL.
abbrev pub claimed_before : Time → Option Time → Bool
claimed_before older_than none = false
claimed_before older_than (some c) = before c older_than

abbrev pub claimed_or_zero : Execution → Time
claimed_or_zero r = elim r.claimed_at [ none ↦ 0 | some c ↦ c ]

abbrev pub is_stale : (Uuid → Bool) → Time → Execution → Bool
is_stale locked older_than r =
    is_in_progress r.status && claimed_before older_than r.claimed_at && not (locked r.id)

abbrev pub has_id : List Execution → Uuid → Bool
has_id [] i = false
has_id (r ∷ rs) i = r.id == i || has_id rs i

-- The rows of the common table expression `stale`.
unfoldable pub stale_rows : (Uuid → Bool) → Time → ℕ → Table → List Execution
unfolding order_by
stale_rows locked older_than limit t =
    take limit (order_by claimed_or_zero (keep (is_stale locked older_than) t))

unfoldable pub requeue_stale_executions : (Uuid → Bool) → Time → ℕ → Table → Table × ℕ
unfolding stale_rows update_where count_where
requeue_stale_executions locked older_than limit t =
    let stale = stale_rows locked older_than limit t in
    (
      update_where (λ r. has_id stale r.id) (λ r. record r { status = emitted; claimed_at = none })
          t,
      count_where (λ r. has_id stale r.id) t,
    )

-- What `DeleteJob` does to the executions, those of the job.
unfoldable pub delete_runs : Uuid → Table → Table
delete_runs job t = keep (λ (r : Execution). not (r.job_id == job)) t

-- `WHERE id = $1 AND namespace = $2 AND acknowledged_at IS NULL AND status IN (…)`.
abbrev pub is_pending_ack : Uuid → String → Execution → Bool
is_pending_ack i ns r =
    r.id == i && (str_eq r.namespace ns && (is_null r.acknowledged_at && is_terminal r.status))

unfoldable pub ack_execution : Uuid → String → Time → Table → Table × Option StoreError
unfolding update_where count_where
ack_execution i ns now t =
    let t' = update_where (is_pending_ack i ns) (λ r. record r { acknowledged_at = some now }) t in
    if count_where (is_pending_ack i ns) t == 0 then (t', some execution_not_found) else (t', none)
