-- ===== src/Jobs.antt =====
-- internal/store/postgres/store.go and queries.go: the tables `schedules`, `jobs`, `tags` and
-- `delivery_attempts`, with the executions of Store. Each method is one statement or one transaction,
-- so one step; a statement that a constraint of the schema refuses is rolled back.
pub mod Lists
pub mod Invariant
pub mod Scoped
pub mod Tagged
pub mod Deletion
pub mod Listing
mod Tests
use easy_cron.Prelude.{
  ℕ, ◌+◌, ◌*◌, ◌/◌, Bool, true, false, not, ◌&&◌, ◌||◌, String, Option, none, some, List, [], ◌∷◌,
  ◌++◌, if◌then◌else◌, ◌==◌, str_eq, keep, any, find_row, update_rows,
}
use easy_cron.Prelude.Int.{ℤ, pos, negsuc, neg}
use easy_cron.Domain.{
  Time, Duration, Uuid, Job, Schedule, JobWithSchedule, Execution, DeliveryAttempt, DeliveryConfig,
}
use easy_cron.Store
use easy_cron.Store.{insert_execution}

-- `domain.Tag`, and a row of the table `tags`.
pub record Tag : Type 0 where
  pub key : String
  pub value : String

pub record TagRow : Type 0 where
  pub job_id : Uuid
  pub tag : Tag

pub record Tables : Type 0 where
  pub schedules : List Schedule
  pub jobs : List Job
  pub tags : List TagRow
  pub executions : Store.Table
  pub attempts : List DeliveryAttempt

-- `ErrJobNotFound`, or a constraint that the driver reports.
pub data JobError : Type 0 where
  job_not_found rejected : JobError

abbrev pub millisecond : ℕ
millisecond = 1_000_000

-- The column `timeout_ms`: what `Milliseconds()` writes, towards 0, and a row reads back.
abbrev pub stored_timeout : Duration → Duration
stored_timeout (pos n) = pos (n / millisecond * millisecond)
stored_timeout (negsuc n) = neg (pos ((1 + n) / millisecond * millisecond))

-- The columns of type TIMESTAMPTZ hold whole microseconds, to the nearest.
abbrev pub stored_time : Time → Time
stored_time t = (t + 500) / 1000 * 1000

abbrev pub stored : Job → Job
stored j = record j {
  delivery = record j.delivery { timeout = stored_timeout j.delivery.timeout };
  created_at = stored_time j.created_at;
  updated_at = stored_time j.updated_at;
}

abbrev pub stored_schedule : Schedule → Schedule
stored_schedule s = record s {
  created_at = stored_time s.created_at;
  updated_at = stored_time s.updated_at;
}

abbrev pub is_job : Uuid → Job → Bool
is_job i j = j.id == i

-- `WHERE id = … AND namespace = …`.
abbrev pub is_scoped : Uuid → String → Job → Bool
is_scoped i ns j = j.id == i && str_eq j.namespace ns

abbrev pub is_schedule : Uuid → Schedule → Bool
is_schedule i s = s.id == i

abbrev pub is_tag : Uuid → String → TagRow → Bool
is_tag i k r = r.job_id == i && str_eq r.tag.key k

abbrev pub of_job : Uuid → TagRow → Bool
of_job i r = r.job_id == i

-- `INSERT … ON CONFLICT (job_id, key) DO UPDATE`.
abbrev pub upsert_tag : Uuid → List TagRow → Tag → List TagRow
upsert_tag i rows t =
    if any (is_tag i t.key) rows
    then update_rows (is_tag i t.key) (λ r. record r { tag = t }) rows
    else rows ++ (record { job_id = i; tag = t } ∷ [])

abbrev pub upsert_all : Uuid → List Tag → List TagRow → List TagRow
upsert_all i [] rows = rows
upsert_all i (t ∷ ts) rows = upsert_all i ts (upsert_tag i rows t)

-- `InsertSchedule`.
unfoldable pub insert_schedule : Schedule → Tables → Tables × Option JobError
insert_schedule s t =
    if any (is_schedule s.id) t.schedules
    then (t, some rejected)
    else (record t { schedules = stored_schedule s ∷ t.schedules }, none)

-- `CreateJobAggregate`: the schedule, the job and its tags in one transaction.
unfoldable pub create_job_aggregate : Job → Schedule → List Tag → Tables → Tables × Option JobError
create_job_aggregate job schedule tags t =
    let schedules = stored_schedule schedule ∷ t.schedules in
    if any (is_schedule schedule.id) t.schedules
      || (any (is_job job.id) t.jobs || not (any (is_schedule job.schedule_id) schedules))
    then (t, some rejected)
    else (
      record t {
        schedules = schedules;
        jobs = stored job ∷ t.jobs;
        tags = upsert_all job.id tags t.tags;
      },
      none,
    )

-- `CreateJob` and `InsertJob`.
unfoldable pub create_job : Job → Schedule → Tables → Tables × Option JobError
unfolding create_job_aggregate
create_job job schedule t = create_job_aggregate job schedule [] t

-- `GetJobByID`, `GetSchedule`.
unfoldable pub get_job_by_id : Uuid → Tables → Option Job
get_job_by_id i t = find_row (is_job i) t.jobs

unfoldable pub get_schedule : Uuid → Tables → Option Schedule
get_schedule i t = find_row (is_schedule i) t.schedules

-- `FROM jobs JOIN schedules`, for the row that a statement finds.
abbrev pub join_schedule : Option Job → Tables → Option JobWithSchedule
join_schedule none t = none
join_schedule (some j) t = elim (find_row (is_schedule j.schedule_id) t.schedules) [
  | none ↦ none
  | some s ↦ some (record { job = j; schedule = s })
]

unfoldable pub get_job_with_schedule : Uuid → Tables → Option JobWithSchedule
get_job_with_schedule i t = join_schedule (find_row (is_job i) t.jobs) t

unfoldable pub get_job_with_schedule_scoped : Uuid → String → Tables → Option JobWithSchedule
get_job_with_schedule_scoped i ns t = join_schedule (find_row (is_scoped i ns) t.jobs) t

-- The columns that `queryUpdateJob` sets.
abbrev pub set_job : Job → Job → Job
set_job new j = record j {
  name = new.name;
  enabled = new.enabled;
  delivery = (stored new).delivery;
  analytics = new.analytics;
  updated_at = stored_time new.updated_at;
}

unfoldable pub update_job : Job → Tables → Tables × Option JobError
update_job job t =
    if any (is_scoped job.id job.namespace) t.jobs
    then (
      record t { jobs = update_rows (is_scoped job.id job.namespace) (set_job job) t.jobs },
      none,
    )
    else (t, some job_not_found)

-- The columns that `queryUpdateSchedule` sets.
abbrev pub set_schedule : Schedule → Schedule → Schedule
set_schedule new s = record s {
  cron_expression = new.cron_expression;
  timezone = new.timezone;
  updated_at = stored_time new.updated_at;
}

unfoldable pub update_schedule : Schedule → Tables → Tables
update_schedule schedule t = record t {
  schedules = update_rows (is_schedule schedule.id) (set_schedule schedule) t.schedules;
}

-- `DELETE FROM tags WHERE job_id = $1`.
unfoldable pub delete_tags : Uuid → Tables → Tables
delete_tags i t = record t { tags = keep (λ r. not (of_job i r)) t.tags }

-- The tags that an update replaces, if it is given any.
abbrev pub replace_tags : Uuid → Option (List Tag) → List TagRow → List TagRow
replace_tags i none rows = rows
replace_tags i (some ts) rows = upsert_all i ts (keep (λ r. not (of_job i r)) rows)

-- `UpdateJobAggregate`: where the job is not there, the transaction is rolled back, the change of the
-- schedule with it.
unfoldable pub update_job_aggregate :
    Job → Schedule → Option (List Tag) → Tables → Tables × Option JobError
unfolding update_job update_schedule
update_job_aggregate job schedule tags t =
    let (t1, err) = update_job job (update_schedule schedule t) in
    elim err [
      | some e ↦ (t, some e)
      | none ↦ (record t1 { tags = replace_tags job.id tags t1.tags }, none)
    ]

-- The rows of `executions` that belong to a job, and the attempts of those.
abbrev pub runs : Uuid → Execution → Bool
runs i e = e.job_id == i

abbrev pub attempts_of : Uuid → Store.Table → DeliveryAttempt → Bool
attempts_of i executions a =
    any (λ (e : Execution). e.id == a.execution_id && e.job_id == i) executions

-- `DeleteJob`, one statement. A schedule that another job refers to makes it fail.
unfoldable pub delete_job : Uuid → String → Tables → Tables × Option JobError
delete_job i ns t = elim (find_row (is_scoped i ns) t.jobs) [
  | none ↦ (t, some job_not_found)
  | some j ↦
      let jobs = keep (λ k. not (is_job i k)) t.jobs in
      if any (λ (k : Job). k.schedule_id == j.schedule_id) jobs then (t, some rejected) else (
        record {
          schedules = keep (λ s. not (is_schedule j.schedule_id s)) t.schedules;
          jobs = jobs;
          tags = keep (λ r. not (of_job i r)) t.tags;
          executions = keep (λ e. not (runs i e)) t.executions;
          attempts = keep (λ a. not (attempts_of i t.executions a)) t.attempts;
        },
        none,
      )
]

-- `UpsertTags`; the job has to be there.
unfoldable pub upsert_tags : Uuid → List Tag → Tables → Tables × Option JobError
upsert_tags i [] t = (t, none)
upsert_tags i (tag ∷ tags) t =
    if any (is_job i) t.jobs
    then (record t { tags = upsert_all i (tag ∷ tags) t.tags }, none)
    else (t, some rejected)

-- `ErrDuplicateExecution`, or an execution whose job is not there.
pub data InsertError : Type 0 where
  duplicate no_job : InsertError

-- `InsertExecution` on these tables; the keys of a row are looked up before what it refers to.
unfoldable pub insert_run : Execution → Tables → Tables × Option InsertError
unfolding insert_execution
insert_run e t =
    let (executions, err) = insert_execution e t.executions in
    elim err [
      | some x ↦ (t, some duplicate)
      | none ↦
          if any (is_job e.job_id) t.jobs
          then (record t { executions = executions }, none)
          else (t, some no_job)
    ]
