-- ===== src/Service.antt =====
-- internal/service: JobService over the tables, its inputs, errors and state. `ns` is the namespace of the
-- context, "" where it has none. The clock's readings and the new ids are arguments; the statements do not
-- fail for the driver's sake.
pub mod Write
pub mod Read
pub mod Trigger
pub mod Language
pub mod Guards
pub mod Isolation
pub mod Attempts
pub mod Created
mod Tests
use easy_cron.Prelude.{
  ℕ, zero, suc, ◌+◌, ◌*◌, ◌/◌, Bool, true, false, not, ◌&&◌, ◌||◌, String, Option, none, some, List,
  [], ◌∷◌, ◌++◌, ◌⊎◌, inl, inr, if◌then◌else◌, ◌==◌, ltb, str_eq,
}
use easy_cron.Prelude.Int.{ℤ, pos}
use easy_cron.Domain.{
  Time, Duration, Uuid, Job, Schedule, JobWithSchedule, Execution, DeliveryAttempt, TriggerEvent,
  ListParams, with_defaults, second, manual, emitted, is_zero, after,
}
use easy_cron.Cron
use easy_cron.Cron.{Library, parse}
use easy_cron.WebhookUrl
use easy_cron.WebhookUrl.{Net}
use easy_cron.Store.{StoreError, ack_execution}
use easy_cron.Jobs
use easy_cron.Jobs.{
  Tables, Tag, JobError, InsertError, duplicate, no_job, create_job_aggregate,
  get_job_with_schedule_scoped, update_job_aggregate, insert_run,
}
use easy_cron.Jobs.Lists.{
  JobFilter, ExecutionFilter, list_jobs, list_jobs_with_schedules, list_executions,
  list_pending_ack, get_execution_scoped, get_recent_executions, get_tags, get_attempts,
}

pub record CreateJobInput : Type 0 where
  pub name : String
  pub cron_expression : String
  pub timezone : String
  pub webhook_url : String
  pub secret : String
  pub timeout : Duration
  pub tags : List Tag

pub record UpdateJobInput : Type 0 where
  pub name : Option String
  pub cron_expression : Option String
  pub timezone : Option String
  pub webhook_url : Option String
  pub secret : Option String
  pub timeout : Option Duration
  pub tags : Option (List Tag)

-- The errors of the package domain, and those of the repository that a method wraps or passes on.
pub data ServiceError : Type 0 where
  namespace_required job_not_found job_disabled execution_not_found : ServiceError
  invalid_cron_expression invalid_timezone invalid_webhook_url : ServiceError
  repository : JobError → ServiceError
  insert_failed : InsertError → ServiceError

-- The tables, and the events that were given to the emitter, the last one first.
pub record State : Type 0 where
  pub tables : Tables
  pub events : List TriggerEvent

-- A field of an update that may be left out.
abbrev pub given_or {ℓ} : {A : Type ℓ} → Option A → A → A
given_or none a = a
given_or (some b) a = b

abbrev pub is_given {ℓ} : {A : Type ℓ} → Option A → Bool
is_given none = false
is_given (some b) = true

abbrev pub put_tables : State → Tables → State
put_tables s t = record s { tables = t }
