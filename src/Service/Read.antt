-- ===== src/Service/Read.antt =====
-- internal/service/jobs.go and executions.go: the methods that read, and AckExecution.
use easy_cron.Prelude.{
  ℕ, zero, suc, Bool, not, String, Option, none, some, List, [], ◌∷◌, ◌⊎◌, inl, inr, if◌then◌else◌,
  str_eq,
}
use easy_cron.Prelude.Int.{ℤ, pos}
use easy_cron.Domain.{
  Time, Uuid, Job, Schedule, JobWithSchedule, Execution, DeliveryAttempt, with_defaults,
}
use easy_cron.Cron.{Library, parse}
use easy_cron.Store.{ack_execution}
use easy_cron.Jobs.{Tag, get_job_with_schedule_scoped}
use easy_cron.Jobs.Lists.{
  JobFilter, ExecutionFilter, list_jobs, list_jobs_with_schedules, list_executions,
  list_pending_ack, get_execution_scoped, get_recent_executions, get_tags, get_attempts,
}
use easy_cron.Service.{
  ServiceError, namespace_required, job_not_found, job_disabled, execution_not_found,
  invalid_cron_expression, State, put_tables,
}

unfoldable pub get_job :
    (String → String → Bool)
    → String
    → Uuid
    → State
    → ServiceError ⊎ (JobWithSchedule × List Tag × List Execution)
unfolding get_job_with_schedule_scoped get_tags get_recent_executions
get_job key_leb ns id s =
    if str_eq ns ""
    then inl namespace_required
    else elim (get_job_with_schedule_scoped id ns s.tables) [
      | none ↦ inl job_not_found
      | some row ↦ inr (row, get_tags key_leb id s.tables, get_recent_executions id 5 s.tables)
    ]

module _ (ilike : String → String → Bool) where
  unfoldable pub list : String → JobFilter → State → ServiceError ⊎ List Job
  unfolding with_defaults list_jobs
  list ns filter s =
      if str_eq ns ""
      then inl namespace_required
      else inr (
          list_jobs ilike
            (record filter { namespace = ns; list_params = with_defaults filter.list_params })
            s.tables)

  unfoldable pub list_with_schedules :
      String → JobFilter → State → ServiceError ⊎ List JobWithSchedule
  unfolding with_defaults list_jobs_with_schedules
  list_with_schedules ns filter s =
      if str_eq ns ""
      then inl namespace_required
      else inr (
          list_jobs_with_schedules ilike
            (record filter { namespace = ns; list_params = with_defaults filter.list_params })
            s.tables)

-- `computeNextRuns`.
unfoldable pub compute_next_runs : (Time → Time) → Time → ℕ → List Time
compute_next_runs next cursor zero = []
compute_next_runs next cursor (suc n) = next cursor ∷ compute_next_runs next (next cursor) n

unfoldable pub get_next_run_time :
    Library → String → Uuid → Time → State → ServiceError ⊎ (Time × List Time × Schedule)
unfolding get_job_with_schedule_scoped parse compute_next_runs
get_next_run_time lib ns job_id now s =
    if str_eq ns ""
    then inl namespace_required
    else elim (get_job_with_schedule_scoped job_id ns s.tables) [
      | none ↦ inl job_not_found
      | some row ↦
          if not row.job.enabled
          then inl job_disabled
          else elim (parse lib row.schedule.cron_expression row.schedule.timezone) [
            | inl e ↦ inl invalid_cron_expression
            | inr next ↦ inr (next now, compute_next_runs next now 5, row.schedule)
          ]
    ]

unfoldable pub list_runs : String → ExecutionFilter → State → ServiceError ⊎ List Execution
unfolding with_defaults list_executions
list_runs ns filter s =
    if str_eq ns ""
    then inl namespace_required
    else inr (
        list_executions
          (record filter { namespace = ns; list_params = with_defaults filter.list_params })
          s.tables)

unfoldable pub list_pending : String → Option Uuid → ℤ → State → ServiceError ⊎ List Execution
unfolding with_defaults list_pending_ack
list_pending ns job_id limit s =
    if str_eq ns ""
    then inl namespace_required
    else inr (
        list_pending_ack ns job_id (with_defaults (record { limit = limit; offset = pos 0 })).limit
          s.tables)

unfoldable pub acknowledge : String → Uuid → Time → State → State × Option ServiceError
unfolding ack_execution
acknowledge ns id now s =
    if str_eq ns ""
    then (s, some namespace_required)
    else (let (executions, err) = ack_execution id ns now s.tables.executions in
        (
          put_tables s (record s.tables { executions = executions }),
          elim err [ none ↦ none | some e ↦ some execution_not_found ],
        ))

unfoldable pub get_run : String → Uuid → State → ServiceError ⊎ (Execution × List DeliveryAttempt)
unfolding get_execution_scoped get_attempts
get_run ns id s =
    if str_eq ns "" then inl namespace_required else elim (get_execution_scoped id ns s.tables) [
      | none ↦ inl execution_not_found
      | some e ↦ inr (e, get_attempts id s.tables)
    ]
