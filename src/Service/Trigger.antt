-- ===== src/Service/Trigger.antt =====
-- internal/service/jobs.go: TriggerNow.
use easy_cron.Prelude.{
  ℕ, zero, suc, ◌+◌, ◌*◌, ◌/◌, Bool, not, ◌&&◌, String, none, some, ◌∷◌, ◌⊎◌, inl, inr,
  if◌then◌else◌, str_eq,
}
use easy_cron.Domain.{Time, Uuid, Execution, TriggerEvent, manual, emitted, is_zero, after}
use easy_cron.Jobs.{
  Tables, InsertError, duplicate, no_job, get_job_with_schedule_scoped, insert_run,
}
use easy_cron.Service.{
  ServiceError, namespace_required, job_not_found, job_disabled, insert_failed, State, put_tables,
}

abbrev pub microsecond : ℕ
microsecond = 1_000

abbrev pub max_insert_attempts : ℕ
max_insert_attempts = 5

-- The timestamp of an attempt, after that of the attempt before, 0 where there is none.
abbrev pub next_timestamp : Time → Time → Time
next_timestamp reading last =
    let now = reading / microsecond * microsecond in
    if not (is_zero last) && not (after now last) then last + microsecond else now

abbrev pub manual_run : String → Uuid → Uuid → Time → Execution
manual_run ns job_id id now = record {
  id = id;
  job_id = job_id;
  namespace = ns;
  trigger_type = manual;
  scheduled_at = now;
  fired_at = now;
  status = emitted;
  acknowledged_at = none;
  created_at = now;
  claimed_at = none;
}

-- The loop of `TriggerNow`: attempt `i`, with `n` attempts to go. It ends with the error of the last.
unfoldable pub insert_manual :
    (ℕ → Time)
    → (ℕ → Uuid)
    → String
    → Uuid
    → ℕ
    → ℕ
    → Time
    → Tables
    → Tables × (InsertError ⊎ Execution)
unfolding insert_run
insert_manual clock ids ns job_id zero i last t = (t, inl duplicate)
insert_manual clock ids ns job_id (suc n) i last t =
    let now = next_timestamp (clock i) last in
    let e = manual_run ns job_id (ids i) now in
    let (t1, err) = insert_run e t in
    let rest = insert_manual clock ids ns job_id n (suc i) now t1 in
    elim err [ none ↦ (t1, inr e) | some duplicate ↦ rest | some no_job ↦ (t1, inl no_job) ]

abbrev pub event_of : Execution → TriggerEvent
event_of e = record {
  execution_id = e.id;
  job_id = e.job_id;
  namespace = e.namespace;
  scheduled_at = e.scheduled_at;
  fired_at = e.fired_at;
  created_at = e.created_at;
}

-- The end of `TriggerNow`, after the attempts; what the emitter says is only logged.
abbrev pub finish :
    Bool → State → Tables × (InsertError ⊎ Execution) → State × (ServiceError ⊎ Execution)
finish has_emitter s (t, r) = elim r [
  | inl e ↦ (put_tables s t, inl (insert_failed e))
  | inr e ↦ (
    record { tables = t; events = if has_emitter then event_of e ∷ s.events else s.events },
    inr e,
  )
]

unfoldable pub trigger_now :
    Bool → (ℕ → Time) → (ℕ → Uuid) → String → Uuid → State → State × (ServiceError ⊎ Execution)
unfolding get_job_with_schedule_scoped insert_manual
trigger_now has_emitter clock ids ns job_id s =
    if str_eq ns ""
    then (s, inl namespace_required)
    else elim (get_job_with_schedule_scoped job_id ns s.tables) [
      | none ↦ (s, inl job_not_found)
      | some row ↦
          if not row.job.enabled
          then (s, inl job_disabled)
          else finish has_emitter s
              (insert_manual clock ids ns job_id max_insert_attempts 0 0 s.tables)
    ]
