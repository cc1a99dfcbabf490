-- ===== src/Scheduler.antt =====
-- internal/scheduler/scheduler.go. The store and the event bus are the interfaces `Store` and
-- `EventEmitter`, taken together as operations on one state; the cron library and the time zones are
-- the parameters `parse` and `load_location`.
pub mod Due
pub mod Fires
pub mod Pages
pub mod Tick
pub mod Zero
mod Tests
use easy_cron.Prelude.{
  ℕ, zero, suc, ◌+◌, ◌-◌, ◌%◌, ◌≡◌, Bool, true, false, not, ◌&&◌, ◌||◌, String, Option, none, some,
  List, [], ◌∷◌, if◌then◌else◌, leb, ltb, ◌==◌, length, str_eq,
}
use easy_cron.Prelude.Int.{ℤ, pos, negsuc, neg, leb_ℤ, ltb_ℤ, pos_part}
use easy_cron.Domain.{
  Time, Duration, Uuid, Execution, emitted, scheduled, TriggerEvent, Job, Schedule, JobWithSchedule,
  is_zero, before, after, add, minute,
}

unfoldable pub default_job_page_size : ℕ
default_job_page_size = 100

pub data InsertResult : Type 0 where
  inserted duplicate insert_failed : InsertResult

-- `(time.Time, bool, error)` of `GetLastScheduledExecution`.
pub data LastScheduled : Type 0 where
  found_at : Time → LastScheduled
  not_found lookup_failed : LastScheduled

-- The store, the emitter and the supply of fresh UUIDs; `get_enabled_jobs` and `last_scheduled` only
-- read. `has_last` tells whether the store has the optional method.
pub record Services : Type 1 where
  pub S : Type 0
  pub get_enabled_jobs : ℕ → Uuid → S → Option (List JobWithSchedule)
  pub has_last : Bool
  pub last_scheduled : Uuid → S → LastScheduled
  pub new_uuid : S → S × Uuid
  pub insert_execution : Execution → S → S × InsertResult
  pub emit : TriggerEvent → S → S × Bool

pub record Config : Type 0 where
  pub tick_interval : Duration
  pub max_fires_per_tick : ℤ

pub data JobError : Type 0 where
  load_tz parse_cron : JobError

pub record JobResult : Type 0 where
  pub triggered : ℕ
  pub capped : Bool
  pub cursor : Time

-- `t.Truncate(time.Minute)`, counted from the zero time.
abbrev pub truncate : Time → Time
truncate t = t - t % minute

unfoldable pub tick_interval : Config → Duration
tick_interval c = if ltb_ℤ (pos 0) c.tick_interval then c.tick_interval else pos minute

unfoldable pub max_iterations : Config → ℕ
max_iterations c =
    if leb_ℤ c.max_fires_per_tick (pos 0) then 1000 else pos_part c.max_fires_per_tick

abbrev pub no_result : JobResult
no_result = record { triggered = 0; capped = false; cursor = 0 }

-- What a tick has counted so far.
pub record Progress : Type 0 where
  pub jobs_triggered : ℕ
  pub next_last_tick : Time

-- `jobs[len(jobs)-1].Job.ID`.
abbrev pub last_id : List JobWithSchedule → Uuid → Uuid
last_id [] d = d
last_id (jws ∷ jobs) d = last_id jobs jws.job.id

module _ (sv : Services) where
  open sv use {S, last_scheduled, new_uuid, insert_execution, emit}

  -- `emitExecution`: true is a nil error, also for a duplicate.
  unfoldable pub emit_execution : Job → Time → Time → S → S × Bool
  emit_execution job scheduled_at now s =
      let (s1, execution_id) = new_uuid s in
      let execution : Execution = record {
        id = execution_id;
        job_id = job.id;
        namespace = job.namespace;
        trigger_type = scheduled;
        scheduled_at = scheduled_at;
        fired_at = now;
        status = emitted;
        acknowledged_at = none;
        created_at = now;
        claimed_at = none;
      } in
      let event : TriggerEvent = record {
        execution_id = execution_id;
        job_id = job.id;
        namespace = job.namespace;
        scheduled_at = scheduled_at;
        fired_at = now;
        created_at = now;
      } in
      let (s2, result) = insert_execution execution s1 in
      elim result [
        | inserted ↦ emit event s2
        | duplicate ↦ (s2, true)
        | insert_failed ↦ (s2, false)
      ]

  unfoldable pub window_start : Config → JobWithSchedule → Time → Time → S → Time
  window_start c jws last_tick now s =
      let created = jws.job.created_at in
      let cursor =
        if is_zero created || after created now then add now (neg (tick_interval c)) else created in
      if not (is_zero last_tick)
      then last_tick
      else if not sv.has_last
      then cursor
      else elim (last_scheduled jws.job.id s) [
        | lookup_failed ↦ cursor
        | not_found ↦ cursor
        | found_at t ↦ if after t cursor then t else cursor
      ]

  -- The loop of `processJobWithProgress`, by the iterations left; it returns the next due time too.
  unfoldable pub fire_loop :
      (Time → Time) → Job → Time → ℕ → Time → JobResult → S → S × JobResult × Time
  fire_loop next job now zero t r s = (s, r, t)
  fire_loop next job now (suc n) t r s =
      let at = truncate t in
      let (s', fired) = emit_execution job at now s in
      let r' = record r {
        cursor = at;
        triggered = if fired then suc r.triggered else r.triggered;
      } in
      let rest = fire_loop next job now n (next t) r' s' in if after t now then (s, r, t) else rest

  -- From the first due time to the result.
  unfoldable pub catch_up : Config → (Time → Time) → Job → Time → Time → S → S × JobResult
  catch_up c next job start now s =
      let fresh : JobResult = record { triggered = 0; capped = false; cursor = now } in
      let (s', r, t) = fire_loop next job now (max_iterations c) (next start) fresh s in
      (s', if after t now then r else record r { capped = true })

  module _ (load_location : String → Bool) (parse : String → String → Option (Time → Time)) where
    unfoldable pub process_job :
        Config → JobWithSchedule → Time → Time → S → S × JobResult × Option JobError
    process_job c jws last_tick now s =
        let start = window_start c jws last_tick now s in
        let tz = if str_eq jws.schedule.timezone "" then "UTC" else jws.schedule.timezone in
        if not (load_location tz)
        then (s, no_result, some load_tz)
        else elim (parse jws.schedule.cron_expression tz) [
          | none ↦ (s, no_result, some parse_cron)
          | some next ↦ let (s', r) = catch_up c next jws.job start now s in (s', r, none)
        ]

    -- The loop over one page.
    unfoldable pub process_page :
        Config → Time → Time → List JobWithSchedule → Progress → S → S × Progress
    process_page c last_tick now [] p s = (s, p)
    process_page c last_tick now (jws ∷ jobs) p s =
        let (s', r, err) = process_job c jws last_tick now s in
        let hold = r.capped && (not (is_zero r.cursor) && before r.cursor p.next_last_tick) in
        process_page c last_tick now jobs
          (record {
            jobs_triggered = p.jobs_triggered + r.triggered;
            next_last_tick = if hold then r.cursor else p.next_last_tick;
          })
          s'

    -- The loop over the pages, on fuel; the result is none where the fuel ran out, and its second
    -- part is none where a page could not be read.
    unfoldable pub process_pages :
        ℕ → Config → Time → Time → Uuid → Progress → S → Option (S × Option Progress)
    process_pages zero c last_tick now after_id p s = none
    process_pages (suc fuel) c last_tick now after_id p s =
        elim (sv.get_enabled_jobs default_job_page_size after_id s) [
          | none ↦ some (s, none)
          | some jobs ↦
              let (s', p') = process_page c last_tick now jobs p s in
              let rest = process_pages fuel c last_tick now (last_id jobs after_id) p' s' in
              if ltb (length jobs) default_job_page_size then some (s', some p') else rest
        ]

    -- `processTick`: the state, and `lastTick` after the tick; an error leaves it as it was.
    unfoldable pub process_tick : ℕ → Config → Time → Time → S → Option (S × Time)
    process_tick fuel c last_tick now s =
        elim (process_pages fuel c last_tick now 0
          (record { jobs_triggered = 0; next_last_tick = now }) s) [
            | none ↦ none
            | some (s', none) ↦ some (s', last_tick)
            | some (s', some p) ↦ some (s', p.next_last_tick)
          ]
