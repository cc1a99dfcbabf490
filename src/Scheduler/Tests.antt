-- ===== src/Scheduler/Tests.antt =====
-- Runs of the scheduler at concrete inputs.
use easy_cron.Prelude.{
  ℕ, suc, ◌+◌, ◌-◌, ◌*◌, ◌%◌, ◌≤◌, ◌<◌, ◌≡◌, ◌↔◌, ◌⊎◌, refl, Bool, some, true, false, List, [], ◌∷◌,
  ◌++◌, arith, In, String, Option, length,
}
use easy_cron.Prelude.Int.{pos}
use easy_cron.Domain.{Time, Uuid, Execution, Job, JobWithSchedule, minute}
use easy_cron.Scheduler.{
  Services, Config, not_found, inserted, catch_up, fire_loop, emit_execution, max_iterations,
  Progress, process_tick, process_page, process_job,
}
use easy_cron.Scheduler.Due.{IsSchedule}
use easy_cron.Scheduler.Fires.{emit_all, fired_times, catch_up_exact, capped_catch_up_resumes}
use easy_cron.Scheduler.Pages.{get_enabled_jobs}
use easy_cron.Scheduler.Tick.{tick_covers, held_back}
use easy_cron.Scheduler.Zero.{zero_times, never_due_fires_zero}

-- Every whole minute.
abbrev every_minute : Time → Time
every_minute t = t - t % minute + minute

abbrev IsWholeMinute : Time → Type 0
IsWholeMinute t = t % minute ≡ 0

every_minute-IsSchedule : IsSchedule every_minute IsWholeMinute
every_minute-IsSchedule = record {
  later = λ t. omega arith;
  fires = λ t. omega arith;
  least = λ t x a b f. omega arith;
}

abbrev job_of : Uuid → Job
job_of i = record {
  id = i;
  namespace = "team";
  name = "nightly";
  enabled = true;
  schedule_id = 8;
  delivery = record { webhook_url = "https://a"; secret = "s"; timeout = pos 0 };
  analytics = record { enabled = false; retention_seconds = pos 0 };
  created_at = 60_000_000_000;
  updated_at = 60_000_000_000;
}

abbrev with_schedule : Uuid → JobWithSchedule
with_schedule i = record {
  job = job_of i;
  schedule = record {
    id = 8;
    cron_expression = "* * * * *";
    timezone = "";
    created_at = 1;
    updated_at = 1;
  };
}

abbrev rows : List JobWithSchedule
rows = with_schedule 3 ∷ with_schedule 5 ∷ []

-- A store that keeps what is inserted, newest first.
abbrev services : Services
services = record {
  S = List Execution;
  get_enabled_jobs = λ n a s. some (get_enabled_jobs rows n a);
  has_last = true;
  last_scheduled = λ i s. not_found;
  new_uuid = λ s. (s, suc (length s));
  insert_execution = λ e s. (e ∷ s, inserted);
  emit = λ e s. (s, true);
}

abbrev cap : ℕ → Config
cap n = record { tick_interval = pos 0; max_fires_per_tick = pos n }

abbrev load_any : String → Bool
load_any z = true

abbrev parse_any : String → String → Option (Time → Time)
parse_any e z = some every_minute

-- Minutes since the zero time.
abbrev at : ℕ → Time
at n = n * minute

not_capped : (catch_up services (cap 5) every_minute (job_of 3) (at 1) (at 3) []).1.capped ≡ false
unfolding catch_up fire_loop emit_execution max_iterations
not_capped = refl

capped_at :
    ((catch_up services (cap 2) every_minute (job_of 3) (at 1) (at 4) []).1.capped ≡ true)
    × (at 3 ≤ (catch_up services (cap 2) every_minute (job_of 3) (at 1) (at 4) []).1.cursor)
unfolding catch_up fire_loop emit_execution max_iterations
capped_at = (refl, omega arith)

resumed : (catch_up services (cap 2) every_minute (job_of 3) (at 3) (at 4) []).1.capped ≡ false
unfolding catch_up fire_loop emit_execution max_iterations
resumed = refl

catch_up_exact_example :
    ((catch_up services (cap 5) every_minute (job_of 3) (at 1) (at 3) []).0
      ≡ (emit_all services (job_of 3) (at 3) (fired_times (cap 5) every_minute (at 1) (at 3)) []).0)
    × ((x : Time)
        → In x (fired_times (cap 5) every_minute (at 1) (at 3))
          ↔ ((at 1 < x) × (x ≤ at 3) × IsWholeMinute x))
catch_up_exact_example =
    catch_up_exact services (cap 5) every_minute IsWholeMinute every_minute-IsSchedule (job_of 3)
      (at 1) (at 3) [] not_capped

capped_catch_up_resumes_example :
    ((catch_up services (cap 2) every_minute (job_of 3) (at 1) (at 4) []).0
      ≡ (emit_all services (job_of 3) (at 4) (fired_times (cap 2) every_minute (at 1) (at 4)) []).0)
    × ((catch_up services (cap 2) every_minute (job_of 3) (at 3) (at 4) []).0
        ≡ (emit_all services
            (job_of 3)
            (at 4)
            (fired_times (cap 2) every_minute (at 3) (at 4))
            []).0)
    × (In (at 4) (fired_times (cap 2) every_minute (at 1) (at 4))
        ⊎ In (at 4) (fired_times (cap 2) every_minute (at 3) (at 4)))
capped_catch_up_resumes_example =
    capped_catch_up_resumes services (cap 2) every_minute IsWholeMinute every_minute-IsSchedule
      (λ t. omega arith) (job_of 3) (at 1) (at 4) (at 3) (at 4) [] [] capped_at.0 capped_at.1
      resumed (at 4) (omega arith) (omega arith) refl

tick_covers_example : process_tick services load_any parse_any 3 (cap 5) (at 1) (at 3) [] ≡ (
    let r =
      process_page services load_any parse_any
        (cap 5)
        (at 1)
        (at 3)
        rows
        (record { jobs_triggered = 0; next_last_tick = at 3 })
        [] in
    some (r.0, r.1.next_last_tick))
tick_covers_example =
    tick_covers services load_any parse_any (cap 5) (at 1) (at 3) rows (λ n a s. refl) 3 []
      (omega arith, (omega arith, tt)) ((omega arith, tt), (tt, tt)) (omega arith)

never_due_fires_zero_example :
    let (s', k) = emit_all services (job_of 3) (at 3) (zero_times 5) [] in
    catch_up services (cap 5) (λ t. 0) (job_of 3) (at 1) (at 3) []
    ≡ (s', record { triggered = k; capped = true; cursor = 0 })
unfolding max_iterations
never_due_fires_zero_example =
    never_due_fires_zero (λ t. 0) (λ t. refl) (at 3) services (cap 5) (job_of 3) (at 1) []

abbrev start : Progress
start = record { jobs_triggered = 0; next_last_tick = at 3 }

held_back_example :
    let page = process_page services load_any parse_any (cap 1) (at 1) (at 3) in
    let b = page [] start [] in
    let r =
      (process_job services load_any parse_any (cap 1) (with_schedule 3) (at 1) (at 3) b.0).1 in
    let end = (page ([] ++ with_schedule 3 ∷ with_schedule 5 ∷ []) start []).1 in
    (end.next_last_tick ≤ at 3)
    × ((r.capped ≡ false) ⊎ (r.cursor ≡ 0) ⊎ (end.next_last_tick ≤ r.cursor))
held_back_example =
    held_back services load_any parse_any (cap 1) (at 1) (at 3) [] (with_schedule 5 ∷ [])
      (with_schedule 3) start []
