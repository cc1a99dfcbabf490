-- ===== src/Service/Tests.antt =====
-- The service at concrete inputs: one zone, one kind of URL, one job.
use easy_cron.Prelude.{
  ℕ, ◌+◌, ◌*◌, ◌/◌, ◌≤◌, ◌≡◌, refl, Bool, true, false, String, none, some, inl, inr, List, [], ◌∷◌,
  if◌then◌else◌, str_eq, arith, keep, length, str_eq_iff,
}
use easy_cron.Prelude.Int.{pos}
use easy_cron.Domain.{Time, JobWithSchedule}
use easy_cron.Dispatcher.Classify.{codes}
use easy_cron.Cron.{Library}
use easy_cron.WebhookUrl.{Net}
use easy_cron.Jobs.{stored_schedule, stored, of_job, get_job_with_schedule_scoped}
use easy_cron.Service.{CreateJobInput, UpdateJobInput, State, invalid_cron_expression}
use easy_cron.Service.Write.{create_job, new_job, new_schedule}
use easy_cron.Service.Read.{get_job}
use easy_cron.Service.Trigger.{trigger_now, manual_run, max_insert_attempts, microsecond, event_of}
use easy_cron.Service.Guards.{Call, create, update, delete, pause, serve, unknown_zone}
use easy_cron.Service.Isolation.{foreign_untouched}
use easy_cron.Service.Attempts.{IsManualRun, taken_from, trigger_exhausted, triggered_run}
use easy_cron.Service.Created.{created_then_read}
use easy_cron.Service.Language.{on_day, parse_plan, description}
use easy_cron.Service.Language.Reading.{description_read_back}

abbrev library : Library
library = record {
  Zone = Unit;
  load_location = λ z. if str_eq z "UTC" then some tt else none;
  parse_expression = λ e. some (λ z t. t + 60);
}

abbrev net : Net
net = record {
  Ip = Unit;
  parse_url = λ u. some (record {
    scheme = codes "https";
    host = codes "example.com";
    hostname = codes "example.com";
  });
  to_lower = λ t. t;
  parse_ip = λ t. none;
  is_unspecified = λ ip. false;
  is_loopback = λ ip. false;
  is_private = λ ip. false;
  is_link_local_unicast = λ ip. false;
  is_link_local_multicast = λ ip. false;
  is_multicast = λ ip. false;
}

abbrev input : CreateJobInput
input = record {
  name = "report";
  cron_expression = "0 * * * *";
  timezone = "UTC";
  webhook_url = "https://example.com/hook";
  secret = "";
  timeout = pos 1_500_000;
  tags = record { key = "team"; value = "a" } ∷ [];
}

abbrev lost_input : CreateJobInput
lost_input = record input { timezone = "Mars/Base" }

abbrev changes : UpdateJobInput
changes = record {
  name = some "taken";
  cron_expression = some "* * * * *";
  timezone = none;
  webhook_url = none;
  secret = none;
  timeout = none;
  tags = none;
}

abbrev empty : State
empty = record {
  tables = record { schedules = []; jobs = []; tags = []; executions = []; attempts = [] };
  events = [];
}

-- One job of the namespace "a", with the id 2 and the schedule 1.
abbrev one_job : State
one_job = record empty {
  tables = record empty.tables {
    schedules = new_schedule input 7 1 ∷ [];
    jobs = stored (new_job "a" input 7 1 2) ∷ [];
  };
}

abbrev one_row : JobWithSchedule
one_row = record { job = stored (new_job "a" input 7 1 2); schedule = new_schedule input 7 1 }

abbrev calls : List Call
calls = create input 9 3 4 ∷ update 2 changes 10 ∷ pause 2 11 ∷ delete 2 ∷ delete 4 ∷ []

foreign_untouched_example :
    (get_job_with_schedule_scoped 2 "a" (serve library net "b" calls one_job).tables ≡ some one_row)
    × (keep (of_job 2) (serve library net "b" calls one_job).tables.tags ≡ [])
unfolding get_job_with_schedule_scoped
foreign_untouched_example =
    foreign_untouched library net "b" "a" calls one_job 2 one_row
      (λ e. ground (arith, (str_eq_iff "b" "a").1 e)) ((tt, tt), (refl, tt)) refl

unknown_zone_example :
    create_job library net "a" lost_input 9 3 4 empty ≡ (empty, inl invalid_cron_expression)
unknown_zone_example =
    unknown_zone library net "a" lost_input 9 3 4 empty
      (λ e. ground (arith, (str_eq_iff "a" "").1 e)) refl

abbrev ids : ℕ → ℕ
ids k = 100 + k

abbrev still_clock : ℕ → Time
still_clock k = 5_000

-- Five runs at the times that a clock that stands still leads to.
abbrev full : State
full = record one_job {
  tables = record one_job.tables {
    executions =
        manual_run "a" 2 11 5_000
        ∷ manual_run "a" 2 12 6_000
        ∷ manual_run "a" 2 13 7_000
        ∷ manual_run "a" 2 14 8_000
        ∷ manual_run "a" 2 15 9_000
        ∷ [];
  };
}

trigger_exhausted_example :
    max_insert_attempts
    ≤ length
        (keep (taken_from 2 (still_clock 0 / microsecond * microsecond)) full.tables.executions)
unfolding trigger_now
trigger_exhausted_example =
    trigger_exhausted true still_clock ids "a" 2 full (λ k. omega arith) (λ k. ground arith) refl

triggered_run_example :
    let e = manual_run "a" 2 100 5_000 in
    IsManualRun "a" 2 e
    × ((trigger_now true still_clock ids "a" 2 one_job).0.tables.executions ≡ e ∷ [])
    × ((trigger_now true still_clock ids "a" 2 one_job).0.events ≡ event_of e ∷ [])
unfolding trigger_now
triggered_run_example =
    triggered_run true still_clock ids "a" 2 one_job (manual_run "a" 2 100 5_000) refl

abbrev any_order : String → String → Bool
any_order s t = true

abbrev two_tags : CreateJobInput
two_tags = record input {
  tags = record { key = "team"; value = "x" } ∷ record { key = "env"; value = "y" } ∷ [];
}

created_then_read_example :
    get_job any_order "a" 4 (create_job library net "a" two_tags 900 3 4 empty).0
    ≡ inr (
      record {
        job = stored (new_job "a" two_tags 900 3 4);
        schedule = stored_schedule (new_schedule two_tags 900 3);
      },
      two_tags.tags,
      [],
    )
unfolding create_job
created_then_read_example =
    created_then_read library net any_order "a" two_tags 900 3 4 empty
      (new_job "a" two_tags 900 3 4) (new_schedule two_tags 900 3) refl (ground arith) refl refl

description_read_back_example : parse_plan (description (on_day 1 21 30)) ≡ some (on_day 1 21 30)
description_read_back_example =
    description_read_back (on_day 1 21 30) (omega arith, (omega arith, omega arith))
