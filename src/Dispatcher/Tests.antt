-- ===== src/Dispatcher/Tests.antt =====
-- Runs of the dispatcher on the tables, at concrete inputs.
use easy_cron.Prelude.{
  ℕ, ◌+◌, ◌≤◌, ◌≡◌, ◌≢◌, refl, some, none, true, false, [], ◌∷◌, arith, length, if◌then◌else◌, ltb,
  ◌==◌,
}
use easy_cron.Prelude.Int.{pos}
use easy_cron.Prelude.Dict.{lookup, insert}
use easy_cron.Domain.{
  TriggerEvent, Job, Execution, scheduled, ExecutionStatus, emitted, in_progress, delivered, failed,
}
use easy_cron.Store.{find, dequeue_execution, update_execution_status, claim, update_where}
use easy_cron.Store.Rows.{IsUnique}
use easy_cron.Store.Terminal.{run}
use easy_cron.Breaker.{CircuitBreaker, opened, allow}
use easy_cron.Dispatcher.{
  World, Env, WebhookResult, is_success, is_retryable, context_done, update_failed,
  max_retry_duration,
}
use easy_cron.Dispatcher.Classify.{contains_insensitive, codes, matches_at, same_letter}
use easy_cron.Dispatcher.Loop.{attempts}
use easy_cron.Dispatcher.Run.{
  dispatch, deliver, ask_breaker, after_loop, conclude, write_analytics, make_request,
}
use easy_cron.Dispatcher.Attempts.{spent}
use easy_cron.Dispatcher.Outcome.{dispatch_terminal, left, begun}
use easy_cron.Dispatcher.Results.{dispatch_outcome, HasOutcome, dispatch_bounds}
use easy_cron.Dispatcher.Workers.Drain.{Drained, drain-Drained}
use easy_cron.Dispatcher.Workers.Once.{AreDistinct, work, dispatched_once}
use easy_cron.Dispatcher.Postgres.{
  Database, Faults, no_faults, get_job_by_id, postgres, find_job, update_status, view,
  deferred_not_redelivered, update_reliable, insert_attempt,
}

abbrev job : Job
job = record {
  id = 7;
  namespace = "team";
  name = "nightly";
  enabled = true;
  schedule_id = 8;
  delivery = record { webhook_url = "https://a"; secret = "s"; timeout = pos 0 };
  analytics = record { enabled = false; retention_seconds = pos 0 };
  created_at = 1;
  updated_at = 1;
}

abbrev row : ExecutionStatus → Execution
row status = record {
  id = 1;
  job_id = 7;
  namespace = "team";
  trigger_type = scheduled;
  scheduled_at = 10;
  fired_at = 11;
  status = status;
  acknowledged_at = none;
  created_at = 11;
  claimed_at = none;
}

abbrev event : TriggerEvent
event = record {
  execution_id = 1;
  job_id = 7;
  namespace = "team";
  scheduled_at = 10;
  fired_at = 11;
  created_at = 11;
}

abbrev world : Execution → World Database
world r = record {
  store = record {
    faults = no_faults;
    jobs = job ∷ [];
    executions = r ∷ [];
    attempts = [];
    unique = (tt, tt);
  };
  breaker = none;
  metrics = none;
  analytics = none;
  sent = [];
  waited = [];
}

abbrev status : ℕ → WebhookResult
status code = record { status_code = code; error = none; duration = 5 }

-- The first two answers are 503, the third is 200.
abbrev env : Env
env = record {
  send = λ k req. if ltb k 3 then status 503 else status 200;
  cancelled = λ k. false;
  attempt_id = λ k. 100 + k;
  started_at = λ k. 20;
  finished_at = λ k. 25;
  allow_at = 19;
  done_at = 30;
}

third_attempt :
    (dispatch postgres env event (world (row in_progress))).0.store.executions ≡ row delivered ∷ []
unfolding dispatch deliver write_analytics ask_breaker after_loop conclude attempts make_request
    update_status update_execution_status find find_job get_job_by_id is_success is_retryable
    insert_attempt update_where
third_attempt = refl

dispatch_terminal_example :
    view 1 (dispatch postgres env event (world (row failed))).0.store ≡ some failed
unfolding find
dispatch_terminal_example =
    dispatch_terminal postgres env event (world (row failed)) failed 1 refl refl

-- The tables after the loop take the last update.
reliable :
    (x : ExecutionStatus)
    → (update_status 1 x
        (left postgres env event job
          (begun postgres event job (world (row in_progress)))).0.store).1
      ≢ update_failed
unfolding find attempts write_analytics ask_breaker make_request is_success is_retryable
    insert_attempt
reliable x =
    update_reliable 1 x in_progress
      (left postgres env event job (begun postgres event job (world (row in_progress)))).0.store
      refl refl

dispatch_outcome_example :
    HasOutcome postgres env event job none (dispatch postgres env event (world (row in_progress)))
unfolding find find_job get_job_by_id ask_breaker
dispatch_outcome_example =
    dispatch_outcome postgres env event job (world (row in_progress)) refl refl refl (λ k. refl)
      in_progress refl refl (λ x. reliable x)

dispatch_bounds_example :
    let r = dispatch postgres env event (world (row in_progress)) in
    (length r.0.sent ≤ 4) × (spent r.0 ≤ max_retry_duration)
unfolding find_job get_job_by_id ask_breaker max_retry_duration
dispatch_bounds_example =
    dispatch_bounds postgres env event job (world (row in_progress)) refl refl refl

-- The context ends during the backoff before the second attempt.
abbrev stopped : Env
stopped = record env { cancelled = λ k. k == 2 }

stopped_error : (dispatch postgres stopped event (world (row in_progress))).1 ≡ some context_done
unfolding dispatch deliver write_analytics ask_breaker after_loop attempts make_request find_job
    get_job_by_id is_success is_retryable
stopped_error = refl

abbrev open_breaker : CircuitBreaker
open_breaker = record {
  states =
      (
        "https://a",
        record { state = opened; consecutive_failures = 5; opened_at = 15; half_open_probes = 0 },
      )
      ∷ [];
  threshold = pos 5;
  cooldown = pos 100;
  half_open_probes = pos 3;
}

-- The row 1 is claimed at time 12, and the circuit of its URL is open; another row waits.
abbrev other : Execution
other = record (row emitted) { id = 2; scheduled_at = 50; created_at = 51 }

queue-IsUnique : IsUnique (claim 12 (row emitted) ∷ other ∷ [])
queue-IsUnique = ground arith

abbrev deferred : World Database
deferred = record (world (claim 12 (row emitted))) {
  store = record {
    faults = no_faults;
    jobs = job ∷ [];
    executions = claim 12 (row emitted) ∷ other ∷ [];
    attempts = [];
    unique = queue-IsUnique;
  };
  breaker = some open_breaker;
}

deferred_not_redelivered_example :
    let r = dispatch postgres env event deferred in
    (r.1 ≡ none) × (r.0.sent ≡ []) × (◌≢◌ {A = ℕ} 2 1)
unfolding find_job get_job_by_id ask_breaker allow lookup dequeue_execution run dispatch deliver
    write_analytics insert
deferred_not_redelivered_example =
    deferred_not_redelivered (λ i. false) (λ i. false) 12 60 (row emitted ∷ other ∷ [])
      (claim 12 (row emitted) ∷ claim 60 other ∷ []) (row in_progress)
      (record other { status = in_progress }) env event job deferred [] (ground arith) refl refl
      refl refl refl tt refl

finds_timeout : contains_insensitive (codes "Dial TCP: I/O Timeout") (codes "timeout") ≡ true
unfolding contains_insensitive matches_at same_letter
finds_timeout = refl

-- One event is sent during each dispatch, and the third select takes the deadline.
drain-Drained_example :
    Drained postgres
      (λ k. env)
      (λ i. i == 2)
      (λ i. false)
      (λ i. event ∷ [])
      3
      0
      (event ∷ event ∷ [])
      (world (row in_progress))
drain-Drained_example =
    drain-Drained postgres (λ k. env) (λ i. i == 2) (λ i. false) (λ i. event ∷ []) 3 2 0
      (event ∷ event ∷ []) (world (row in_progress)) (omega arith) refl

waiting-IsUnique : IsUnique (row emitted ∷ other ∷ [])
waiting-IsUnique = ground arith

-- Two rows wait; the store fails in the second round.
abbrev waiting : World Database
waiting = record (world (row emitted)) {
  store = record {
    faults = no_faults;
    jobs = job ∷ [];
    executions = row emitted ∷ other ∷ [];
    attempts = [];
    unique = waiting-IsUnique;
  };
}

-- In the third round the update of a status fails.
abbrev failing : ℕ → Faults
failing i = record no_faults { updates = λ j x. i == 2 }

dispatched_once_example :
    AreDistinct
      (work (λ k. env) (λ i. i == 1) (λ i. false) failing (λ i j. false) (λ i. 60) 4 0 waiting).1
dispatched_once_example =
    dispatched_once (λ k. env) (λ i. i == 1) (λ i. false) failing (λ i j. false) (λ i. 60) 4 0
      waiting
