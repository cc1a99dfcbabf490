-- ===== src/Dispatcher.antt =====
-- internal/dispatcher/dispatcher.go: what a dispatch reads and records. The store and the sender are
-- the interfaces `Store` and `WebhookSender`: the store is the record below, with the behaviour that
-- its comments ask for; the sender answers through `Env`.
pub mod Classify
pub mod Loop
pub mod Run
pub mod Attempts
pub mod Verdict
pub mod Outcome
pub mod Results
pub mod Postgres
pub mod Workers
mod Tests
use easy_cron.Prelude.{
  ℕ, suc, ◌+◌, ◌*◌, ◌-◌, ◌≡◌, Bool, true, false, not, ◌&&◌, String, Option, none, some, List, [],
  ◌∷◌, if◌then◌else◌, leb, ltb, ◌==◌, get_or, length,
}
use easy_cron.Prelude.Int.{ℤ}
use easy_cron.Domain.{
  Time, Duration, Uuid, ExecutionStatus, Job, TriggerEvent, DeliveryAttempt, AnalyticsConfig,
  second, minute,
}
use easy_cron.Store.{is_terminal}
use easy_cron.Breaker.{CircuitBreaker}

-- In nanoseconds.
abbrev pub default_backoff : List ℕ
default_backoff = 0 ∷ 30 * second ∷ 2 * minute ∷ 10 * minute ∷ []

abbrev pub max_attempts : ℕ
max_attempts = 4

abbrev pub max_webhook_attempt_timeout : ℕ
max_webhook_attempt_timeout = 60 * second

abbrev pub add_all : ℕ → List ℕ → ℕ
add_all total [] = total
add_all total (d ∷ ds) = add_all (total + d) ds

unfoldable pub max_retry_duration : ℕ
max_retry_duration = add_all (max_attempts * max_webhook_attempt_timeout) default_backoff

-- What `UpdateExecutionStatus` returns: nil, ErrStatusTransitionDenied or another error.
pub data UpdateResult : Type 0 where
  updated denied update_failed : UpdateResult

-- The interface `Store` of the dispatcher. `view` reads the status of an execution. Its comment
-- demands that an update rejects transitions from terminal states.
pub record Store : Type 1 where
  pub S : Type 0
  pub view : Uuid → S → Option ExecutionStatus
  pub get_job_by_id : Uuid → S → Option Job
  pub insert_delivery_attempt : DeliveryAttempt → S → S
  pub update_execution_status : Uuid → ExecutionStatus → S → S × UpdateResult
  pub insert_view :
      (a : DeliveryAttempt) (s : S) (i : Uuid) → view i (insert_delivery_attempt a s) ≡ view i s
  pub update_view :
      (i : Uuid) (x : ExecutionStatus) (s : S)
      → (update_execution_status i x s).1 ≡ updated
      → view i (update_execution_status i x s).0 ≡ some x
  pub terminal_kept :
      (i j : Uuid) (x st : ExecutionStatus) (s : S)
      → view i s ≡ some st
      → is_terminal st ≡ true
      → view j (update_execution_status i x s).0 ≡ view j s
  pub terminal_denied :
      (i : Uuid) (x st : ExecutionStatus) (s : S)
      → view i s ≡ some st
      → is_terminal st ≡ true
      → (update_execution_status i x s).1 ≡ updated
      → ⊥
  pub denied_terminal :
      (i : Uuid) (x : ExecutionStatus) (s : S)
      → (update_execution_status i x s).1 ≡ denied
      → (st : ExecutionStatus) × (view i s ≡ some st) × (is_terminal st ≡ true)

pub record WebhookPayload : Type 0 where
  pub job_id : Uuid
  pub job_name : String
  pub execution_id : Uuid
  pub scheduled_at : Time
  pub fired_at : Time

pub record WebhookRequest : Type 0 where
  pub url : String
  pub secret : String
  pub timeout : Duration
  pub payload : WebhookPayload
  pub attempt_id : Uuid

pub record WebhookResult : Type 0 where
  pub status_code : ℕ
  pub error : Option String
  pub duration : ℕ

abbrev pub is_nil : Option String → Bool
is_nil none = true
is_nil (some e) = false

unfoldable pub is_success : WebhookResult → Bool
is_success r = is_nil r.error && (leb 200 r.status_code && ltb r.status_code 300)

unfoldable pub is_retryable : WebhookResult → Bool
is_retryable r =
    if not (is_nil r.error)
    then true
    else if r.status_code == 429
    then true
    else leb 500 r.status_code

-- The calls of the sink `MetricsSink`.
pub data Metric : Type 0 where
  delivery_attempt_completed : ℕ → String → ℕ → Metric
  delivery_outcome : String → Metric
  retry_attempt : Bool → Metric
  events_in_flight_incr events_in_flight_decr : Metric
  execution_latency_observe : Duration → Metric

-- The world that a dispatch changes: the store, the optional sinks (their calls, the last one
-- first) and breaker, the requests handed to the sender and the timers waited for, the last first.
pub record World (S : Type 0) : Type 0 where
  pub store : S
  pub breaker : Option CircuitBreaker
  pub metrics : Option (List Metric)
  pub analytics : Option (List (TriggerEvent × AnalyticsConfig))
  pub sent : List WebhookRequest
  pub waited : List ℕ

-- What one dispatch meets: the sender's answer to each attempt, whether the context ends during the
-- backoff before an attempt, the fresh ids, and the clock's readings.
pub record Env : Type 0 where
  pub send : ℕ → WebhookRequest → WebhookResult
  pub cancelled : ℕ → Bool
  pub attempt_id : ℕ → Uuid
  pub started_at : ℕ → Time
  pub finished_at : ℕ → Time
  pub allow_at : Time
  pub done_at : Time

pub data DispatchError : Type 0 where
  get_job_failed no_webhook_url context_done store_failed : DispatchError

-- `if d.metrics != nil`.
abbrev pub observe : {S : Type 0} → Metric → World S → World S
observe m w = record w { metrics = elim w.metrics [ none ↦ none | some ms ↦ some (m ∷ ms) ] }
