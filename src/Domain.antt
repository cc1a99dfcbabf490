-- ===== src/Domain.antt =====
-- internal/domain: the types that the components share. Instants are nanoseconds since Go's zero
-- time, durations are signed, and UUIDs and namespaces are compared only.
use easy_cron.Prelude.{ℕ, ◌+◌, ◌-◌, Bool, String, Option, ltb, ◌==◌, if◌then◌else◌}
use easy_cron.Prelude.Int.{ℤ, pos, pos_part, neg_part, sub_ℕ, ltb_ℤ, leb_ℤ}

abbrev pub Time : Type 0
Time = ℕ

abbrev pub Duration : Type 0
Duration = ℤ

abbrev pub Uuid : Type 0
Uuid = ℕ

abbrev pub is_zero : Time → Bool
is_zero t = t == 0

-- `t.Before(u)` and `t.After(u)`.
abbrev pub before : Time → Time → Bool
before t u = ltb t u

abbrev pub after : Time → Time → Bool
after t u = ltb u t

-- `t.Add(d)`; the clock reads far more than any duration in use, so `-` does not stop at 0.
abbrev pub add : Time → Duration → Time
add t d = t + pos_part d - neg_part d

-- `t.Sub(u)`.
abbrev pub sub : Time → Time → Duration
sub t u = sub_ℕ t u

abbrev pub second : ℕ
second = 1_000_000_000

abbrev pub minute : ℕ
minute = 60_000_000_000

pub data ExecutionStatus : Type 0 where
  emitted in_progress delivered failed : ExecutionStatus

pub data TriggerType : Type 0 where
  scheduled manual : TriggerType

-- A row of the table `executions`.
pub record Execution : Type 0 where
  pub id : Uuid
  pub job_id : Uuid
  pub namespace : String
  pub trigger_type : TriggerType
  pub scheduled_at : Time
  pub fired_at : Time
  pub status : ExecutionStatus
  pub acknowledged_at : Option Time
  pub created_at : Time
  pub claimed_at : Option Time

pub record TriggerEvent : Type 0 where
  pub execution_id : Uuid
  pub job_id : Uuid
  pub namespace : String
  pub scheduled_at : Time
  pub fired_at : Time
  pub created_at : Time

-- The one delivery type is the webhook.
pub record DeliveryConfig : Type 0 where
  pub webhook_url : String
  pub secret : String
  pub timeout : Duration

pub record DeliveryAttempt : Type 0 where
  pub id : Uuid
  pub execution_id : Uuid
  pub attempt : ℕ
  pub status_code : ℕ
  pub error : String
  pub started_at : Time
  pub finished_at : Time

pub record AnalyticsConfig : Type 0 where
  pub enabled : Bool
  pub retention_seconds : ℤ

pub record Job : Type 0 where
  pub id : Uuid
  pub namespace : String
  pub name : String
  pub enabled : Bool
  pub schedule_id : Uuid
  pub delivery : DeliveryConfig
  pub analytics : AnalyticsConfig
  pub created_at : Time
  pub updated_at : Time

pub record Schedule : Type 0 where
  pub id : Uuid
  pub cron_expression : String
  pub timezone : String
  pub created_at : Time
  pub updated_at : Time

pub record JobWithSchedule : Type 0 where
  pub job : Job
  pub schedule : Schedule

pub record ListParams : Type 0 where
  pub limit : ℤ
  pub offset : ℤ

-- `WithDefaults`: the assignments in their order.
unfoldable pub with_defaults : ListParams → ListParams
with_defaults p =
    let p1 = if leb_ℤ p.limit (pos 0) then record p { limit = pos 100 } else p in
    let p2 = if ltb_ℤ (pos 1000) p1.limit then record p1 { limit = pos 1000 } else p1 in
    if ltb_ℤ p2.offset (pos 0) then record p2 { offset = pos 0 } else p2
