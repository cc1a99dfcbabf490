-- ===== src/Jobs/Lists.antt =====
-- internal/store/postgres/store.go: the statements that read lists, with internal/domain/filter.go. What
-- `ILIKE` finds is the parameter `ilike`, and the order of the tags' keys `key_leb`.
use easy_cron.Prelude.{
  ℕ, Bool, true, false, not, ◌&&◌, ◌||◌, String, Option, none, some, List, [], ◌∷◌, ◌==◌, leb,
  str_eq, keep, any, order_by, order_desc, page, take, map, find_row,
}
use easy_cron.Prelude.Int.{ℤ, pos, pos_part}
use easy_cron.Domain.{
  Time, Uuid, Job, JobWithSchedule, Execution, ExecutionStatus, emitted, in_progress, delivered,
  failed, TriggerType, scheduled, manual, ListParams, with_defaults, DeliveryAttempt,
}
use easy_cron.Store.{is_null, is_terminal, find}
use easy_cron.Jobs.{Tables, Tag, TagRow, of_job, join_schedule, runs}

pub record JobFilter : Type 0 where
  pub namespace : String
  pub tags : List Tag
  pub enabled : Option Bool
  pub name : String
  pub list_params : ListParams

pub record ExecutionFilter : Type 0 where
  pub job_id : Uuid
  pub namespace : String
  pub status : Option ExecutionStatus
  pub trigger_type : Option String
  pub since : Option Time
  pub until : Option Time
  pub list_params : ListParams

-- A condition that a filter may leave out.
abbrev pub given {ℓ} : {A : Type ℓ} → Option A → (A → Bool) → Bool
given none p = true
given (some a) p = p a

abbrev pub same_flag : Bool → Bool → Bool
same_flag true b = b
same_flag false b = not b

abbrev pub status_text : ExecutionStatus → String
status_text emitted = "emitted"
status_text in_progress = "in_progress"
status_text delivered = "delivered"
status_text failed = "failed"

abbrev pub trigger_text : TriggerType → String
trigger_text scheduled = "scheduled"
trigger_text manual = "manual"

-- `EXISTS (SELECT 1 FROM tags …)`, for every tag of the filter.
abbrev pub has_tags : List TagRow → Uuid → List Tag → Bool
has_tags rows i [] = true
has_tags rows i (t ∷ ts) =
    any (λ (r : TagRow). r.job_id == i && (str_eq r.tag.key t.key && str_eq r.tag.value t.value))
      rows
    && has_tags rows i ts

-- The rows that a page shows, of all that match.
abbrev pub page_of {ℓ} : {A : Type ℓ} → ListParams → List A → List A
page_of p xs = page (pos_part p.limit) (pos_part p.offset) xs

module _ (ilike : String → String → Bool) where
  abbrev pub job_matches : JobFilter → List TagRow → Job → Bool
  job_matches f tags j =
      str_eq j.namespace f.namespace
      && (given f.enabled (same_flag j.enabled)
          && ((str_eq f.name "" || ilike j.name f.name) && has_tags tags j.id f.tags))

  unfoldable pub list_jobs : JobFilter → Tables → List Job
  unfolding with_defaults
  list_jobs f t =
      page_of (with_defaults f.list_params)
        (order_desc (λ (j : Job). j.created_at) (keep (job_matches f t.tags) t.jobs))

-- `JOIN schedules`, which drops a row without one.
abbrev pub join_rows : Tables → List Job → List JobWithSchedule
join_rows t [] = []
join_rows t (j ∷ js) = elim (join_schedule (some j) t) [
  | none ↦ join_rows t js
  | some r ↦ r ∷ join_rows t js
]

module _ (ilike : String → String → Bool) where
  unfoldable pub list_jobs_with_schedules : JobFilter → Tables → List JobWithSchedule
  unfolding with_defaults
  list_jobs_with_schedules f t = page_of (with_defaults f.list_params) (
      order_desc (λ (r : JobWithSchedule). r.job.created_at)
        (join_rows t (keep (job_matches ilike f t.tags) t.jobs)))

abbrev pub execution_matches : ExecutionFilter → Execution → Bool
execution_matches f e =
    (f.job_id == 0 || e.job_id == f.job_id)
    && ((str_eq f.namespace "" || str_eq e.namespace f.namespace)
        && (given f.status (λ s. str_eq (status_text e.status) (status_text s))
            && (given f.trigger_type (str_eq (trigger_text e.trigger_type))
                && (given f.since (λ t. leb t e.created_at)
                    && given f.until (λ t. leb e.created_at t)))))

abbrev pub newest_first : List Execution → List Execution
newest_first es = order_desc (λ (e : Execution). e.created_at) es

unfoldable pub list_executions : ExecutionFilter → Tables → List Execution
unfolding with_defaults
list_executions f t =
    page_of (with_defaults f.list_params) (newest_first (keep (execution_matches f) t.executions))

abbrev pub awaits_ack : String → Option Uuid → Execution → Bool
awaits_ack ns job e =
    str_eq e.namespace ns
    && (is_null e.acknowledged_at
        && (is_terminal e.status && given job (λ i. i == 0 || e.job_id == i)))

unfoldable pub list_pending_ack : String → Option Uuid → ℤ → Tables → List Execution
unfolding with_defaults
list_pending_ack ns job limit t =
    page_of (with_defaults (record { limit = limit; offset = pos 0 }))
      (newest_first (keep (awaits_ack ns job) t.executions))

unfoldable pub get_execution : Uuid → Tables → Option Execution
unfolding find
get_execution i t = find i t.executions

unfoldable pub get_execution_scoped : Uuid → String → Tables → Option Execution
get_execution_scoped i ns t =
    find_row (λ (e : Execution). e.id == i && str_eq e.namespace ns) t.executions

unfoldable pub get_recent_executions : Uuid → ℕ → Tables → List Execution
get_recent_executions i limit t = take limit (newest_first (keep (runs i) t.executions))

-- The first row in the order is the last by its time.
unfoldable pub get_last_scheduled_execution : Uuid → Tables → Option Time
get_last_scheduled_execution i t =
    elim (order_desc (λ (e : Execution). e.scheduled_at)
      (keep (λ (e : Execution). runs i e && str_eq (trigger_text e.trigger_type) "scheduled")
        t.executions)) [ [] ↦ none | e ∷ es ↦ some e.scheduled_at ]

unfoldable pub get_tags : (String → String → Bool) → Uuid → Tables → List Tag
get_tags key_leb i t =
    map (λ (r : TagRow). r.tag)
      (order_by (λ (r s : TagRow). key_leb r.tag.key s.tag.key) (keep (of_job i) t.tags))

unfoldable pub get_attempts : Uuid → Tables → List DeliveryAttempt
get_attempts i t =
    order_by (λ (a b : DeliveryAttempt). leb a.attempt b.attempt)
      (keep (λ (a : DeliveryAttempt). a.execution_id == i) t.attempts)
