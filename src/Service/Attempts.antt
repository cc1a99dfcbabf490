-- ===== src/Service/Attempts.antt =====
-- internal/service/jobs.go: the attempts of TriggerNow.
use mathlib.Core.Path.{subst}
use easy_cron.Prelude.{
  ℕ, zero, suc, ◌*◌, ◌/◌, ◌≤◌, ◌<◌, ◌≡◌, refl, ap, Option, Bool, true, false, ◌&&◌, String, none,
  some, ◌⊎◌, inl, inr, arith, Option-cases, Sum-cases, str_eq, List, [], ◌∷◌, Bool-cases, keep, any,
  length, leb, ◌==◌, if◌then◌else◌,
}
use easy_cron.Domain.{Time, Uuid, Execution, manual, emitted}
use easy_cron.Store
use easy_cron.Store.{insert_execution, conflicts, count_where}
use easy_cron.Jobs.{Tables, duplicate, no_job, is_job, insert_run, get_job_with_schedule_scoped}
use easy_cron.Service.{
  ServiceError, State, insert_failed, namespace_required, job_not_found, job_disabled,
}
use easy_cron.Service.Trigger.{
  trigger_now, insert_manual, manual_run, next_timestamp, max_insert_attempts, finish, event_of,
  microsecond,
}

-- A statement that inserts a run, or leaves the tables as they were.
abbrev Inserted : Execution → Tables → Type 0
Inserted e t = ((insert_run e t).1 ≡ none) × ((insert_run e t).0.executions ≡ e ∷ t.executions)

abbrev Refused : Execution → Tables → Type 0
Refused e t = ((insert_run e t).1 ≡ some no_job) × ((insert_run e t).0 ≡ t)

abbrev Conflicting : Execution → Tables → Type 0
Conflicting e t =
    ((insert_run e t).1 ≡ some duplicate)
    × ((insert_run e t).0 ≡ t)
    × ((length (keep (conflicts e) t.executions) == 0) ≡ false)

insert_run-cases :
    (ns : String) (job_id id : Uuid) (now : Time) (t : Tables)
    → let e = manual_run ns job_id id now in Inserted e t ⊎ (Refused e t ⊎ Conflicting e t)
unfolding insert_run insert_execution count_where
insert_run-cases ns job_id id now t =
    let e = manual_run ns job_id id now in
    elim (Bool-cases (length (keep (conflicts e) t.executions) == 0)) [
      | inr b ↦ inr (inr (rw (insert_run, insert_execution, count_where, b) (refl, refl, refl)))
      | inl b ↦
          let new : insert_execution e t.executions ≡ (e ∷ t.executions, none) =
            rw (insert_execution, count_where, b) refl in
          elim (Bool-cases (any (is_job job_id) t.jobs)) [
            | inr a ↦ inr (inl (rw (insert_run, new, a) (refl, refl)))
            | inl a ↦ inl (
                rw (insert_run, new, a)
                  (refl, ap (λ (r : Store.Table × Option Store.StoreError). r.0) new))
          ]
    ]

-- A run of this job, made by hand.
abbrev pub IsManualRun : String → Uuid → Execution → Type 0
IsManualRun ns job_id e =
    (e.namespace ≡ ns)
    × (e.job_id ≡ job_id)
    × (e.trigger_type ≡ manual)
    × (e.status ≡ emitted)
    × (e.scheduled_at ≡ e.fired_at)

-- The runs of the job from a time on.
abbrev pub taken_from : Uuid → Time → Execution → Bool
taken_from job_id first e = e.job_id == job_id && leb first e.scheduled_at

taken_mono :
    (job_id : Uuid) (first now : Time) (es : List Execution)
    → first ≤ now
    → length (keep (taken_from job_id now) es) ≤ length (keep (taken_from job_id first) es)
taken_mono job_id first now [] l = omega arith
taken_mono job_id first now (x ∷ xs) l = ground (arith, taken_mono job_id first now xs l)

-- A conflict that is not about the id is a run at the same time.
taken_step :
    (ns : String) (job_id id : Uuid) (first now : Time) (es : List Execution)
    → first ≤ now
    → any (λ (e : Execution). e.id == id) es ≡ false
    → (length (keep (conflicts (manual_run ns job_id id now)) es) == 0) ≡ false
    → length (keep (taken_from job_id (suc now)) es) < length (keep (taken_from job_id first) es)
taken_step ns job_id id first now [] l f h = absurd (ground arith)
taken_step ns job_id id first now (x ∷ xs) l f h =
    elim (Bool-cases (x.job_id == job_id && x.scheduled_at == now)) [
      | inl e ↦ ground (arith, e, taken_mono job_id first (suc now) xs (omega (arith, l)))
      | inr e ↦
          let other : conflicts (manual_run ns job_id id now) x ≡ false = ground (arith, e, f) in
          let rest = taken_step ns job_id id first now xs l (ground (arith, f)) (rw other at h) in
          ground (arith, rest, l)
    ]

next_timestamp-lt :
    (reading last : Time) → microsecond ≤ reading → last < next_timestamp reading last
next_timestamp-lt reading last h = ground arith

module _ (clock : ℕ → Time) (ids : ℕ → Uuid) (ns : String) (job_id : Uuid) where
  insert_manual_stored :
      (n i : ℕ) (last : Time) (t : Tables) (e : Execution)
      → (insert_manual clock ids ns job_id n i last t).1 ≡ inr e
      → ((insert_manual clock ids ns job_id n i last t).0.executions ≡ e ∷ t.executions)
        × IsManualRun ns job_id e
  unfolding insert_manual
  insert_manual_stored zero i last t e h = absurd (ground arith)
  insert_manual_stored (suc n) i last t e h =
      let now = next_timestamp (clock i) last in
      let r = manual_run ns job_id (ids i) now in
      elim (insert_run-cases ns job_id (ids i) now t) [
        | inl a ↦
            let q : r ≡ e = ground (arith, a.0, h) in
            subst
              (λ z.
                ((insert_manual clock ids ns job_id (suc n) i last t).0.executions
                  ≡ z ∷ t.executions)
                × IsManualRun ns job_id z)
              q (rw (insert_manual, a.0) (a.1, (refl, refl, refl, refl, refl)))
        | inr b ↦ elim b [
          | inl a ↦ absurd (ground (arith, a.0, h))
          | inr a ↦
              let rest =
                insert_manual_stored n (suc i) now t e (rw (insert_manual, a.0, a.1) at h) in
              rw (insert_manual, a.0, a.1) rest
        ]
      ]

  -- The attempts that end with a duplicate met as many runs of the job.
  insert_manual_exhausted :
      (n i : ℕ) (last first : Time) (t : Tables)
      → ((k : ℕ) → microsecond ≤ clock k)
      → ((k : ℕ) → any (λ (e : Execution). e.id == ids k) t.executions ≡ false)
      → first ≤ next_timestamp (clock i) last
      → (insert_manual clock ids ns job_id n i last t).1 ≡ inl duplicate
      → n ≤ length (keep (taken_from job_id first) t.executions)
  unfolding insert_manual
  insert_manual_exhausted zero i last first t c f l h = omega arith
  insert_manual_exhausted (suc n) i last first t c f l h =
      let now = next_timestamp (clock i) last in
      elim (insert_run-cases ns job_id (ids i) now t) [
        | inl a ↦ absurd (ground (arith, a.0, h))
        | inr b ↦ elim b [
          | inl a ↦ absurd (ground (arith, a.0, h))
          | inr a ↦
              let later : suc now ≤ next_timestamp (clock (suc i)) now =
                omega (arith, next_timestamp-lt (clock (suc i)) now (c (suc i))) in
              let rest =
                insert_manual_exhausted n (suc i) now (suc now) t c f later
                  (rw (insert_manual, a.0, a.1) at h) in
              omega (arith, rest, taken_step ns job_id (ids i) first now t.executions l (f i) a.2)
        ]
      ]

-- What TriggerNow answers before an attempt.
abbrev is_refusal : ServiceError → Bool
is_refusal namespace_required = true
is_refusal job_not_found = true
is_refusal job_disabled = true
is_refusal _ = false

trigger_now-cases :
    (has_emitter : Bool) (clock : ℕ → Time) (ids : ℕ → Uuid) (ns : String) (job_id : Uuid)
    (s : State)
    → (trigger_now has_emitter clock ids ns job_id s
        ≡ finish has_emitter s (insert_manual clock ids ns job_id max_insert_attempts 0 0 s.tables))
      ⊎ ((x : ServiceError) × (trigger_now has_emitter clock ids ns job_id s ≡ (s, inl x))
          × (is_refusal x ≡ true))
unfolding trigger_now
trigger_now-cases has_emitter clock ids ns job_id s = elim (Bool-cases (str_eq ns "")) [
  | inl e ↦ inr (namespace_required, rw e refl, refl)
  | inr e ↦ elim (Option-cases (get_job_with_schedule_scoped job_id ns s.tables)) [
    | inl d ↦ inr (job_not_found, rw (trigger_now, e, d) refl, refl)
    | inr (r, d) ↦ elim (Bool-cases r.job.enabled) [
      | inr b ↦ inr (job_disabled, rw (trigger_now, e, d, b) refl, refl)
      | inl b ↦ inl (rw (trigger_now, e, d, b) refl)
    ]
  ]
]

-- If the clock is at least a microsecond past the zero time and the new ids are those of no
-- execution, TriggerNow fails for a duplicate only where the job already has five or more
-- executions scheduled at or after its first timestamp.
pub trigger_exhausted :
    (has_emitter : Bool) (clock : ℕ → Time) (ids : ℕ → Uuid) (ns : String) (job_id : Uuid)
    (s : State)
    → ((k : ℕ) → microsecond ≤ clock k)
    → ((k : ℕ) → any (λ (e : Execution). e.id == ids k) s.tables.executions ≡ false)
    → (trigger_now has_emitter clock ids ns job_id s).1 ≡ inl (insert_failed duplicate)
    → max_insert_attempts
      ≤ length (keep (taken_from job_id (clock 0 / microsecond * microsecond)) s.tables.executions)
trigger_exhausted has_emitter clock ids ns job_id s c f h =
    let r = insert_manual clock ids ns job_id max_insert_attempts 0 0 s.tables in
    elim (trigger_now-cases has_emitter clock ids ns job_id s) [
      | inr (x, e, q) ↦ absurd (ground (arith, e, h))
      | inl e ↦ elim (Sum-cases r.1) [
        | inr (x, d) ↦ absurd (ground (arith, rw (e, d) at h))
        | inl (x, d) ↦
            let q : r.1 ≡ inl duplicate = ground (arith, d, rw (e, d) at h) in
            insert_manual_exhausted clock ids ns job_id max_insert_attempts 0 0
              (clock 0 / microsecond * microsecond) s.tables c f (ground arith) q
      ]
    ]

-- Where TriggerNow succeeds, it has added just the execution that it returns, which is a manual
-- one, emitted, of this job and namespace; with an emitter it has emitted the event of that
-- execution, without one nothing.
pub triggered_run :
    (has_emitter : Bool) (clock : ℕ → Time) (ids : ℕ → Uuid) (ns : String) (job_id : Uuid)
    (s : State) (e : Execution)
    → (trigger_now has_emitter clock ids ns job_id s).1 ≡ inr e
    → IsManualRun ns job_id e
      × ((trigger_now has_emitter clock ids ns job_id s).0.tables.executions
          ≡ e ∷ s.tables.executions)
      × ((trigger_now has_emitter clock ids ns job_id s).0.events
          ≡ (if has_emitter then event_of e ∷ s.events else s.events))
triggered_run has_emitter clock ids ns job_id s e h =
    let r = insert_manual clock ids ns job_id max_insert_attempts 0 0 s.tables in
    elim (trigger_now-cases has_emitter clock ids ns job_id s) [
      | inr (x, q, p) ↦ absurd (ground (arith, q, h))
      | inl q ↦ elim (Sum-cases r.1) [
        | inl (x, d) ↦ absurd (ground (arith, rw (q, d) at h))
        | inr (x, d) ↦
            let p : r.1 ≡ inr e = ground (arith, d, rw (q, d) at h) in
            let k = insert_manual_stored clock ids ns job_id max_insert_attempts 0 0 s.tables e p in
            rw (q, p) (k.1, k.0, refl)
      ]
    ]
