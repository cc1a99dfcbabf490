-- ===== src/Jobs/Invariant.antt =====
-- internal/store/postgres: what the keys of the tables keep apart.
use mathlib.Core.Path.{subst}
use easy_cron.Prelude.{
  ◌≡◌, ◌≢◌, ◌∙◌, refl, sym, ap, inl, inr, Bool, true, false, not, String, Option, List, [], ◌∷◌,
  ◌==◌, arith, Bool-cases, Option-cases, All, keep, any, find_row, update_rows, All-map, All-keep,
  All-update_rows,
}
use easy_cron.Store.{insert_execution}
use easy_cron.Domain.{Uuid, Job, Schedule, Execution}
use easy_cron.Jobs.{
  Tables, Tag, is_job, is_scoped, is_schedule, stored, set_job, set_schedule, create_job_aggregate,
  update_job, update_schedule, update_job_aggregate, delete_job, insert_run,
}

-- Two jobs have neither their id nor their schedule in common.
abbrev pub Distinct : Job → Job → Type 0
Distinct j k = (j.id ≢ k.id) × (j.schedule_id ≢ k.schedule_id)

abbrev pub IsDistinct : List Job → Type 0
IsDistinct [] = Unit
IsDistinct (j ∷ js) = All (Distinct j) js × IsDistinct js

-- The schedule of a job is there.
abbrev pub Owned : List Schedule → Job → Type 0
Owned schedules j = any (is_schedule j.schedule_id) schedules ≡ true

-- Every job has an id of its own and a schedule of its own, which is there.
abbrev pub IsConsistent : Tables → Type 0
IsConsistent t = IsDistinct t.jobs × All (Owned t.schedules) t.jobs

-- A new job is apart from all others where its ids are new.
Distinct-new :
    (j : Job) (schedules : List Schedule) (jobs : List Job)
    → any (is_job j.id) jobs ≡ false
    → any (is_schedule j.schedule_id) schedules ≡ false
    → All (Owned schedules) jobs
    → All (Distinct j) jobs
Distinct-new j schedules [] a b h = tt
Distinct-new j schedules (k ∷ jobs) a b h = (
  (
    (λ e. ground (arith, e)),
    (λ e. ground (arith, ap (λ (z : Uuid). any (is_schedule z) schedules) e, h.0)),
  ),
  Distinct-new j schedules jobs (ground arith) b h.1,
)

-- What a statement changes on a row of `schedules` or adds to them, no job misses.
Owned-new :
    (s : Schedule) (schedules : List Schedule) (j : Job)
    → Owned schedules j
    → Owned (s ∷ schedules) j
Owned-new s schedules j h = ground arith

-- What a job is stored with next to others.
created :
    (job : Job) (schedule : Schedule) (t : Tables)
    → job.schedule_id ≡ schedule.id
    → any (is_schedule schedule.id) t.schedules ≡ false
    → any (is_job job.id) t.jobs ≡ false
    → IsConsistent t
    → IsDistinct (stored job ∷ t.jobs) × All (Owned (schedule ∷ t.schedules)) (stored job ∷ t.jobs)
created job schedule t e a b (d, o) = (
  (
    Distinct-new (stored job) t.schedules t.jobs b
        (subst (λ (z : Uuid). any (is_schedule z) t.schedules ≡ false) (sym e) a) o,
    d,
  ),
  (
    ground arith,
    All-map (Owned t.schedules) (Owned (schedule ∷ t.schedules)) t.jobs
        (Owned-new schedule t.schedules) o,
  ),
)

pub create-IsConsistent :
    (job : Job) (schedule : Schedule) (tags : List Tag) (t : Tables)
    → job.schedule_id ≡ schedule.id
    → IsConsistent t
    → IsConsistent (create_job_aggregate job schedule tags t).0
unfolding create_job_aggregate
create-IsConsistent job schedule tags t e h =
    elim (Bool-cases (any (is_schedule schedule.id) t.schedules)) [
      | inl a ↦ rw a h
      | inr a ↦ elim (Bool-cases (any (is_job job.id) t.jobs)) [
        | inl b ↦ rw (a, b) h
        | inr b ↦
            let own : (schedule.id == job.schedule_id) ≡ true = ground (arith, e) in
            rw (create_job_aggregate, a, b, own) (created job schedule t e a b h)
      ]
    ]

IsDistinct-update_rows :
    (p : Job → Bool) (new : Job) (jobs : List Job)
    → IsDistinct jobs
    → IsDistinct (update_rows p (set_job new) jobs)
IsDistinct-update_rows p new [] h = tt
IsDistinct-update_rows p new (j ∷ js) h =
    let tail = All-update_rows (Distinct j) p (set_job new) js (λ k d. d) h.0 in
    elim (Bool-cases (p j)) [
      | inl e ↦ rw e (tail, IsDistinct-update_rows p new js h.1)
      | inr e ↦ rw e (tail, IsDistinct-update_rows p new js h.1)
    ]

pub update_job-IsConsistent :
    (job : Job) (t : Tables) → IsConsistent t → IsConsistent (update_job job t).0
unfolding update_job
update_job-IsConsistent job t (d, o) =
    elim (Bool-cases (any (is_scoped job.id job.namespace) t.jobs)) [
      | inl e ↦ rw e (
        IsDistinct-update_rows (is_scoped job.id job.namespace) job t.jobs d,
        All-update_rows (Owned t.schedules) (is_scoped job.id job.namespace) (set_job job) t.jobs
            (λ k h. h) o,
      )
      | inr e ↦ rw e (d, o)
    ]

-- A change of a schedule keeps its id.
any-update_schedule :
    (i : Uuid) (new : Schedule) (p : Schedule → Bool) (schedules : List Schedule)
    → any (is_schedule i) (update_rows p (set_schedule new) schedules)
      ≡ any (is_schedule i) schedules
any-update_schedule i new p [] = refl
any-update_schedule i new p (s ∷ schedules) = ground (arith, any-update_schedule i new p schedules)

pub update_schedule-IsConsistent :
    (s : Schedule) (t : Tables) → IsConsistent t → IsConsistent (update_schedule s t)
unfolding update_schedule
update_schedule-IsConsistent s t (d, o) = (
  d,
  All-map (Owned t.schedules) (Owned (update_schedule s t).schedules) t.jobs
      (λ j h. any-update_schedule j.schedule_id s (is_schedule s.id) t.schedules ∙ h) o,
)

pub update-IsConsistent :
    (job : Job) (s : Schedule) (tags : Option (List Tag)) (t : Tables)
    → IsConsistent t
    → IsConsistent (update_job_aggregate job s tags t).0
unfolding update_job_aggregate
update-IsConsistent job s tags t h = elim (Option-cases (update_job job (update_schedule s t)).1) [
  | inl e ↦
      rw (update_job_aggregate, e)
        (update_job-IsConsistent job (update_schedule s t) (update_schedule-IsConsistent s t h))
  | inr (x, e) ↦ rw (update_job_aggregate, e) h
]

any-keep-other :
    (i k : Uuid) (schedules : List Schedule)
    → (k == i) ≡ false
    → any (is_schedule k) schedules ≡ true
    → any (is_schedule k) (keep (λ s. not (is_schedule i s)) schedules) ≡ true
any-keep-other i k [] e h = ground arith
any-keep-other i k (s ∷ schedules) e h = ground (arith, any-keep-other i k schedules e)

IsDistinct-keep : (p : Job → Bool) (jobs : List Job) → IsDistinct jobs → IsDistinct (keep p jobs)
IsDistinct-keep p [] h = tt
IsDistinct-keep p (j ∷ js) h = elim (Bool-cases (p j)) [
  | inl e ↦ rw e (All-keep (Distinct j) p js h.0, IsDistinct-keep p js h.1)
  | inr e ↦ rw e (IsDistinct-keep p js h.1)
]

-- A schedule that no job refers to can go.
Owned-keep :
    (i : Uuid) (schedules : List Schedule) (jobs : List Job)
    → any (λ (k : Job). k.schedule_id == i) jobs ≡ false
    → All (Owned schedules) jobs
    → All (Owned (keep (λ s. not (is_schedule i s)) schedules)) jobs
Owned-keep i schedules [] e h = tt
Owned-keep i schedules (j ∷ jobs) e h = (
  any-keep-other i j.schedule_id schedules (ground (arith, e)) h.0,
  Owned-keep i schedules jobs (ground arith) h.1,
)

pub delete-IsConsistent :
    (i : Uuid) (ns : String) (t : Tables) → IsConsistent t → IsConsistent (delete_job i ns t).0
unfolding delete_job
delete-IsConsistent i ns t h = elim (Option-cases (find_row (is_scoped i ns) t.jobs)) [
  | inl e ↦ rw (delete_job, e) h
  | inr (j, e) ↦
      let jobs = keep (λ k. not (is_job i k)) t.jobs in
      elim (Bool-cases (any (λ (k : Job). k.schedule_id == j.schedule_id) jobs)) [
        | inl a ↦ rw (delete_job, e, a) h
        | inr a ↦
            rw (delete_job, e, a)
              (
                IsDistinct-keep (λ k. not (is_job i k)) t.jobs h.0,
                Owned-keep j.schedule_id t.schedules jobs a
                    (All-keep (Owned t.schedules) (λ k. not (is_job i k)) t.jobs h.1),
              )
      ]
]

pub insert_run-IsConsistent :
    (e : Execution) (t : Tables) → IsConsistent t → IsConsistent (insert_run e t).0
unfolding insert_run
insert_run-IsConsistent e t h = elim (Option-cases (insert_execution e t.executions).1) [
  | inr (x, b) ↦ rw (insert_run, b) h
  | inl b ↦ elim (Bool-cases (any (is_job e.job_id) t.jobs)) [
    | inl a ↦ rw (insert_run, b, a) h
    | inr a ↦ rw (insert_run, b, a) h
  ]
]
