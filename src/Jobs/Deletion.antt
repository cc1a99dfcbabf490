-- ===== src/Jobs/Deletion.antt =====
-- internal/store/postgres: what DeleteJob leaves, and what a new job reads back as.
use easy_cron.Prelude.{
  ◌≡◌, refl, inl, inr, Bool, true, not, ◌||◌, ◌&&◌, String, none, some, List, [], ◌∷◌, ◌==◌, str_eq,
  str_eq_iff, arith, Bool-cases, Option-cases, keep, any, find_row,
}
use easy_cron.Domain.{Uuid, Job, Schedule}
use easy_cron.Jobs.{
  Tables, Tag, is_job, is_scoped, is_schedule, of_job, stored, stored_schedule, runs, upsert_all,
  create_job_aggregate, delete_job, get_job_with_schedule_scoped,
}
use easy_cron.Jobs.Scoped.{Shows-get}

keep-not {ℓ} : {A : Type ℓ} (p : A → Bool) (xs : List A) → keep p (keep (λ x. not (p x)) xs) ≡ []
keep-not p [] = refl
keep-not p (x ∷ xs) = ground (arith, keep-not p xs)

find_row-not {ℓ} :
    {A : Type ℓ} (p : A → Bool) (xs : List A) → find_row p (keep (λ x. not (p x)) xs) ≡ none
find_row-not p [] = refl
find_row-not p (x ∷ xs) = ground (arith, find_row-not p xs)

-- What is gone after a deletion.
pub IsGone : Uuid → Tables → Type 0
IsGone i t =
    (find_row (is_job i) t.jobs ≡ none)
    × (keep (of_job i) t.tags ≡ [])
    × (keep (runs i) t.executions ≡ [])

pub delete-IsGone :
    (i : Uuid) (ns : String) (t : Tables)
    → (delete_job i ns t).1 ≡ none
    → IsGone i (delete_job i ns t).0
unfolding delete_job IsGone
delete-IsGone i ns t h = elim (Option-cases (find_row (is_scoped i ns) t.jobs)) [
  | inl e ↦ absurd (ground (arith, e))
  | inr (j, e) ↦
      elim (Bool-cases
        (any (λ (l : Job). l.schedule_id == j.schedule_id) (keep (λ l. not (is_job i l)) t.jobs))) [
          | inl a ↦ absurd (ground (arith, e, a))
          | inr a ↦
              rw (delete_job, e, a)
                (
                  find_row-not (is_job i) t.jobs,
                  keep-not (of_job i) t.tags,
                  keep-not (runs i) t.executions,
                )
        ]
]

-- The row of a new job.
pub created_row :
    (job : Job) (schedule : Schedule) (tags : List Tag) (t : Tables)
    → job.schedule_id ≡ schedule.id
    → (create_job_aggregate job schedule tags t).1 ≡ none
    → get_job_with_schedule_scoped job.id job.namespace (create_job_aggregate job schedule tags t).0
      ≡ some (record { job = stored job; schedule = stored_schedule schedule })
unfolding create_job_aggregate get_job_with_schedule_scoped
created_row job schedule tags t e h =
    let self = str_eq_iff job.namespace job.namespace in
    elim (Bool-cases (any (is_schedule schedule.id) t.schedules)) [
      | inl a ↦ absurd (ground (arith, a, h))
      | inr a ↦
          elim (Bool-cases (
            any (is_job job.id) t.jobs
            || not (any (is_schedule job.schedule_id) (stored_schedule schedule ∷ t.schedules)))) [
              | inl b ↦ absurd (ground (arith, a, b, h))
              | inr b ↦
                  let here : (job.id == job.id && str_eq job.namespace job.namespace) ≡ true =
                    ground (arith, self) in
                  let own : (schedule.id == job.schedule_id) ≡ true = ground (arith, e) in
                  Shows-get job.id job.namespace
                    (record { job = stored job; schedule = stored_schedule schedule })
                    (keep (of_job job.id) (create_job_aggregate job schedule tags t).0.tags)
                    (create_job_aggregate job schedule tags t).0
                    (rw (create_job_aggregate, a, b)
                      (ground (arith, here), ground (arith, own), refl))
            ]
    ]

-- The other tables after a job is created.
pub created_rest :
    (job : Job) (schedule : Schedule) (tags : List Tag) (t : Tables)
    → (create_job_aggregate job schedule tags t).1 ≡ none
    → ((create_job_aggregate job schedule tags t).0.tags ≡ upsert_all job.id tags t.tags)
      × ((create_job_aggregate job schedule tags t).0.executions ≡ t.executions)
unfolding create_job_aggregate
created_rest job schedule tags t h = ground arith
