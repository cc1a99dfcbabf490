-- ===== src/Jobs/Scoped.antt =====
-- internal/store/postgres/store.go: what a statement in one namespace leaves of a job in another.
use mathlib.Core.Path.{subst}
use easy_cron.Prelude.{
  ◌≡◌, ◌≢◌, ◌⊎◌, ◌∙◌, refl, sym, inl, inr, Bool, false, not, ◌||◌, String, Option, none, some, List,
  [], ◌∷◌, ◌++◌, ◌==◌, str_eq_iff, arith, Bool-cases, Option-cases, In, All-In, keep, any, find_row,
  In-any, find_row-In, find_row-update_rows_other, find_row-keep, keep-keep, keep-update_rows_other,
}
use easy_cron.Store.{insert_execution}
use easy_cron.Domain.{Uuid, Job, Schedule, JobWithSchedule, Execution}
use easy_cron.Jobs.{
  Tables, Tag, TagRow, is_job, is_scoped, is_schedule, is_tag, of_job, set_job, set_schedule,
  create_job_aggregate, update_job, update_schedule, update_job_aggregate, delete_job, upsert_tag,
  upsert_all, replace_tags, insert_run, get_job_with_schedule_scoped,
}
use easy_cron.Jobs.Invariant.{Distinct, IsDistinct}

-- The tables show a job with its schedule and its tags.
abbrev pub Shows : Uuid → String → JobWithSchedule → List TagRow → Tables → Type 0
Shows i ns row tags t =
    (find_row (is_scoped i ns) t.jobs ≡ some row.job)
    × (find_row (is_schedule row.job.schedule_id) t.schedules ≡ some row.schedule)
    × (keep (of_job i) t.tags ≡ tags)

pub shown :
    (i : Uuid) (ns : String) (row : JobWithSchedule) (t : Tables)
    → get_job_with_schedule_scoped i ns t ≡ some row
    → Shows i ns row (keep (of_job i) t.tags) t
unfolding get_job_with_schedule_scoped
shown i ns row t h = elim (Option-cases (find_row (is_scoped i ns) t.jobs)) [
  | inl e ↦ absurd (ground arith)
  | inr (j, e) ↦ elim (Option-cases (find_row (is_schedule j.schedule_id) t.schedules)) [
    | inl d ↦ absurd (ground arith)
    | inr (s, d) ↦
        let q : record { job = j; schedule = s } ≡ row = ground (arith, e, d, h) in
        subst (λ r. Shows i ns r (keep (of_job i) t.tags) t) q (e, d, refl)
  ]
]

pub Shows-get :
    (i : Uuid) (ns : String) (row : JobWithSchedule) (tags : List TagRow) (t : Tables)
    → Shows i ns row tags t
    → get_job_with_schedule_scoped i ns t ≡ some row
unfolding get_job_with_schedule_scoped
Shows-get i ns row tags t (a, b, c) = ground (arith, a, b)

-- Two rows are the same row or have nothing in common.
same_or_Distinct :
    (jobs : List Job) (j k : Job) → IsDistinct jobs → In j jobs → In k jobs → (j ≡ k) ⊎ Distinct j k
same_or_Distinct [] j k d a b = absurd a
same_or_Distinct (x ∷ xs) j k d (inl a) (inl b) = inl (a ∙ sym b)
same_or_Distinct (x ∷ xs) j k d (inl a) (inr b) =
    inr (subst (λ z. Distinct z k) (sym a) (All-In (Distinct x) xs k d.0 b))
same_or_Distinct (x ∷ xs) j k d (inr a) (inl b) =
    let r = All-In (Distinct x) xs j d.0 a in
    inr (subst (λ z. Distinct j z) (sym b) ((λ e. r.0 (sym e)), (λ e. r.1 (sym e))))
same_or_Distinct (x ∷ xs) j k d (inr a) (inr b) = same_or_Distinct xs j k d.1 a b

-- Rows found in two namespaces.
pub foreign-Distinct :
    (jobs : List Job) (i k : Uuid) (ns other : String) (j l : Job)
    → IsDistinct jobs
    → ns ≢ other
    → find_row (is_scoped i ns) jobs ≡ some j
    → find_row (is_scoped k other) jobs ≡ some l
    → Distinct j l × (j.id ≡ i) × (l.id ≡ k)
foreign-Distinct jobs i k ns other j l d n a b =
    let f = find_row-In (is_scoped i ns) jobs j a in
    let g = find_row-In (is_scoped k other) jobs l b in
    elim (same_or_Distinct jobs j l d f.0 g.0) [
      | inl e ↦
          absurd (
            n (
              ground (arith, f.1, g.1, e, str_eq_iff j.namespace ns, str_eq_iff l.namespace other)))
      | inr e ↦ (e, ground (arith, f.1), ground (arith, g.1))
    ]

keep-snoc :
    {A : Type 0} (p : A → Bool) (xs : List A) (x : A)
    → p x ≡ false
    → keep p (xs ++ (x ∷ [])) ≡ keep p xs
keep-snoc p [] x h = ground (arith, h)
keep-snoc p (y ∷ ys) x h = ground (arith, keep-snoc p ys x h)

-- Tags of one job do not touch those of another.
keep-upsert_tag :
    (i k : Uuid) (rows : List TagRow) (tag : Tag)
    → k ≢ i
    → keep (of_job i) (upsert_tag k rows tag) ≡ keep (of_job i) rows
keep-upsert_tag i k rows tag n = elim (Bool-cases (any (is_tag k tag.key) rows)) [
  | inl e ↦ rw e (
      keep-update_rows_other (is_tag k tag.key) (of_job i) (λ (r : TagRow). record r { tag = tag })
        rows (λ r h. let f : (r.job_id == i) ≡ false = ground (arith, n) in (f, f)))
  | inr e ↦ rw e (keep-snoc (of_job i) rows (record { job_id = k; tag = tag }) (ground (arith, n)))
]

keep-upsert_all :
    (i k : Uuid) (tags : List Tag) (rows : List TagRow)
    → k ≢ i
    → keep (of_job i) (upsert_all k tags rows) ≡ keep (of_job i) rows
keep-upsert_all i k [] rows n = refl
keep-upsert_all i k (tag ∷ tags) rows n =
    keep-upsert_all i k tags (upsert_tag k rows tag) n ∙ keep-upsert_tag i k rows tag n

-- Nor do those that an update replaces.
keep-replace_tags :
    (i k : Uuid) (new : Option (List Tag)) (rows : List TagRow)
    → k ≢ i
    → keep (of_job i) (replace_tags k new rows) ≡ keep (of_job i) rows
keep-replace_tags i k none rows m = refl
keep-replace_tags i k (some ts) rows m =
    keep-upsert_all i k ts (keep (λ r. not (of_job k r)) rows) m
    ∙ keep-keep (λ r. not (of_job k r)) (of_job i) rows (λ r q. ground (arith, m))

-- The statements, in a namespace that is not the job's.
module _ (i : Uuid) (ns : String) (row : JobWithSchedule) (tags : List TagRow) where
  pub create-Shows :
      (job : Job) (schedule : Schedule) (new : List Tag) (t : Tables)
      → Shows i ns row tags t
      → Shows i ns row tags (create_job_aggregate job schedule new t).0
  unfolding create_job_aggregate
  create-Shows job schedule new t h =
      elim (Bool-cases (any (is_schedule schedule.id) t.schedules)) [
        | inl a ↦ rw a h
        | inr a ↦
            elim (Bool-cases (
              any (is_job job.id) t.jobs
              || not (any (is_schedule job.schedule_id) (schedule ∷ t.schedules)))) [
                | inl b ↦ rw (create_job_aggregate, a, b) h
                | inr b ↦
                    let f = find_row-In (is_scoped i ns) t.jobs row.job h.0 in
                    let g =
                      find_row-In (is_schedule row.job.schedule_id) t.schedules row.schedule h.1 in
                    let other : (job.id == i) ≡ false =
                      ground (arith, In-any (is_job job.id) t.jobs row.job f.0) in
                    let apart : (schedule.id == row.job.schedule_id) ≡ false =
                      ground
                        (arith, In-any (is_schedule schedule.id) t.schedules row.schedule g.0) in
                    rw (create_job_aggregate, a, b)
                      (
                        ground (arith, h.0),
                        ground (arith, h.1),
                        keep-upsert_all i job.id new t.tags (ground arith) ∙ h.2,
                      )
              ]
      ]

  pub update_job-Shows :
      (job : Job) (t : Tables)
      → job.namespace ≢ ns
      → Shows i ns row tags t
      → Shows i ns row tags (update_job job t).0
  unfolding update_job
  update_job-Shows job t n h = elim (Bool-cases (any (is_scoped job.id job.namespace) t.jobs)) [
    | inl e ↦ rw e (
      find_row-update_rows_other (is_scoped job.id job.namespace) (is_scoped i ns) (set_job job)
            t.jobs
            (λ k q.
              let f : is_scoped i ns k ≡ false =
                ground
                  (arith, str_eq_iff k.namespace ns, str_eq_iff k.namespace job.namespace, n) in
              (f, f))
          ∙ h.0,
      h.1,
      h.2,
    )
    | inr e ↦ rw e h
  ]

  pub update-Shows :
      (job : Job) (schedule : Schedule) (new : Option (List Tag)) (t : Tables)
      → job.namespace ≢ ns
      → job.id ≢ i
      → schedule.id ≢ row.job.schedule_id
      → Shows i ns row tags t
      → Shows i ns row tags (update_job_aggregate job schedule new t).0
  unfolding update_job_aggregate update_schedule
  update-Shows job schedule new t n m o h =
      let moved =
        find_row-update_rows_other (is_schedule schedule.id) (is_schedule row.job.schedule_id)
          (set_schedule schedule) t.schedules
          (λ k q.
            let f : is_schedule row.job.schedule_id k ≡ false = ground (arith, o) in (f, f)) in
      let s1 = update_job-Shows job (update_schedule schedule t) n (h.0, moved ∙ h.1, h.2) in
      elim (Option-cases (update_job job (update_schedule schedule t)).1) [
        | inl e ↦
            rw (update_job_aggregate, e)
              (
                s1.0,
                s1.1,
                keep-replace_tags i job.id new (update_job job (update_schedule schedule t)).0.tags
                      m
                    ∙ s1.2,
              )
        | inr (x, e) ↦ rw (update_job_aggregate, e) h
      ]

  pub delete-Shows :
      (k : Uuid) (other : String) (t : Tables)
      → IsDistinct t.jobs
      → other ≢ ns
      → Shows i ns row tags t
      → Shows i ns row tags (delete_job k other t).0
  unfolding delete_job
  delete-Shows k other t d n h = elim (Option-cases (find_row (is_scoped k other) t.jobs)) [
    | inl e ↦ rw (delete_job, e) h
    | inr (j, e) ↦
        let f = foreign-Distinct t.jobs k i other ns j row.job d n e h.0 in
        let apart : (k == i) ≡ false = ground (arith, f) in
        elim (Bool-cases (
          any (λ (l : Job). l.schedule_id == j.schedule_id)
            (keep (λ l. not (is_job k l)) t.jobs))) [
              | inl a ↦ rw (delete_job, e, a) h
              | inr a ↦
                  rw (delete_job, e, a)
                    (
                      find_row-keep (λ l. not (is_job k l)) (is_scoped i ns) t.jobs
                            (λ l q. ground (arith, q, apart))
                          ∙ h.0,
                      find_row-keep (λ s. not (is_schedule j.schedule_id s))
                            (is_schedule row.job.schedule_id) t.schedules
                            (λ s q. ground (arith, q, f))
                          ∙ h.1,
                      keep-keep (λ r. not (of_job k r)) (of_job i) t.tags
                            (λ r q. ground (arith, apart))
                          ∙ h.2,
                    )
            ]
  ]

  pub insert_run-Shows :
      (e : Execution) (t : Tables) → Shows i ns row tags t → Shows i ns row tags (insert_run e t).0
  unfolding insert_run
  insert_run-Shows e t h = elim (Option-cases (insert_execution e t.executions).1) [
    | inr (x, b) ↦ rw (insert_run, b) h
    | inl b ↦ elim (Bool-cases (any (is_job e.job_id) t.jobs)) [
      | inl a ↦ rw (insert_run, b, a) h
      | inr a ↦ rw (insert_run, b, a) h
    ]
  ]
