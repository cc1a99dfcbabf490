-- ===== src/Service/Isolation.antt =====
-- internal/service: calls in one namespace and the jobs of another.
use easy_cron.Prelude.{
  ℕ, zero, suc, ◌≡◌, ◌≢◌, refl, Bool, true, false, String, some, inl, inr, arith, Option-cases,
  Sum-cases, ◌||◌, str_eq, str_eq_iff, List, [], ◌∷◌, Bool-cases, keep, find_row-In,
}
use easy_cron.Domain.{Time, Uuid, Job, Schedule, JobWithSchedule}
use easy_cron.Cron.{Library}
use easy_cron.WebhookUrl
use easy_cron.WebhookUrl.{Net}
use easy_cron.Jobs
use easy_cron.Jobs.{
  Tables, TagRow, Tag, InsertError, duplicate, no_job, of_job, is_job, is_scoped, is_schedule,
  create_job_aggregate, update_job_aggregate, get_job_with_schedule_scoped, insert_run,
}
use easy_cron.Jobs.Invariant.{
  IsConsistent, create-IsConsistent, update-IsConsistent, update_job-IsConsistent,
  delete-IsConsistent, insert_run-IsConsistent,
}
use easy_cron.Jobs.Scoped.{
  Shows, shown, Shows-get, create-Shows, update-Shows, update_job-Shows, delete-Shows,
  insert_run-Shows, foreign-Distinct,
}
use easy_cron.Service.{CreateJobInput, UpdateJobInput, State, is_given}
use easy_cron.Service.Write.{
  create_job, update_job, delete_job, pause_job, resume_job, set_enabled, check_schedule, check_url,
  update_schedule, new_job, new_schedule, patch_job, patch_schedule,
}
use easy_cron.Service.Trigger.{
  trigger_now, finish, max_insert_attempts, insert_manual, manual_run, next_timestamp,
}
use easy_cron.Service.Read.{acknowledge}
use easy_cron.Service.Guards.{
  Call, create, update, delete, pause, resume, trigger, ack, answer, serve,
}

module _ (i : Uuid) (other : String) (row : JobWithSchedule) (tags : List TagRow) (ns : String)
    (apart : ns ≢ other) where
  -- What the calls keep.
  abbrev Kept : Tables → Type 0
  Kept t = IsConsistent t × Shows i other row tags t

  module _ (lib : Library) (net : Net) where
    create-Kept :
        (input : CreateJobInput) (now : Time) (sid jid : Uuid) (s : State)
        → Kept s.tables
        → Kept (create_job lib net ns input now sid jid s).0.tables
    unfolding create_job
    create-Kept input now sid jid s h = elim (Bool-cases (str_eq ns "")) [
      | inl e ↦ rw e h
      | inr e ↦ elim (Option-cases (check_schedule lib input.cron_expression input.timezone)) [
        | inr (x, d) ↦ rw (create_job, e, d) h
        | inl d ↦ elim (Option-cases (WebhookUrl.validate net input.webhook_url)) [
          | inr (x, c) ↦ rw (create_job, e, d, c) h
          | inl c ↦
              let job = new_job ns input now sid jid in
              let schedule = new_schedule input now sid in
              let k : Kept (create_job_aggregate job schedule input.tags s.tables).0 = (
                create-IsConsistent job schedule input.tags s.tables refl h.0,
                create-Shows i other row tags job schedule input.tags s.tables h.1,
              ) in
              elim (Option-cases (create_job_aggregate job schedule input.tags s.tables).1) [
                | inl b ↦ rw (create_job, e, d, c, b) k
                | inr (x, b) ↦ rw (create_job, e, d, c, b) k
              ]
        ]
      ]
    ]

  delete-Kept : (id : Uuid) (s : State) → Kept s.tables → Kept (delete_job ns id s).0.tables
  unfolding delete_job
  delete-Kept id s h = elim (Bool-cases (str_eq ns "")) [
    | inl e ↦ rw e h
    | inr e ↦ rw e (
      delete-IsConsistent id ns s.tables h.0,
      delete-Shows i other row tags id ns s.tables h.0.0 apart h.1,
    )
  ]

  ack-Kept :
      (id : Uuid) (now : Time) (s : State) → Kept s.tables → Kept (acknowledge ns id now s).0.tables
  unfolding acknowledge
  ack-Kept id now s h = elim (Bool-cases (str_eq ns "")) [ inl e ↦ rw e h | inr e ↦ rw e h ]

  set_enabled-Kept :
      (flag : Bool) (id : Uuid) (now : Time) (s : State)
      → Kept s.tables
      → Kept (set_enabled flag ns id now s).0.tables
  unfolding set_enabled
  set_enabled-Kept flag id now s h = elim (Bool-cases (str_eq ns "")) [
    | inl e ↦ rw e h
    | inr e ↦ elim (Option-cases (get_job_with_schedule_scoped id ns s.tables)) [
      | inl d ↦ rw (set_enabled, e, d) h
      | inr (r, d) ↦
          let job : Job = record r.job { enabled = flag; updated_at = now } in
          let f = find_row-In (is_scoped id ns) s.tables.jobs r.job (shown id ns r s.tables d).0 in
          let n : r.job.namespace ≢ other =
            λ q. apart (ground (arith, f.1, q, str_eq_iff r.job.namespace ns)) in
          let k : Kept (Jobs.update_job job s.tables).0 = (
            update_job-IsConsistent job s.tables h.0,
            update_job-Shows i other row tags job s.tables n h.1,
          ) in
          elim (Option-cases (Jobs.update_job job s.tables).1) [
            | inl b ↦ rw (set_enabled, e, d, b) k
            | inr (x, b) ↦ rw (set_enabled, e, d, b) k
          ]
    ]
  ]

  insert_manual-Kept :
      (clock : ℕ → Time) (ids : ℕ → Uuid) (id : Uuid) (n m : ℕ) (last : Time) (t : Tables)
      → Kept t
      → Kept (insert_manual clock ids ns id n m last t).0
  unfolding insert_manual insert_run
  insert_manual-Kept clock ids id zero m last t h = h
  insert_manual-Kept clock ids id (suc n) m last t h =
      let now = next_timestamp (clock m) last in
      let e = manual_run ns id (ids m) now in
      let k : Kept (insert_run e t).0 =
        (insert_run-IsConsistent e t h.0, insert_run-Shows i other row tags e t h.1) in
      elim (Option-cases (insert_run e t).1) [
        | inl b ↦ rw (insert_manual, b) k
        | inr (duplicate, b) ↦
            rw (insert_manual, b)
              (insert_manual-Kept clock ids id n (suc m) now (insert_run e t).0 k)
        | inr (no_job, b) ↦ rw (insert_manual, b) k
      ]

  trigger-Kept :
      (has_emitter : Bool) (clock : ℕ → Time) (ids : ℕ → Uuid) (id : Uuid) (s : State)
      → Kept s.tables
      → Kept (trigger_now has_emitter clock ids ns id s).0.tables
  unfolding trigger_now
  trigger-Kept has_emitter clock ids id s h = elim (Bool-cases (str_eq ns "")) [
    | inl e ↦ rw e h
    | inr e ↦ elim (Option-cases (get_job_with_schedule_scoped id ns s.tables)) [
      | inl d ↦ rw (trigger_now, e, d) h
      | inr (r, d) ↦ elim (Bool-cases r.job.enabled) [
        | inr b ↦ rw (trigger_now, e, d, b) h
        | inl b ↦
            let k = insert_manual-Kept clock ids id max_insert_attempts 0 0 s.tables h in
            elim (Sum-cases (insert_manual clock ids ns id max_insert_attempts 0 0 s.tables).1) [
              | inl (x, c) ↦ rw (trigger_now, e, d, b, finish, c) k
              | inr (x, c) ↦ rw (trigger_now, e, d, b, finish, c) k
            ]
      ]
    ]
  ]

  module _ (lib : Library) (net : Net) where
    -- An update of the job's schedule keeps its id.
    update_schedule-id :
        (input : UpdateJobInput) (now : Time) (old new : Schedule)
        → update_schedule lib net input now old ≡ inr new
        → new.id ≡ old.id
    update_schedule-id input now old new h =
        elim (Bool-cases (is_given input.cron_expression || is_given input.timezone)) [
          | inr e ↦ ground (arith, e, h)
          | inl e ↦
              elim (Option-cases (
                check_schedule lib (patch_schedule lib net input now old).cron_expression
                  (patch_schedule lib net input now old).timezone)) [
                    | inl d ↦ ground (arith, e, d, h)
                    | inr (x, d) ↦ absurd (ground (arith, e, d, h))
                  ]
        ]

    update-Kept :
        (id : Uuid) (input : UpdateJobInput) (now : Time) (s : State)
        → Kept s.tables
        → Kept (update_job lib net ns id input now s).0.tables
    unfolding update_job
    update-Kept id input now s h = elim (Bool-cases (str_eq ns "")) [
      | inl e ↦ rw e h
      | inr e ↦ elim (Option-cases (get_job_with_schedule_scoped id ns s.tables)) [
        | inl d ↦ rw (update_job, e, d) h
        | inr (r, d) ↦ elim (Option-cases (check_url lib net input.webhook_url)) [
          | inr (x, c) ↦ rw (update_job, e, d, c) h
          | inl c ↦ elim (Sum-cases (update_schedule lib net input now r.schedule)) [
            | inl (x, b) ↦ rw (update_job, e, d, c, b) h
            | inr (schedule, b) ↦
                let job = patch_job lib net input now r.job in
                let found = shown id ns r s.tables d in
                let f =
                  foreign-Distinct s.tables.jobs id i ns other r.job row.job h.0.0 apart found.0
                    h.1.0 in
                let g = find_row-In (is_scoped id ns) s.tables.jobs r.job found.0 in
                let g2 =
                  find_row-In (is_schedule r.job.schedule_id) s.tables.schedules r.schedule
                    found.1 in
                let n : r.job.namespace ≢ other =
                  λ q. apart (ground (arith, g.1, q, str_eq_iff r.job.namespace ns)) in
                let m : r.job.id ≢ i = λ q. f.0.0 (
                  ground (
                    arith,
                    f.1,
                    f.2,
                    g.1,
                    q,
                    find_row-In (is_scoped i other) s.tables.jobs row.job h.1.0,
                  )) in
                let o : schedule.id ≢ row.job.schedule_id = λ q.
                  f.0.1
                    (ground (arith, g2.1, q, update_schedule-id input now r.schedule schedule b)) in
                let k : Kept (update_job_aggregate job schedule input.tags s.tables).0 = (
                  update-IsConsistent job schedule input.tags s.tables h.0,
                  update-Shows i other row tags job schedule input.tags s.tables n m o h.1,
                ) in
                elim (Option-cases (update_job_aggregate job schedule input.tags s.tables).1) [
                  | inl a ↦ rw (update_job, e, d, c, b, a) k
                  | inr (x, a) ↦ rw (update_job, e, d, c, b, a) k
                ]
          ]
        ]
      ]
    ]

    answer-Kept : (c : Call) (s : State) → Kept s.tables → Kept (answer lib net ns c s).0.tables
    unfolding answer pause_job resume_job
    answer-Kept (create input now sid jid) s h = create-Kept lib net input now sid jid s h
    answer-Kept (update id input now) s h = update-Kept id input now s h
    answer-Kept (delete id) s h = delete-Kept id s h
    answer-Kept (pause id now) s h = set_enabled-Kept false id now s h
    answer-Kept (resume id now) s h = set_enabled-Kept true id now s h
    answer-Kept (trigger has_emitter clock ids id) s h = trigger-Kept has_emitter clock ids id s h
    answer-Kept (ack id now) s h = ack-Kept id now s h

    serve-Kept : (cs : List Call) (s : State) → Kept s.tables → Kept (serve lib net ns cs s).tables
    unfolding serve
    serve-Kept [] s h = h
    serve-Kept (c ∷ cs) s h = serve-Kept cs (answer lib net ns c s).0 (answer-Kept c s h)

-- However calls are made in one namespace, in any number and order, from tables in which every job
-- has an id and a schedule of its own, a job of another namespace reads back as before: the same
-- job, the same schedule, the same tags.
pub foreign_untouched :
    (lib : Library) (net : Net) (ns other : String) (cs : List Call) (s : State) (i : Uuid)
    (row : JobWithSchedule)
    → ns ≢ other
    → IsConsistent s.tables
    → get_job_with_schedule_scoped i other s.tables ≡ some row
    → (get_job_with_schedule_scoped i other (serve lib net ns cs s).tables ≡ some row)
      × (keep (of_job i) (serve lib net ns cs s).tables.tags ≡ keep (of_job i) s.tables.tags)
foreign_untouched lib net ns other cs s i row n c h =
    let tags = keep (of_job i) s.tables.tags in
    let k = serve-Kept i other row tags ns n lib net cs s (c, shown i other row s.tables h) in
    (Shows-get i other row tags (serve lib net ns cs s).tables k.1, k.1.2)
