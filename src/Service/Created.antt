-- ===== src/Service/Created.antt =====
-- internal/service: a new job as GetJob reads it, and a deleted one.
use easy_cron.Prelude.{
  ◌≡◌, ◌∙◌, refl, ap, [], keep, order_by, Bool, false, String, none, some, inl, inr, arith,
  Option-cases, str_eq, Bool-cases,
}
use easy_cron.Domain.{Time, Uuid, Job, Schedule}
use easy_cron.Cron.{Library}
use easy_cron.WebhookUrl
use easy_cron.WebhookUrl.{Net}
use easy_cron.Jobs
use easy_cron.Jobs.{
  Tables, stored, stored_schedule, is_job, of_job, runs, create_job_aggregate,
  get_job_with_schedule_scoped,
}
use easy_cron.Jobs.Deletion.{created_row, created_rest, IsGone, delete-IsGone}
use easy_cron.Jobs.Tagged.{AreNew, tag_leq, get_tags-new}
use easy_cron.Jobs.Lists.{get_tags, get_recent_executions}
use easy_cron.Service.{CreateJobInput, State}
use easy_cron.Service.Write.{create_job, delete_job, check_schedule, new_job, new_schedule}
use easy_cron.Service.Read.{get_job}

module _ (lib : Library) (net : Net) where
  -- What a call that creates a job has done.
  create_job_done :
      (ns : String) (input : CreateJobInput) (now : Time) (sid jid : Uuid) (s : State) (job : Job)
      (schedule : Schedule)
      → let new_s = new_schedule input now sid in
        let new = new_job ns input now sid jid in
        (create_job lib net ns input now sid jid s).1 ≡ inr (job, schedule)
        → (str_eq ns "" ≡ false)
          × (job ≡ new)
          × (schedule ≡ new_s)
          × ((create_job_aggregate new new_s input.tags s.tables).1 ≡ none)
          × ((create_job lib net ns input now sid jid s).0.tables
              ≡ (create_job_aggregate new new_s input.tags s.tables).0)
  unfolding create_job
  create_job_done ns input now sid jid s job schedule h = elim (Bool-cases (str_eq ns "")) [
    | inl e ↦ absurd (ground (arith, rw (create_job, e) at h))
    | inr e ↦ elim (Option-cases (check_schedule lib input.cron_expression input.timezone)) [
      | inr (x, d) ↦ absurd (ground (arith, rw (create_job, e, d) at h))
      | inl d ↦ elim (Option-cases (WebhookUrl.validate net input.webhook_url)) [
        | inr (x, c) ↦ absurd (ground (arith, rw (create_job, e, d, c) at h))
        | inl c ↦
            elim (Option-cases
              (create_job_aggregate (new_job ns input now sid jid) (new_schedule input now sid)
                input.tags s.tables).1) [
                  | inr (x, b) ↦ absurd (ground (arith, rw (create_job, e, d, c, b) at h))
                  | inl b ↦
                      let q = rw (create_job, e, d, c, b) at h in
                      (e, ground (arith, q), ground (arith, q), b, rw (create_job, e, d, c, b) refl)
                ]
      ]
    ]
  ]

  -- A job that CreateJob has created, under an id that no tag and no execution has, is what GetJob
  -- then reads in its namespace: the job and the schedule of the input, with the timeout in whole
  -- milliseconds and the times in whole microseconds, with the tags of the input in the order of
  -- their keys, where these are pairwise different, and without runs.
  pub created_then_read :
      (key_leb : String → String → Bool) (ns : String) (input : CreateJobInput) (now : Time)
      (sid jid : Uuid) (s : State) (job : Job) (schedule : Schedule)
      → (create_job lib net ns input now sid jid s).1 ≡ inr (job, schedule)
      → AreNew [] input.tags
      → keep (of_job jid) s.tables.tags ≡ []
      → keep (runs jid) s.tables.executions ≡ []
      → get_job key_leb ns jid (create_job lib net ns input now sid jid s).0
        ≡ inr (
          record {
            job = stored (new_job ns input now sid jid);
            schedule = stored_schedule (new_schedule input now sid);
          },
          order_by (tag_leq key_leb) input.tags,
          [],
        )
  unfolding get_job get_recent_executions
  created_then_read key_leb ns input now sid jid s job schedule h distinct no_tags no_runs =
      let t' = (create_job lib net ns input now sid jid s).0.tables in
      let d = create_job_done ns input now sid jid s job schedule h in
      let new = new_job ns input now sid jid in
      let rest = created_rest new (new_schedule input now sid) input.tags s.tables d.3 in
      let r = created_row new (new_schedule input now sid) input.tags s.tables refl d.3 in
      let q : get_job_with_schedule_scoped jid ns t'
          ≡ some (record {
            job = stored new;
            schedule = stored_schedule (new_schedule input now sid);
          }) =
        rw d.4 r in
      let tags : get_tags key_leb jid t' ≡ order_by (tag_leq key_leb) input.tags =
        get_tags-new key_leb jid input.tags s.tables t' (ap (λ (t : Tables). t.tags) d.4 ∙ rest.0)
          no_tags distinct in
      let none_run : keep (runs jid) t'.executions ≡ [] =
        ap (λ (t : Tables). keep (runs jid) t.executions) d.4
        ∙ ap (keep (runs jid)) rest.1
        ∙ no_runs in
      let quiet : get_recent_executions jid 5 t' ≡ [] = rw (get_recent_executions, none_run) refl in
      rw (get_job, d.0, q, tags, quiet) refl

-- After a DeleteJob without an error, the tables have no job with this id, no tag of it and no
-- execution.
pub deleted_then-IsGone :
    (ns : String) (id : Uuid) (s : State)
    → (delete_job ns id s).1 ≡ none
    → IsGone id (delete_job ns id s).0.tables
unfolding delete_job
deleted_then-IsGone ns id s h = elim (Bool-cases (str_eq ns "")) [
  | inl e ↦ absurd (ground (arith, rw (delete_job, e) at h))
  | inr e ↦ elim (Option-cases (Jobs.delete_job id ns s.tables).1) [
    | inl d ↦ rw (delete_job, e) (delete-IsGone id ns s.tables d)
    | inr (x, d) ↦ absurd (ground (arith, rw (delete_job, e, d) at h))
  ]
]
