-- ===== src/Service/Write.antt =====
-- internal/service/jobs.go: CreateJob, UpdateJob, DeleteJob, PauseJob and ResumeJob.
use easy_cron.Prelude.{
  zero, ◌*◌, Bool, true, false, ◌||◌, String, Option, none, some, ◌⊎◌, inl, inr, if◌then◌else◌,
  str_eq,
}
use easy_cron.Prelude.Int.{pos}
use easy_cron.Domain.{Time, Duration, Uuid, Job, Schedule, second}
use easy_cron.Cron.{Library, parse}
use easy_cron.WebhookUrl
use easy_cron.WebhookUrl.{Net}
use easy_cron.Jobs
use easy_cron.Jobs.{
  Tables, Tag, JobError, InsertError, duplicate, no_job, create_job_aggregate,
  get_job_with_schedule_scoped, update_job_aggregate, insert_run,
}
use easy_cron.Service.{
  CreateJobInput, UpdateJobInput, ServiceError, namespace_required, job_not_found,
  invalid_cron_expression, invalid_timezone, invalid_webhook_url, repository, State, put_tables,
  given_or, is_given,
}

abbrev pub new_schedule : CreateJobInput → Time → Uuid → Schedule
new_schedule input now schedule_id = record {
  id = schedule_id;
  cron_expression = input.cron_expression;
  timezone = input.timezone;
  created_at = now;
  updated_at = now;
}

abbrev pub default_timeout : Duration → Duration
default_timeout (pos zero) = pos (30 * second)
default_timeout d = d

abbrev pub new_job : String → CreateJobInput → Time → Uuid → Uuid → Job
new_job ns input now schedule_id job_id = record {
  id = job_id;
  namespace = ns;
  name = input.name;
  enabled = true;
  schedule_id = schedule_id;
  delivery = record {
    webhook_url = input.webhook_url;
    secret = input.secret;
    timeout = default_timeout input.timeout;
  };
  analytics = record { enabled = false; retention_seconds = pos 0 };
  created_at = now;
  updated_at = now;
}

-- What the two checks of a schedule say.
abbrev pub check_schedule : Library → String → String → Option ServiceError
check_schedule lib expression timezone = elim (parse lib expression timezone) [
  | inl e ↦ some invalid_cron_expression
  | inr next ↦ elim (lib.load_location timezone) [ none ↦ some invalid_timezone | some loc ↦ none ]
]

module _ (lib : Library) (net : Net) where
  unfoldable pub create_job :
      String
      → CreateJobInput
      → Time
      → Uuid
      → Uuid
      → State
      → State × (ServiceError ⊎ (Job × Schedule))
  unfolding parse WebhookUrl.validate create_job_aggregate
  create_job ns input now schedule_id job_id s =
      if str_eq ns ""
      then (s, inl namespace_required)
      else elim (check_schedule lib input.cron_expression input.timezone) [
        | some e ↦ (s, inl e)
        | none ↦ elim (WebhookUrl.validate net input.webhook_url) [
          | some e ↦ (s, inl invalid_webhook_url)
          | none ↦
              let schedule = new_schedule input now schedule_id in
              let job = new_job ns input now schedule_id job_id in
              let (t, err) = create_job_aggregate job schedule input.tags s.tables in
              elim err [
                | some e ↦ (put_tables s t, inl (repository e))
                | none ↦ (put_tables s t, inr (job, schedule))
              ]
        ]
      ]

  -- The check of a new URL, if there is one.
  abbrev pub check_url : Option String → Option ServiceError
  check_url none = none
  check_url (some url) = elim (WebhookUrl.validate net url) [
    | none ↦ none
    | some e ↦ some invalid_webhook_url
  ]

  -- The fields of the job that an update sets.
  abbrev pub patch_job : UpdateJobInput → Time → Job → Job
  patch_job input now j = record j {
    name = given_or input.name j.name;
    delivery = record {
      webhook_url = given_or input.webhook_url j.delivery.webhook_url;
      secret = given_or input.secret j.delivery.secret;
      timeout = given_or input.timeout j.delivery.timeout;
    };
    updated_at = now;
  }

  abbrev pub patch_schedule : UpdateJobInput → Time → Schedule → Schedule
  patch_schedule input now s = record s {
    cron_expression = given_or input.cron_expression s.cron_expression;
    timezone = given_or input.timezone s.timezone;
    updated_at = now;
  }

  -- The schedule after an update, checked where it changes.
  abbrev pub update_schedule : UpdateJobInput → Time → Schedule → ServiceError ⊎ Schedule
  update_schedule input now s =
      let new = patch_schedule input now s in
      if is_given input.cron_expression || is_given input.timezone
      then elim (check_schedule lib new.cron_expression new.timezone) [
        | some e ↦ inl e
        | none ↦ inr new
      ]
      else inr s

  unfoldable pub update_job :
      String → Uuid → UpdateJobInput → Time → State → State × (ServiceError ⊎ (Job × Schedule))
  unfolding parse WebhookUrl.validate get_job_with_schedule_scoped update_job_aggregate
  update_job ns id input now s =
      if str_eq ns ""
      then (s, inl namespace_required)
      else elim (get_job_with_schedule_scoped id ns s.tables) [
        | none ↦ (s, inl job_not_found)
        | some row ↦ elim (check_url input.webhook_url) [
          | some e ↦ (s, inl e)
          | none ↦ elim (update_schedule input now row.schedule) [
            | inl e ↦ (s, inl e)
            | inr schedule ↦
                let job = patch_job input now row.job in
                let (t, err) = update_job_aggregate job schedule input.tags s.tables in
                elim err [
                  | some e ↦ (put_tables s t, inl (repository e))
                  | none ↦ (put_tables s t, inr (job, schedule))
                ]
          ]
        ]
      ]

-- `DeleteJob`.
unfoldable pub delete_job : String → Uuid → State → State × Option ServiceError
unfolding Jobs.delete_job
delete_job ns id s =
    if str_eq ns ""
    then (s, some namespace_required)
    else (let (t, err) = Jobs.delete_job id ns s.tables in
        (put_tables s t, elim err [ none ↦ none | some e ↦ some (repository e) ]))

-- `PauseJob` and `ResumeJob`, which differ in the flag.
unfoldable pub set_enabled : Bool → String → Uuid → Time → State → State × (ServiceError ⊎ Job)
unfolding get_job_with_schedule_scoped Jobs.update_job
set_enabled flag ns id now s =
    if str_eq ns ""
    then (s, inl namespace_required)
    else elim (get_job_with_schedule_scoped id ns s.tables) [
      | none ↦ (s, inl job_not_found)
      | some row ↦
          let job : Job = record row.job { enabled = flag; updated_at = now } in
          let (t, err) = Jobs.update_job job s.tables in
          elim err [
            | some e ↦ (put_tables s t, inl (repository e))
            | none ↦ (put_tables s t, inr job)
          ]
    ]

unfoldable pub pause_job : String → Uuid → Time → State → State × (ServiceError ⊎ Job)
unfolding set_enabled
pause_job ns id now s = set_enabled false ns id now s

unfoldable pub resume_job : String → Uuid → Time → State → State × (ServiceError ⊎ Job)
unfolding set_enabled
resume_job ns id now s = set_enabled true ns id now s
