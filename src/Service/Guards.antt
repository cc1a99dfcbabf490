-- ===== src/Service/Guards.antt =====
-- internal/service: the methods that change state as one type of calls, and the guard that they share.
use easy_cron.Prelude.{
  ℕ, ◌≡◌, ◌≢◌, refl, Bool, false, String, Option, none, some, ◌⊎◌, inl, inr, arith, Option-cases,
  str_eq, str_eq_iff, List, [], ◌∷◌,
}
use easy_cron.Domain.{Time, Uuid}
use easy_cron.Cron.{Library, parse}
use easy_cron.WebhookUrl.{Net}
use easy_cron.Service.{
  CreateJobInput, UpdateJobInput, ServiceError, namespace_required, invalid_cron_expression, State,
}
use easy_cron.Service.Write.{
  create_job, update_job, delete_job, pause_job, resume_job, set_enabled, check_schedule,
}
use easy_cron.Service.Trigger.{trigger_now}
use easy_cron.Service.Read.{acknowledge}

-- A call of a method, with the readings of the clock and the new ids that it takes.
pub data Call : Type 0 where
  create : CreateJobInput → Time → Uuid → Uuid → Call
  update : Uuid → UpdateJobInput → Time → Call
  delete : Uuid → Call
  pause resume : Uuid → Time → Call
  trigger : Bool → (ℕ → Time) → (ℕ → Uuid) → Uuid → Call
  ack : Uuid → Time → Call

-- The error of a result, if it is one.
abbrev pub error_of {ℓ} : {A : Type ℓ} → ServiceError ⊎ A → Option ServiceError
error_of (inl e) = some e
error_of (inr a) = none

abbrev pub with_error {ℓ} : {A : Type ℓ} → State × (ServiceError ⊎ A) → State × Option ServiceError
with_error r = (r.0, error_of r.1)

module _ (lib : Library) (net : Net) where
  unfoldable pub answer : String → Call → State → State × Option ServiceError
  unfolding create_job update_job delete_job pause_job resume_job trigger_now acknowledge
  answer ns (create input now sid jid) s = with_error (create_job lib net ns input now sid jid s)
  answer ns (update id input now) s = with_error (update_job lib net ns id input now s)
  answer ns (delete id) s = delete_job ns id s
  answer ns (pause id now) s = with_error (pause_job ns id now s)
  answer ns (resume id now) s = with_error (resume_job ns id now s)
  answer ns (trigger has_emitter clock ids id) s =
      with_error (trigger_now has_emitter clock ids ns id s)
  answer ns (ack id now) s = acknowledge ns id now s

  -- Calls one after the other, in one namespace.
  unfoldable pub serve : String → List Call → State → State
  unfolding answer
  serve ns [] s = s
  serve ns (c ∷ cs) s = serve ns cs (answer ns c s).0

  -- Without a namespace, every call that could change the state changes nothing and answers that a
  -- namespace is required.
  no_namespace : (c : Call) (s : State) → answer "" c s ≡ (s, some namespace_required)
  unfolding answer set_enabled
  no_namespace (create input now sid jid) s = refl
  no_namespace (update id input now) s = refl
  no_namespace (delete id) s = refl
  no_namespace (pause id now) s = refl
  no_namespace (resume id now) s = refl
  no_namespace (trigger has_emitter clock ids id) s = refl
  no_namespace (ack id now) s = refl

  -- A schedule in an unknown zone does not come past the parser.
  check_schedule_unknown :
      (expression timezone : String)
      → lib.load_location timezone ≡ none
      → check_schedule lib expression timezone ≡ some invalid_cron_expression
  unfolding parse
  check_schedule_unknown expression timezone h =
      elim (Option-cases (lib.parse_expression expression)) [
        | inl e ↦ rw (check_schedule, parse, e) refl
        | inr (sched, e) ↦ rw (check_schedule, parse, e, h) refl
      ]

  -- In a namespace, a job in a time zone that cannot be loaded is refused as an invalid cron
  -- expression, whatever the expression is, and nothing changes.
  pub unknown_zone :
      (ns : String) (input : CreateJobInput) (now : Time) (sid jid : Uuid) (s : State)
      → ns ≢ ""
      → lib.load_location input.timezone ≡ none
      → create_job lib net ns input now sid jid s ≡ (s, inl invalid_cron_expression)
  unfolding create_job parse
  unknown_zone ns input now sid jid s n h =
      let named : str_eq ns "" ≡ false = ground (arith, n, str_eq_iff ns "") in
      rw (create_job, named, check_schedule_unknown input.cron_expression input.timezone h) refl
