-- ===== src/Config/Tests.antt =====
-- Runs of the validation at concrete configurations.
use easy_cron.Prelude.{
  ◌*◌, ◌-◌, ◌≡◌, ◌≢◌, ◌↔◌, ◌⊎◌, none, str_eq_iff, arith, refl, inl, inr, true, String, [],
  if◌then◌else◌, str_eq,
}
use easy_cron.Prelude.Int.{pos, ◌<ℤ◌}
use easy_cron.Domain.{Duration, second, minute}
use easy_cron.Dispatcher.{max_retry_duration}
use easy_cron.Dispatcher.Classify.{matches_at, same_letter, to_lower}
use easy_cron.Reconciler.Margin.{IsPatient}
use easy_cron.Config.{
  Config, all_checks, validate, validate_tick, validate_leader, validate_reconciler, validate_admin,
  validate_production, equal_fold,
}
use easy_cron.Config.Load.{load, parse_int, digits_value}
use easy_cron.Config.Load.Defaults.{ReadsDefaults}
use easy_cron.Config.Load.Numbers.{load-positive}
use easy_cron.Config.Load.Start.{start_breaker, IsUnusable, breaker_off_iff}
use easy_cron.Config.Rules.{reconciler_config, accepted_reconciler}

abbrev config : Config
config = record {
  database_url = "postgres://db";
  tick_interval_str = "30s";
  dispatch_mode = "db";
  leader_retry_interval = pos (5 * second);
  leader_retry_interval_str = "5s";
  leader_heartbeat_interval = pos (2 * second);
  leader_heartbeat_interval_str = "2s";
  reconcile_enabled = true;
  reconcile_interval = pos (5 * minute);
  reconcile_interval_str = "5m";
  reconcile_threshold = pos (20 * minute);
  reconcile_threshold_str = "20m";
  reconcile_requeue_threshold = pos 0;
  reconcile_requeue_threshold_str = "";
  environment = "Production";
  circuit_breaker_threshold = pos 5;
  circuit_breaker_cooldown = pos (2 * minute);
  circuit_breaker_cooldown_str = "2m";
  admin_enabled = true;
  admin_session_ttl = pos (30 * minute);
  admin_session_absolute_ttl = pos (60 * minute);
  admin_cookie_secure = true;
  metrics_enabled = true;
  api_key = "secret";
}

abbrev parse : String → String ⊎ Duration
parse s = inr (pos (30 * second))

config_accepted : validate parse config ≡ []
unfolding validate all_checks validate_tick validate_leader validate_reconciler validate_admin
    validate_production equal_fold matches_at same_letter to_lower max_retry_duration
config_accepted = refl

is_production : equal_fold "Production" "production" ≡ true
unfolding equal_fold matches_at same_letter to_lower
is_production = refl

accepted_reconciler_example : IsPatient (reconciler_config config 100)
accepted_reconciler_example =
    accepted_reconciler parse config config_accepted 100 (20 * minute - 1) 0 refl refl refl refl

-- The default texts as durations, and nothing else.
abbrev read : String → String ⊎ Duration
read s =
    if str_eq s "30s"
    then inr (pos (30 * second))
    else if str_eq s "5s"
    then inr (pos (5 * second))
    else if str_eq s "2s"
    then inr (pos (2 * second))
    else if str_eq s "5m"
    then inr (pos (5 * minute))
    else if str_eq s "19m"
    then inr (pos (19 * minute))
    else if str_eq s "2m"
    then inr (pos (2 * minute))
    else if str_eq s "30m"
    then inr (pos (30 * minute))
    else if str_eq s "12h"
    then inr (pos (720 * minute))
    else inl "invalid"

abbrev read-defaults : ReadsDefaults read
read-defaults = record {
  tick = refl;
  retry = refl;
  heartbeat = refl;
  interval = refl;
  threshold = refl;
  cooldown = refl;
  session = refl;
  absolute = refl;
}

-- Numbers that do not parse, are 0, or are past 64 bits.
abbrev bad_numbers : String → String
bad_numbers name =
    if str_eq name "CIRCUIT_BREAKER_THRESHOLD"
    then "five"
    else if str_eq name "RATE_LIMIT"
    then "0"
    else if str_eq name "MAX_FIRES_PER_TICK"
    then "9223372036854775808"
    else ""

load-positive_example :
    let s = load read bad_numbers in
    (pos 0 <ℤ s.reconcile_batch_size)
    × (pos 0 <ℤ s.event_bus_buffer_size)
    × (pos 0 <ℤ s.leader_lock_key)
    × (pos 0 <ℤ s.dispatcher_workers)
    × (pos 0 <ℤ s.max_fires_per_tick)
    × (pos 0 <ℤ s.ip_rate_limit)
    × (pos 0 <ℤ s.namespace_rate_limit)
    × (pos 0 <ℤ s.db_max_open_conns)
    × (pos 0 <ℤ s.db_max_idle_conns)
load-positive_example = load-positive read bad_numbers

breaker_off_iff_example : (start_breaker (load read bad_numbers).config ≡ none) ↔ (
    (bad_numbers "CIRCUIT_BREAKER_THRESHOLD" ≢ "")
    × IsUnusable (bad_numbers "CIRCUIT_BREAKER_THRESHOLD"))
breaker_off_iff_example = breaker_off_iff read bad_numbers

starts_without : start_breaker (load read bad_numbers).config ≡ none
unfolding parse_int digits_value
starts_without =
    breaker_off_iff_example.1 ((λ e. ground (arith, (str_eq_iff "five" "").1 e)), inl refl)
