-- ===== src/Config/Load/Defaults.antt =====
-- internal/config: the settings with all their defaults.
use easy_cron.Prelude.{
  ◌*◌, ◌≡◌, ◌≢◌, ◌⊎◌, inr, refl, false, String, [], if◌then◌else◌, ◌||◌, str_eq, str_eq_iff, arith,
}
use easy_cron.Prelude.Int.{pos}
use easy_cron.Domain.{Duration, second, minute}
use easy_cron.Dispatcher.{max_retry_duration}
use easy_cron.Dispatcher.Classify.{matches_at, same_letter, to_lower}
use easy_cron.Config.{
  validate, all_checks, validate_tick, validate_leader, validate_reconciler, validate_admin,
  validate_production, equal_fold, is_empty,
}
use easy_cron.Config.Load.{load_config, breaker_threshold}

-- The environment that has the database and switches everything on, and sets nothing else.
abbrev pub switched_on : String → String → String
switched_on url name =
    if str_eq name "DATABASE_URL"
    then url
    else if str_eq name "DISPATCH_MODE"
    then "db"
    else if str_eq name "RECONCILE_ENABLED" || str_eq name "ADMIN_ENABLED"
    then "true"
    else ""

-- What `time.ParseDuration` reads the default texts as, those that are validated.
pub record ReadsDefaults (parse_duration : String → String ⊎ Duration) : Type 0 where
  pub tick : parse_duration "30s" ≡ inr (pos (30 * second))
  pub retry : parse_duration "5s" ≡ inr (pos (5 * second))
  pub heartbeat : parse_duration "2s" ≡ inr (pos (2 * second))
  pub interval : parse_duration "5m" ≡ inr (pos (5 * minute))
  pub threshold : parse_duration "19m" ≡ inr (pos (19 * minute))
  pub cooldown : parse_duration "2m" ≡ inr (pos (2 * minute))
  pub session : parse_duration "30m" ≡ inr (pos (30 * minute))
  pub absolute : parse_duration "12h" ≡ inr (pos (720 * minute))

-- With the database's URL set, the dispatch mode db, the reconciler and the admin pages switched
-- on, and nothing else set, Validate finds no error in what Load reads, if the default texts are
-- read as the durations that they show.
defaults_accepted :
    (parse_duration : String → String ⊎ Duration) (url : String)
    → url ≢ ""
    → ReadsDefaults parse_duration
    → validate parse_duration (load_config parse_duration (switched_on url)) ≡ []
unfolding load_config breaker_threshold validate all_checks validate_tick validate_leader
    validate_reconciler validate_admin validate_production equal_fold matches_at same_letter
    to_lower max_retry_duration
defaults_accepted parse_duration url n h =
    let e : is_empty url ≡ false = ground (arith, n, str_eq_iff url "") in
    rw (e, h.tick, h.retry, h.heartbeat, h.interval, h.threshold, h.cooldown, h.session, h.absolute)
      refl
