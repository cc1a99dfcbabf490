-- ===== src/Config.antt =====
-- internal/config/validate.go. `time.ParseDuration` is the parameter `parse_duration`, whose error is its
-- text.
pub mod Rules
pub mod Load
mod Tests
use easy_cron.Prelude.{
  ℕ, Bool, true, false, not, ◌&&◌, ◌||◌, String, List, [], ◌∷◌, ◌++◌, ◌⊎◌, inl, inr, if◌then◌else◌,
  str_eq, length, ◌==◌, map,
}
use easy_cron.Prelude.Int.{ℤ, pos, leb_ℤ, ltb_ℤ}
use easy_cron.Domain.{Duration}
use easy_cron.Dispatcher.{max_retry_duration}
use easy_cron.Dispatcher.Classify.{codes, to_lower, matches_at}

-- A message, or a format and its argument.
pub data Message : Type 0 where
  text : String → Message
  with_text : String → String → Message
  with_duration : String → Duration → Message

pub record ValidationError : Type 0 where
  pub field : String
  pub message : Message

-- The fields of `Config` that `Validate` reads.
pub record Config : Type 0 where
  pub database_url : String
  pub tick_interval_str : String
  pub dispatch_mode : String
  pub leader_retry_interval : Duration
  pub leader_retry_interval_str : String
  pub leader_heartbeat_interval : Duration
  pub leader_heartbeat_interval_str : String
  pub reconcile_enabled : Bool
  pub reconcile_interval : Duration
  pub reconcile_interval_str : String
  pub reconcile_threshold : Duration
  pub reconcile_threshold_str : String
  pub reconcile_requeue_threshold : Duration
  pub reconcile_requeue_threshold_str : String
  pub environment : String
  pub circuit_breaker_threshold : ℤ
  pub circuit_breaker_cooldown : Duration
  pub circuit_breaker_cooldown_str : String
  pub admin_enabled : Bool
  pub admin_session_ttl : Duration
  pub admin_session_absolute_ttl : Duration
  pub admin_cookie_secure : Bool
  pub metrics_enabled : Bool
  pub api_key : String

abbrev pub is_empty : String → Bool
is_empty s = str_eq s ""

abbrev pub is_positive : Duration → Bool
is_positive d = ltb_ℤ (pos 0) d

-- One `if … { errs = append(errs, …) }`.
abbrev pub check : Bool → String → Message → List ValidationError
check bad field message = if bad then record { field = field; message = message } ∷ [] else []

-- The errors of one check after the other.
abbrev pub concat : List (List ValidationError) → List ValidationError
concat [] = []
concat (errs ∷ more) = errs ++ concat more

-- `strings.EqualFold` against a text of ASCII letters other than k and s, which fold only with their
-- own upper case.
unfoldable pub equal_fold : String → String → Bool
unfolding matches_at
equal_fold s t = length (codes s) == length (codes t) && matches_at (codes s) (codes t)

unfoldable pub validate_tick : (String → String ⊎ Duration) → Config → List ValidationError
validate_tick parse_duration cfg =
    if is_empty cfg.tick_interval_str then [] else elim (parse_duration cfg.tick_interval_str) [
      | inl err ↦ check true "TICK_INTERVAL" (with_text "invalid duration: %v" err)
      | inr d ↦ check (not (is_positive d)) "TICK_INTERVAL" (text "must be positive")
    ]

abbrev pub leader_checks : Config → List (List ValidationError)
leader_checks cfg =
    let retry = cfg.leader_retry_interval in
    let heartbeat = cfg.leader_heartbeat_interval in
    check (not (is_positive retry) && not (is_empty cfg.leader_retry_interval_str))
      "LEADER_RETRY_INTERVAL" (text "must be positive")
    ∷ check (not (is_positive heartbeat) && not (is_empty cfg.leader_heartbeat_interval_str))
        "LEADER_HEARTBEAT_INTERVAL" (text "must be positive")
    ∷ check (is_positive heartbeat && (is_positive retry && leb_ℤ retry heartbeat))
        "LEADER_HEARTBEAT_INTERVAL"
        (with_duration "must be less than LEADER_RETRY_INTERVAL (%s)" retry)
    ∷ []

unfoldable pub validate_leader : Config → List ValidationError
validate_leader cfg = concat (leader_checks cfg)

abbrev pub reconciler_checks : Config → List (List ValidationError)
reconciler_checks cfg =
    let max_retry = pos max_retry_duration in
    check (not (is_positive cfg.reconcile_interval) && not (is_empty cfg.reconcile_interval_str))
      "RECONCILE_INTERVAL" (text "must be positive")
    ∷ check
        (not (is_positive cfg.reconcile_threshold) && not (is_empty cfg.reconcile_threshold_str))
        "RECONCILE_THRESHOLD" (text "must be positive")
    ∷ check
        (not (is_positive cfg.reconcile_requeue_threshold)
          && not (is_empty cfg.reconcile_requeue_threshold_str))
        "RECONCILE_REQUEUE_THRESHOLD" (text "must be positive")
    ∷ check (is_positive cfg.reconcile_threshold && ltb_ℤ cfg.reconcile_threshold max_retry)
        "RECONCILE_THRESHOLD"
        (with_duration
          "must be >= dispatcher max retry duration (%s) to prevent duplicate deliveries" max_retry)
    ∷ check
        (not (str_eq cfg.environment "benchmark")
          && (is_positive cfg.reconcile_requeue_threshold
              && ltb_ℤ cfg.reconcile_requeue_threshold max_retry))
        "RECONCILE_REQUEUE_THRESHOLD"
        (with_duration
          "must be >= dispatcher max retry duration (%s) to prevent concurrent retry workers"
          max_retry)
    ∷ []

unfoldable pub validate_reconciler : Config → List ValidationError
validate_reconciler cfg = concat (reconciler_checks cfg)

abbrev pub admin_checks : Config → List (List ValidationError)
admin_checks cfg =
    check (not (is_positive cfg.admin_session_ttl)) "ADMIN_SESSION_TTL"
      (text "must be a positive duration when admin UI is enabled")
    ∷ check (not (is_positive cfg.admin_session_absolute_ttl)) "ADMIN_SESSION_ABSOLUTE_TTL"
        (text "must be a positive duration when admin UI is enabled")
    ∷ check
        (is_positive cfg.admin_session_ttl
          && (is_positive cfg.admin_session_absolute_ttl
              && ltb_ℤ cfg.admin_session_absolute_ttl cfg.admin_session_ttl))
        "ADMIN_SESSION_ABSOLUTE_TTL" (text "must be greater than or equal to ADMIN_SESSION_TTL")
    ∷ []

unfoldable pub validate_admin : Config → List ValidationError
validate_admin cfg = concat (admin_checks cfg)

abbrev pub production_checks : Config → List (List ValidationError)
production_checks cfg =
    check (not (str_eq cfg.dispatch_mode "db")) "DISPATCH_MODE"
      (text "must be 'db' when CRONLITE_ENV=production")
    ∷ check (not cfg.reconcile_enabled) "RECONCILE_ENABLED"
        (text "must be true when CRONLITE_ENV=production")
    ∷ check (not cfg.metrics_enabled) "METRICS_ENABLED"
        (text "must be true when CRONLITE_ENV=production")
    ∷ check (is_empty cfg.api_key) "API_KEY" (text "required when CRONLITE_ENV=production")
    ∷ check (cfg.admin_enabled && not cfg.admin_cookie_secure) "ADMIN_COOKIE_SECURE"
        (text "must be true when admin UI is enabled in production")
    ∷ []

unfoldable pub validate_production : Config → List ValidationError
validate_production cfg = concat (production_checks cfg)

unfoldable pub all_checks : (String → String ⊎ Duration) → Config → List (List ValidationError)
unfolding validate_tick validate_leader validate_reconciler validate_admin validate_production
    equal_fold
all_checks parse_duration cfg =
    let mode = cfg.dispatch_mode in
    check (is_empty cfg.database_url) "DATABASE_URL" (text "required")
    ∷ validate_tick parse_duration cfg
    ∷ check (not (is_empty mode) && (not (str_eq mode "channel") && not (str_eq mode "db")))
        "DISPATCH_MODE" (with_text "must be 'channel' or 'db', got %q" mode)
    ∷ (if str_eq mode "db" then validate_leader cfg else [])
    ∷ (if cfg.reconcile_enabled then validate_reconciler cfg else [])
    ∷ check
        (ltb_ℤ (pos 0) cfg.circuit_breaker_threshold
          && (not (is_positive cfg.circuit_breaker_cooldown)
              && not (is_empty cfg.circuit_breaker_cooldown_str)))
        "CIRCUIT_BREAKER_COOLDOWN" (text "must be positive when circuit breaker is enabled")
    ∷ (if cfg.admin_enabled then validate_admin cfg else [])
    ∷ (if equal_fold cfg.environment "production" then validate_production cfg else [])
    ∷ []

-- `Validate`; nil is the empty list.
unfoldable pub validate : (String → String ⊎ Duration) → Config → List ValidationError
unfolding all_checks
validate parse_duration cfg = concat (all_checks parse_duration cfg)
