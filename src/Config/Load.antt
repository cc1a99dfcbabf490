-- ===== src/Config/Load.antt =====
-- internal/config/config.go: Load, from the variables of the environment, and the masks of secrets. What is
-- only logged is left out.
pub mod Numbers
pub mod Start
pub mod Defaults
use Prim.Native.String.{◌++◌ as append}
use easy_cron.Prelude.{
  ℕ, ◌+◌, ◌-◌, ◌*◌, ◌%◌, Bool, true, false, not, ◌&&◌, ◌||◌, String, Option, none, some, List, [],
  ◌∷◌, ◌⊎◌, inl, inr, if◌then◌else◌, str_eq, ltb, leb,
}
use easy_cron.Prelude.Int.{ℤ, pos, negsuc, ltb_ℤ}
use easy_cron.Domain.{Duration}
use easy_cron.Dispatcher.Classify.{codes, matches_at}
use easy_cron.Auth.{strip}
use easy_cron.Config.{Config, equal_fold, is_empty}

-- The fields of `Config` that `Validate` does not read.
pub record Settings : Type 0 where
  pub config : Config
  pub redis_addr : String
  pub http_addr : String
  pub db_op_timeout : Duration
  pub db_conn_max_lifetime : Duration
  pub db_conn_max_idle_time : Duration
  pub http_shutdown_timeout : Duration
  pub dispatcher_drain_timeout : Duration
  pub tick_interval : Duration
  pub db_poll_interval : Duration
  pub metrics_path : String
  pub metrics_public : Bool
  pub cors_origins : String
  pub admin_bootstrap_token : String
  pub reconcile_batch_size : ℤ
  pub event_bus_buffer_size : ℤ
  pub leader_lock_key : ℤ
  pub dispatcher_workers : ℤ
  pub max_fires_per_tick : ℤ
  pub ip_rate_limit : ℤ
  pub namespace_rate_limit : ℤ
  pub db_max_open_conns : ℤ
  pub db_max_idle_conns : ℤ

-- `int`, of 64 bits: the value of a number modulo 2^64.
abbrev pub modulus : ℕ
modulus = 18_446_744_073_709_551_616

abbrev pub half_modulus : ℕ
half_modulus = 9_223_372_036_854_775_808

abbrev pub to_int : ℕ → ℤ
to_int n = if ltb n half_modulus then pos n else negsuc (modulus - n - 1)

-- The loop of `parseInt`, after the digits that made `n`; it wraps around.
unfoldable pub digits_value : ℕ → List ℕ → Option ℕ
digits_value n [] = some n
digits_value n (c ∷ cs) =
    let rest = digits_value ((n * 10 + (c - 48)) % modulus) cs in
    if ltb c 48 || ltb 57 c then none else rest

unfoldable pub parse_int : String → Option ℤ
unfolding digits_value
parse_int s = elim (digits_value 0 (codes s)) [ none ↦ none | some n ↦ some (to_int n) ]

-- A variable that has to be a positive integer, and what it is where it is not one.
unfoldable pub positive_or : ℕ → String → ℤ
unfolding parse_int
positive_or default s = if is_empty s then pos default else elim (parse_int s) [
  | none ↦ pos default
  | some n ↦ if ltb_ℤ (pos 0) n then n else pos default
]

-- `CIRCUIT_BREAKER_THRESHOLD`: the default is for a variable that is not set.
unfoldable pub breaker_threshold : String → ℤ
unfolding parse_int
breaker_threshold s = if is_empty s then pos 5 else elim (parse_int s) [ none ↦ pos 0 | some n ↦ n ]

-- A text with its default, and a duration that stays 0 where it does not parse.
abbrev pub or_default : String → String → String
or_default s default = if is_empty s then default else s

abbrev pub duration_or_zero : String ⊎ Duration → Duration
duration_or_zero (inl err) = pos 0
duration_or_zero (inr d) = d

abbrev pub http_address : String → String → String
http_address addr port =
    if not (is_empty addr) then addr else if is_empty port then ":8080" else append ":" port

module _ (parse_duration : String → String ⊎ Duration) (env : String → String) where
  -- A duration with the default of its text.
  abbrev pub duration_of : String → String → Duration
  duration_of name default = duration_or_zero (parse_duration (or_default (env name) default))

  abbrev pub flag : String → Bool
  flag name = str_eq (env name) "true"

  unfoldable pub load_config : Config
  unfolding equal_fold breaker_threshold
  load_config = record {
    database_url = env "DATABASE_URL";
    tick_interval_str = or_default (env "TICK_INTERVAL") "30s";
    dispatch_mode = or_default (env "DISPATCH_MODE") "channel";
    leader_retry_interval = duration_of "LEADER_RETRY_INTERVAL" "5s";
    leader_retry_interval_str = or_default (env "LEADER_RETRY_INTERVAL") "5s";
    leader_heartbeat_interval = duration_of "LEADER_HEARTBEAT_INTERVAL" "2s";
    leader_heartbeat_interval_str = or_default (env "LEADER_HEARTBEAT_INTERVAL") "2s";
    reconcile_enabled = flag "RECONCILE_ENABLED";
    reconcile_interval = duration_of "RECONCILE_INTERVAL" "5m";
    reconcile_interval_str = or_default (env "RECONCILE_INTERVAL") "5m";
    reconcile_threshold = duration_of "RECONCILE_THRESHOLD" "19m";
    reconcile_threshold_str = or_default (env "RECONCILE_THRESHOLD") "19m";
    reconcile_requeue_threshold = duration_of "RECONCILE_REQUEUE_THRESHOLD" "19m";
    reconcile_requeue_threshold_str = or_default (env "RECONCILE_REQUEUE_THRESHOLD") "19m";
    environment = env "CRONLITE_ENV";
    circuit_breaker_threshold = breaker_threshold (env "CIRCUIT_BREAKER_THRESHOLD");
    circuit_breaker_cooldown = duration_of "CIRCUIT_BREAKER_COOLDOWN" "2m";
    circuit_breaker_cooldown_str = or_default (env "CIRCUIT_BREAKER_COOLDOWN") "2m";
    admin_enabled = flag "ADMIN_ENABLED";
    admin_session_ttl = duration_of "ADMIN_SESSION_TTL" "30m";
    admin_session_absolute_ttl = duration_of "ADMIN_SESSION_ABSOLUTE_TTL" "12h";
    admin_cookie_secure =
        if is_empty (env "ADMIN_COOKIE_SECURE")
        then equal_fold (env "CRONLITE_ENV") "production"
        else flag "ADMIN_COOKIE_SECURE";
    metrics_enabled = flag "METRICS_ENABLED";
    api_key = env "API_KEY";
  }

  unfoldable pub load : Settings
  unfolding load_config positive_or
  load = record {
    config = load_config;
    redis_addr = env "REDIS_ADDR";
    http_addr = http_address (env "HTTP_ADDR") (env "PORT");
    db_op_timeout = duration_of "DB_OP_TIMEOUT" "5s";
    db_conn_max_lifetime = duration_of "DB_CONN_MAX_LIFETIME" "30m";
    db_conn_max_idle_time = duration_of "DB_CONN_MAX_IDLE_TIME" "5m";
    http_shutdown_timeout = duration_of "HTTP_SHUTDOWN_TIMEOUT" "10s";
    dispatcher_drain_timeout = duration_of "DISPATCHER_DRAIN_TIMEOUT" "30s";
    tick_interval = duration_of "TICK_INTERVAL" "30s";
    db_poll_interval = duration_of "DB_POLL_INTERVAL" "500ms";
    metrics_path = or_default (env "METRICS_PATH") "/metrics";
    metrics_public = flag "METRICS_PUBLIC";
    cors_origins = env "CORS_ORIGINS";
    admin_bootstrap_token = env "ADMIN_BOOTSTRAP_TOKEN";
    reconcile_batch_size = positive_or 100 (env "RECONCILE_BATCH_SIZE");
    event_bus_buffer_size = positive_or 100 (env "EVENTBUS_BUFFER_SIZE");
    leader_lock_key = positive_or 728_379 (env "LEADER_LOCK_KEY");
    dispatcher_workers = positive_or 1 (env "DISPATCHER_WORKERS");
    max_fires_per_tick = positive_or 1_000 (env "MAX_FIRES_PER_TICK");
    ip_rate_limit = positive_or 10 (env "RATE_LIMIT");
    namespace_rate_limit = positive_or 100 (env "NAMESPACE_RATE_LIMIT");
    db_max_open_conns = positive_or 25 (env "DB_MAX_OPEN_CONNS");
    db_max_idle_conns = positive_or 5 (env "DB_MAX_IDLE_CONNS");
  }

-- `maskSecret`: the prefixes in their order, then the mask alone.
unfoldable pub mask_with : List String → String → String
unfolding strip
mask_with [] s = "***"
mask_with (p ∷ ps) s =
    let rest = mask_with ps s in
    elim (strip (codes p) (codes s)) [ none ↦ rest | some tail ↦ append p "***" ]

unfoldable pub mask_secret : String → String
unfolding mask_with
mask_secret s =
    if is_empty s
    then ""
    else mask_with ("postgres://" ∷ "postgresql://" ∷ "redis://" ∷ "rediss://" ∷ []) s
