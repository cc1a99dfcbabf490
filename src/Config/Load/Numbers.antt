-- ===== src/Config/Load/Numbers.antt =====
-- internal/config/config.go: the numbers that Load reads.
use easy_cron.Prelude.{
  ℕ, ◌<◌, ◌≡◌, ◌≢◌, ◌⊎◌, inl, inr, refl, false, String, none, str_eq_iff, arith, Bool-cases,
  Option-cases,
}
use easy_cron.Prelude.Int.{pos, ◌<ℤ◌, ltb_ℤ}
use easy_cron.Domain.{Duration}
use easy_cron.Config.{is_empty}
use easy_cron.Config.Load.{parse_int, positive_or, breaker_threshold, load, load_config}

positive_or-lt : (default : ℕ) (s : String) → 0 < default → pos 0 <ℤ positive_or default s
unfolding positive_or
positive_or-lt default s h = elim (Bool-cases (is_empty s)) [
  | inl e ↦ rw e (omega (arith, h))
  | inr e ↦ elim (Option-cases (parse_int s)) [
    | inl d ↦ rw (positive_or, e, d) (omega (arith, h))
    | inr (n, d) ↦ elim (Bool-cases (ltb_ℤ (pos 0) n)) [
      | inl b ↦ rw (positive_or, e, d, b) (ground (arith, b))
      | inr b ↦ rw (positive_or, e, d, b) (omega (arith, h))
    ]
  ]
]

-- Whatever the environment holds, Load reads a positive number for each of the nine sizes and
-- limits that have to be positive, numbers past 64 bits included, which wrap around.
pub load-positive :
    (parse_duration : String → String ⊎ Duration) (env : String → String)
    → let s = load parse_duration env in
      (pos 0 <ℤ s.reconcile_batch_size)
      × (pos 0 <ℤ s.event_bus_buffer_size)
      × (pos 0 <ℤ s.leader_lock_key)
      × (pos 0 <ℤ s.dispatcher_workers)
      × (pos 0 <ℤ s.max_fires_per_tick)
      × (pos 0 <ℤ s.ip_rate_limit)
      × (pos 0 <ℤ s.namespace_rate_limit)
      × (pos 0 <ℤ s.db_max_open_conns)
      × (pos 0 <ℤ s.db_max_idle_conns)
unfolding load
load-positive parse_duration env = (
  positive_or-lt 100 (env "RECONCILE_BATCH_SIZE") (omega arith),
  positive_or-lt 100 (env "EVENTBUS_BUFFER_SIZE") (omega arith),
  positive_or-lt 728_379 (env "LEADER_LOCK_KEY") (omega arith),
  positive_or-lt 1 (env "DISPATCHER_WORKERS") (omega arith),
  positive_or-lt 1_000 (env "MAX_FIRES_PER_TICK") (omega arith),
  positive_or-lt 10 (env "RATE_LIMIT") (omega arith),
  positive_or-lt 100 (env "NAMESPACE_RATE_LIMIT") (omega arith),
  positive_or-lt 25 (env "DB_MAX_OPEN_CONNS") (omega arith),
  positive_or-lt 5 (env "DB_MAX_IDLE_CONNS") (omega arith),
)

-- Where CIRCUIT_BREAKER_THRESHOLD is set to a text that is not a number, Load leaves the threshold
-- at 0, the value that switches the circuit breaker off.
bad_threshold_disables :
    (parse_duration : String → String ⊎ Duration) (env : String → String)
    → env "CIRCUIT_BREAKER_THRESHOLD" ≢ ""
    → parse_int (env "CIRCUIT_BREAKER_THRESHOLD") ≡ none
    → (load parse_duration env).config.circuit_breaker_threshold ≡ pos 0
unfolding load load_config breaker_threshold
bad_threshold_disables parse_duration env n h =
    let s = env "CIRCUIT_BREAKER_THRESHOLD" in
    let e : is_empty s ≡ false = ground (arith, n, str_eq_iff s "") in
    rw (load, load_config, breaker_threshold, e, h) refl
