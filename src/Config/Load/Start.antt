-- ===== src/Config/Load/Start.antt =====
-- cmd/cronlite/main.go: the circuit breaker that the program starts with, from the configuration of
-- internal/config/config.go.
use easy_cron.Prelude.{
  ◌≡◌, ◌≢◌, ◌⊎◌, ◌↔◌, inl, inr, refl, false, String, Option, none, some, str_eq_iff, arith,
  Bool-cases, Option-cases, if◌then◌else◌,
}
use easy_cron.Prelude.Int.{ℤ, pos, ltb_ℤ, ◌<ℤ◌}
use easy_cron.Domain.{Duration}
use easy_cron.Breaker.{CircuitBreaker, new}
use easy_cron.Config.{is_empty, Config}
use easy_cron.Config.Load.{parse_int, breaker_threshold, load, load_config}

-- `if cfg.CircuitBreakerThreshold > 0`.
unfoldable pub start_breaker : Config → Option CircuitBreaker
start_breaker cfg =
    if ltb_ℤ (pos 0) cfg.circuit_breaker_threshold
    then some (new cfg.circuit_breaker_threshold cfg.circuit_breaker_cooldown)
    else none

-- The text is not a number, or one that is not positive.
abbrev pub IsUnusable : String → Type 0
IsUnusable s = (parse_int s ≡ none) ⊎ ((n : ℤ) × (parse_int s ≡ some n) × ¬ (pos 0 <ℤ n))

threshold_iff :
    (s : String) → (ltb_ℤ (pos 0) (breaker_threshold s) ≡ false) ↔ ((s ≢ "") × IsUnusable s)
unfolding breaker_threshold
threshold_iff s = elim (Bool-cases (is_empty s)) [
  | inl e ↦
      rw (breaker_threshold, e)
        ((λ h. absurd (ground (arith, h))), (λ h. absurd (ground (arith, h.0, e, str_eq_iff s ""))))
  | inr e ↦
      let full : s ≢ "" = ground (arith, e, str_eq_iff s "") in
      elim (Option-cases (parse_int s)) [
        | inl d ↦ rw (breaker_threshold, e, d) ((λ h. (full, inl refl)), (λ h. refl))
        | inr (n, d) ↦
            rw (breaker_threshold, e, d)
              (
                (λ h. (full, inr (n, refl, (λ l. ground (arith, h, l))))),
                (λ h. positive_only n h.1),
              )
      ]
]
  where
    positive_only :
        (n : ℤ)
        → (some n ≡ none) ⊎ ((m : ℤ) × (some n ≡ some m) × ¬ (pos 0 <ℤ m))
        → ltb_ℤ (pos 0) n ≡ false
    positive_only n (inl e) = cc
    positive_only n (inr (m, e, h)) = ground (arith, e, h)

-- The program starts without a circuit breaker exactly where CIRCUIT_BREAKER_THRESHOLD is set, and to
-- a text that is not a number or to a number that is not positive.
pub breaker_off_iff :
    (parse_duration : String → String ⊎ Duration) (env : String → String)
    → (start_breaker (load parse_duration env).config ≡ none)
      ↔ ((env "CIRCUIT_BREAKER_THRESHOLD" ≢ "") × IsUnusable (env "CIRCUIT_BREAKER_THRESHOLD"))
unfolding load load_config start_breaker
breaker_off_iff parse_duration env =
    let i = threshold_iff (env "CIRCUIT_BREAKER_THRESHOLD") in
    elim (Bool-cases (ltb_ℤ (pos 0) (breaker_threshold (env "CIRCUIT_BREAKER_THRESHOLD")))) [
      | inl e ↦ (λ h. absurd (ground (arith, h, e)), λ h. absurd (ground (arith, i.1 h, e)))
      | inr e ↦ (λ h. i.0 e, λ h. ground (arith, e))
    ]
