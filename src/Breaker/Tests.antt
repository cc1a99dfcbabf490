-- ===== src/Breaker/Tests.antt =====
-- Runs of the circuit breaker at concrete inputs.
use easy_cron.Prelude.{◌≤◌, ◌≡◌, refl, some, none, [], ◌∷◌, arith}
use easy_cron.Prelude.Int.{pos}
use easy_cron.Prelude.Dict.{lookup, insert}
use easy_cron.Breaker.{
  CircuitBreaker, UrlState, circuit_open, opened, half_open, allow, record_success, record_failure,
  new,
}
use easy_cron.Breaker.Traces.{fail_all, grants, failures_trip, probes_bounded, exhausted_denies}

-- Two failures open the circuit for ten units of time.
abbrev fresh : CircuitBreaker
fresh = new (pos 2) (pos 10)

failures_trip_example :
    (allow (fail_all (record_success fresh "u") "u" (5 ∷ 4 ∷ [])) "u" 9).1 ≡ some circuit_open
unfolding new
failures_trip_example = failures_trip fresh "u" 2 5 9 (4 ∷ []) refl (omega arith)

after_cooldown : (allow (fail_all fresh "u" (5 ∷ 4 ∷ [])) "u" 15).1 ≡ none
unfolding new fail_all allow record_failure lookup insert
after_cooldown = refl

abbrev open_entry : UrlState
open_entry = record {
  state = opened;
  consecutive_failures = 2;
  opened_at = 5;
  half_open_probes = 0;
}

abbrev tripped : CircuitBreaker
tripped = record {
  states = ("u", open_entry) ∷ [];
  threshold = pos 2;
  cooldown = pos 10;
  half_open_probes = pos 3;
}

probes_bounded_example : grants tripped "u" (15 ∷ 15 ∷ 16 ∷ 17 ∷ 18 ∷ []) ≤ 3
unfolding lookup
probes_bounded_example =
    probes_bounded tripped "u" 3 open_entry (15 ∷ 15 ∷ 16 ∷ 17 ∷ 18 ∷ []) refl (omega arith) refl
      refl

probes_used : grants tripped "u" (15 ∷ 15 ∷ 16 ∷ 17 ∷ 18 ∷ []) ≡ 3
unfolding lookup insert grants allow
probes_used = refl

abbrev spent_entry : UrlState
spent_entry = record open_entry { state = half_open; half_open_probes = 3 }

abbrev spent : CircuitBreaker
spent = record tripped { states = ("u", spent_entry) ∷ [] }

exhausted_denies_example : grants spent "u" (100 ∷ 1000000 ∷ []) ≡ 0
unfolding lookup
exhausted_denies_example =
    exhausted_denies spent "u" spent_entry (100 ∷ 1000000 ∷ []) refl refl refl
