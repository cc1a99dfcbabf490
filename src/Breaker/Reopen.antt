-- ===== src/Breaker/Reopen.antt =====
-- internal/circuitbreaker/breaker.go: an invariant of every history of calls.
use mathlib.Core.Path.{subst}
use text.Mathlib.TextEquality.{eq_iff}
use easy_cron.Prelude.{
  ◌≡◌, ◌≢◌, ◌∙◌, refl, String, true, arith, Option-cases, Bool-cases, inl, inr, str_eq, List, [],
  ◌∷◌,
}
use easy_cron.Prelude.Int.{ℤ, pos, leb_ℤ}
use easy_cron.Prelude.Dict.{lookup}
use easy_cron.Domain.{Time, Duration}
use easy_cron.Breaker.{
  CircuitBreaker, UrlState, closed, opened, half_open, allow, record_success, record_failure,
  fail_state, entry, new,
}
use easy_cron.Breaker.Laws.{lookup-allow, lookup-record_failure, entry-record_success}
use easy_cron.Breaker.Traces.{Call, allows, succeeds, fails, target, step, run, lookup-step_ne}

-- An entry that is not closed has counted at least `threshold` failures.
abbrev IsTripped : ℤ → UrlState → Type 0
IsTripped th s = s.state ≢ closed → leb_ℤ th (pos s.consecutive_failures) ≡ true

threshold-step : (cb : CircuitBreaker) (c : Call) → (step cb c).threshold ≡ cb.threshold
unfolding step allow record_success record_failure
threshold-step cb (allows url t) = ground arith
threshold-step cb (succeeds url) = ground arith
threshold-step cb (fails url t) = refl

allow-IsTripped :
    (cb : CircuitBreaker) (th : ℤ) (url : String) (t : Time)
    → IsTripped th (entry (lookup url cb.states))
    → IsTripped th (entry (lookup url (allow cb url t).0.states))
unfolding allow
allow-IsTripped cb th url t h = elim (Option-cases (lookup url cb.states)) [
  | inl e ↦ rw (e, allow) h
  | inr (s, e) ↦ ground (arith, lookup-allow cb url t s e)
]

target-IsTripped :
    (cb : CircuitBreaker) (c : Call) (th : ℤ)
    → cb.threshold ≡ th
    → IsTripped th (entry (lookup (target c) cb.states))
    → IsTripped th (entry (lookup (target c) (step cb c).states))
unfolding step fail_state
target-IsTripped cb (allows url t) th e h = allow-IsTripped cb th url t h
target-IsTripped cb (succeeds url) th e h = λ ne. absurd (ne (entry-record_success cb url).0)
target-IsTripped cb (fails url t) th e h = rw (lookup-record_failure cb url t) (ground arith)

step-IsTripped :
    (cb : CircuitBreaker) (c : Call) (th : ℤ) (v : String)
    → cb.threshold ≡ th
    → IsTripped th (entry (lookup v cb.states))
    → IsTripped th (entry (lookup v (step cb c).states))
step-IsTripped cb c th v e h = elim (Bool-cases (str_eq (target c) v)) [
  | inl same ↦
      subst
        (λ u.
          IsTripped th (entry (lookup u cb.states))
          → IsTripped th (entry (lookup u (step cb c).states)))
        ((eq_iff (target c) v).0 same) (target-IsTripped cb c th e) h
  | inr other ↦ rw (lookup-step_ne cb c v other) h
]

run-IsTripped :
    (cb : CircuitBreaker) (cs : List Call) (th : ℤ) (v : String)
    → cb.threshold ≡ th
    → IsTripped th (entry (lookup v cb.states))
    → IsTripped th (entry (lookup v (run cb cs).states)) × ((run cb cs).threshold ≡ th)
unfolding run
run-IsTripped cb [] th v e h = (h, e)
run-IsTripped cb (c ∷ cs) th v e h =
    run-IsTripped (step cb c) cs th v (threshold-step cb c ∙ e) (step-IsTripped cb c th v e h)

-- In every history of a new breaker, one failed probe of a half-open circuit opens it again, and
-- its cooldown starts anew at that moment.
pub probe_failure_reopens :
    (threshold : ℤ) (cooldown : Duration) (cs : List Call) (url : String) (now : Time)
    → (entry (lookup url (run (new threshold cooldown) cs).states)).state ≡ half_open
    → let s = entry (lookup url (step (run (new threshold cooldown) cs) (fails url now)).states) in
      (s.state ≡ opened) × (s.opened_at ≡ now)
unfolding step fail_state
probe_failure_reopens threshold cooldown cs url now half =
    rw (lookup-record_failure (run (new threshold cooldown) cs) url now)
      (ground (arith, run-IsTripped (new threshold cooldown) cs threshold url start initial))
  where
    start : (new threshold cooldown).threshold ≡ threshold
    start = unfold new in refl

    initial : IsTripped threshold (entry (lookup url (new threshold cooldown).states))
    initial = unfold new lookup in λ ne. absurd (ne refl)
