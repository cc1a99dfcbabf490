-- ===== src/Breaker.antt =====
-- internal/circuitbreaker/breaker.go: a circuit breaker for each webhook URL. The mutex makes each
-- method one step; the clock's reading is an argument. `error` is an option.
pub mod Laws
pub mod Traces
pub mod Reopen
mod Tests
use easy_cron.Prelude.{ℕ, suc, String, Option, none, some, Bool, true, false, [], if◌then◌else◌}
use easy_cron.Prelude.Int.{ℤ, pos, ltb_ℤ, leb_ℤ}
use easy_cron.Prelude.Dict.{Dict, lookup, insert}
use easy_cron.Domain.{Time, Duration, sub}

pub data State : Type 0 where
  closed opened half_open : State

pub record UrlState : Type 0 where
  pub state : State
  pub consecutive_failures : ℕ
  pub opened_at : Time
  pub half_open_probes : ℕ

pub data BreakerError : Type 0 where
  circuit_open : BreakerError

pub record CircuitBreaker : Type 0 where
  pub states : Dict UrlState
  pub threshold : ℤ
  pub cooldown : Duration
  pub half_open_probes : ℤ

abbrev pub default_half_open_probes : ℤ
default_half_open_probes = pos 3

unfoldable pub new : ℤ → Duration → CircuitBreaker
new threshold cooldown = record {
  states = [];
  threshold = threshold;
  cooldown = cooldown;
  half_open_probes = default_half_open_probes;
}

unfoldable pub with_half_open_probes : ℤ → CircuitBreaker → CircuitBreaker
with_half_open_probes n cb = record cb { half_open_probes = if ltb_ℤ n (pos 1) then pos 1 else n }

-- The `switch` of `Allow`, on the URL's entry.
unfoldable pub allow_state :
    CircuitBreaker → Time → UrlState → State → UrlState × Option BreakerError
allow_state cb now s closed = (s, none)
allow_state cb now s opened =
    if leb_ℤ cb.cooldown (sub now s.opened_at)
    then (record s { state = half_open; half_open_probes = 1 }, none)
    else (s, some circuit_open)
allow_state cb now s half_open =
    if ltb_ℤ (pos s.half_open_probes) cb.half_open_probes
    then (record s { half_open_probes = suc s.half_open_probes }, none)
    else (s, some circuit_open)

-- `Allow`. The entry is a pointer into the map, so what the switch writes is stored.
unfoldable pub allow : CircuitBreaker → String → Time → CircuitBreaker × Option BreakerError
unfolding allow_state
allow cb url now = elim (lookup url cb.states) [
  | none ↦ (cb, none)
  | some s ↦
      let (s', err) = allow_state cb now s s.state in
      (record cb { states = insert url s' cb.states }, err)
]

unfoldable pub record_success : CircuitBreaker → String → CircuitBreaker
record_success cb url = elim (lookup url cb.states) [
  | none ↦ cb
  | some s ↦
      let s' = record s { state = closed; consecutive_failures = 0; half_open_probes = 0 } in
      record cb { states = insert url s' cb.states }
]

-- `&urlState{}`.
abbrev pub zero_state : UrlState
zero_state = record {
  state = closed;
  consecutive_failures = 0;
  opened_at = 0;
  half_open_probes = 0;
}

abbrev pub entry : Option UrlState → UrlState
entry none = zero_state
entry (some s) = s

unfoldable pub fail_state : CircuitBreaker → Time → UrlState → UrlState
fail_state cb now s =
    let s' = record s { consecutive_failures = suc s.consecutive_failures } in
    if leb_ℤ cb.threshold (pos s'.consecutive_failures)
    then record s' { state = opened; opened_at = now }
    else s'

unfoldable pub record_failure : CircuitBreaker → String → Time → CircuitBreaker
unfolding fail_state
record_failure cb url now = record cb {
  states = insert url (fail_state cb now (entry (lookup url cb.states))) cb.states;
}
