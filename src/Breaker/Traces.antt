-- ===== src/Breaker/Traces.antt =====
-- internal/circuitbreaker/breaker.go: sequences of calls. A `Call` is one call of a method, with
-- the clock's reading.

use easy_cron.Prelude.{
  ℕ, suc, ◌+◌, ◌-◌, ◌≤◌, ◌<◌, ◌≡◌, ◌≢◌, refl, String, none, some, false, if◌then◌else◌, arith,
  str_eq, ◌∙◌, ap, List, [], ◌∷◌, length, leb, All,
}
use easy_cron.Prelude.Int.{pos, leb_ℤ, ltb_ℤ}
use easy_cron.Prelude.Dict.{lookup}
use easy_cron.Domain.{Time, Duration, sub}
use easy_cron.Breaker.{
  CircuitBreaker, UrlState, circuit_open, closed, opened, half_open, allow, allow_state,
  record_success, record_failure, fail_state, entry,
}
use easy_cron.Breaker.Laws.{
  lookup-allow, lookup-record_failure, entry-record_success, lookup-allow_ne,
  lookup-record_success_ne, lookup-record_failure_ne,
}

pub data Call : Type 0 where
  allows : String → Time → Call
  succeeds : String → Call
  fails : String → Time → Call

abbrev pub target : Call → String
target (allows url now) = url
target (succeeds url) = url
target (fails url now) = url

unfoldable pub step : CircuitBreaker → Call → CircuitBreaker
step cb (allows url now) = (allow cb url now).0
step cb (succeeds url) = record_success cb url
step cb (fails url now) = record_failure cb url now

unfoldable pub run : CircuitBreaker → List Call → CircuitBreaker
run cb [] = cb
run cb (c ∷ cs) = run (step cb c) cs

pub lookup-step_ne :
    (cb : CircuitBreaker) (c : Call) (v : String)
    → str_eq (target c) v ≡ false
    → lookup v (step cb c).states ≡ lookup v cb.states
unfolding step
lookup-step_ne cb (allows url now) v h = lookup-allow_ne cb url v now h
lookup-step_ne cb (succeeds url) v h = lookup-record_success_ne cb url v 0 h
lookup-step_ne cb (fails url now) v h = lookup-record_failure_ne cb url v now h

-- Any sequence of calls for other URLs leaves the entry of a URL as it was.
pub run-isolated :
    (cb : CircuitBreaker) (cs : List Call) (v : String)
    → All (λ c. str_eq (target c) v ≡ false) cs
    → lookup v (run cb cs).states ≡ lookup v cb.states
unfolding run
run-isolated cb [] v h = refl
run-isolated cb (c ∷ cs) v h = run-isolated (step cb c) cs v h.1 ∙ lookup-step_ne cb c v h.0

-- Failures reported for one URL, the last one first.
unfoldable pub fail_all : CircuitBreaker → String → List Time → CircuitBreaker
fail_all cb url [] = cb
fail_all cb url (t ∷ older) = record_failure (fail_all cb url older) url t

abbrev last_failure : List Time → Time → Time
last_failure [] d = d
last_failure (t ∷ older) d = t

-- What a run of failures since the last success has left of an entry.
record IsCounted (k n : ℕ) (last : Time) (s : UrlState) : Type 0 where
  count : s.consecutive_failures ≡ n
  below : n < k → s.state ≡ closed
  above : k ≤ n → (s.state ≡ opened) × (s.opened_at ≡ last)

config-fail_all :
    (cb : CircuitBreaker) (url : String) (ts : List Time)
    → ((fail_all cb url ts).threshold ≡ cb.threshold)
      × ((fail_all cb url ts).cooldown ≡ cb.cooldown)
unfolding fail_all record_failure
config-fail_all cb url [] = (refl, refl)
config-fail_all cb url (t ∷ older) = config-fail_all cb url older

fail_state-IsCounted :
    (cb : CircuitBreaker) (k n : ℕ) (last now : Time) (s : UrlState)
    → cb.threshold ≡ pos k
    → IsCounted k n last s
    → IsCounted k (suc n) now (fail_state cb now s)
unfolding fail_state
fail_state-IsCounted cb k n last now s e h = ground arith

fail_all-IsCounted :
    (cb : CircuitBreaker) (url : String) (k : ℕ) (ts : List Time)
    → cb.threshold ≡ pos k
    → 0 < k
    → (entry (lookup url cb.states)).state ≡ closed
    → (entry (lookup url cb.states)).consecutive_failures ≡ 0
    → IsCounted k (length ts) (last_failure ts 0) (entry (lookup url (fail_all cb url ts).states))
unfolding fail_all
fail_all-IsCounted cb url k [] e p c z = ground arith
fail_all-IsCounted cb url k (t ∷ older) e p c z =
    rw (lookup-record_failure (fail_all cb url older) url t) (
      fail_state-IsCounted (fail_all cb url older) k (length older) (last_failure older 0) t _
        ((config-fail_all cb url older).0 ∙ e) (fail_all-IsCounted cb url k older e p c z))

config-record_success :
    (cb : CircuitBreaker) (url : String)
    → ((record_success cb url).threshold ≡ cb.threshold)
      × ((record_success cb url).cooldown ≡ cb.cooldown)
unfolding record_success
config-record_success cb url = ground arith

allow_of_IsCounted :
    (cb : CircuitBreaker) (url : String) (k n : ℕ) (t now : Time) (d : Duration)
    → cb.cooldown ≡ d
    → IsCounted k (suc n) t (entry (lookup url cb.states))
    → (allow cb url now).1
      ≡ (if leb k (suc n) then if leb_ℤ d (sub now t) then none else some circuit_open else none)
unfolding allow
allow_of_IsCounted cb url k n t now d e h = ground arith

-- After a success (or for a URL not seen yet) and then one or more failures in a row, the breaker
-- with threshold k > 0 lets a call pass exactly if there were fewer than k failures or the cooldown
-- has run since the last of them.
pub failures_trip :
    (cb : CircuitBreaker) (url : String) (k : ℕ) (t now : Time) (older : List Time)
    → cb.threshold ≡ pos k
    → 0 < k
    → (allow (fail_all (record_success cb url) url (t ∷ older)) url now).1 ≡ (
        if leb k (suc (length older))
        then if leb_ℤ cb.cooldown (sub now t) then none else some circuit_open
        else none)
failures_trip cb url k t now older e p =
    let healed = record_success cb url in
    allow_of_IsCounted (fail_all healed url (t ∷ older)) url k (length older) t now cb.cooldown
      ((config-fail_all healed url (t ∷ older)).1 ∙ (config-record_success cb url).1)
      (fail_all-IsCounted healed url k (t ∷ older) ((config-record_success cb url).0 ∙ e) p
        (entry-record_success cb url).0 (entry-record_success cb url).1)

-- How many of some `Allow` calls for one URL pass, in their order.
unfoldable pub grants : CircuitBreaker → String → List Time → ℕ
grants cb url [] = 0
grants cb url (t ∷ ts) =
    let rest = grants (allow cb url t).0 url ts in
    elim (allow cb url t).1 [ none ↦ suc rest | some e ↦ rest ]

-- How many probes an entry may still grant.
abbrev budget : ℕ → UrlState → ℕ
budget k s = elim s.state [ closed ↦ 0 | opened ↦ k | half_open ↦ k - s.half_open_probes ]

probes-allow :
    (cb : CircuitBreaker) (url : String) (t : Time)
    → (allow cb url t).0.half_open_probes ≡ cb.half_open_probes
unfolding allow
probes-allow cb url t = ground arith

grant_costs :
    (cb : CircuitBreaker) (k : ℕ) (t : Time) (s : UrlState)
    → cb.half_open_probes ≡ pos k
    → 0 < k
    → s.state ≢ closed
    → let r = allow_state cb t s s.state in
      (r.0.state ≢ closed) × (budget k r.0 + (elim r.1 [ none ↦ 1 | some e ↦ 0 ]) ≤ budget k s)
unfolding allow_state
grant_costs cb k t s e p h = ground arith

grants-le-budget :
    (cb : CircuitBreaker) (url : String) (k : ℕ) (s : UrlState) (ts : List Time)
    → cb.half_open_probes ≡ pos k
    → 0 < k
    → lookup url cb.states ≡ some s
    → s.state ≢ closed
    → grants cb url ts ≤ budget k s
unfolding grants
grants-le-budget cb url k s [] e p f h = omega arith
grants-le-budget cb url k s (t ∷ ts) e p f h = ground (
  arith,
  lookup-allow cb url t s f,
  grant_costs cb k t s e p h,
  grants-le-budget (allow cb url t).0 url k (allow_state cb t s s.state).0 ts
      (probes-allow cb url t ∙ e) p (lookup-allow cb url t s f).0 (grant_costs cb k t s e p h).0,
)

-- Between two reports, an open circuit lets at most the configured number of probes pass, at
-- whatever times the calls come.
pub probes_bounded :
    (cb : CircuitBreaker) (url : String) (k : ℕ) (s : UrlState) (ts : List Time)
    → cb.half_open_probes ≡ pos k
    → 0 < k
    → lookup url cb.states ≡ some s
    → s.state ≡ opened
    → grants cb url ts ≤ k
probes_bounded cb url k s ts e p f o = ground (arith, grants-le-budget cb url k s ts e p f)

allow_state_exhausted :
    (cb : CircuitBreaker) (t : Time) (s : UrlState)
    → s.state ≡ half_open
    → ltb_ℤ (pos s.half_open_probes) cb.half_open_probes ≡ false
    → allow_state cb t s s.state ≡ (s, some circuit_open)
unfolding allow_state
allow_state_exhausted cb t s o x = ground arith

-- A half-open circuit whose probes are used up, with no report of how they went, refuses every
-- later call: no time that passes opens it again.
pub exhausted_denies :
    (cb : CircuitBreaker) (url : String) (s : UrlState) (ts : List Time)
    → lookup url cb.states ≡ some s
    → s.state ≡ half_open
    → ltb_ℤ (pos s.half_open_probes) cb.half_open_probes ≡ false
    → grants cb url ts ≡ 0
unfolding grants
exhausted_denies cb url s [] f o x = refl
exhausted_denies cb url s (t ∷ ts) f o x = ground (
  arith,
  lookup-allow cb url t s f,
  allow_state_exhausted cb t s o x,
  exhausted_denies (allow cb url t).0 url s ts
      ((lookup-allow cb url t s f).0 ∙ ap some (ap (λ r. r.0) (allow_state_exhausted cb t s o x))) o
      (rw (probes-allow cb url t) x),
)
