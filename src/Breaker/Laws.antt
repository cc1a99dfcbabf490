-- ===== src/Breaker/Laws.antt =====
-- internal/circuitbreaker/breaker.go: what one call does to the entry of its URL.
use easy_cron.Prelude.{◌≡◌, refl, String, some, false, Option-cases, inl, inr, str_eq}
use easy_cron.Prelude.Dict.{lookup, lookup-insert_self, lookup-insert_ne}
use easy_cron.Domain.{Time}
use easy_cron.Breaker.{
  CircuitBreaker, UrlState, closed, allow, allow_state, record_success, record_failure, fail_state,
  entry,
}

-- An allowed or refused call writes back the entry that the switch made.
pub lookup-allow :
    (cb : CircuitBreaker) (url : String) (now : Time) (s : UrlState)
    → lookup url cb.states ≡ some s
    → (lookup url (allow cb url now).0.states ≡ some (allow_state cb now s s.state).0)
      × ((allow cb url now).1 ≡ (allow_state cb now s s.state).1)
unfolding allow
lookup-allow cb url now s e = rw (e, allow) (lookup-insert_self url _ cb.states, refl)

pub lookup-record_failure :
    (cb : CircuitBreaker) (url : String) (now : Time)
    → lookup url (record_failure cb url now).states
      ≡ some (fail_state cb now (entry (lookup url cb.states)))
unfolding record_failure
lookup-record_failure cb url now = lookup-insert_self url _ cb.states

-- After a success the entry is as good as new.
pub entry-record_success :
    (cb : CircuitBreaker) (url : String)
    → let s = entry (lookup url (record_success cb url).states) in
      (s.state ≡ closed) × (s.consecutive_failures ≡ 0)
unfolding record_success
entry-record_success cb url = elim (Option-cases (lookup url cb.states)) [
  | inl e ↦ rw (e, record_success) (rw e (refl, refl))
  | inr (s, e) ↦ rw (e, record_success) (rw (lookup-insert_self url _ cb.states) (refl, refl))
]

module _ (cb : CircuitBreaker) (url v : String) (now : Time) (other : str_eq url v ≡ false) where
  pub lookup-allow_ne : lookup v (allow cb url now).0.states ≡ lookup v cb.states
  unfolding allow
  lookup-allow_ne = elim (Option-cases (lookup url cb.states)) [
    | inl e ↦ rw (e, allow)
    | inr (s, e) ↦ rw (e, allow) (lookup-insert_ne url v _ cb.states other)
  ]

  pub lookup-record_success_ne : lookup v (record_success cb url).states ≡ lookup v cb.states
  unfolding record_success
  lookup-record_success_ne = elim (Option-cases (lookup url cb.states)) [
    | inl e ↦ rw (e, record_success)
    | inr (s, e) ↦ rw (e, record_success) (lookup-insert_ne url v _ cb.states other)
  ]

  pub lookup-record_failure_ne : lookup v (record_failure cb url now).states ≡ lookup v cb.states
  unfolding record_failure
  lookup-record_failure_ne = lookup-insert_ne url v _ cb.states other
