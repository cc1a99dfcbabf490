-- ===== src/Keys/Sessions/Lifetime.antt =====
-- internal/webadmin/auth.go: how long a session is good for, and what ends it.
use easy_cron.Prelude.{
  ℕ, ◌+◌, ◌≤◌, Bool, not, ◌||◌, String, Option, inl, inr, List, [], ◌∷◌, ◌==◌, ltb, arith,
  Bool-cases, Option-cases, All, All-keep, All-update_rows, any,
}
use easy_cron.Prelude.Int.{pos, leb_ℤ}
use easy_cron.Domain.{Time, Uuid, sub}
use easy_cron.Keys
use easy_cron.Keys.{
  Key, AdminSession, KeyStore, KeyError, is_live, is_over, has_hash, get_key_by_token_hash,
  create_admin_session, get_admin_session, refresh_admin_session, refreshed, delete_admin_session,
  delete_key,
}
use easy_cron.Keys.Sessions.{
  SessionManager, cookie_value, drop_cookie, new_session, next_expiry, half, login, renew,
  authenticate, logout,
}

-- The manager with its two lifetimes.
abbrev pub manager : ℕ → ℕ → Bool → SessionManager
manager idle absolute secure = record {
  idle_ttl = pos idle;
  absolute_ttl = pos absolute;
  cookie_secure = secure;
}

-- What a request to the session manager can be, and the deletion of a key.
pub data Visit : Type 0 where
  sign_in : Option String → String → String → String → Time → Visit
  enter : Option String → Time → Visit
  sign_out : Option String → Visit
  revoke : Uuid → String → Visit

module _ (hash_token : String → String) (m : SessionManager) where
  unfoldable pub visit : Visit → KeyStore → KeyStore
  unfolding login authenticate logout delete_key
  visit (sign_in cookie plaintext raw csrf now) s =
      (login hash_token m cookie plaintext raw csrf now s).0
  visit (enter cookie now) s = (authenticate hash_token m cookie now s).0
  visit (sign_out cookie) s = (logout hash_token m cookie s).0
  visit (revoke i ns) s = (delete_key i ns s).0

  unfoldable pub visits : List Visit → KeyStore → KeyStore
  unfolding visit
  visits [] s = s
  visits (v ∷ vs) s = visits vs (visit v s)

module _ (hash_token : String → String) (idle absolute : ℕ) (secure : Bool) where
  abbrev pub m : SessionManager
  m = manager idle absolute secure

  -- The expiries of a session are bounded by the lifetimes.
  abbrev pub IsFresh : AdminSession → Type 0
  IsFresh a =
      (a.expires_at ≤ a.absolute_expires_at)
      × (a.absolute_expires_at ≤ a.created_at + absolute)
      × (a.expires_at ≤ a.last_seen_at + idle)

  drop-IsFresh :
      (c : Option String) (s : KeyStore)
      → All IsFresh s.sessions
      → All IsFresh (drop_cookie hash_token c s).sessions
  unfolding delete_admin_session
  drop-IsFresh c s h = elim (Option-cases (cookie_value c)) [
    | inl e ↦ rw (drop_cookie, e) h
    | inr (v, e) ↦
        rw (drop_cookie, e) (All-keep IsFresh (λ a. not (has_hash (hash_token v) a)) s.sessions h)
  ]

  create-IsFresh :
      (raw csrf : String) (key : Key) (now : Time) (s : KeyStore)
      → All IsFresh s.sessions
      → All IsFresh (create_admin_session (new_session hash_token m raw csrf key now) s).0.sessions
  unfolding create_admin_session
  create-IsFresh raw csrf key now s h =
      let a = new_session hash_token m raw csrf key now in
      elim (Bool-cases (
        any (has_hash a.token_hash) s.sessions
        || (not (any (λ (k : Key). k.id == a.api_key_id) s.keys)
            || ltb a.absolute_expires_at a.expires_at))) [
              | inl e ↦ rw e h
              | inr e ↦ rw e (
                (ground (arith, e), omega arith, omega arith),
                All-keep IsFresh (λ b. not (is_over now b)) s.sessions h,
              )
            ]

  login-IsFresh :
      (c : Option String) (plaintext raw csrf : String) (now : Time) (s : KeyStore)
      → All IsFresh s.sessions
      → All IsFresh (login hash_token m c plaintext raw csrf now s).0.sessions
  unfolding login
  login-IsFresh c plaintext raw csrf now s h =
      elim (Option-cases (get_key_by_token_hash (hash_token plaintext) s)) [
        | inl e ↦ rw (login, e) h
        | inr (key, e) ↦ elim (Bool-cases key.enabled) [
          | inr d ↦ rw (login, e, d) h
          | inl d ↦
              let a = new_session hash_token m raw csrf key now in
              let k =
                create-IsFresh raw csrf key now (drop_cookie hash_token c s) (drop-IsFresh c s h) in
              elim (Option-cases (create_admin_session a (drop_cookie hash_token c s)).1) [
                | inl b ↦ rw (login, e, d, b) k
                | inr (x, b) ↦ rw (login, e, d, b) k
              ]
        ]
      ]

  refresh-IsFresh :
      (hash : String) (now expires : Time) (s : KeyStore)
      → expires ≤ now + idle
      → All IsFresh s.sessions
      → All IsFresh (refresh_admin_session hash now expires s).0.sessions
  unfolding refresh_admin_session
  refresh-IsFresh hash now expires s l h = elim (Bool-cases (any (is_live hash now) s.sessions)) [
    | inr e ↦ rw e h
    | inl e ↦ rw e (
        All-update_rows IsFresh (is_live hash now) (refreshed now expires) s.sessions
          (λ a q. (ground arith, q.1, ground (arith, l))) h)
  ]

  renew-IsFresh :
      (v : String) (now : Time) (a : AdminSession) (key : Key) (s : KeyStore)
      → All IsFresh s.sessions
      → All IsFresh (renew hash_token m v now a key s).0.sessions
  unfolding renew
  renew-IsFresh v now a key s h =
      elim (Bool-cases (leb_ℤ (sub a.expires_at now) (half m.idle_ttl))) [
        | inr e ↦ rw (renew, e) h
        | inl e ↦
            let k =
              refresh-IsFresh (hash_token v) now (next_expiry hash_token m now a) s (ground arith)
                h in
            elim (Option-cases
              (refresh_admin_session (hash_token v) now (next_expiry hash_token m now a) s).1) [
                | inl b ↦ rw (renew, e, b) k
                | inr (x, b) ↦ rw (renew, e, b) k
              ]
      ]

  enter-IsFresh :
      (c : Option String) (now : Time) (s : KeyStore)
      → All IsFresh s.sessions
      → All IsFresh (authenticate hash_token m c now s).0.sessions
  unfolding authenticate
  enter-IsFresh c now s h = elim (Option-cases (cookie_value c)) [
    | inl e ↦ rw (authenticate, e) h
    | inr (v, e) ↦ elim (Option-cases (get_admin_session (hash_token v) now s)) [
      | inl d ↦ rw (authenticate, e, d) h
      | inr (r, d) ↦ rw (authenticate, e, d) (renew-IsFresh v now r.0 r.1 s h)
    ]
  ]

  revoke-IsFresh :
      (i : Uuid) (ns : String) (s : KeyStore)
      → All IsFresh s.sessions
      → All IsFresh (delete_key i ns s).0.sessions
  unfolding delete_key
  revoke-IsFresh i ns s h = elim (Bool-cases (any (Keys.is_key i ns) s.keys)) [
    | inr e ↦ rw e h
    | inl e ↦ rw e (All-keep IsFresh (λ (a : AdminSession). not (a.api_key_id == i)) s.sessions h)
  ]

  pub visits-IsFresh :
      (vs : List Visit) (s : KeyStore)
      → All IsFresh s.sessions
      → All IsFresh (visits hash_token m vs s).sessions
  unfolding visits visit logout
  visits-IsFresh [] s h = h
  visits-IsFresh (sign_in c plaintext raw csrf now ∷ vs) s h =
      visits-IsFresh vs (visit hash_token m (sign_in c plaintext raw csrf now) s)
        (login-IsFresh c plaintext raw csrf now s h)
  visits-IsFresh (enter c now ∷ vs) s h =
      visits-IsFresh vs (visit hash_token m (enter c now) s) (enter-IsFresh c now s h)
  visits-IsFresh (sign_out c ∷ vs) s h =
      visits-IsFresh vs (visit hash_token m (sign_out c) s) (drop-IsFresh c s h)
  visits-IsFresh (revoke i ns ∷ vs) s h =
      visits-IsFresh vs (visit hash_token m (revoke i ns) s) (revoke-IsFresh i ns s h)
