-- ===== src/Keys/Sessions/Ends.antt =====
-- internal/webadmin/auth.go: what a request with a session's cookie has behind it, and what ends that.
use mathlib.Core.Path.{subst}
use easy_cron.Prelude.{
  ℕ, ◌+◌, ◌<◌, ◌≡◌, ◌≢◌, ◌∙◌, refl, sym, ap, Bool, true, false, not, ◌&&◌, String, none, some, inl,
  inr, List, [], ◌∷◌, ◌==◌, str_eq, str_eq_iff, arith, Bool-cases, Option-cases, All, All-In, In,
  In-keep, keep, any, find_row, find_row-In,
}
use easy_cron.Prelude.Int.{leb_ℤ}
use easy_cron.Domain.{Time, Uuid, sub}
use easy_cron.Keys
use easy_cron.Keys.{
  Key, AdminSession, KeyStore, KeyError, is_live, is_over, has_hash, get_key_by_token_hash,
  create_admin_session, get_admin_session, refresh_admin_session, refreshed, delete_admin_session,
  delete_key,
}
use easy_cron.Keys.Sessions.{
  SessionManager, clear, unauthenticated, cookie_value, drop_cookie, next_expiry, half, renew,
  authenticate, logout,
}
use easy_cron.Keys.Sessions.Lifetime.{manager, Visit, visits, IsFresh, visits-IsFresh}

module _ (hash_token : String → String) (m : SessionManager) where
  -- A session that was accepted is a row that is not over, of a key that is enabled.
  abbrev pub Accepted : String → Time → AdminSession → Key → KeyStore → AdminSession → Type 0
  Accepted v now a k s b =
      In b s.sessions
      × (is_live (hash_token v) now b ≡ true)
      × In k s.keys
      × (k.enabled ≡ true)
      × (k.id ≡ b.api_key_id)
      × (a.created_at ≡ b.created_at)
      × (a.api_key_id ≡ b.api_key_id)

  get-Accepted :
      (v : String) (now : Time) (a : AdminSession) (k : Key) (s : KeyStore)
      → get_admin_session (hash_token v) now s ≡ some (a, k)
      → Accepted v now a k s a
  unfolding get_admin_session
  get-Accepted v now a k s h =
      elim (Option-cases (find_row (is_live (hash_token v) now) s.sessions)) [
        | inl e ↦ absurd (ground (arith, rw (get_admin_session, e) at h))
        | inr (b, e) ↦
            elim (Option-cases (find_row (λ (k : Key). k.id == b.api_key_id && k.enabled) s.keys)) [
              | inl d ↦ absurd (ground (arith, rw (get_admin_session, e, d) at h))
              | inr (l, d) ↦
                  let q : (b, l) ≡ (a, k) = ground (arith, rw (get_admin_session, e, d) at h) in
                  let f = find_row-In (is_live (hash_token v) now) s.sessions b e in
                  let g = find_row-In (λ (k : Key). k.id == b.api_key_id && k.enabled) s.keys l d in
                  subst (λ (z : AdminSession × Key). Accepted v now z.0 z.1 s z.0) q
                    (f.0, f.1, g.0, ground (arith, g.1), ground (arith, g.1), refl, refl)
            ]
      ]

  renew-Accepted :
      (v : String) (now : Time) (b : AdminSession) (l : Key) (a : AdminSession) (k : Key)
      (s : KeyStore)
      → (renew hash_token m v now b l s).1 ≡ inr (a, k)
      → (a.created_at ≡ b.created_at) × (a.api_key_id ≡ b.api_key_id) × (k ≡ l)
  unfolding renew
  renew-Accepted v now b l a k s h =
      elim (Bool-cases (leb_ℤ (sub b.expires_at now) (half m.idle_ttl))) [
        | inr e ↦ ground (arith, rw (renew, e) at h)
        | inl e ↦
            elim (Option-cases
              (refresh_admin_session (hash_token v) now (next_expiry hash_token m now b) s).1) [
                | inl d ↦ ground (arith, rw (renew, e, d) at h)
                | inr (x, d) ↦ absurd (ground (arith, rw (renew, e, d) at h))
              ]
      ]

  pub authenticated :
      (v : String) (now : Time) (a : AdminSession) (k : Key) (s : KeyStore)
      → (authenticate hash_token m (some v) now s).1 ≡ inr (a, k)
      → (b : AdminSession) × Accepted v now a k s b
  unfolding authenticate
  authenticated v now a k s h = elim (Option-cases (cookie_value (some v))) [
    | inl e ↦ absurd (ground (arith, rw (authenticate, e) at h))
    | inr (w, e) ↦ elim (Option-cases (get_admin_session (hash_token w) now s)) [
      | inl d ↦ absurd (ground (arith, rw (authenticate, e, d) at h))
      | inr ((b, l), d) ↦
          let same : w ≡ v = ground (arith, e) in
          let q = renew-Accepted w now b l a k s (rw (authenticate, e, d) at h) in
          let r = subst (λ z. Accepted z now b l s b) same (get-Accepted w now b l s d) in
          (b, (r.0, r.1, rw q.2 r.2, rw q.2 r.3, rw q.2 r.4, q.0, q.1))
    ]
  ]

-- From tables without sessions, after any logins, requests, logouts and deletions of keys, an
-- accepted request comes before the absolute lifetime from the login is over, its key is there and
-- enabled, and its row was last seen less than the idle lifetime ago.
pub session_lifetime :
    (hash_token : String → String) (idle absolute : ℕ) (secure : Bool) (vs : List Visit)
    (s : KeyStore) (v : String) (now : Time) (a : AdminSession) (k : Key)
    → s.sessions ≡ []
    → let m = manager idle absolute secure in
      let t = visits hash_token m vs s in
      (authenticate hash_token m (some v) now t).1 ≡ inr (a, k)
      → (now < a.created_at + absolute)
        × (k.enabled ≡ true)
        × In k t.keys
        × ((b : AdminSession) × In b t.sessions
            × (has_hash (hash_token v) b ≡ true)
            × (now < b.last_seen_at + idle))
session_lifetime hash_token idle absolute secure vs s v now a k e h =
    let m = manager idle absolute secure in
    let t = visits hash_token m vs s in
    let (b, (i, l, j, n, p, c, q)) = authenticated hash_token m v now a k t h in
    let f =
      All-In (IsFresh hash_token idle absolute secure) t.sessions b
        (visits-IsFresh hash_token idle absolute secure vs s
          (subst (All (IsFresh hash_token idle absolute secure)) (sym e) tt))
        i in
    (ground (arith, l, f, c), n, j, (b, i, ground (arith, l), ground (arith, l, f)))

-- After the deletion of a key, no request is accepted with a session of that key.
pub key_deletion_ends_sessions :
    (hash_token : String → String) (m : SessionManager) (i : Uuid) (ns v : String) (now : Time)
    (s : KeyStore) (a : AdminSession) (k : Key)
    → (delete_key i ns s).1 ≡ none
    → (authenticate hash_token m (some v) now (delete_key i ns s).0).1 ≡ inr (a, k)
    → a.api_key_id ≢ i
unfolding delete_key
key_deletion_ends_sessions hash_token m i ns v now s a k d h =
    elim (Bool-cases (any (Keys.is_key i ns) s.keys)) [
      | inr e ↦ absurd (ground (arith, rw (delete_key, e) at d))
      | inl e ↦
          let (b, r) = authenticated hash_token m v now a k (delete_key i ns s).0 h in
          let f =
            In-keep (λ (a : AdminSession). not (a.api_key_id == i)) s.sessions b
              (rw (delete_key, e) at r.0) in
          λ q. ground (arith, f.1, r.6, q)
    ]

find_row-gone {ℓ} :
    {A : Type ℓ} (p q : A → Bool) (xs : List A)
    → ((x : A) → q x ≡ true → p x ≡ true)
    → find_row q (keep (λ x. not (p x)) xs) ≡ none
find_row-gone p q [] h = refl
find_row-gone p q (x ∷ xs) h = ground (arith, h x, find_row-gone p q xs h)

module _ (hash_token : String → String) (m : SessionManager) (v : String)
    (named : str_eq v "" ≡ false) where
  refused :
      (now : Time) (s : KeyStore)
      → find_row (is_live (hash_token v) now) s.sessions ≡ none
      → authenticate hash_token m (some v) now s
        ≡ (s, inl unauthenticated, some (clear m.cookie_secure))
  unfolding authenticate get_admin_session
  refused now s e = rw (authenticate, named, get_admin_session, e) refl

  logout_sessions :
      (s : KeyStore)
      → (logout hash_token m (some v) s).0.sessions
        ≡ keep (λ a. not (has_hash (hash_token v) a)) s.sessions
  unfolding logout delete_admin_session
  logout_sessions s =
      let c : cookie_value (some v) ≡ some v = rw (cookie_value, named) refl in
      rw (logout, drop_cookie, c) refl

-- After a logout with a cookie, a request with the same cookie is refused at any time, changes
-- nothing, and clears the cookie.
pub logout_ends_session :
    (hash_token : String → String) (m : SessionManager) (v : String) (now : Time) (s : KeyStore)
    → v ≢ ""
    → let t = (logout hash_token m (some v) s).0 in
      authenticate hash_token m (some v) now t
      ≡ (t, inl unauthenticated, some (clear m.cookie_secure))
logout_ends_session hash_token m v now s n =
    let c : str_eq v "" ≡ false = ground (arith, n, str_eq_iff v "") in
    let g =
      find_row-gone (has_hash (hash_token v)) (is_live (hash_token v) now) s.sessions
        (λ a q. ground (arith, q)) in
    let t = (logout hash_token m (some v) s).0 in
    refused hash_token m v c now t
      (ap (find_row (is_live (hash_token v) now)) (logout_sessions hash_token m v c s) ∙ g)
