-- ===== src/Keys/Sessions.antt =====
-- internal/webadmin/auth.go: the session manager of the admin pages. A request brings the value of its
-- cookie, if it has one; an answer may set or clear it. The hash is the parameter `hash_token`, and the
-- random tokens are arguments.
pub mod Lifetime
pub mod Ends
use easy_cron.Prelude.{
  ℕ, suc, ◌+◌, ◌-◌, ◌/◌, Bool, true, false, not, ◌&&◌, ◌||◌, String, Option, none, some, ◌⊎◌, inl,
  inr, List, [], ◌∷◌, if◌then◌else◌, ◌==◌, leb, ltb, str_eq,
}
use easy_cron.Prelude.Int.{ℤ, pos, negsuc, neg, leb_ℤ, pos_part}
use easy_cron.Domain.{Time, Duration, add, sub, before, second}
use easy_cron.Auth.{Text, same}
use easy_cron.Keys.{
  Key, AdminSession, KeyStore, KeyError, get_key_by_token_hash, create_admin_session,
  get_admin_session, refresh_admin_session, delete_admin_session,
}

pub record SessionManager : Type 0 where
  pub idle_ttl : Duration
  pub absolute_ttl : Duration
  pub cookie_secure : Bool

-- `newSessionCookie` and `clearSessionCookie`: the fields that are not constants.
pub data Cookie : Type 0 where
  set : String → Time → ℕ → Bool → Cookie
  clear : Bool → Cookie

abbrev pub max_age : Time → Time → ℕ
max_age now expires_at =
    let seconds = (pos_part (sub expires_at now) + (second - 1)) / second in
    if ltb seconds 1 then 1 else seconds

abbrev pub new_session_cookie : String → Time → Time → Bool → Cookie
new_session_cookie raw_token now expires_at secure =
    set raw_token expires_at (max_age now expires_at) secure

-- `d / 2` of Go, towards 0.
abbrev pub half : Duration → Duration
half (pos n) = pos (n / 2)
half (negsuc n) = neg (pos (suc n / 2))

pub data AdminError : Type 0 where
  unauthenticated : AdminError
  store_failed : KeyError → AdminError

-- A cookie without a value counts as none.
abbrev pub cookie_value : Option String → Option String
cookie_value none = none
cookie_value (some v) = if str_eq v "" then none else some v

module _ (hash_token : String → String) where
  -- The session that a request's cookie names, deleted.
  abbrev pub drop_cookie : Option String → KeyStore → KeyStore
  drop_cookie c s = elim (cookie_value c) [
    | none ↦ s
    | some v ↦ delete_admin_session (hash_token v) s
  ]

  abbrev pub new_session : SessionManager → String → String → Key → Time → AdminSession
  new_session m raw_session csrf_token key now = record {
    token_hash = hash_token raw_session;
    api_key_id = key.id;
    csrf_token = csrf_token;
    created_at = now;
    last_seen_at = now;
    expires_at = add now m.idle_ttl;
    absolute_expires_at = add now m.absolute_ttl;
  }

  unfoldable pub login :
      SessionManager
      → Option String
      → String
      → String
      → String
      → Time
      → KeyStore
      → KeyStore × (AdminError ⊎ Key) × Option Cookie
  unfolding get_key_by_token_hash delete_admin_session create_admin_session
  login m cookie plaintext raw_session csrf_token now s =
      elim (get_key_by_token_hash (hash_token plaintext) s) [
        | none ↦ (s, inl unauthenticated, none)
        | some key ↦
            if not key.enabled
            then (s, inl unauthenticated, none)
            else (let session = new_session m raw_session csrf_token key now in
                let (s1, err) = create_admin_session session (drop_cookie cookie s) in
                elim err [
                  | some e ↦ (s1, inl (store_failed e), none)
                  | none ↦ (
                    s1,
                    inr key,
                    some (new_session_cookie raw_session now session.expires_at m.cookie_secure),
                  )
                ])
      ]

  -- The expiry that a refresh asks for.
  abbrev pub next_expiry : SessionManager → Time → AdminSession → Time
  next_expiry m now a =
      let expires_at = add now m.idle_ttl in
      if before a.absolute_expires_at expires_at then a.absolute_expires_at else expires_at

  -- From the session on that was found.
  unfoldable pub renew :
      SessionManager
      → String
      → Time
      → AdminSession
      → Key
      → KeyStore
      → KeyStore × (AdminError ⊎ (AdminSession × Key)) × Option Cookie
  unfolding refresh_admin_session
  renew m v now a key s =
      if not (leb_ℤ (sub a.expires_at now) (half m.idle_ttl))
      then (s, inr (a, key), none)
      else (let expires_at = next_expiry m now a in
          let (s1, err) = refresh_admin_session (hash_token v) now expires_at s in
          elim err [
            | some e ↦ (s1, inl unauthenticated, some (clear m.cookie_secure))
            | none ↦ (
              s1,
              inr (record a { last_seen_at = now; expires_at = expires_at }, key),
              some (new_session_cookie v now expires_at m.cookie_secure),
            )
          ])

  unfoldable pub authenticate :
      SessionManager
      → Option String
      → Time
      → KeyStore
      → KeyStore × (AdminError ⊎ (AdminSession × Key)) × Option Cookie
  unfolding get_admin_session renew
  authenticate m cookie now s = elim (cookie_value cookie) [
    | none ↦ (s, inl unauthenticated, none)
    | some v ↦ elim (get_admin_session (hash_token v) now s) [
      | none ↦ (s, inl unauthenticated, some (clear m.cookie_secure))
      | some r ↦ renew m v now r.0 r.1 s
    ]
  ]

  unfoldable pub logout : SessionManager → Option String → KeyStore → KeyStore × Option Cookie
  unfolding delete_admin_session
  logout m cookie s = (drop_cookie cookie s, some (clear m.cookie_secure))

-- `validateCSRF`.
unfoldable pub validate_csrf : Text → Text → Bool
unfolding same
validate_csrf expected submitted =
    if same expected [] || same submitted [] then false else same expected submitted
