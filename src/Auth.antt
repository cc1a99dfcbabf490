-- ===== src/Auth.antt =====
-- internal/api/middleware.go: the two authentication middlewares and the tracker of used keys. A text is
-- the list of its bytes; the SHA-256 hash is the parameter `hash_token`, the repository `get_key`.
pub mod Access
mod Tests
use easy_cron.Prelude.{
  ℕ, ◌-◌, Bool, true, false, not, ◌&&◌, ◌||◌, String, Option, none, some, List, [], ◌∷◌, ◌++◌,
  if◌then◌else◌, ◌==◌, leb, ltb, str_eq,
}
use easy_cron.Domain.{Uuid}
use easy_cron.Dispatcher.Classify.{codes}

abbrev pub Text : Type 0
Text = List ℕ

unfoldable pub same : Text → Text → Bool
same [] [] = true
same [] (d ∷ ds) = false
same (c ∷ cs) [] = false
same (c ∷ cs) (d ∷ ds) = c == d && same cs ds

-- What is left of a text behind a prefix, if it has it.
unfoldable pub strip : Text → Text → Option Text
strip [] s = some s
strip (p ∷ ps) [] = none
strip (p ∷ ps) (c ∷ cs) = let rest = strip ps cs in if p == c then rest else none

-- `strings.HasPrefix` and `strings.TrimPrefix`.
abbrev pub has_prefix : Text → Text → Bool
has_prefix s p = elim (strip p s) [ none ↦ false | some rest ↦ true ]

abbrev pub trim_prefix : Text → Text → Text
trim_prefix s p = elim (strip p s) [ none ↦ s | some rest ↦ rest ]

abbrev pub bearer : Text
bearer = codes "Bearer "

pub record Request : Type 0 where
  pub path : Text
  pub authorization : Text

pub record ApiKey : Type 0 where
  pub id : Uuid
  pub namespace : String
  pub enabled : Bool

-- 401, or the next handler, with the namespace that the request's context then has.
pub data Answer : Type 0 where
  unauthorized : Answer
  next : Option String → Answer

-- `AuthMiddleware`.
unfoldable pub auth_middleware : Text → Request → Answer
unfolding same strip
auth_middleware api_key r =
    let token = trim_prefix r.authorization bearer in
    if same api_key []
    then next none
    else if same r.path (codes "/health")
    then next none
    else if same r.authorization token || not (same token api_key)
    then unauthorized
    else next none

-- `lastUsedTracker.dirty`, a set.
abbrev pub has_uuid : List Uuid → Uuid → Bool
has_uuid [] i = false
has_uuid (j ∷ js) i = j == i || has_uuid js i

unfoldable pub mark_used : Uuid → List Uuid → List Uuid
mark_used i dirty = if has_uuid dirty i then dirty else i ∷ dirty

-- `flush`: the ids that `UpdateLastUsedAt` is called with, if it is called, and the set after it.
unfoldable pub flush : List Uuid → Option (List Uuid) × List Uuid
flush [] = (none, [])
flush (i ∷ dirty) = (some (i ∷ dirty), [])

-- The tracker's set and the time of the last warning, in seconds.
pub record AuthState : Type 0 where
  pub dirty : List Uuid
  pub last_legacy_warn : ℕ

module _ (hash_token : Text → String) (get_key : String → Option ApiKey) (fallback_key : Text) where
  -- The fallback on the single key; the warning is due once a minute.
  unfoldable pub legacy : ℕ → Text → AuthState → AuthState × Answer
  unfolding same
  legacy now token st =
      let warned =
        if leb 60 (now - st.last_legacy_warn) then record st { last_legacy_warn = now } else st in
      if not (same fallback_key []) && same token fallback_key
      then (warned, next (some "default"))
      else (st, unauthorized)

  -- From the token on.
  unfoldable pub look_up : ℕ → Text → AuthState → AuthState × Answer
  unfolding legacy mark_used
  look_up now token st = elim (get_key (hash_token token)) [
    | none ↦ legacy now token st
    | some key ↦
        if key.enabled
        then (record st { dirty = mark_used key.id st.dirty }, next (some key.namespace))
        else legacy now token st
  ]

  -- `MultiKeyAuthMiddleware`, at the time `now`.
  unfoldable pub multi_key_auth : ℕ → Request → AuthState → AuthState × Answer
  unfolding look_up strip same
  multi_key_auth now r st =
      if same r.path (codes "/health") || has_prefix r.path (codes "/mcp")
      then (st, next none)
      else if not (has_prefix r.authorization bearer)
      then (st, unauthorized)
      else look_up now (trim_prefix r.authorization bearer) st
