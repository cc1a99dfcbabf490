-- ===== src/Keys.antt =====
-- internal/store/postgres/store.go: the tables `api_keys` and `admin_sessions`, and internal/service/apikeys.go.
-- The hash and the random token are arguments.
pub mod Sessions
pub mod Bootstrap
mod Tests
use easy_cron.Prelude.{
  ℕ, Bool, true, false, not, ◌&&◌, ◌||◌, String, Option, none, some, ◌⊎◌, inl, inr, List, [], ◌∷◌,
  if◌then◌else◌, ◌==◌, leb, ltb, str_eq, keep, any, find_row, update_rows, order_desc,
}
use easy_cron.Domain.{Time, Uuid, ListParams, with_defaults}
use easy_cron.Jobs.Lists.{page_of}

-- `domain.APIKey`, a row of `api_keys`.
pub record Key : Type 0 where
  pub id : Uuid
  pub namespace : String
  pub token_hash : String
  pub label : String
  pub enabled : Bool
  pub created_at : Time
  pub last_used_at : Option Time

-- `domain.AdminSession`.
pub record AdminSession : Type 0 where
  pub token_hash : String
  pub api_key_id : Uuid
  pub csrf_token : String
  pub created_at : Time
  pub last_seen_at : Time
  pub expires_at : Time
  pub absolute_expires_at : Time

pub record KeyStore : Type 0 where
  pub keys : List Key
  pub sessions : List AdminSession

pub data KeyError : Type 0 where
  namespace_required duplicate_api_key bootstrap_already_completed api_key_not_found : KeyError
  admin_session_not_found rejected : KeyError

-- The primary key and the unique hash.
abbrev pub same_key : Key → Key → Bool
same_key k r = r.id == k.id || str_eq r.token_hash k.token_hash

unfoldable pub insert_api_key : Key → KeyStore → KeyStore × Option KeyError
insert_api_key k s =
    if any (same_key k) s.keys
    then (s, some duplicate_api_key)
    else (record s { keys = record k { last_used_at = none } ∷ s.keys }, none)

unfoldable pub has_any_api_keys : KeyStore → Bool
has_any_api_keys s = any (λ (k : Key). true) s.keys

-- Under the advisory lock, so one step.
unfoldable pub insert_first_api_key : Key → KeyStore → KeyStore × Option KeyError
unfolding has_any_api_keys insert_api_key
insert_first_api_key k s =
    if has_any_api_keys s then (s, some bootstrap_already_completed) else insert_api_key k s

abbrev pub is_usable : String → Key → Bool
is_usable hash k = str_eq k.token_hash hash && k.enabled

unfoldable pub get_key_by_token_hash : String → KeyStore → Option Key
get_key_by_token_hash hash s = find_row (is_usable hash) s.keys

unfoldable pub list_keys : String → ListParams → KeyStore → List Key
unfolding with_defaults
list_keys ns p s =
    page_of (with_defaults p)
      (order_desc (λ (k : Key). k.created_at) (keep (λ (k : Key). str_eq k.namespace ns) s.keys))

abbrev pub is_key : Uuid → String → Key → Bool
is_key i ns k = k.id == i && str_eq k.namespace ns

-- `ON DELETE CASCADE`: the sessions of the key go with it.
unfoldable pub delete_key : Uuid → String → KeyStore → KeyStore × Option KeyError
delete_key i ns s =
    if any (is_key i ns) s.keys
    then (
      record {
        keys = keep (λ k. not (is_key i ns k)) s.keys;
        sessions = keep (λ (a : AdminSession). not (a.api_key_id == i)) s.sessions;
      },
      none,
    )
    else (s, some api_key_not_found)

unfoldable pub update_last_used_at : List Uuid → Time → KeyStore → KeyStore
update_last_used_at ids now s = record s {
  keys =
      update_rows (λ (k : Key). any (λ i. k.id == i) ids)
        (λ (k : Key). record k { last_used_at = some now }) s.keys;
}

-- `queryInsertAdminSession`: the rows that are over go. The keys of the tables and the check of the
-- expiries, which the statement has to satisfy, are looked up in the rows that were there before.
abbrev pub is_over : Time → AdminSession → Bool
is_over now a = leb a.expires_at now || leb a.absolute_expires_at now

abbrev pub has_hash : String → AdminSession → Bool
has_hash hash a = str_eq a.token_hash hash

unfoldable pub create_admin_session : AdminSession → KeyStore → KeyStore × Option KeyError
create_admin_session a s =
    if any (has_hash a.token_hash) s.sessions
      || (not (any (λ (k : Key). k.id == a.api_key_id) s.keys)
          || ltb a.absolute_expires_at a.expires_at)
    then (s, some rejected)
    else (record s { sessions = a ∷ keep (λ b. not (is_over a.created_at b)) s.sessions }, none)

abbrev pub is_live : String → Time → AdminSession → Bool
is_live hash now a = has_hash hash a && (ltb now a.expires_at && ltb now a.absolute_expires_at)

-- `JOIN api_keys … WHERE k.enabled = true`.
unfoldable pub get_admin_session : String → Time → KeyStore → Option (AdminSession × Key)
get_admin_session hash now s = elim (find_row (is_live hash now) s.sessions) [
  | none ↦ none
  | some a ↦ elim (find_row (λ (k : Key). k.id == a.api_key_id && k.enabled) s.keys) [
    | none ↦ none
    | some k ↦ some (a, k)
  ]
]

-- `LEAST`.
abbrev pub least : Time → Time → Time
least a b = if leb a b then a else b

abbrev pub refreshed : Time → Time → AdminSession → AdminSession
refreshed now expires a = record a {
  last_seen_at = now;
  expires_at = least expires a.absolute_expires_at;
}

unfoldable pub refresh_admin_session : String → Time → Time → KeyStore → KeyStore × Option KeyError
refresh_admin_session hash now expires s =
    if any (is_live hash now) s.sessions
    then (
      record s { sessions = update_rows (is_live hash now) (refreshed now expires) s.sessions },
      none,
    )
    else (s, some admin_session_not_found)

unfoldable pub delete_admin_session : String → KeyStore → KeyStore
delete_admin_session hash s = record s { sessions = keep (λ a. not (has_hash hash a)) s.sessions }

module _ (hash_token : String → String) where
  -- `newAPIKey`, with the random token.
  abbrev pub new_api_key : String → String → String → Time → Uuid → Key
  new_api_key ns label plaintext now id = record {
    id = id;
    namespace = ns;
    token_hash = hash_token plaintext;
    label = label;
    enabled = true;
    created_at = now;
    last_used_at = none;
  }

  -- What a method answers: the key, or the error of the repository.
  abbrev pub key_result : Key → KeyStore × Option KeyError → KeyStore × (KeyError ⊎ Key)
  key_result k (s, none) = (s, inr k)
  key_result k (s, some e) = (s, inl e)

  unfoldable pub create_api_key :
      String → String → String → Time → Uuid → KeyStore → KeyStore × (KeyError ⊎ Key)
  unfolding insert_api_key
  create_api_key ns label plaintext now id s =
      let k = new_api_key ns label plaintext now id in
      if str_eq ns "" then (s, inl namespace_required) else key_result k (insert_api_key k s)

  unfoldable pub bootstrap_first_api_key :
      String → String → String → Time → Uuid → KeyStore → KeyStore × (KeyError ⊎ Key)
  unfolding insert_first_api_key
  bootstrap_first_api_key ns label plaintext now id s =
      let k = new_api_key ns label plaintext now id in
      if str_eq ns "" then (s, inl namespace_required) else key_result k (insert_first_api_key k s)

unfoldable pub list_api_keys : String → ListParams → KeyStore → KeyError ⊎ List Key
unfolding with_defaults list_keys
list_api_keys ns p s =
    if str_eq ns "" then inl namespace_required else inr (list_keys ns (with_defaults p) s)

unfoldable pub delete_api_key : String → Uuid → KeyStore → KeyStore × Option KeyError
unfolding delete_key
delete_api_key ns id s = if str_eq ns "" then (s, some namespace_required) else delete_key id ns s
