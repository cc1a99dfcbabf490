-- ===== src/Keys/Bootstrap.antt =====
-- internal/service/apikeys.go and internal/api/middleware.go: the first key, and a key that was deleted.
use easy_cron.Prelude.{
  ℕ, ◌≡◌, ◌≢◌, ◌⊎◌, inl, inr, refl, Bool, false, not, ◌&&◌, String, Option, none, some, List, [],
  ◌∷◌, str_eq, str_eq_iff, arith, Bool-cases, keep, any, find_row,
}
use easy_cron.Domain.{Time, Uuid}
use easy_cron.Auth.{Text, ApiKey, AuthState, unauthorized, look_up, legacy, same}
use easy_cron.Keys.{
  Key, AdminSession, KeyStore, bootstrap_already_completed, insert_api_key, has_any_api_keys,
  insert_first_api_key, new_api_key, bootstrap_first_api_key, is_usable, is_key,
  get_key_by_token_hash, delete_key,
}

-- The two cases, on the rows of the table.
abbrev pub FirstKey : (String → String) → String → String → String → Time → Uuid → KeyStore → Type 0
FirstKey hash_token ns label plaintext now id s =
    let k = new_api_key hash_token ns label plaintext now id in
    let r = bootstrap_first_api_key hash_token ns label plaintext now id s in
    (s.keys ≡ []) × (r ≡ (record s { keys = k ∷ [] }, inr k))
    ⊎ (s.keys ≢ []) × (r ≡ (s, inl bootstrap_already_completed))

first_key :
    (hash_token : String → String) (ns label plaintext : String) (now : Time) (id : Uuid)
    (keys : List Key) (sessions : List AdminSession)
    → str_eq ns "" ≡ false
    → FirstKey hash_token ns label plaintext now id (record { keys = keys; sessions = sessions })
unfolding bootstrap_first_api_key insert_first_api_key insert_api_key has_any_api_keys
first_key hash_token ns label plaintext now id [] sessions c =
    inl (refl, rw (bootstrap_first_api_key, c) refl)
first_key hash_token ns label plaintext now id (x ∷ xs) sessions c =
    inr ((λ e. ground (arith, e)), rw (bootstrap_first_api_key, c) refl)

-- For a namespace, BootstrapFirstAPIKey creates its key where the table of keys is empty, and
-- otherwise changes nothing and reports that the bootstrap is already completed.
pub bootstrap_only_first :
    (hash_token : String → String) (ns label plaintext : String) (now : Time) (id : Uuid)
    (s : KeyStore)
    → ns ≢ ""
    → FirstKey hash_token ns label plaintext now id s
bootstrap_only_first hash_token ns label plaintext now id s n =
    first_key hash_token ns label plaintext now id s.keys s.sessions
      (ground (arith, n, str_eq_iff ns ""))

-- What the middleware reads of a key.
abbrev pub seen_key : Option Key → Option ApiKey
seen_key none = none
seen_key (some k) = some (record { id = k.id; namespace = k.namespace; enabled = k.enabled })

abbrev pub repository : KeyStore → String → Option ApiKey
repository s hash = seen_key (get_key_by_token_hash hash s)

-- Nothing that a test looks for is left.
none_left {ℓ} :
    {A : Type ℓ} (p q : A → Bool) (xs : List A)
    → find_row (λ x. q x && not (p x)) xs ≡ none
    → find_row q (keep (λ x. not (p x)) xs) ≡ none
none_left p q [] h = refl
none_left p q (x ∷ xs) h = ground (arith, none_left p q xs)

-- A token that no key stands for.
unknown_token :
    (hash_token : Text → String) (s : KeyStore) (now : ℕ) (token : Text) (st : AuthState)
    → get_key_by_token_hash (hash_token token) s ≡ none
    → look_up hash_token (repository s) [] now token st ≡ (st, unauthorized)
unfolding look_up legacy same
unknown_token hash_token s now token st e = rw (look_up, repository, e) refl

deleted_key_not_found :
    (hash : String) (i : Uuid) (ns : String) (s : KeyStore)
    → (delete_key i ns s).1 ≡ none
    → find_row (λ (k : Key). is_usable hash k && not (is_key i ns k)) s.keys ≡ none
    → get_key_by_token_hash hash (delete_key i ns s).0 ≡ none
unfolding delete_key get_key_by_token_hash
deleted_key_not_found hash i ns s d u = elim (Bool-cases (any (is_key i ns) s.keys)) [
  | inr e ↦ absurd (ground (arith, rw (delete_key, e) at d))
  | inl e ↦
      rw (get_key_by_token_hash, delete_key, e) (none_left (is_key i ns) (is_usable hash) s.keys u)
]

-- After the deletion of a key, where no other enabled key has the hash of the token and there is
-- no fallback key, the middleware refuses the token.
pub deleted_key_refused :
    (hash_token : Text → String) (i : Uuid) (ns : String) (s : KeyStore) (now : ℕ) (token : Text)
    (st : AuthState)
    → (delete_key i ns s).1 ≡ none
    → find_row (λ (k : Key). is_usable (hash_token token) k && not (is_key i ns k)) s.keys ≡ none
    → look_up hash_token (repository (delete_key i ns s).0) [] now token st ≡ (st, unauthorized)
deleted_key_refused hash_token i ns s now token st d u =
    unknown_token hash_token (delete_key i ns s).0 now token st
      (deleted_key_not_found (hash_token token) i ns s d u)
