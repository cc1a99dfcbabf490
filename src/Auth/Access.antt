-- ===== src/Auth/Access.antt =====
-- internal/api/middleware.go: who gets through.
use mathlib.Core.Path.{subst}
use easy_cron.Prelude.{
  ℕ, ◌≡◌, ◌≢◌, ◌↔◌, ◌⊎◌, ◌∙◌, sym, ap, inl, inr, true, false, ◌||◌, String, Option, none, some, [],
  ◌∷◌, ◌++◌, Bool-cases, Option-cases, arith, length,
}
use easy_cron.Dispatcher.Classify.{codes}
use easy_cron.Auth.{
  Text, same, strip, has_prefix, bearer, Request, ApiKey, next, AuthState, auth_middleware, legacy,
  look_up, multi_key_auth, mark_used, has_uuid,
}

pub same_iff : (s t : Text) → (same s t ≡ true) ↔ (s ≡ t)
unfolding same
same_iff [] [] = ground arith
same_iff [] (d ∷ ds) = ground arith
same_iff (c ∷ cs) [] = ground arith
same_iff (c ∷ cs) (d ∷ ds) = ground (arith, same_iff cs ds)

strip_iff : (p s r : Text) → (strip p s ≡ some r) ↔ (s ≡ p ++ r)
unfolding strip
strip_iff [] s r = ground arith
strip_iff (p ∷ ps) [] r = ground arith
strip_iff (p ∷ ps) (c ∷ cs) r = ground (arith, strip_iff ps cs r)

module _ (hash_token : Text → String) (get_key : String → Option ApiKey) (fallback_key : Text)
    (now : ℕ) where
  -- The single key is set, and the token is that key.
  abbrev IsFallback : Text → Option String → Type 0
  IsFallback token ns = (fallback_key ≢ []) × (token ≡ fallback_key) × (ns ≡ some "default")

  -- The token belongs to an enabled key of this namespace.
  abbrev IsKey : Text → Option String → Type 0
  IsKey token ns =
      (key : ApiKey) × (get_key (hash_token token) ≡ some key)
      × (key.enabled ≡ true)
      × (ns ≡ some key.namespace)

  legacy_answer :
      (token : Text) (st : AuthState) (ns : Option String)
      → (legacy hash_token get_key fallback_key now token st).1 ≡ next ns
      → IsFallback token ns
  unfolding legacy
  legacy_answer token st ns h = elim (Bool-cases (same fallback_key [])) [
    | inl e ↦ absurd (ground arith)
    | inr e ↦ elim (Bool-cases (same token fallback_key)) [
      | inl f ↦ (
        (λ z. ground (arith, same_iff fallback_key [], z)),
        (same_iff token fallback_key).0 f,
        ground arith,
      )
      | inr f ↦ absurd (ground arith)
    ]
  ]

  look_up_answer :
      (token : Text) (st : AuthState) (ns : Option String)
      → (look_up hash_token get_key fallback_key now token st).1 ≡ next ns
      → IsKey token ns ⊎ IsFallback token ns
  unfolding look_up
  look_up_answer token st ns h = elim (Option-cases (get_key (hash_token token))) [
    | inl e ↦ inr (legacy_answer token st ns (ground arith))
    | inr (key, e) ↦ elim (Bool-cases key.enabled) [
      | inl f ↦ inl (key, e, f, ground arith)
      | inr f ↦ inr (legacy_answer token st ns (ground arith))
    ]
  ]

  -- On a path that is not exempt, a request reaches the next handler only with a bearer token, either
  -- of an enabled key and then in that key's namespace, or of the single key where one is set and then
  -- in the namespace "default".
  pub access_needs_key :
      (r : Request) (st : AuthState) (ns : Option String)
      → same r.path (codes "/health") || has_prefix r.path (codes "/mcp") ≡ false
      → (multi_key_auth hash_token get_key fallback_key now r st).1 ≡ next ns
      → (token : Text) × (r.authorization ≡ bearer ++ token)
        × (((key : ApiKey) × (get_key (hash_token token) ≡ some key)
              × (key.enabled ≡ true)
              × (ns ≡ some key.namespace))
            ⊎ ((fallback_key ≢ []) × (token ≡ fallback_key) × (ns ≡ some "default")))
  unfolding multi_key_auth
  access_needs_key r st ns c h = elim (Option-cases (strip bearer r.authorization)) [
    | inl e ↦ absurd (ground arith)
    | inr (token, e) ↦ (
      token,
      (strip_iff bearer r.authorization token).0 e,
      look_up_answer token st ns (ground arith),
    )
  ]

  -- On a path that is not exempt, a request with the bearer token of an enabled key is served in
  -- the key's namespace, and the key is noted as used.
  pub enabled_key_served :
      (r : Request) (st : AuthState) (token : Text) (key : ApiKey)
      → same r.path (codes "/health") || has_prefix r.path (codes "/mcp") ≡ false
      → r.authorization ≡ bearer ++ token
      → get_key (hash_token token) ≡ some key
      → key.enabled ≡ true
      → (let out = multi_key_auth hash_token get_key fallback_key now r st in
          (out.1 ≡ next (some key.namespace)) × (has_uuid out.0.dirty key.id ≡ true))
  unfolding multi_key_auth look_up mark_used
  enabled_key_served r st token key c a k e =
      let stripped : strip bearer r.authorization ≡ some token =
        (strip_iff bearer r.authorization token).1 a in
      ground arith

-- A token differs from the header that carries it.
token_shorter : (t : Text) → same (bearer ++ t) t ≡ false
token_shorter t = elim (Bool-cases (same (bearer ++ t) t)) [
  | inl e ↦ absurd (omega (arith, ap length ((same_iff (bearer ++ t) t).0 e)))
  | inr e ↦ e
]

-- With a single key that is set, a request on any path but /health is served exactly where its header
-- is "Bearer " and the key.
pub single_key_iff :
    (api_key : Text) (r : Request)
    → same api_key [] ≡ false
    → same r.path (codes "/health") ≡ false
    → (auth_middleware api_key r ≡ next none) ↔ (r.authorization ≡ bearer ++ api_key)
unfolding auth_middleware
single_key_iff k r s p = elim (Option-cases (strip bearer r.authorization)) [
  | inl e ↦ (
    λ h. absurd (ground (arith, same_iff r.authorization r.authorization)),
    λ h. absurd (ground (arith, strip_iff bearer r.authorization k)),
  )
  | inr (t, e) ↦
      let a : r.authorization ≡ bearer ++ t = (strip_iff bearer r.authorization t).0 e in
      let d : same r.authorization t ≡ false =
        subst (λ z. same z t ≡ false) (sym a) (token_shorter t) in
      (
        λ h. a ∙ ap (◌++◌ bearer) ((same_iff t k).0 (ground arith)),
        λ h. ground (arith, same_iff t k, strip_iff bearer r.authorization k),
      )
]
