-- ===== src/Mcp/Access.antt =====
-- internal/mcp/auth.go and internal/api/middleware.go: the two servers let the same requests in.
use easy_cron.Prelude.{
  ℕ, ◌≡◌, ◌⊎◌, inl, inr, true, false, ◌||◌, String, Option, none, some, Bool-cases, Option-cases,
  arith,
}
use easy_cron.Dispatcher.Classify.{codes}
use easy_cron.Auth.{
  Text, same, has_prefix, bearer, ApiKey, Answer, unauthorized, next, AuthState, legacy, look_up,
  multi_key_auth, trim_prefix,
}
use easy_cron.Mcp.{Context, namespace_to_context, mcp_auth_middleware, http_context_func}

-- The context of a request that the API's answer lets in.
abbrev pub admitted : Context → Answer → Option Context
admitted ctx unauthorized = none
admitted ctx (next none) = some ctx
admitted ctx (next (some ns)) = some (record { namespace = some ns; mcp_context_key = some ns })

-- The context that the tools get, where the middleware has or has not let the request in.
abbrev pub tools_context : Context → Answer → Context
tools_context ctx unauthorized = ctx
tools_context ctx (next none) = ctx
tools_context ctx (next (some ns)) = namespace_to_context ns ctx

-- A request's context at the start, before any middleware of the MCP server.
abbrev pub fresh : Option String → Context
fresh ns = record { namespace = ns; mcp_context_key = none }

module _ (hash_token : Text → String) (get_key : String → Option ApiKey) (fallback_key : Text)
    (now : ℕ) where
  abbrev pub middleware : Text → Option String → ℕ → Option Context
  middleware auth ns warn =
      (mcp_auth_middleware hash_token get_key fallback_key now auth (fresh ns) warn).1

  abbrev pub tools : Text → Context → Context
  tools = http_context_func hash_token get_key fallback_key

  -- The tools' context behind the middleware.
  abbrev pub behind : Text → Option Context → Option Context
  behind auth none = none
  behind auth (some ctx) = some (tools auth ctx)

  -- The middleware lets a request in as the API does, the tools' context is then the middleware's,
  -- and without the middleware the tools get the same namespace.
  abbrev pub IsAgreed : Text → Option String → ℕ → Answer → Type 0
  IsAgreed auth ns warn answer =
      (middleware auth ns warn ≡ admitted (fresh ns) answer)
      × (behind auth (middleware auth ns warn) ≡ middleware auth ns warn)
      × (tools auth (fresh ns) ≡ tools_context (fresh ns) answer)

  no_bearer :
      (auth : Text) (ns : Option String) (warn : ℕ)
      → has_prefix auth bearer ≡ false
      → IsAgreed auth ns warn unauthorized
  unfolding mcp_auth_middleware http_context_func
  no_bearer auth ns warn e = ground (arith, e)

  legacy_agrees :
      (auth : Text) (ns : Option String) (warn : ℕ) (st : AuthState)
      → has_prefix auth bearer ≡ true
      → get_key (hash_token (trim_prefix auth bearer)) ≡ none
        ⊎ ((key : ApiKey) × (get_key (hash_token (trim_prefix auth bearer)) ≡ some key)
            × (key.enabled ≡ false))
      → IsAgreed auth ns warn
          (legacy hash_token get_key fallback_key now (trim_prefix auth bearer) st).1
  unfolding mcp_auth_middleware http_context_func legacy
  legacy_agrees auth ns warn st e k = ground (arith, e)

  key_agrees :
      (auth : Text) (ns : Option String) (warn : ℕ) (key : ApiKey)
      → has_prefix auth bearer ≡ true
      → get_key (hash_token (trim_prefix auth bearer)) ≡ some key
      → key.enabled ≡ true
      → IsAgreed auth ns warn (next (some key.namespace))
  unfolding mcp_auth_middleware http_context_func
  key_agrees auth ns warn key e k f = ground (arith, e)

  look_up_agrees :
      (auth : Text) (ns : Option String) (warn : ℕ) (st : AuthState)
      → has_prefix auth bearer ≡ true
      → IsAgreed auth ns warn
          (look_up hash_token get_key fallback_key now (trim_prefix auth bearer) st).1
  unfolding look_up
  look_up_agrees auth ns warn st e =
      elim (Option-cases (get_key (hash_token (trim_prefix auth bearer)))) [
        | inl f ↦ rw (look_up, f) (legacy_agrees auth ns warn st e (inl f))
        | inr (key, f) ↦ elim (Bool-cases key.enabled) [
          | inl g ↦ rw (look_up, f, g) (key_agrees auth ns warn key e f g)
          | inr g ↦ rw (look_up, f, g) (legacy_agrees auth ns warn st e (inr (key, f, g)))
        ]
      ]

  -- On a path that the API does not exempt, the MCP server's middleware lets in the headers that the
  -- API lets in, and into the same namespace; the tools then run in the context of the middleware, and
  -- in the same namespace where a request has not passed it; a header that the API refuses gives
  -- them no namespace of its own.
  pub mcp_agrees :
      (path auth : Text) (st : AuthState) (ns : Option String) (warn : ℕ)
      → same path (codes "/health") || has_prefix path (codes "/mcp") ≡ false
      → IsAgreed auth ns warn
          (multi_key_auth hash_token get_key fallback_key now
            (record { path = path; authorization = auth })
            st).1
  unfolding multi_key_auth
  mcp_agrees path auth st ns warn c = elim (Bool-cases (has_prefix auth bearer)) [
    | inl e ↦ rw (multi_key_auth, c, e) (look_up_agrees auth ns warn st e)
    | inr e ↦ rw (multi_key_auth, c, e) (no_bearer auth ns warn e)
  ]
