-- ===== src/Mcp.antt =====
-- internal/mcp/auth.go: the authentication of the MCP server and the namespace that its tools run in.
-- As in Auth, the hash is the parameter `hash_token` and the repository `get_key`.
pub mod Access
mod Tests
use easy_cron.Prelude.{ℕ, ◌-◌, not, ◌&&◌, String, Option, none, some, [], if◌then◌else◌, leb}
use easy_cron.Auth.{Text, same, strip, has_prefix, trim_prefix, bearer, ApiKey}

-- The two values of a request's context: the namespace that the service reads, and the one under
-- `mcpContextKey`.
pub record Context : Type 0 where
  pub namespace : Option String
  pub mcp_context_key : Option String

abbrev pub namespace_to_context : String → Context → Context
namespace_to_context ns ctx = record ctx { namespace = some ns }

module _ (hash_token : Text → String) (get_key : String → Option ApiKey) (fallback_key : Text) where
  -- `AuthMiddleware`, at the time `now` and with the time of the last warning, both in seconds: 401
  -- is `none`, else the context of the next handler.
  unfoldable pub mcp_auth_middleware : ℕ → Text → Context → ℕ → ℕ × Option Context
  unfolding same strip
  mcp_auth_middleware now auth ctx last_legacy_warn =
      let token = trim_prefix auth bearer in
      let admit : String → Context =
        λ ns. record (namespace_to_context ns ctx) { mcp_context_key = some ns } in
      let legacy : ℕ × Option Context =
        (if not (same fallback_key []) && same token fallback_key
          then (
            (if leb 60 (now - last_legacy_warn) then now else last_legacy_warn),
            some (admit "default"),
          )
          else (last_legacy_warn, none)) in
      if not (has_prefix auth bearer)
      then (last_legacy_warn, none)
      else elim (get_key (hash_token token)) [
        | none ↦ legacy
        | some key ↦ if key.enabled then (last_legacy_warn, some (admit key.namespace)) else legacy
      ]

  -- `httpContextFunc`.
  unfoldable pub http_context_func : Text → Context → Context
  unfolding same strip
  http_context_func auth ctx = elim ctx.mcp_context_key [
    | some ns ↦ namespace_to_context ns ctx
    | none ↦
        let token = trim_prefix auth bearer in
        let legacy =
          if not (same fallback_key []) && same token fallback_key
          then namespace_to_context "default" ctx
          else ctx in
        if not (has_prefix auth bearer) then ctx else elim (get_key (hash_token token)) [
          | none ↦ legacy
          | some key ↦ if key.enabled then namespace_to_context key.namespace ctx else legacy
        ]
  ]
