-- ===== src/Mcp/Tests.antt =====
-- Runs of the authentication of the MCP server.
use easy_cron.Prelude.{◌≡◌, refl, true, String, Option, none, some, [], ◌∷◌, if◌then◌else◌, str_eq}
use easy_cron.Dispatcher.Classify.{codes}
use easy_cron.Auth.{Text, same, strip, ApiKey, AuthState, next, look_up, multi_key_auth}
use easy_cron.Mcp.{Context, mcp_auth_middleware, http_context_func}
use easy_cron.Mcp.Access.{fresh, IsAgreed, mcp_agrees}

abbrev hash : Text → String
hash [] = "empty"
hash (c ∷ cs) = "hash"

abbrev key : ApiKey
key = record { id = 4; namespace = "team"; enabled = true }

abbrev get : String → Option ApiKey
get h = if str_eq h "hash" then some key else none

abbrev header : Text
header = codes "Bearer tok"

abbrev state : AuthState
state = record { dirty = []; last_legacy_warn = 0 }

abbrev team : Context
team = record { namespace = some "team"; mcp_context_key = some "team" }

let_in : (mcp_auth_middleware hash get [] 100 header (fresh none) 0).1 ≡ some team
unfolding mcp_auth_middleware strip same
let_in = refl

default_namespace :
    http_context_func hash (λ h. none) (codes "tok") header (fresh none)
    ≡ record { namespace = some "default"; mcp_context_key = none }
unfolding http_context_func strip same
default_namespace = refl

mcp_agrees_example : IsAgreed hash get [] 100 header none 0 (next (some "team"))
unfolding multi_key_auth look_up strip same
mcp_agrees_example = mcp_agrees hash get [] 100 (codes "/jobs") header state none 0 refl
