-- ===== src/Auth/Tests.antt =====
-- Runs of the authentication at concrete requests.
use easy_cron.Prelude.{
  ◌≡◌, ◌≢◌, ◌⊎◌, refl, true, String, Option, none, some, [], ◌∷◌, ◌++◌, if◌then◌else◌, str_eq,
}
use easy_cron.Dispatcher.Classify.{codes}
use easy_cron.Auth.{
  Text, same, strip, bearer, Request, ApiKey, next, AuthState, look_up, multi_key_auth,
}
use easy_cron.Auth.Access.{access_needs_key}

abbrev hash : Text → String
hash [] = "empty"
hash (c ∷ cs) = "hash"

abbrev key : ApiKey
key = record { id = 4; namespace = "team"; enabled = true }

abbrev get : String → Option ApiKey
get h = if str_eq h "hash" then some key else none

abbrev request : Request
request = record { path = codes "/jobs"; authorization = codes "Bearer tok" }

abbrev none_set : Text
none_set = []

abbrev team : Option String
team = some "team"

abbrev state : AuthState
state = record { dirty = []; last_legacy_warn = 0 }

served : (multi_key_auth hash get [] 100 request state).1 ≡ next (some "team")
unfolding multi_key_auth look_up strip same
served = refl

access_needs_key_example :
    (token : Text) × (codes "Bearer tok" ≡ bearer ++ token)
    × (((k : ApiKey) × (get (hash token) ≡ some k) × (k.enabled ≡ true) × (team ≡ some k.namespace))
        ⊎ ((none_set ≢ []) × (token ≡ none_set) × (team ≡ some "default")))
unfolding same strip
access_needs_key_example = access_needs_key hash get [] 100 request state team refl served
