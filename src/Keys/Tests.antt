-- ===== src/Keys/Tests.antt =====
-- Keys and sessions at concrete inputs; the hash is the text itself.
use easy_cron.Prelude.{
  ℕ, ◌+◌, ◌-◌, ◌<◌, ◌≡◌, ◌≢◌, refl, true, String, none, some, List, [], ◌∷◌, In,
}
use easy_cron.Dispatcher.Classify.{codes}
use easy_cron.Auth.{Text, AuthState, unauthorized, look_up}
use easy_cron.Keys.{Key, AdminSession, KeyStore, has_hash, delete_key}
use easy_cron.Keys.Bootstrap.{deleted_key_refused, repository}
use easy_cron.Keys.Sessions.{authenticate}
use easy_cron.Keys.Sessions.Lifetime.{manager, Visit, sign_in, enter, visits}
use easy_cron.Keys.Sessions.Ends.{session_lifetime, key_deletion_ends_sessions}

abbrev hash : String → String
hash s = s

abbrev hash_text : Text → String
hash_text t = "key"

abbrev key : ℕ → String → Key
key i h = record {
  id = i;
  namespace = "a";
  token_hash = h;
  label = "ops";
  enabled = true;
  created_at = 1;
  last_used_at = none;
}

abbrev keys : KeyStore
keys = record { keys = key 1 "key" ∷ key 2 "other" ∷ []; sessions = [] }

abbrev tracker : AuthState
tracker = record { dirty = []; last_legacy_warn = 0 }

deleted_key_refused_example :
    look_up hash_text (repository (delete_key 1 "a" keys).0) [] 9 (codes "key") tracker
    ≡ (tracker, unauthorized)
unfolding delete_key
deleted_key_refused_example =
    deleted_key_refused hash_text 1 "a" keys 9 (codes "key") tracker refl refl

-- A session of each key; the second is renewed.
abbrev session : ℕ → String → ℕ → AdminSession
session i h expires = record {
  token_hash = h;
  api_key_id = i;
  csrf_token = "form";
  created_at = 100;
  last_seen_at = expires - 50;
  expires_at = expires;
  absolute_expires_at = 300;
}

abbrev history : List Visit
history = sign_in none "key" "first" "form" 100 ∷ enter (some "first") 130 ∷ []

session_lifetime_example :
    let t = visits hash (manager 50 200 true) history keys in
    (170 < 100 + 200)
    × (true ≡ true)
    × In (key 1 "key") t.keys
    × ((b : AdminSession) × In b t.sessions
        × (has_hash "first" b ≡ true)
        × (170 < b.last_seen_at + 50))
unfolding visits authenticate
session_lifetime_example =
    session_lifetime hash 50 200 true history keys "first" 170
      (record (session 1 "first" 220) { last_seen_at = 170 }) (key 1 "key") refl refl

abbrev two_sessions : KeyStore
two_sessions = record keys { sessions = session 1 "first" 180 ∷ session 2 "second" 180 ∷ [] }

key_deletion_ends_sessions_example : (session 2 "second" 180).api_key_id ≢ 1
unfolding delete_key authenticate
key_deletion_ends_sessions_example =
    key_deletion_ends_sessions hash (manager 50 200 true) 1 "a" "second" 140 two_sessions
      (session 2 "second" 180) (key 2 "other") refl refl
