-- ===== src/WebhookUrl/Tests.antt =====
-- Runs of the validation at concrete URLs, with the addresses named by their first number.
use easy_cron.Prelude.{
  ℕ, ◌≡◌, ◌≢◌, ◌⊎◌, refl, Bool, false, String, Option, none, some, [], if◌then◌else◌, ◌==◌, str_eq,
}
use easy_cron.Dispatcher.Classify.{codes}
use easy_cron.Auth.{Text, same}
use easy_cron.WebhookUrl.{
  Url, Net, forbidden_ip, forbidden_host, has_suffix, is_forbidden_hostname, has_percent,
  strip_ipv6_zone, validate,
}
use easy_cron.WebhookUrl.Accepted.{IsForbiddenName, IsInternalHost, accepted_url}

abbrev url_of : Text → Url
url_of name = record { scheme = codes "https"; host = name; hostname = name }

abbrev urls : String → Option Url
urls s =
    if str_eq s "https://8.8.8.8"
    then some (url_of (codes "8.8.8.8"))
    else if str_eq s "https://127.0.0.1%lo"
    then some (url_of (codes "127.0.0.1%lo"))
    else if str_eq s "https://a.localhost"
    then some (url_of (codes "a.localhost"))
    else if str_eq s "https://localhost."
    then some (url_of (codes "localhost."))
    else none

abbrev address_of : Text → Option ℕ
address_of t =
    if same t (codes "8.8.8.8")
    then some 8
    else if same t (codes "127.0.0.1")
    then some 127
    else none

abbrev is_number : ℕ → ℕ → Bool
is_number n ip = ip == n

abbrev network : Net
network = record {
  Ip = ℕ;
  parse_url = urls;
  to_lower = λ t. t;
  parse_ip = address_of;
  is_unspecified = is_number 0;
  is_loopback = is_number 127;
  is_private = is_number 10;
  is_link_local_unicast = λ ip. false;
  is_link_local_multicast = λ ip. false;
  is_multicast = is_number 224;
}

public_address : validate network "https://8.8.8.8" ≡ none
unfolding validate same is_forbidden_hostname has_suffix has_percent strip_ipv6_zone
public_address = refl

loopback_with_zone : validate network "https://127.0.0.1%lo" ≡ some forbidden_ip
unfolding validate same is_forbidden_hostname has_suffix has_percent strip_ipv6_zone
loopback_with_zone = refl

below_localhost : validate network "https://a.localhost" ≡ some forbidden_host
unfolding validate same is_forbidden_hostname has_suffix has_percent strip_ipv6_zone
below_localhost = refl

final_dot : validate network "https://localhost." ≡ none
unfolding validate same is_forbidden_hostname has_suffix has_percent strip_ipv6_zone
final_dot = refl

accepted_url_example :
    (u : Url) × (urls "https://8.8.8.8" ≡ some u)
    × ((u.scheme ≡ codes "http") ⊎ (u.scheme ≡ codes "https"))
    × (u.host ≢ [])
    × ¬ (IsForbiddenName u.hostname ⊎ IsInternalHost network u.hostname)
accepted_url_example = accepted_url network "https://8.8.8.8" public_address
