-- ===== src/WebhookUrl.antt =====
-- internal/webhookurl/validation.go. A text is the list of its bytes; the packages net/url, net and
-- strings are the record `Net`.
pub mod Accepted
mod Tests
use easy_cron.Prelude.{
  ℕ, Bool, false, not, ◌&&◌, ◌||◌, String, Option, none, some, [], ◌∷◌, if◌then◌else◌, ◌==◌,
}
use easy_cron.Dispatcher.Classify.{codes}
use easy_cron.Auth.{Text, same}

-- What the code reads of a `url.URL`.
pub record Url : Type 0 where
  pub scheme : Text
  pub host : Text
  pub hostname : Text

pub record Net : Type 1 where
  pub Ip : Type 0
  pub parse_url : String → Option Url
  pub to_lower : Text → Text
  pub parse_ip : Text → Option Ip
  pub is_unspecified : Ip → Bool
  pub is_loopback : Ip → Bool
  pub is_private : Ip → Bool
  pub is_link_local_unicast : Ip → Bool
  pub is_link_local_multicast : Ip → Bool
  pub is_multicast : Ip → Bool

pub data UrlError : Type 0 where
  malformed bad_scheme no_host forbidden_host forbidden_ip : UrlError

-- `strings.HasSuffix`.
unfoldable pub has_suffix : Text → Text → Bool
unfolding same
has_suffix [] p = same [] p
has_suffix (c ∷ cs) p = same (c ∷ cs) p || has_suffix cs p

unfoldable pub is_forbidden_hostname : Text → Bool
unfolding same has_suffix
is_forbidden_hostname host =
    same host (codes "localhost")
    || (has_suffix host (codes ".localhost") || same host (codes "metadata.google.internal"))

abbrev pub percent : ℕ
percent = 37

unfoldable pub has_percent : Text → Bool
has_percent [] = false
has_percent (c ∷ cs) = c == percent || has_percent cs

-- `stripIPv6Zone`: what stands before the last `%`.
unfoldable pub strip_ipv6_zone : Text → Text
unfolding has_percent
strip_ipv6_zone [] = []
strip_ipv6_zone (c ∷ cs) =
    let rest = strip_ipv6_zone cs in if c == percent && not (has_percent cs) then [] else c ∷ rest

module _ (net : Net) where
  abbrev pub is_forbidden_ip : net.Ip → Bool
  is_forbidden_ip ip =
      net.is_unspecified ip
      || (net.is_loopback ip
          || (net.is_private ip
              || (net.is_link_local_unicast ip
                  || (net.is_link_local_multicast ip || net.is_multicast ip))))

  unfoldable pub validate : String → Option UrlError
  unfolding same is_forbidden_hostname strip_ipv6_zone
  validate raw_url = elim (net.parse_url raw_url) [
    | none ↦ some malformed
    | some u ↦
        if not (same u.scheme (codes "http")) && not (same u.scheme (codes "https"))
        then some bad_scheme
        else if same u.host []
        then some no_host
        else (let host = net.to_lower u.hostname in
            if is_forbidden_hostname host
            then some forbidden_host
            else elim (net.parse_ip (strip_ipv6_zone host)) [
              | none ↦ none
              | some ip ↦ if is_forbidden_ip ip then some forbidden_ip else none
            ])
  ]
