-- ===== src/WebhookUrl/Accepted.antt =====
-- internal/webhookurl/validation.go: what an accepted URL is.
use easy_cron.Prelude.{
  ◌≡◌, ◌≢◌, ◌⊎◌, inl, inr, true, false, String, Option, none, some, [], ◌∷◌, ◌++◌, Bool-cases,
  Option-cases, arith,
}
use mathlib.Core.List.{append-nil}
use easy_cron.Dispatcher.Classify.{codes}
use easy_cron.Auth.{Text, same}
use easy_cron.Auth.Access.{same_iff}
use easy_cron.WebhookUrl.{
  Url, Net, has_suffix, is_forbidden_hostname, percent, has_percent, strip_ipv6_zone, validate,
}

-- A text has the suffixes that it ends with.
has_suffix_end : (pre p : Text) → has_suffix (pre ++ p) p ≡ true
unfolding has_suffix same
has_suffix_end [] [] = ground arith
has_suffix_end [] (c ∷ cs) = ground (arith, same_iff cs cs)
has_suffix_end (c ∷ pre) p = ground (arith, has_suffix_end pre p)

has_percent_end : (p z : Text) → has_percent (p ++ (percent ∷ z)) ≡ true
unfolding has_percent
has_percent_end [] z = ground arith
has_percent_end (c ∷ p) z = ground (arith, has_percent_end p z)

strip_no_zone : (p : Text) → has_percent p ≡ false → strip_ipv6_zone p ≡ p
unfolding strip_ipv6_zone has_percent
strip_no_zone [] h = ground arith
strip_no_zone (c ∷ p) h = ground (arith, strip_no_zone p)

strip_zone : (p z : Text) → has_percent z ≡ false → strip_ipv6_zone (p ++ (percent ∷ z)) ≡ p
unfolding strip_ipv6_zone
strip_zone [] z h = ground (arith, h)
strip_zone (c ∷ p) z h = ground (arith, strip_zone p z, has_percent_end p z)

-- The end of a host's name that gives the zone of an address, if it has one.
abbrev pub zone_end : Option Text → Text
zone_end none = []
zone_end (some z) = percent ∷ z

-- The name of a forbidden host, in lower case.
abbrev pub IsForbiddenName : Text → Type 0
IsForbiddenName host =
    (host ≡ codes "localhost")
    ⊎ (host ≡ codes "metadata.google.internal")
    ⊎ ((pre : Text) × (host ≡ pre ++ codes ".localhost"))

forbidden_name : (host : Text) → IsForbiddenName host → is_forbidden_hostname host ≡ true
unfolding is_forbidden_hostname
forbidden_name host (inl e) = ground (arith, same_iff host (codes "localhost"))
forbidden_name host (inr (inl e)) = ground (arith, same_iff host (codes "metadata.google.internal"))
forbidden_name host (inr (inr (pre, e))) =
    ground (arith, e, has_suffix_end pre (codes ".localhost"))

module _ (net : Net) where
  -- The address points into the server's own network: it is unspecified, loopback, private,
  -- link-local or multicast.
  abbrev pub IsInternal : net.Ip → Type 0
  IsInternal ip =
      (net.is_unspecified ip ≡ true)
      ⊎ (net.is_loopback ip ≡ true)
      ⊎ (net.is_private ip ≡ true)
      ⊎ (net.is_link_local_unicast ip ≡ true)
      ⊎ (net.is_link_local_multicast ip ≡ true)
      ⊎ (net.is_multicast ip ≡ true)

  -- The host is such an address, with or without a zone.
  abbrev pub IsInternalHost : Text → Type 0
  IsInternalHost host =
      (address : Text) × (zone : Option Text) × (ip : net.Ip) × (host ≡ address ++ zone_end zone)
      × (has_percent address ≡ false)
      × (has_percent (elim zone [ none ↦ [] | some z ↦ z ]) ≡ false)
      × (net.parse_ip address ≡ some ip)
      × IsInternal ip

  scheme_of :
      (raw_url : String) (u : Url)
      → validate net raw_url ≡ none
      → net.parse_url raw_url ≡ some u
      → (u.scheme ≡ codes "http") ⊎ (u.scheme ≡ codes "https")
  unfolding validate
  scheme_of raw_url u v e = elim (Bool-cases (same u.scheme (codes "http"))) [
    | inl s ↦ inl ((same_iff u.scheme (codes "http")).0 s)
    | inr s ↦ elim (Bool-cases (same u.scheme (codes "https"))) [
      | inl t ↦ inr ((same_iff u.scheme (codes "https")).0 t)
      | inr t ↦ absurd (ground (arith, v, e, s, t))
    ]
  ]

  stripped_zone :
      (address : Text) (zone : Option Text)
      → has_percent address ≡ false
      → has_percent (elim zone [ none ↦ [] | some z ↦ z ]) ≡ false
      → strip_ipv6_zone (address ++ zone_end zone) ≡ address
  stripped_zone address none a _ = rw (append-nil address) (strip_no_zone address a)
  stripped_zone address (some t) a z = strip_zone address t z

  not_internal :
      (raw_url : String) (u : Url)
      → validate net raw_url ≡ none
      → net.parse_url raw_url ≡ some u
      → ¬ IsInternalHost (net.to_lower u.hostname)
  unfolding validate
  not_internal raw_url u v e (address, zone, ip, h, a, z, p, bad) =
      let s : net.parse_ip (strip_ipv6_zone (net.to_lower u.hostname)) ≡ some ip =
        rw (h, stripped_zone address zone a z) p in
      ground (arith, v, e, s, bad)

  not_forbidden :
      (raw_url : String) (u : Url)
      → validate net raw_url ≡ none
      → net.parse_url raw_url ≡ some u
      → ¬ (IsForbiddenName (net.to_lower u.hostname) ⊎ IsInternalHost (net.to_lower u.hostname))
  unfolding validate
  not_forbidden raw_url u v e (inl h) =
      ground (arith, v, e, forbidden_name (net.to_lower u.hostname) h)
  not_forbidden raw_url u v e (inr h) = not_internal raw_url u v e h

  -- An accepted URL can be parsed, has the scheme http or https and a host; the host is not
  -- localhost, a name below it or the metadata server, and no address, with or without a zone, that
  -- is unspecified, loopback, private, link-local or multicast.
  pub accepted_url :
      (raw_url : String)
      → validate net raw_url ≡ none
      → (u : Url) × (net.parse_url raw_url ≡ some u)
        × ((u.scheme ≡ codes "http") ⊎ (u.scheme ≡ codes "https"))
        × (u.host ≢ [])
        × ¬ (IsForbiddenName (net.to_lower u.hostname) ⊎ IsInternalHost (net.to_lower u.hostname))
  unfolding validate
  accepted_url raw_url v = elim (Option-cases (net.parse_url raw_url)) [
    | inl e ↦ absurd (ground (arith, v, e))
    | inr (u, e) ↦ (
      u,
      e,
      scheme_of raw_url u v e,
      (λ h. ground (arith, v, e, same_iff u.host [])),
      not_forbidden raw_url u v e,
    )
  ]
