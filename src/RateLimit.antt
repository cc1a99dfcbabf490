-- ===== src/RateLimit.antt =====
-- internal/api/middleware.go: the token buckets of ipRateLimiter and namespaceRateLimiter. A call holds
-- the limiter's mutex, so it is one step; it reads the clock once.
pub mod Bucket
pub mod Limiter
mod Tests
use easy_cron.Prelude.{
  ℕ, ◌+◌, ◌*◌, ◌/◌, Bool, true, false, not, String, Option, none, some, List, [], ◌∷◌,
  if◌then◌else◌, leb, ltb, keep, length,
}
use easy_cron.Prelude.Int.{ℤ, pos, negsuc, neg, ◌+ℤ◌, ltb_ℤ, leb_ℤ, sub_ℕ}
use easy_cron.Prelude.Dict.{Dict, lookup, insert}
use easy_cron.Domain.{Time, Duration, add, before, sub, minute, second}

abbrev pub ip_rate_limiter_client_ttl : ℕ
ip_rate_limiter_client_ttl = 10 * minute

abbrev pub ip_rate_limiter_cleanup_interval : ℕ
ip_rate_limiter_cleanup_interval = minute

abbrev pub ip_rate_limiter_max_clients : ℕ
ip_rate_limiter_max_clients = 10_000

pub record ClientBucket : Type 0 where
  pub tokens : ℤ
  pub last_seen : Time

-- `int(elapsed * float64(l.rate))`, towards 0, with the floating-point numbers read as exact.
abbrev pub refill : ℕ → Duration → ℤ
refill rate (pos e) = pos (e * rate / second)
refill rate (negsuc e) = neg (pos ((1 + e) * rate / second))

-- `tokens` after the refill, at most the rate.
unfoldable pub refilled : ℕ → Time → ClientBucket → ℤ
refilled rate now b =
    let tokens = b.tokens +ℤ refill rate (sub now b.last_seen) in
    if ltb_ℤ (pos rate) tokens then pos rate else tokens

-- What both `allow` do with a bucket that they find.
unfoldable pub spend : ℕ → Time → ClientBucket → ClientBucket × Bool
unfolding refilled
spend rate now b =
    let tokens = refilled rate now b in
    if leb_ℤ tokens (pos 0)
    then (record { tokens = tokens; last_seen = now }, false)
    else (record { tokens = tokens +ℤ negsuc 0; last_seen = now }, true)

-- The bucket of a key seen for the first time.
abbrev pub fresh_bucket : ℕ → Time → ClientBucket
fresh_bucket rate now = record { tokens = pos rate +ℤ negsuc 0; last_seen = now }

pub record IpRateLimiter : Type 0 where
  pub rate : ℕ
  pub clients : Dict ClientBucket
  pub client_ttl : Duration
  pub cleanup_interval : Duration
  pub next_cleanup : Time
  pub max_clients : ℕ

unfoldable pub new_ip_rate_limiter_with_clock : ℕ → Time → IpRateLimiter
new_ip_rate_limiter_with_clock rate_per_second now = record {
  rate = rate_per_second;
  clients = [];
  client_ttl = pos ip_rate_limiter_client_ttl;
  cleanup_interval = pos ip_rate_limiter_cleanup_interval;
  next_cleanup = add now (pos ip_rate_limiter_cleanup_interval);
  max_clients = ip_rate_limiter_max_clients;
}

abbrev pub is_stale : Duration → Time → ClientBucket → Bool
is_stale ttl now bucket = leb_ℤ ttl (sub now bucket.last_seen)

abbrev pub prune_stale : Time → IpRateLimiter → IpRateLimiter
prune_stale now l = record l {
  clients = keep (λ (e : String × ClientBucket). not (is_stale l.client_ttl now e.1)) l.clients;
}

-- The first part of `allow`: the cleanup, where it is due.
unfoldable pub clean_up : Time → IpRateLimiter → IpRateLimiter
clean_up now l =
    if not (before now l.next_cleanup)
    then record (prune_stale now l) { next_cleanup = add now l.cleanup_interval }
    else l

-- The rest of `allow`.
unfoldable pub admit : String → Time → IpRateLimiter → IpRateLimiter × Bool
admit ip now l = elim (lookup ip l.clients) [
  | none ↦
      if leb l.max_clients (length l.clients)
      then (l, false)
      else (record l { clients = insert ip (fresh_bucket l.rate now) l.clients }, true)
  | some b ↦
      let (b', ok) = spend l.rate now b in (record l { clients = insert ip b' l.clients }, ok)
]

unfoldable pub allow : String → Time → IpRateLimiter → IpRateLimiter × Bool
unfolding clean_up admit
allow ip now l = admit ip now (clean_up now l)

pub record NamespaceRateLimiter : Type 0 where
  pub rate : ℕ
  pub namespaces : Dict ClientBucket

unfoldable pub namespace_allow : String → Time → NamespaceRateLimiter → NamespaceRateLimiter × Bool
namespace_allow ns now l = elim (lookup ns l.namespaces) [
  | none ↦ (record l { namespaces = insert ns (fresh_bucket l.rate now) l.namespaces }, true)
  | some b ↦
      let (b', ok) = spend l.rate now b in (record l { namespaces = insert ns b' l.namespaces }, ok)
]
