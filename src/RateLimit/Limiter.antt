-- ===== src/RateLimit/Limiter.antt =====
-- internal/api/middleware.go: ipRateLimiter over the requests of all clients.
use mathlib.Core.Path.{subst}
use easy_cron.Prelude.{
  ◌∙◌, ap, ◌⊎◌, ℕ, ◌≤◌, ◌≡◌, refl, Bool, true, false, not, String, none, some, List, [], ◌∷◌, arith,
  All, Bool-cases, Option-cases, inl, inr, length, length-keep-le, keep, leb, str_eq,
}
use easy_cron.Prelude.Int.{pos, ◌≤ℤ◌}
use easy_cron.Prelude.Dict.{
  Dict, lookup, insert, length-insert_new, length-insert_old, lookup-insert_ne,
}
use easy_cron.Domain.{Time, before}
use easy_cron.RateLimit.{
  ClientBucket, IpRateLimiter, refilled, spend, fresh_bucket, is_stale, clean_up, admit, allow,
  new_ip_rate_limiter_with_clock, ip_rate_limiter_max_clients,
}

-- No bucket holds more than the rate.
abbrev Within : ℕ → Dict ClientBucket → Type 0
Within rate = All (λ (e : String × ClientBucket). e.1.tokens ≤ℤ pos rate)

All-keep :
    (p : String × ClientBucket → Bool) (rate : ℕ) (m : Dict ClientBucket)
    → Within rate m
    → Within rate (keep p m)
All-keep p rate [] h = tt
All-keep p rate (x ∷ m) h = elim (Bool-cases (p x)) [
  | inl e ↦ rw e (h.0, All-keep p rate m h.1)
  | inr e ↦ rw e (All-keep p rate m h.1)
]

All-insert :
    (k : String) (v : ClientBucket) (rate : ℕ) (m : Dict ClientBucket)
    → Within rate m
    → v.tokens ≤ℤ pos rate
    → Within rate (insert k v m)
unfolding insert
All-insert k v rate [] h b = (b, tt)
All-insert k v rate ((j, w) ∷ m) h b = elim (Bool-cases (str_eq j k)) [
  | inl e ↦ rw e (b, h.1)
  | inr e ↦ rw e (h.0, All-insert k v rate m h.1 b)
]

spend_within : (rate : ℕ) (now : Time) (b : ClientBucket) → (spend rate now b).0.tokens ≤ℤ pos rate
unfolding spend refilled
spend_within rate now b = ground arith

-- At most `max_clients` buckets, none with more tokens than the rate.
abbrev pub IsBounded : IpRateLimiter → Type 0
IsBounded l = (length l.clients ≤ l.max_clients) × Within l.rate l.clients

clean_up-IsBounded : (now : Time) (l : IpRateLimiter) → IsBounded l → IsBounded (clean_up now l)
unfolding clean_up
clean_up-IsBounded now l h = elim (Bool-cases (before now l.next_cleanup)) [
  | inl e ↦ rw e h
  | inr e ↦ rw e (
    omega (
      arith,
      length-keep-le (λ (e : String × ClientBucket). not (is_stale l.client_ttl now e.1)) l.clients,
      h.0,
    ),
    All-keep _ l.rate l.clients h.1,
  )
]

-- A request changes nothing, or it stores a bucket for its client where the map has room for it.
abbrev Stores : String → IpRateLimiter → IpRateLimiter → Type 0
Stores ip l l' =
    (l' ≡ l)
    ⊎ ((b : ClientBucket) × (b.tokens ≤ℤ pos l.rate)
        × ((length (insert ip b l.clients) ≤ l.max_clients)
            ⊎ (length (insert ip b l.clients) ≡ length l.clients))
        × (l' ≡ record l { clients = insert ip b l.clients }))

admit_full :
    (ip : String) (now : Time) (l : IpRateLimiter)
    → lookup ip l.clients ≡ none
    → leb l.max_clients (length l.clients) ≡ true
    → (admit ip now l).0 ≡ l
unfolding admit
admit_full ip now l e f = ground arith

admit_new :
    (ip : String) (now : Time) (l : IpRateLimiter)
    → lookup ip l.clients ≡ none
    → leb l.max_clients (length l.clients) ≡ false
    → (admit ip now l).0 ≡ record l { clients = insert ip (fresh_bucket l.rate now) l.clients }
unfolding admit
admit_new ip now l e f = ground arith

admit_old :
    (ip : String) (now : Time) (l : IpRateLimiter) (b : ClientBucket)
    → lookup ip l.clients ≡ some b
    → (admit ip now l).0 ≡ record l { clients = insert ip (spend l.rate now b).0 l.clients }
unfolding admit
admit_old ip now l b e = ground arith

admit-Stores : (ip : String) (now : Time) (l : IpRateLimiter) → Stores ip l (admit ip now l).0
admit-Stores ip now l = elim (Option-cases (lookup ip l.clients)) [
  | inl e ↦ elim (Bool-cases (leb l.max_clients (length l.clients))) [
    | inl f ↦ inl (admit_full ip now l e f)
    | inr f ↦
        let b = fresh_bucket l.rate now in
        inr (
          b,
          ground arith,
          inl (ground (arith, length-insert_new ip b l.clients e)),
          admit_new ip now l e f,
        )
  ]
  | inr (b, e) ↦
      let b' = (spend l.rate now b).0 in
      inr (
        b',
        spend_within l.rate now b,
        inr (length-insert_old ip b' b l.clients e),
        admit_old ip now l b e,
      )
]

Stores-IsBounded :
    (ip : String) (l l' : IpRateLimiter) → IsBounded l → Stores ip l l' → IsBounded l'
Stores-IsBounded ip l l' h (inl e) = rw e h
Stores-IsBounded ip l l' h (inr (b, w, n, e)) =
    rw e (elim n [ inl k ↦ k | inr k ↦ omega (arith, h.0) ], All-insert ip b l.rate l.clients h.1 w)

Stores-keeps :
    (ip : String) (l l' : IpRateLimiter)
    → Stores ip l l'
    → (l'.rate ≡ l.rate) × (l'.max_clients ≡ l.max_clients)
Stores-keeps ip l l' (inl e) = rw e (refl, refl)
Stores-keeps ip l l' (inr (b, w, n, e)) = rw e (refl, refl)

clean_up_keeps :
    (now : Time) (l : IpRateLimiter)
    → ((clean_up now l).rate ≡ l.rate) × ((clean_up now l).max_clients ≡ l.max_clients)
unfolding clean_up
clean_up_keeps now l = ground arith

-- The requests of all clients, in the order in which they take the mutex.
unfoldable pub run : List (String × Time) → IpRateLimiter → IpRateLimiter
run [] l = l
run ((ip, now) ∷ rs) l = run rs (allow ip now l).0

run-IsBounded :
    (rs : List (String × Time)) (l : IpRateLimiter)
    → IsBounded l
    → IsBounded (run rs l) × ((run rs l).rate ≡ l.rate) × ((run rs l).max_clients ≡ l.max_clients)
unfolding run allow
run-IsBounded [] l h = (h, refl, refl)
run-IsBounded ((ip, now) ∷ rs) l h =
    let l1 = clean_up now l in
    let st = admit-Stores ip now l1 in
    let (b, r, m) =
      run-IsBounded rs (admit ip now l1).0
        (Stores-IsBounded ip l1 _ (clean_up-IsBounded now l h) st) in
    let (r1, m1) = Stores-keeps ip l1 _ st in
    let (r0, m0) = clean_up_keeps now l in (b, r ∙ r1 ∙ r0, m ∙ m1 ∙ m0)

-- After any requests to a new limiter there are at most `ipRateLimiterMaxClients` buckets, and none
-- holds more tokens than the rate.
pub run_bounded :
    (rate : ℕ) (start : Time) (rs : List (String × Time))
    → let l = run rs (new_ip_rate_limiter_with_clock rate start) in
      (length l.clients ≤ ip_rate_limiter_max_clients)
      × All (λ (e : String × ClientBucket). e.1.tokens ≤ℤ pos rate) l.clients
unfolding new_ip_rate_limiter_with_clock
run_bounded rate start rs =
    let (b, r, m) =
      run-IsBounded rs (new_ip_rate_limiter_with_clock rate start) (omega arith, tt) in
    (
      subst (λ z. length (run rs (new_ip_rate_limiter_with_clock rate start)).clients ≤ z) m b.0,
      subst (λ z. Within z (run rs (new_ip_rate_limiter_with_clock rate start)).clients) r b.1,
    )

-- A request of one client leaves the bucket of any other client as the cleanup leaves it.
pub allow_isolated :
    (ip other : String) (now : Time) (l : IpRateLimiter)
    → str_eq ip other ≡ false
    → lookup other (allow ip now l).0.clients ≡ lookup other (clean_up now l).clients
unfolding allow
allow_isolated ip other now l h = elim (admit-Stores ip now (clean_up now l)) [
  | inl e ↦ ap (λ l'. lookup other l'.clients) e
  | inr (b, w, n, e) ↦
      ap (λ l'. lookup other l'.clients) e ∙ lookup-insert_ne ip other b (clean_up now l).clients h
]
