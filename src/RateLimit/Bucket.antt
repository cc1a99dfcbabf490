-- ===== src/RateLimit/Bucket.antt =====
-- internal/api/middleware.go: one bucket over a sequence of requests.
use mathlib.Core.Path.{subst}
use native.Mathlib.Nat.{mul_comm, mul-add, mul-le-mul_right}
use easy_cron.Prelude.{
  ◌-◌, ℕ, suc, ◌+◌, ◌*◌, ◌/◌, ◌≤◌, ◌<◌, ◌≡◌, refl, true, false, List, [], ◌∷◌, if◌then◌else◌, arith,
  All, Bool-cases, inl, inr,
}
use easy_cron.Prelude.Int.{pos, ◌≤ℤ◌, pos_part}
use easy_cron.Domain.{Time, second}
use easy_cron.RateLimit.{ClientBucket, refilled, spend, fresh_bucket, ip_rate_limiter_client_ttl}

-- Requests to one bucket, each after a gap since the one before; the number of those allowed.
unfoldable pub poll : ℕ → List ℕ → ClientBucket → ClientBucket × ℕ
poll rate [] b = (b, 0)
poll rate (d ∷ ds) b =
    let (b1, ok) = spend rate (b.last_seen + d) b in
    let (b2, n) = poll rate ds b1 in (b2, if ok then suc n else n)

abbrev pub total : List ℕ → ℕ
total [] = 0
total (d ∷ ds) = d + total ds

-- One request: the bucket holds no debt after it, and pays for what it allows.
spend_lem :
    (rate d : ℕ) (b : ClientBucket)
    → pos 0 ≤ℤ b.tokens
    → let (b', ok) = spend rate (b.last_seen + d) b in
      (pos 0 ≤ℤ b'.tokens)
      × (pos_part b'.tokens + (if ok then 1 else 0) ≤ pos_part b.tokens + d * rate / second)
      × (b'.last_seen ≡ b.last_seen + d)
unfolding spend refilled
spend_lem rate d b h = ground arith

-- However the requests are spaced, a bucket without debt allows at most the tokens it held and
-- `rate` more for each second that passed.
pub admitted_bound :
    (rate : ℕ) (ds : List ℕ) (b : ClientBucket)
    → pos 0 ≤ℤ b.tokens
    → let (b', n) = poll rate ds b in second * n ≤ second * pos_part b.tokens + total ds * rate
unfolding poll
admitted_bound rate [] b h = omega arith
admitted_bound rate (d ∷ ds) b h =
    let (p, paid, seen) = spend_lem rate d b h in
    let b1 = (spend rate (b.last_seen + d) b).0 in
    let split : (d + total ds) * rate ≡ d * rate + total ds * rate = omega (
      arith,
      mul_comm (d + total ds) rate,
      mul-add rate d (total ds),
      mul_comm rate d,
      mul_comm rate (total ds),
    ) in
    elim (Bool-cases (spend rate (b.last_seen + d) b).1) [
      | inl e ↦ rw e (
          omega (
            arith,
            admitted_bound rate ds b1 p,
            split,
            subst
                (λ z.
                  pos_part b1.tokens + (if z then 1 else 0) ≤ pos_part b.tokens + d * rate / second)
                e paid,
          ))
      | inr e ↦ rw e (omega (arith, admitted_bound rate ds b1 p, split, paid))
    ]

spend_hot :
    (rate d : ℕ) (b : ClientBucket)
    → b.tokens ≡ pos 0
    → d * rate < second
    → ((spend rate (b.last_seen + d) b).1 ≡ false)
      × ((spend rate (b.last_seen + d) b).0.tokens ≡ pos 0)
unfolding spend refilled
spend_hot rate d b e h = ground arith

-- A bucket that holds no token allows none of a row of requests where each gap is too short to
-- earn a whole token, however many there are and however long they go on: each one resets the time
-- from which the next refill counts.
pub hot_client_starves :
    (rate : ℕ) (ds : List ℕ) (b : ClientBucket)
    → b.tokens ≡ pos 0
    → All (λ d. d * rate < second) ds
    → (poll rate ds b).1 ≡ 0
unfolding poll
hot_client_starves rate [] b e h = refl
hot_client_starves rate (d ∷ ds) b e h =
    let (denied, empty) = spend_hot rate d b e h.0 in
    rw denied (hot_client_starves rate ds (spend rate (b.last_seen + d) b).0 empty h.1)

-- With a positive rate, a bucket without debt that is idle for the client TTL or longer, so that a
-- cleanup would delete it, is as full as a fresh one: its request is allowed and leaves the bucket
-- that a new client gets.
pub prune_transparent :
    (rate : ℕ) (now : Time) (b : ClientBucket)
    → 0 < rate
    → pos 0 ≤ℤ b.tokens
    → b.last_seen + ip_rate_limiter_client_ttl ≤ now
    → spend rate now b ≡ (fresh_bucket rate now, true)
unfolding spend refilled
prune_transparent rate now b p h s =
    let long : ip_rate_limiter_client_ttl * rate ≤ (now - b.last_seen) * rate =
      mul-le-mul_right rate (omega arith) in
    ground arith
