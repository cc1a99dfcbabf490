-- ===== src/RateLimit/Tests.antt =====
-- Runs of the rate limiters at concrete inputs.
use easy_cron.Prelude.{ℕ, ◌+◌, ◌*◌, ◌≤◌, ◌≡◌, refl, String, List, [], ◌∷◌, arith, All, length}
use easy_cron.Prelude.Int.{pos, ◌≤ℤ◌}
use easy_cron.Domain.{second, minute}
use easy_cron.RateLimit.{ClientBucket, new_ip_rate_limiter_with_clock, ip_rate_limiter_max_clients}
use easy_cron.RateLimit.Bucket.{poll, total, admitted_bound, hot_client_starves}
use easy_cron.RateLimit.Limiter.{run, run_bounded}

abbrev bucket : ClientBucket
bucket = record { tokens = pos 3; last_seen = minute }

abbrev empty_bucket : ClientBucket
empty_bucket = record { tokens = pos 0; last_seen = minute }

-- Gaps of a tenth of a second and of a whole one.
abbrev gaps : List ℕ
gaps = 100_000_000 ∷ second ∷ 90_000_000 ∷ []

admitted_bound_example : second * (poll 10 gaps bucket).1 ≤ second * 3 + total gaps * 10
admitted_bound_example = admitted_bound 10 gaps bucket (omega arith)

hot_client_starves_example : (poll 10 (90_000_000 ∷ 99_000_000 ∷ []) empty_bucket).1 ≡ 0
hot_client_starves_example =
    hot_client_starves 10 (90_000_000 ∷ 99_000_000 ∷ []) empty_bucket refl
      (omega arith, (omega arith, tt))

run_bounded_example :
    let l =
      run
        (("1.2.3.4", minute) ∷ ("5.6.7.8", minute) ∷ [])
        (new_ip_rate_limiter_with_clock 10 minute) in
    (length l.clients ≤ ip_rate_limiter_max_clients)
    × All (λ (e : String × ClientBucket). e.1.tokens ≤ℤ pos 10) l.clients
run_bounded_example = run_bounded 10 minute (("1.2.3.4", minute) ∷ ("5.6.7.8", minute) ∷ [])
