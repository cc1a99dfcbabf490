-- ===== src/Service/Language/Ranges.antt =====
-- internal/service/jobs.go: the ranges of the values that a description is read as.
use mathlib.Core.Path.{subst}
use easy_cron.Prelude.{
  ℕ, zero, suc, ◌+◌, ◌≤◌, ◌<◌, ◌≡◌, ◌∙◌, inl, inr, refl, ◌||◌, Option, none, some, [], ◌∷◌, ◌==◌,
  ltb, length, arith, Bool-cases, Option-cases,
}
use easy_cron.Dispatcher.Classify.{codes}
use easy_cron.Auth.{Text, same}
use easy_cron.Service.Language.{
  Plan, every_minutes, every_hours, every_hour, daily, weekdays, on_day, Half, no_half, am, pm,
  parse_time, half_of, with_half, minute_tail, time_at, after_words, words, word, digits,
  daily_words, day_words, day_name, timed, parse_day, parse_clock, every_n, is_every_hour,
  parse_plan, colon,
}

abbrev pub IsClock : ℕ → ℕ → Type 0
IsClock h m = (h < 24) × (m < 60)

-- The values of a plan are in the range of their field of the cron expression.
abbrev pub IsPlan : Plan → Type 0
IsPlan (every_minutes n) = (1 ≤ n) × (n < 60)
IsPlan (every_hours n) = (1 ≤ n) × (n < 24)
IsPlan every_hour = Unit
IsPlan (daily h m) = IsClock h m
IsPlan (weekdays h m) = IsClock h m
IsPlan (on_day d h m) = (d < 7) × IsClock h m

parse_time-IsClock :
    (hour minute : Text) (half : Half) (h m : ℕ)
    → parse_time hour minute half ≡ some (h, m)
    → IsClock h m
unfolding parse_time
parse_time-IsClock hour minute no_half h m e = ground (arith, e)
parse_time-IsClock hour minute am h m e = ground (arith, e)
parse_time-IsClock hour minute pm h m e = ground (arith, e)

-- A time behind a text that may match.
half-IsClock :
    (o : Option Half) (hour minute : Text) (h m : ℕ)
    → with_half o hour minute ≡ some (some (h, m))
    → IsClock h m
half-IsClock none hour minute h m e = absurd (ground (arith, e))
half-IsClock (some k) hour minute h m e = parse_time-IsClock hour minute k h m (ground (arith, e))

minute_tail-IsClock :
    (hour s : Text) (h m : ℕ) → minute_tail hour s ≡ some (some (h, m)) → IsClock h m
unfolding minute_tail
minute_tail-IsClock hour [] h m e = half-IsClock (half_of []) hour [] h m e
minute_tail-IsClock hour (c ∷ cs) h m e = elim (Bool-cases (c == colon)) [
  | inr a ↦ half-IsClock (half_of (c ∷ cs)) hour [] h m (rw (minute_tail, a) at e)
  | inl a ↦ elim (Bool-cases (length (digits cs).0 == 2)) [
    | inr b ↦ absurd (ground (arith, rw (minute_tail, a, b) at e))
    | inl b ↦
        half-IsClock (half_of (digits cs).1) hour (digits cs).0 h m (rw (minute_tail, a, b) at e)
  ]
]

time_at-IsClock : (s : Text) (h m : ℕ) → time_at s ≡ some (some (h, m)) → IsClock h m
unfolding time_at
time_at-IsClock s h m e = elim (Option-cases (word (codes "at") s)) [
  | inl a ↦ absurd (ground (arith, rw (time_at, a) at e))
  | inr (t, a) ↦ elim (Bool-cases (length (digits t).0 == 1 || length (digits t).0 == 2)) [
    | inr b ↦ absurd (ground (arith, rw (time_at, a, b) at e))
    | inl b ↦ minute_tail-IsClock (digits t).0 (digits t).1 h m (rw (time_at, a, b) at e)
  ]
]

-- A plan of a time that was read, where its clock is in range.
timed-IsPlan :
    (o : Option (Option (ℕ × ℕ))) (plan : ℕ → ℕ → Plan) (p : Plan)
    → ((h m : ℕ) → o ≡ some (some (h, m)) → IsPlan (plan h m))
    → elim o [ none ↦ none | some t ↦ timed t plan ] ≡ some p
    → IsPlan p
timed-IsPlan none plan p f e = absurd (ground (arith, e))
timed-IsPlan (some none) plan p f e = absurd (ground (arith, e))
timed-IsPlan (some (some (h, m))) plan p f e =
    let q : plan h m ≡ p = ground (arith, e) in subst IsPlan q (f h m refl)

day_words-lt :
    (n d : ℕ) (s : Text) (k : ℕ) (rest : Text) → day_words n d s ≡ some (k, rest) → k < d + n
unfolding day_words
day_words-lt zero d s k rest e = absurd (ground (arith, e))
day_words-lt (suc n) d s k rest e = elim (Option-cases (words (codes "every") (day_name d) s)) [
  | inr (r, a) ↦ ground (arith, rw (day_words, a) at e)
  | inl a ↦ omega (arith, day_words-lt n (suc d) s k rest (rw (day_words, a) at e))
]

parse_day-IsPlan : (s : Text) (p : Plan) → parse_day s ≡ some p → IsPlan p
unfolding parse_day
parse_day-IsPlan s p e = elim (Option-cases (day_words 7 0 s)) [
  | inl a ↦ absurd (ground (arith, rw (parse_day, a) at e))
  | inr ((d, rest), a) ↦
      timed-IsPlan (time_at rest) (on_day d) p
        (λ h m q. (ground (arith, day_words-lt 7 0 s d rest a), time_at-IsClock rest h m q))
        (rw (parse_day, a) at e)
]

after_words-IsClock : (o : Option Text) (h m : ℕ) → after_words o ≡ some (some (h, m)) → IsClock h m
after_words-IsClock none h m e = absurd (ground (arith, e))
after_words-IsClock (some s) h m e = time_at-IsClock s h m e

-- A pattern, or what follows it.
parse_clock-IsPlan : (s : Text) (p : Plan) → parse_clock s ≡ some p → IsPlan p
unfolding parse_clock
parse_clock-IsPlan s p e = elim (Option-cases (after_words (daily_words s))) [
  | inr (t, a) ↦
      timed-IsPlan (some t) daily p (λ h m q. after_words-IsClock (daily_words s) h m (a ∙ q))
        (rw (parse_clock, a) at e)
  | inl a ↦ elim (Option-cases (after_words (words (codes "every") (codes "weekday") s))) [
    | inr (t, b) ↦
        timed-IsPlan (some t) weekdays p
          (λ h m q. after_words-IsClock (words (codes "every") (codes "weekday") s) h m (b ∙ q))
          (rw (parse_clock, a, b) at e)
    | inl b ↦ parse_day-IsPlan s p (rw (parse_clock, a, b) at e)
  ]
]

-- Whatever text is read, the values of the plan are in range: minutes from 1 to 59 and hours from
-- 1 to 23 between runs, a time of day from 00:00 to 23:59, a day of the week below 7.
pub parse_plan-IsPlan : (s : Text) (p : Plan) → parse_plan s ≡ some p → IsPlan p
unfolding parse_plan
parse_plan-IsPlan s p e = elim (Option-cases (every_n (codes "minute") s)) [
  | inr (n, a) ↦ elim (Bool-cases (ltb n 1 || ltb 59 n)) [
    | inl b ↦ absurd (ground (arith, rw (parse_plan, a, b) at e))
    | inr b ↦
        let q : every_minutes n ≡ p = ground (arith, rw (parse_plan, a, b) at e) in
        subst IsPlan q (ground (arith, b))
  ]
  | inl a ↦ elim (Option-cases (every_n (codes "hour") s)) [
    | inr (n, b) ↦ elim (Bool-cases (ltb n 1 || ltb 23 n)) [
      | inl c ↦ absurd (ground (arith, rw (parse_plan, a, b, c) at e))
      | inr c ↦
          let q : every_hours n ≡ p = ground (arith, rw (parse_plan, a, b, c) at e) in
          subst IsPlan q (ground (arith, c))
    ]
    | inl b ↦ elim (Bool-cases (is_every_hour s || same s (codes "hourly"))) [
      | inl c ↦
          let q : every_hour ≡ p = ground (arith, rw (parse_plan, a, b, c) at e) in
          subst IsPlan q tt
      | inr c ↦ parse_clock-IsPlan s p (rw (parse_plan, a, b, c) at e)
    ]
  ]
]
