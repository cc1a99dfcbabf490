-- ===== src/Service/Language/Reading.antt =====
-- internal/service/jobs.go: reading the description that parseNaturalLanguage gives back.
use easy_cron.Prelude.{
  ℕ, zero, suc, ◌<◌, ◌≡◌, ◌∙◌, inl, inr, refl, ap, true, false, ◌||◌, none, some, [], ◌∷◌, ◌++◌,
  if◌then◌else◌, ◌==◌, ltb, length, arith, Bool-cases,
}
use easy_cron.Dispatcher.Classify.{codes}
use easy_cron.Auth.{Text, same, strip}
use easy_cron.Service.Language.{
  Plan, every_minutes, every_hours, every_hour, daily, weekdays, on_day, no_half, parse_time,
  half_of, minute_tail, time_at, words, word, spaces, skip_spaces, digits, atoi, daily_words,
  day_words, parse_day, parse_clock, every_n, is_every_hour, parse_plan, description, two_digits,
  decimal, clock_time, colon,
}
use easy_cron.Service.Language.Ranges.{IsClock, IsPlan}

-- Two digits are read as the number that they show.
skip_spaces-two :
    (n : ℕ) (rest : Text) → n < 100 → skip_spaces (two_digits n ++ rest) ≡ two_digits n ++ rest
unfolding skip_spaces
skip_spaces-two n rest h = ground arith

digits-two :
    (n : ℕ) (rest : Text)
    → n < 100
    → digits rest ≡ ([], rest)
    → digits (two_digits n ++ rest) ≡ (two_digits n, rest)
unfolding digits
digits-two n rest h e = ground (arith, e)

atoi-two : (n : ℕ) → n < 100 → atoi 0 (two_digits n) ≡ n
unfolding atoi
atoi-two n h = ground arith

parse_time-two :
    (h m : ℕ) → IsClock h m → parse_time (two_digits h) (two_digits m) no_half ≡ some (h, m)
unfolding parse_time
parse_time-two h m c =
    rw (parse_time, atoi-two h (omega (arith, c.0)), atoi-two m (omega (arith, c.1)))
      (ground (arith, c))

minute_tail-two :
    (h m : ℕ) → IsClock h m → minute_tail (two_digits h) (colon ∷ two_digits m) ≡ some (some (h, m))
unfolding minute_tail digits half_of skip_spaces same
minute_tail-two h m c =
    rw (minute_tail, digits-two m [] (omega (arith, c.1)) refl) (ap some (parse_time-two h m c))

-- The words before the digits.
time_at-digits :
    (s t ds rest : Text)
    → word (codes "at") s ≡ some t
    → digits t ≡ (ds, rest)
    → (length ds == 2) ≡ true
    → time_at s ≡ minute_tail ds rest
unfolding time_at
time_at-digits s t ds rest a b c =
    let d : (length ds == 1 || length ds == 2) ≡ true = ground (arith, c) in
    rw (time_at, a, b, d) refl

at_word :
    (n : ℕ) (rest : Text)
    → n < 100
    → word (codes "at") (codes "at " ++ (two_digits n ++ rest)) ≡ some (two_digits n ++ rest)
unfolding word strip spaces skip_spaces
at_word n rest h = ap some (skip_spaces-two n rest h)

-- A clock time is read as it was written.
time_at-clock :
    (h m : ℕ) → IsClock h m → time_at (codes "at " ++ clock_time h m) ≡ some (some (h, m))
unfolding digits
time_at-clock h m c =
    let n : h < 100 = omega (arith, c.0) in
    time_at-digits (codes "at " ++ clock_time h m) (clock_time h m) (two_digits h)
      (colon ∷ two_digits m) (at_word h (colon ∷ two_digits m) n)
      (digits-two h (colon ∷ two_digits m) n refl) refl
    ∙ minute_tail-two h m c

-- A number in a text, and the words around it.
skip_spaces-decimal :
    (n : ℕ) (rest : Text) → n < 100 → skip_spaces (decimal n ++ rest) ≡ decimal n ++ rest
unfolding skip_spaces
skip_spaces-decimal n rest h = elim (Bool-cases (ltb n 10)) [
  | inl e ↦ rw e (ground (arith, e))
  | inr e ↦ rw e (skip_spaces-two n rest h)
]

digits-decimal :
    (n : ℕ) (rest : Text)
    → n < 100
    → digits rest ≡ ([], rest)
    → digits (decimal n ++ rest) ≡ (decimal n, rest)
unfolding digits
digits-decimal n rest h e = elim (Bool-cases (ltb n 10)) [
  | inl d ↦ rw d (ground (arith, e))
  | inr d ↦ rw d (digits-two n rest h e)
]

atoi-decimal : (n : ℕ) → n < 100 → atoi 0 (decimal n) ≡ n
unfolding atoi
atoi-decimal n h = elim (Bool-cases (ltb n 10)) [
  | inl d ↦ rw d (ground arith)
  | inr d ↦ rw d (atoi-two n h)
]

-- The reading of a number between its words.
every_n-number :
    (unit s t ds rest u : Text)
    → word (codes "every") s ≡ some t
    → digits t ≡ (ds, rest)
    → same ds [] ≡ false
    → spaces rest ≡ some u
    → every_n unit s
      ≡ (if same u unit || same u (unit ++ codes "s") then some (atoi 0 ds) else none)
unfolding every_n
every_n-number unit s t ds rest u a b c d =
    let f : same (digits t).0 [] ≡ false = ap (λ (z : Text × Text). same z.0 []) b ∙ c in
    let g : spaces (digits t).1 ≡ some u = ap (λ (z : Text × Text). spaces z.1) b ∙ d in
    rw (every_n, a, g, f)
      (ap
        (λ (z : Text × Text).
          if same u unit || same u (unit ++ codes "s") then some (atoi 0 z.0) else none)
        b)

every_word :
    (n : ℕ) (rest : Text)
    → n < 100
    → word (codes "every") (codes "every " ++ (decimal n ++ rest)) ≡ some (decimal n ++ rest)
unfolding word strip spaces skip_spaces
every_word n rest h = ap some (skip_spaces-decimal n rest h)

same-decimal : (n : ℕ) → same (decimal n) [] ≡ false
unfolding same
same-decimal n = elim (Bool-cases (ltb n 10)) [ inl d ↦ rw d refl | inr d ↦ rw d refl ]

-- What a pattern reads of a number that is followed by a space and a unit.
every_n-decimal :
    (unit last : Text) (n : ℕ)
    → n < 100
    → spaces (32 ∷ last) ≡ some last
    → every_n unit (codes "every " ++ (decimal n ++ (32 ∷ last)))
      ≡ (if same last unit || same last (unit ++ codes "s") then some n else none)
unfolding digits
every_n-decimal unit last n h a =
    every_n-number unit (codes "every " ++ (decimal n ++ (32 ∷ last))) (decimal n ++ (32 ∷ last))
      (decimal n) (32 ∷ last) last (every_word n (32 ∷ last) h)
      (digits-decimal n (32 ∷ last) h refl) (same-decimal n) a
    ∙ ap (λ z. if same last unit || same last (unit ++ codes "s") then some z else none)
        (atoi-decimal n h)

-- The patterns of a time, behind those of a number.
parse_plan-clock :
    (s : Text)
    → every_n (codes "minute") s ≡ none
    → every_n (codes "hour") s ≡ none
    → (is_every_hour s || same s (codes "hourly")) ≡ false
    → parse_plan s ≡ parse_clock s
unfolding parse_plan
parse_plan-clock s a b c = rw (parse_plan, a, b, c) refl

parse_clock-daily :
    (s t : Text) (h m : ℕ)
    → daily_words s ≡ some t
    → time_at t ≡ some (some (h, m))
    → parse_clock s ≡ some (daily h m)
unfolding parse_clock
parse_clock-daily s t h m a b = rw (parse_clock, a, b) refl

parse_clock-weekdays :
    (s t : Text) (h m : ℕ)
    → daily_words s ≡ none
    → words (codes "every") (codes "weekday") s ≡ some t
    → time_at t ≡ some (some (h, m))
    → parse_clock s ≡ some (weekdays h m)
unfolding parse_clock
parse_clock-weekdays s t h m a b c = rw (parse_clock, a, b, c) refl

parse_clock-day :
    (s t : Text) (d h m : ℕ)
    → daily_words s ≡ none
    → words (codes "every") (codes "weekday") s ≡ none
    → day_words 7 0 s ≡ some (d, t)
    → time_at t ≡ some (some (h, m))
    → parse_clock s ≡ some (on_day d h m)
unfolding parse_clock parse_day
parse_clock-day s t d h m a b c e = rw (parse_clock, a, b, parse_day, c, e) refl

-- The description of a day, where each pattern before it has failed.
parse_plan-named :
    (d h m : ℕ)
    → IsClock h m
    → let s = description (on_day d h m) in
      every_n (codes "minute") s ≡ none
      → every_n (codes "hour") s ≡ none
      → (is_every_hour s || same s (codes "hourly")) ≡ false
      → daily_words s ≡ none
      → words (codes "every") (codes "weekday") s ≡ none
      → day_words 7 0 s ≡ some (d, codes "at " ++ clock_time h m)
      → parse_plan s ≡ some (on_day d h m)
parse_plan-named d h m c p q r u v w =
    let s = description (on_day d h m) in
    parse_plan-clock s p q r
    ∙ parse_clock-day s (codes "at " ++ clock_time h m) d h m u v w (time_at-clock h m c)

parse_plan-minutes :
    (s : Text) (n : ℕ)
    → every_n (codes "minute") s ≡ some n
    → (ltb n 1 || ltb 59 n) ≡ false
    → parse_plan s ≡ some (every_minutes n)
unfolding parse_plan
parse_plan-minutes s n a b = rw (parse_plan, a, b) refl

parse_plan-hours :
    (s : Text) (n : ℕ)
    → every_n (codes "minute") s ≡ none
    → every_n (codes "hour") s ≡ some n
    → (ltb n 1 || ltb 23 n) ≡ false
    → parse_plan s ≡ some (every_hours n)
unfolding parse_plan
parse_plan-hours s n a b c = rw (parse_plan, a, b, c) refl

-- The description of a day, word by word.
parse_plan-day :
    (d h m : ℕ)
    → d < 7
    → IsClock h m
    → parse_plan (description (on_day d h m)) ≡ some (on_day d h m)
unfolding description every_n word strip spaces skip_spaces digits same daily_words words day_words
parse_plan-day zero h m b c = parse_plan-named 0 h m c refl refl refl refl refl refl
parse_plan-day (suc zero) h m b c = parse_plan-named 1 h m c refl refl refl refl refl refl
parse_plan-day (suc (suc zero)) h m b c = parse_plan-named 2 h m c refl refl refl refl refl refl
parse_plan-day (suc (suc (suc zero))) h m b c =
    parse_plan-named 3 h m c refl refl refl refl refl refl
parse_plan-day (suc (suc (suc (suc zero)))) h m b c =
    parse_plan-named 4 h m c refl refl refl refl refl refl
parse_plan-day (suc (suc (suc (suc (suc zero))))) h m b c =
    parse_plan-named 5 h m c refl refl refl refl refl refl
parse_plan-day (suc (suc (suc (suc (suc (suc zero)))))) h m b c =
    parse_plan-named 6 h m c refl refl refl refl refl refl
parse_plan-day (suc (suc (suc (suc (suc (suc (suc d))))))) h m b c = absurd (omega (arith, b))

-- The description that parseNaturalLanguage gives back for a plan whose values are in range is
-- read as the same plan, so it leads to the same cron expression.
pub description_read_back : (p : Plan) → IsPlan p → parse_plan (description p) ≡ some p
unfolding description every_n word strip spaces skip_spaces digits same daily_words words parse_plan
description_read_back (every_minutes n) h =
    let last = codes "minutes" in
    parse_plan-minutes (description (every_minutes n)) n
      (every_n-decimal (codes "minute") last n (omega (arith, h.1)) refl) (ground (arith, h))
description_read_back (every_hours n) h =
    let last = codes "hours" in
    let small : n < 100 = omega (arith, h.1) in
    parse_plan-hours (description (every_hours n)) n
      (every_n-decimal (codes "minute") last n small refl)
      (every_n-decimal (codes "hour") last n small refl) (ground (arith, h))
description_read_back every_hour h = refl
description_read_back (daily h m) c =
    parse_plan-clock (description (daily h m)) refl refl refl
    ∙ parse_clock-daily (description (daily h m)) (codes "at " ++ clock_time h m) h m refl
        (time_at-clock h m c)
description_read_back (weekdays h m) c =
    parse_plan-clock (description (weekdays h m)) refl refl refl
    ∙ parse_clock-weekdays (description (weekdays h m)) (codes "at " ++ clock_time h m) h m refl
        refl (time_at-clock h m c)
description_read_back (on_day d h m) c = parse_plan-day d h m c.0 c.1
