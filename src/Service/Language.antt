-- ===== src/Service/Language.antt =====
-- internal/service/jobs.go: the descriptions that parseNaturalLanguage reads. A text is the list of its
-- bytes. `lower` is what `strings.ToLower` and `strings.TrimSpace` make of the input; the patterns are
-- deterministic, so each is read from left to right.
pub mod Ranges
pub mod Reading
use easy_cron.Prelude.{
  ℕ, zero, suc, ◌+◌, ◌-◌, ◌*◌, ◌/◌, ◌%◌, Bool, true, false, not, ◌&&◌, ◌||◌, String, Option, none,
  some, List, [], ◌∷◌, ◌++◌, if◌then◌else◌, ◌==◌, ltb, leb, length, get_or, ◌⊎◌, inl, inr,
}
use easy_cron.Domain.{Time}
use easy_cron.Dispatcher.Classify.{codes}
use easy_cron.Cron.{Library, parse}
use easy_cron.Service.Read.{compute_next_runs}
use easy_cron.Auth.{Text, same, strip}

-- What a description asks for: the six patterns.
pub data Plan : Type 0 where
  every_minutes every_hours : ℕ → Plan
  every_hour : Plan
  daily weekdays : ℕ → ℕ → Plan
  on_day : ℕ → ℕ → ℕ → Plan

abbrev pub is_space : ℕ → Bool
is_space c = c == 32 || (c == 9 || (c == 10 || (c == 12 || c == 13)))

abbrev pub is_digit : ℕ → Bool
is_digit c = leb 48 c && leb c 57

-- `\s*` and `\s+`.
unfoldable pub skip_spaces : Text → Text
skip_spaces [] = []
skip_spaces (c ∷ cs) = if is_space c then skip_spaces cs else c ∷ cs

unfoldable pub spaces : Text → Option Text
unfolding skip_spaces
spaces [] = none
spaces (c ∷ cs) = if is_space c then some (skip_spaces cs) else none

-- The digits at the start of a text, and what follows them.
unfoldable pub digits : Text → Text × Text
digits [] = ([], [])
digits (c ∷ cs) = let (ds, rest) = digits cs in if is_digit c then (c ∷ ds, rest) else ([], c ∷ cs)

-- `strconv.Atoi` of digits, above a value read before them.
unfoldable pub atoi : ℕ → Text → ℕ
atoi n [] = n
atoi n (d ∷ ds) = atoi (n * 10 + (d - 48)) ds

-- A word and the spaces behind it.
unfoldable pub word : Text → Text → Option Text
unfolding spaces strip
word w s = elim (strip w s) [ none ↦ none | some rest ↦ spaces rest ]

-- `^every\s+(\d+)\s+unit s?$`.
unfoldable pub every_n : Text → Text → Option ℕ
unfolding word digits atoi spaces strip same
every_n unit s = elim (word (codes "every") s) [
  | none ↦ none
  | some t ↦
      let (ds, rest) = digits t in
      elim (spaces rest) [
        | none ↦ none
        | some u ↦
            if not (same ds []) && (same u unit || same u (unit ++ codes "s"))
            then some (atoi 0 ds)
            else none
      ]
]

-- `parseTime`, from the digits and the half of the day.
pub data Half : Type 0 where
  no_half am pm : Half

unfoldable pub parse_time : Text → Text → Half → Option (ℕ × ℕ)
unfolding atoi
parse_time hour_str minute_str half =
    let minute = atoi 0 minute_str in
    let hour : ℕ = elim half [
      | no_half ↦ atoi 0 hour_str
      | pm ↦ if not (atoi 0 hour_str == 12) then atoi 0 hour_str + 12 else atoi 0 hour_str
      | am ↦ if atoi 0 hour_str == 12 then 0 else atoi 0 hour_str
    ] in
    if ltb 23 hour || ltb 59 minute then none else some (hour, minute)

-- `\s*(am|pm)?$`.
unfoldable pub half_of : Text → Option Half
unfolding skip_spaces same
half_of s =
    let rest = skip_spaces s in
    if same rest []
    then some no_half
    else if same rest (codes "am")
    then some am
    else if same rest (codes "pm")
    then some pm
    else none

-- The time of a text that matched so far.
abbrev pub with_half : Option Half → Text → Text → Option (Option (ℕ × ℕ))
with_half none hour minute = none
with_half (some h) hour minute = some (parse_time hour minute h)

abbrev pub colon : ℕ
colon = 58

-- `(?::(\d{2}))?\s*(am|pm)?$`, for an hour that was read.
unfoldable pub minute_tail : Text → Text → Option (Option (ℕ × ℕ))
unfolding half_of digits parse_time
minute_tail hour [] = with_half (half_of []) hour []
minute_tail hour (c ∷ cs) =
    let (ds, rest) = digits cs in
    if not (c == colon)
    then with_half (half_of (c ∷ cs)) hour []
    else if length ds == 2
    then with_half (half_of rest) hour ds
    else none

-- `at\s+(\d{1,2})(?::(\d{2}))?\s*(am|pm)?$`: none where the text does not match; some none where the time
-- is out of range.
unfoldable pub time_at : Text → Option (Option (ℕ × ℕ))
unfolding word digits minute_tail
time_at s = elim (word (codes "at") s) [
  | none ↦ none
  | some t ↦
      let (ds, rest) = digits t in
      if length ds == 1 || length ds == 2 then minute_tail ds rest else none
]

-- A match of a pattern that begins with some words.
abbrev pub after_words : Option Text → Option (Option (ℕ × ℕ))
after_words none = none
after_words (some s) = time_at s

unfoldable pub words : Text → Text → Text → Option Text
unfolding word
words v w s = elim (word v s) [ none ↦ none | some rest ↦ word w rest ]

-- `(?:every\s+day|daily)\s+`.
unfoldable pub daily_words : Text → Option Text
unfolding words word
daily_words s = elim (words (codes "every") (codes "day") s) [
  | some rest ↦ some rest
  | none ↦ word (codes "daily") s
]

-- `dayMap`.
abbrev pub day_names : List Text
day_names =
    codes "sunday"
    ∷ codes "monday"
    ∷ codes "tuesday"
    ∷ codes "wednesday"
    ∷ codes "thursday"
    ∷ codes "friday"
    ∷ codes "saturday"
    ∷ []

abbrev pub day_name : ℕ → Text
day_name d = get_or day_names d []

-- `every\s+(monday|…)\s+` from a day on, with as many days to go.
unfoldable pub day_words : ℕ → ℕ → Text → Option (ℕ × Text)
unfolding words
day_words zero d s = none
day_words (suc n) d s = elim (words (codes "every") (day_name d) s) [
  | some rest ↦ some (d, rest)
  | none ↦ day_words n (suc d) s
]

-- The plan of a time that was read.
abbrev pub timed : Option (ℕ × ℕ) → (ℕ → ℕ → Plan) → Option Plan
timed none p = none
timed (some (h, m)) p = some (p h m)

unfoldable pub parse_day : Text → Option Plan
unfolding day_words time_at
parse_day s = elim (day_words 7 0 s) [
  | none ↦ none
  | some (d, rest) ↦ elim (time_at rest) [ none ↦ none | some t ↦ timed t (on_day d) ]
]

unfoldable pub parse_clock : Text → Option Plan
unfolding daily_words time_at words parse_day
parse_clock s = elim (after_words (daily_words s)) [
  | some t ↦ timed t daily
  | none ↦ elim (after_words (words (codes "every") (codes "weekday") s)) [
    | some t ↦ timed t weekdays
    | none ↦ parse_day s
  ]
]

abbrev pub is_every_hour : Text → Bool
is_every_hour s = elim (word (codes "every") s) [
  | none ↦ false
  | some rest ↦ same rest (codes "hour")
]

-- The patterns in their order.
unfoldable pub parse_plan : Text → Option Plan
unfolding every_n word same parse_clock
parse_plan lower = elim (every_n (codes "minute") lower) [
  | some n ↦ if ltb n 1 || ltb 59 n then none else some (every_minutes n)
  | none ↦ elim (every_n (codes "hour") lower) [
    | some n ↦ if ltb n 1 || ltb 23 n then none else some (every_hours n)
    | none ↦
        if is_every_hour lower || same lower (codes "hourly")
        then some every_hour
        else parse_clock lower
  ]
]

-- `%d` and `%02d` of a number below a hundred.
abbrev pub two_digits : ℕ → Text
two_digits n = (48 + n / 10) ∷ (48 + n % 10) ∷ []

abbrev pub decimal : ℕ → Text
decimal n = if ltb n 10 then (48 + n) ∷ [] else two_digits n

abbrev pub clock_time : ℕ → ℕ → Text
clock_time h m = two_digits h ++ (colon ∷ two_digits m)

abbrev pub at_time : ℕ → ℕ → Text
at_time h m = decimal m ++ (32 ∷ decimal h)

unfoldable pub expression : Plan → Text
expression (every_minutes n) = codes "*/" ++ (decimal n ++ codes " * * * *")
expression (every_hours n) = codes "0 */" ++ (decimal n ++ codes " * * *")
expression every_hour = codes "0 * * * *"
expression (daily h m) = at_time h m ++ codes " * * *"
expression (weekdays h m) = at_time h m ++ codes " * * 1-5"
expression (on_day d h m) = at_time h m ++ (codes " * * " ++ decimal d)

unfoldable pub description : Plan → Text
description (every_minutes n) = codes "every " ++ (decimal n ++ codes " minutes")
description (every_hours n) = codes "every " ++ (decimal n ++ codes " hours")
description every_hour = codes "every hour"
description (daily h m) = codes "daily at " ++ clock_time h m
description (weekdays h m) = codes "every weekday at " ++ clock_time h m
description (on_day d h m) = codes "every " ++ (day_name d ++ (codes " at " ++ clock_time h m))

-- `parseNaturalLanguage`; none is `ErrScheduleParseFailure`.
unfoldable pub parse_natural_language : (Text → Text) → Text → Option (Text × Text)
unfolding parse_plan expression description
parse_natural_language lower input = elim (parse_plan (lower input)) [
  | none ↦ none
  | some p ↦ some (expression p, description p)
]

pub record ResolveResult : Type 0 where
  pub cron_expression : String
  pub text : String
  pub timezone : String
  pub next_runs : List Time

pub data ResolveError : Type 0 where
  unknown_timezone schedule_parse_failure : ResolveError

-- `ResolveSchedule`. `lower` is that of above, from a string, and `as_string` makes one of bytes.
module _ (lib : Library) (lower : String → Text) (as_string : Text → String) where
  -- From the natural language on.
  unfoldable pub resolve_description : String → String → Time → ResolveError ⊎ ResolveResult
  unfolding parse parse_natural_language compute_next_runs
  resolve_description input timezone now = elim (parse_natural_language (λ s. s) (lower input)) [
    | none ↦ inl schedule_parse_failure
    | some (expr, desc) ↦ elim (parse lib (as_string expr) timezone) [
      | inl e ↦ inl schedule_parse_failure
      | inr next ↦ inr (record {
        cron_expression = as_string expr;
        text = as_string desc;
        timezone = timezone;
        next_runs = compute_next_runs next now 5;
      })
    ]
  ]

  unfoldable pub resolve_schedule : String → String → Time → ResolveError ⊎ ResolveResult
  unfolding parse resolve_description compute_next_runs
  resolve_schedule input timezone now = elim (lib.load_location timezone) [
    | none ↦ inl unknown_timezone
    | some loc ↦ elim (parse lib input timezone) [
      | inr next ↦ inr (record {
        cron_expression = input;
        text = input;
        timezone = timezone;
        next_runs = compute_next_runs next now 5;
      })
      | inl e ↦ resolve_description input timezone now
    ]
  ]
