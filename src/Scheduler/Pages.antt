-- ===== src/Scheduler/Pages.antt =====
-- internal/scheduler/scheduler.go: the keyset pagination of a tick, over GetEnabledJobs of
-- internal/store/postgres.
use easy_cron.Prelude.{
  ℕ, zero, suc, ◌+◌, ◌≤◌, ◌<◌, ◌≡◌, refl, ap, Bool, List, [], ◌∷◌, ◌++◌, arith, ltb, ◌==◌, ◌||◌,
  All, length, take, keep,
}
use easy_cron.Domain.{Uuid, JobWithSchedule}
use easy_cron.Scheduler.{last_id, default_job_page_size}

-- `j.enabled = true`, and `$2 = nil OR j.id > $2`; the nil UUID is 0.
abbrev pub is_enabled : JobWithSchedule → Bool
is_enabled j = j.job.enabled

abbrev pub is_past : Uuid → JobWithSchedule → Bool
is_past after_id j = after_id == 0 || ltb after_id j.job.id

-- `queryGetEnabledJobs`, on the rows of `jobs JOIN schedules` in the order of their ids.
unfoldable pub get_enabled_jobs : List JobWithSchedule → ℕ → Uuid → List JobWithSchedule
get_enabled_jobs rows limit after_id = take limit (keep (is_past after_id) (keep is_enabled rows))

abbrev pub drop : ℕ → List JobWithSchedule → List JobWithSchedule
drop zero xs = xs
drop (suc n) [] = []
drop (suc n) (x ∷ xs) = drop n xs

-- In strictly increasing order of the ids.
abbrev pub IsOrdered : List JobWithSchedule → Type 0
IsOrdered [] = Unit
IsOrdered (j ∷ js) = All (λ k. j.job.id < k.job.id) js × IsOrdered js

abbrev pub Above : Uuid → List JobWithSchedule → Type 0
Above a = All (λ j. a < j.job.id)

abbrev pub UpTo : Uuid → List JobWithSchedule → Type 0
UpTo a = All (λ j. j.job.id ≤ a)

pub take-drop : (n : ℕ) (xs : List JobWithSchedule) → take n xs ++ drop n xs ≡ xs
take-drop zero xs = refl
take-drop (suc n) [] = refl
take-drop (suc n) (x ∷ xs) = ap (◌∷◌ x) (take-drop n xs)

pub short_take : (n : ℕ) (xs : List JobWithSchedule) → length (take n xs) < n → take n xs ≡ xs
short_take zero xs h = absurd (omega arith)
short_take (suc n) [] h = refl
short_take (suc n) (x ∷ xs) h = ap (◌∷◌ x) (short_take n xs (omega arith))

pub length-drop_full :
    (n : ℕ) (xs : List JobWithSchedule)
    → n ≤ length (take n xs)
    → length (drop n xs) + n ≡ length xs
length-drop_full zero xs h = omega arith
length-drop_full (suc n) [] h = absurd (omega arith)
length-drop_full (suc n) (x ∷ xs) h = omega (arith, length-drop_full n xs (omega arith))

pub Above-append :
    (a : Uuid) (xs ys : List JobWithSchedule) → Above a (xs ++ ys) → Above a xs × Above a ys
Above-append a [] ys h = (tt, h)
Above-append a (x ∷ xs) ys h = let (p, q) = Above-append a xs ys h.1 in ((h.0, p), q)

pub IsOrdered-append : (xs ys : List JobWithSchedule) → IsOrdered (xs ++ ys) → IsOrdered ys
IsOrdered-append [] ys h = h
IsOrdered-append (x ∷ xs) ys h = IsOrdered-append xs ys h.1

pub last_ge : (a : Uuid) (xs : List JobWithSchedule) → Above a xs → IsOrdered xs → a ≤ last_id xs a
last_ge a [] h o = omega arith
last_ge a (x ∷ xs) h o = omega (arith, last_ge x.job.id xs o.0 o.1, h.0)

pub IsOrdered-left : (xs ys : List JobWithSchedule) → IsOrdered (xs ++ ys) → IsOrdered xs
IsOrdered-left [] ys h = tt
IsOrdered-left (x ∷ xs) ys h = ((Above-append x.job.id xs ys h.0).0, IsOrdered-left xs ys h.1)

-- The last id of a first part divides an ordered list.
pub last_splits :
    (a : Uuid) (xs ys : List JobWithSchedule)
    → Above a (xs ++ ys)
    → IsOrdered (xs ++ ys)
    → UpTo (last_id xs a) xs × Above (last_id xs a) ys
last_splits a [] ys h o = (tt, h)
last_splits a (x ∷ xs) ys h o =
    let (p, q) = last_splits x.job.id xs ys o.0 o.1 in
    ((last_ge x.job.id xs (Above-append x.job.id xs ys o.0).0 (IsOrdered-left xs ys o.1), p), q)

pub UpTo-mono : (a b : Uuid) (xs : List JobWithSchedule) → a ≤ b → UpTo a xs → UpTo b xs
UpTo-mono a b [] l h = tt
UpTo-mono a b (x ∷ xs) l h = (omega arith, UpTo-mono a b xs l h.1)

-- The rows past an id that divides the list.
pub keep_past :
    (a : Uuid) (pre rest : List JobWithSchedule)
    → Above 0 (pre ++ rest)
    → UpTo a pre
    → Above a rest
    → keep (is_past a) (pre ++ rest) ≡ rest
keep_past a [] [] n u h = refl
keep_past a [] (x ∷ rest) n u h = ground (arith, keep_past a [] rest n.1 tt h.1)
keep_past a (x ∷ pre) rest n u h = ground (arith, keep_past a pre rest n.1 u.1 h)

pub size_pos : 0 < default_job_page_size
unfolding default_job_page_size
size_pos = omega arith

pub page_of_split :
    (rows : List JobWithSchedule) (n : ℕ) (a : Uuid) (pre rest : List JobWithSchedule)
    → keep is_enabled rows ≡ pre ++ rest
    → Above 0 (pre ++ rest)
    → UpTo a pre
    → Above a rest
    → get_enabled_jobs rows n a ≡ take n rest
unfolding get_enabled_jobs
page_of_split rows n a pre rest e z u h = rw (e, keep_past a pre rest z u h)
