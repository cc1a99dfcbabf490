-- ===== src/Scheduler/Due.antt =====
-- internal/scheduler/scheduler.go: the due times of one job in a window.
use easy_cron.Prelude.{
  ℕ, zero, suc, ◌≤◌, ◌<◌, ◌≡◌, refl, List, [], ◌∷◌, arith, if◌then◌else◌, In, inl, inr, Bool-cases,
  dec_lt,
}
use easy_cron.Domain.{Time, after}

-- The times that the loop fires, at most `n` of them, from a first due time on.
unfoldable pub due : (Time → Time) → Time → ℕ → Time → List Time
due next now zero t = []
due next now (suc n) t = let rest = due next now n (next t) in if after t now then [] else t ∷ rest

-- The due time at which the loop stops.
unfoldable pub stop : (Time → Time) → Time → ℕ → Time → Time
stop next now zero t = t
stop next now (suc n) t = let rest = stop next now n (next t) in if after t now then t else rest

-- What the cron library documents of `Next`, for a schedule that matches again: the next activation
-- time, later than the given time.
pub record IsSchedule (next : Time → Time) (Fires : Time → Type 0) : Type 0 where
  pub later : (t : Time) → t < next t
  pub fires : (t : Time) → Fires (next t)
  pub least : (t x : Time) → t < x → x < next t → Fires x → ⊥

module _ (next : Time → Time) (Fires : Time → Type 0) (sched : IsSchedule next Fires)
    (now : Time) where
  -- Where the loop stops is past what it fired.
  stop_ge : (n : ℕ) (t : Time) → t ≤ stop next now n t
  unfolding stop
  stop_ge zero t = omega arith
  stop_ge (suc n) t = ground (arith, stop_ge n (next t), sched.later t)

  -- What the loop fires lies in the window and before the time at which it stops.
  pub due_sound :
      (n : ℕ) (s x : Time)
      → In x (due next now n (next s))
      → (s < x) × (x ≤ now) × (x < stop next now n (next s)) × Fires x
  unfolding due stop
  due_sound zero s x m = absurd m
  due_sound (suc n) s x m = elim (Bool-cases (after (next s) now)) [
    | inl e ↦ absurd (rw e at m)
    | inr e ↦ elim (rw e at m) [
      | inl q ↦
          rw (q, e)
            (
              sched.later s,
              ground arith,
              omega (arith, stop_ge n (next (next s)), sched.later (next s)),
              sched.fires s,
            )
      | inr k ↦
          let (a, b, c, f) = due_sound n (next s) x k in
          rw e (omega (arith, sched.later s), b, c, f)
    ]
  ]

  -- No activation in the window before that time is left out.
  pub due_complete :
      (n : ℕ) (s x : Time)
      → Fires x
      → s < x
      → x ≤ now
      → x < stop next now n (next s)
      → In x (due next now n (next s))
  unfolding due stop
  due_complete zero s x f a b c = absurd (sched.least s x a c f)
  due_complete (suc n) s x f a b c = elim (Bool-cases (after (next s) now)) [
    | inl e ↦ absurd (sched.least s x a (rw e at c) f)
    | inr e ↦ elim (dec_lt (next s) x) [
      | yes l ↦ rw e (inr (due_complete n (next s) x f l b (rw e at c)))
      | no l ↦ elim (dec_lt x (next s)) [
        | yes k ↦ absurd (sched.least s x a k f)
        | no k ↦ rw e (inl (omega arith))
      ]
    ]
  ]

-- The last of some times, and a default where there are none.
abbrev pub last_of : List Time → Time → Time
last_of [] d = d
last_of (t ∷ ts) d = last_of ts t

module _ (next : Time → Time) (now : Time) where
  -- The stop is the activation after the last one fired, unless the window ended there.
  pub stop-next :
      (n : ℕ) (s : Time) → stop next now n (next s) ≡ next (last_of (due next now n (next s)) s)
  unfolding due stop
  stop-next zero s = refl
  stop-next (suc n) s = elim (Bool-cases (after (next s) now)) [
    | inl e ↦ rw (e, due, stop)
    | inr e ↦ rw e (stop-next n (next s))
  ]
