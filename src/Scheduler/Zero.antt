-- ===== src/Scheduler/Zero.antt =====
-- internal/scheduler/scheduler.go: a cron expression that never matches, such as 30 February. The cron
-- library documents that `Next` then returns the zero time.
use easy_cron.Prelude.{ℕ, zero, suc, ◌<◌, ◌≡◌, ◌∙◌, refl, true, false, List, [], ◌∷◌, arith, ltb}
use easy_cron.Domain.{Time, Job}
use easy_cron.Scheduler.{Services, Config, max_iterations, catch_up}
use easy_cron.Scheduler.Due.{due, stop}
use easy_cron.Scheduler.Fires.{emit_all, catch_up_lem, cursor_of, max_iterations_pos}

-- The zero time, so many times.
abbrev pub zero_times : ℕ → List Time
zero_times zero = []
zero_times (suc n) = 0 ∷ zero_times n

module _ (next : Time → Time) (never : (t : Time) → next t ≡ 0) (now : Time) where
  due_zero : (n : ℕ) → due next now n 0 ≡ zero_times n
  unfolding due
  due_zero zero = refl
  due_zero (suc n) = ground (arith, never 0, due_zero n)

  stop_zero : (n : ℕ) → stop next now n 0 ≡ 0
  unfolding stop
  stop_zero zero = refl
  stop_zero (suc n) = ground (arith, never 0, stop_zero n)

  cursor_zero : (n : ℕ) → cursor_of (zero_times n) 0 ≡ 0
  cursor_zero zero = refl
  cursor_zero (suc n) = cursor_zero n

  cursor_zero_pos : (n : ℕ) (d : Time) → 0 < n → cursor_of (zero_times n) d ≡ 0
  cursor_zero_pos zero d p = absurd (omega arith)
  cursor_zero_pos (suc n) d p = cursor_zero n

  -- Where the schedule never matches, a catch-up calls `emitExecution` as many times as its cap
  -- allows, each time for the zero time, and reports as many triggered as those calls returned nil,
  -- that it was capped, and the zero time as its cursor.
  pub never_due_fires_zero :
      (sv : Services) (c : Config) (job : Job) (start : Time) (s : sv.S)
      → let (s', k) = emit_all sv job now (zero_times (max_iterations c)) s in
        catch_up sv c next job start now s
        ≡ (s', record { triggered = k; capped = true; cursor = 0 })
  never_due_fires_zero sv c job start s =
      let early : ltb now 0 ≡ false = ground arith in
      catch_up_lem sv c next job start now s
      ∙ rw
          (
            never start,
            due_zero,
            stop_zero,
            cursor_zero_pos (max_iterations c) now (max_iterations_pos sv c),
            early,
          )
          refl
