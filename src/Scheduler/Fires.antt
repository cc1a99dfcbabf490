-- ===== src/Scheduler/Fires.antt =====
-- internal/scheduler/scheduler.go: what one job's catch-up emits.
use easy_cron.Prelude.{
  ℕ, zero, suc, ◌+◌, ◌%◌, ◌≤◌, ◌<◌, ◌≡◌, ◌↔◌, ◌⊎◌, ◌∙◌, refl, sym, ap, true, false, not, List, [],
  ◌∷◌, arith, if◌then◌else◌, In, inl, inr, Bool-cases, dec_lt,
}
use easy_cron.Domain.{Time, after, minute, Job}
use easy_cron.Scheduler.{
  Services, Config, JobResult, truncate, max_iterations, emit_execution, fire_loop, catch_up,
}
use easy_cron.Scheduler.Due.{due, stop, IsSchedule, due_sound, due_complete, stop-next, last_of}

-- The truncated time of the last fire.
abbrev pub cursor_of : List Time → Time → Time
cursor_of [] d = d
cursor_of (t ∷ ts) d = cursor_of ts (truncate t)

-- The times that a catch-up fires.
abbrev pub fired_times : Config → (Time → Time) → Time → Time → List Time
fired_times c next start now = due next now (max_iterations c) (next start)

module _ (sv : Services) where
  open sv use {S}

  -- One `emitExecution` for each time, in their order; the number of nil errors is counted.
  unfoldable pub emit_all : Job → Time → List Time → S → S × ℕ
  emit_all job now [] s = (s, 0)
  emit_all job now (t ∷ ts) s =
      let (s1, fired) = emit_execution sv job (truncate t) now s in
      let (s2, n) = emit_all job now ts s1 in (s2, if fired then suc n else n)

  fire_loop_lem :
      (next : Time → Time) (job : Job) (now : Time) (n : ℕ) (t : Time) (r : JobResult) (s : S)
      → let ts = due next now n t in
        let (s', k) = emit_all job now ts s in
        fire_loop sv next job now n t r s ≡ (
          s',
          record r { triggered = r.triggered + k; cursor = cursor_of ts r.cursor },
          stop next now n t,
        )
  unfolding fire_loop due stop emit_all
  fire_loop_lem next job now zero t r s = ground arith
  fire_loop_lem next job now (suc n) t r s =
      let at = truncate t in
      let e = emit_execution sv job at now s in
      let r' = record r { cursor = at; triggered = if e.1 then suc r.triggered else r.triggered } in
      ground (arith, fire_loop_lem next job now n (next t) r' e.0)

  -- A catch-up emits the due times in their order, up to its cap; the cursor is the last of them.
  pub catch_up_lem :
      (c : Config) (next : Time → Time) (job : Job) (start now : Time) (s : S)
      → let ts = fired_times c next start now in
        let (s', k) = emit_all job now ts s in
        catch_up sv c next job start now s ≡ (
          s',
          record {
            triggered = k;
            capped = not (after (stop next now (max_iterations c) (next start)) now);
            cursor = cursor_of ts now;
          },
        )
  unfolding catch_up
  catch_up_lem c next job start now s = ground (
    arith,
    fire_loop_lem next job now (max_iterations c) (next start)
        (record { triggered = 0; capped = false; cursor = now }) s,
  )

  capped_iff :
      (c : Config) (next : Time → Time) (job : Job) (start now : Time) (s : S)
      → (catch_up sv c next job start now s).1.capped
        ≡ not (after (stop next now (max_iterations c) (next start)) now)
  capped_iff c next job start now s = ap (λ r. r.1.capped) (catch_up_lem c next job start now s)

  module _ (c : Config) (next : Time → Time) (Fires : Time → Type 0) (sched : IsSchedule next Fires)
      (job : Job) (start now : Time) (s : S) where
    -- A catch-up emits one execution for each of some activation times of the window.
    pub fired-In_window :
        (x : Time) → In x (fired_times c next start now) → (start < x) × (x ≤ now) × Fires x
    fired-In_window x m =
        let (a, b, p, f) = due_sound next Fires sched now (max_iterations c) start x m in (a, b, f)

    -- For a schedule whose `Next` is as the cron library documents it, a catch-up that does not
    -- report that it was capped calls `emitExecution` once for each due time, and the due times
    -- are exactly the activation times after the window's start and up to now.
    pub catch_up_exact :
        (catch_up sv c next job start now s).1.capped ≡ false
        → ((catch_up sv c next job start now s).0
            ≡ (emit_all job now (fired_times c next start now) s).0)
          × ((x : Time) → In x (fired_times c next start now) ↔ ((start < x) × (x ≤ now) × Fires x))
    catch_up_exact h = (
      ap (λ r. r.0) (catch_up_lem c next job start now s),
      λ x. (
        fired-In_window x,
        λ p.
            due_complete next Fires sched now (max_iterations c) start x p.2 p.0 p.1
              (ground (arith, capped_iff c next job start now s)),
      ),
    )

  cursor_aligned :
      (next : Time → Time) (now : Time) (n : ℕ) (s d : Time)
      → ((t : Time) → next t % minute ≡ 0)
      → (cursor_of (due next now n (next s)) d ≡ last_of (due next now n (next s)) d)
  unfolding due
  cursor_aligned next now zero s d h = refl
  cursor_aligned next now (suc n) s d h = elim (Bool-cases (after (next s) now)) [
    | inl e ↦ rw e
    | inr e ↦ rw e (ground (arith, h s, cursor_aligned next now n (next s) (next s) h))
  ]

  pub max_iterations_pos : (c : Config) → 0 < max_iterations c
  unfolding max_iterations
  max_iterations_pos c = ground arith

  -- A capped catch-up has fired something, so the last time fired needs no default.
  last_of_capped :
      (next : Time → Time) (now : Time) (n : ℕ) (s d : Time)
      → 0 < n
      → after (stop next now n (next s)) now ≡ false
      → last_of (due next now n (next s)) d ≡ last_of (due next now n (next s)) s
  unfolding due stop
  last_of_capped next now zero s d p h = elim p [ ]
  last_of_capped next now (suc n) s d p h = elim (Bool-cases (after (next s) now)) [
    | inl e ↦ ground arith
    | inr e ↦ rw e
  ]

  -- The cursor of a capped catch-up is the last time fired, and the stop is the activation after it.
  cursor_capped :
      (c : Config) (next : Time → Time) (job : Job) (start now : Time) (s : S)
      → ((t : Time) → next t % minute ≡ 0)
      → (catch_up sv c next job start now s).1.capped ≡ true
      → let at = stop next now (max_iterations c) (next start) in
        (at ≤ now) × (at ≡ next (catch_up sv c next job start now s).1.cursor)
  cursor_capped c next job start now s whole h =
      let n = max_iterations c in
      let at = stop next now n (next start) in
      let quiet : after at now ≡ false = ground (arith, capped_iff c next job start now s) in
      let cursor =
        ap (λ r. r.1.cursor) (catch_up_lem c next job start now s)
        ∙ cursor_aligned next now n start now whole
        ∙ last_of_capped next now n start now (max_iterations_pos c) quiet in
      (ground arith, stop-next next now n start ∙ ap next (sym cursor))

  module _ (c : Config) (next : Time → Time) (Fires : Time → Type 0) (sched : IsSchedule next Fires)
      (whole : (t : Time) → next t % minute ≡ 0) (job : Job) (start now start' now' : Time)
      (s s' : S) (capped : (catch_up sv c next job start now s).1.capped ≡ true)
      (resumes : start' ≤ (catch_up sv c next job start now s).1.cursor)
      (full : (catch_up sv c next job start' now' s').1.capped ≡ false) where
    -- No activation time is lost between the two windows.
    fired_by_one :
        (x : Time)
        → start < x
        → x ≤ now'
        → Fires x
        → In x (fired_times c next start now) ⊎ In x (fired_times c next start' now')
    fired_by_one x a b f =
        let (early, after_cursor) = cursor_capped c next job start now s whole capped in
        let cursor = (catch_up sv c next job start now s).1.cursor in
        elim (dec_lt x (stop next now (max_iterations c) (next start))) [
          | yes l ↦
              inl (due_complete next Fires sched now (max_iterations c) start x f a (omega arith) l)
          | no l ↦ inr (
              due_complete next Fires sched now' (max_iterations c) start' x f
                (omega (arith, sched.later cursor)) b
                (ground (arith, capped_iff c next job start' now' s')))
        ]

    -- Two ticks for one job whose activation times are whole minutes and whose `Next` is as the cron
    -- library documents it. The first one is capped, and the second one starts at its cursor or
    -- before and is not capped. Then each tick has called `emitExecution` once for each time of a
    -- list, in its order, and an activation time after the first window's start and up to the second
    -- tick is in one of the two lists.
    pub capped_catch_up_resumes :
        (x : Time)
        → start < x
        → x ≤ now'
        → Fires x
        → ((catch_up sv c next job start now s).0
            ≡ (emit_all job now (fired_times c next start now) s).0)
          × ((catch_up sv c next job start' now' s').0
              ≡ (emit_all job now' (fired_times c next start' now') s').0)
          × (In x (fired_times c next start now) ⊎ In x (fired_times c next start' now'))
    capped_catch_up_resumes x a b f = (
      ap (λ r. r.0) (catch_up_lem c next job start now s),
      ap (λ r. r.0) (catch_up_lem c next job start' now' s'),
      fired_by_one x a b f,
    )
