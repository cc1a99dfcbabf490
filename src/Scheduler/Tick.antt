-- ===== src/Scheduler/Tick.antt =====
-- internal/scheduler/scheduler.go: one whole tick.
use easy_cron.Prelude.{
  ℕ, zero, suc, ◌+◌, ◌≤◌, ◌<◌, ◌≡◌, ◌∙◌, refl, sym, ap, Bool, false, not, String, Option, none,
  some, List, [], ◌∷◌, ◌++◌, arith, if◌then◌else◌, ltb, Bool-cases, inl, inr, ◌⊎◌, ◌&&◌, All-append,
  length, take, keep, ltb→lt,
}
use mathlib.Core.List.{append_assoc}
use mathlib.Core.Path.{subst}
use easy_cron.Domain.{Time, Uuid, JobWithSchedule, is_zero, before}
use easy_cron.Scheduler.{
  Services, Config, Progress, last_id, default_job_page_size, process_page, process_pages,
  process_tick, JobResult, process_job,
}
use easy_cron.Scheduler.Pages.{
  is_enabled, get_enabled_jobs, drop, IsOrdered, Above, UpTo, take-drop, short_take,
  length-drop_full, last_splits, UpTo-mono, page_of_split, size_pos, last_ge, IsOrdered-left,
  Above-append, IsOrdered-append,
}

module _ (sv : Services) (load_location : String → Bool)
    (parse : String → String → Option (Time → Time)) (c : Config) (last_tick now : Time) where
  open sv use {S}

  abbrev page : List JobWithSchedule → Progress → S → S × Progress
  page = process_page sv load_location parse c last_tick now

  page-append :
      (xs ys : List JobWithSchedule) (p : Progress) (s : S)
      → page (xs ++ ys) p s ≡ (let r = page xs p s in page ys r.1 r.0)
  unfolding process_page
  page-append [] ys p s = refl
  page-append (x ∷ xs) ys p s = page-append xs ys _ _

  -- One round of the loop over the pages.
  page_step :
      (fuel : ℕ) (a : Uuid) (p : Progress) (s : S) (jobs : List JobWithSchedule)
      → sv.get_enabled_jobs default_job_page_size a s ≡ some jobs
      → process_pages sv load_location parse (suc fuel) c last_tick now a p s ≡ (
          if ltb (length jobs) default_job_page_size
          then some ((page jobs p s).0, some (page jobs p s).1)
          else process_pages sv load_location parse fuel c last_tick now
              (last_id jobs a)
              (page jobs p s).1
              (page jobs p s).0)
  unfolding process_pages
  page_step fuel a p s jobs e = ground arith

  module _ (rows : List JobWithSchedule)
      (steady : (n : ℕ) (a : Uuid) (s : S)
        → sv.get_enabled_jobs n a s ≡ some (get_enabled_jobs rows n a)) where
    abbrev enabled : List JobWithSchedule
    enabled = keep is_enabled rows

    -- The pages from one that begins behind the first part of the enabled jobs.
    pages_lem :
        (fuel : ℕ) (a : Uuid) (pre rest : List JobWithSchedule) (p : Progress) (s : S)
        → enabled ≡ pre ++ rest
        → Above 0 (pre ++ rest)
        → IsOrdered rest
        → UpTo a pre
        → Above a rest
        → length rest < fuel
        → process_pages sv load_location parse fuel c last_tick now a p s
          ≡ some ((page rest p s).0, some (page rest p s).1)
    pages_lem zero a pre rest p s e n o u h f = absurd (omega arith)
    pages_lem (suc fuel) a pre rest p s e n o u h f =
        elim (Bool-cases (ltb (length (take size rest)) size)) [
          | inl short ↦
              let all : take size rest ≡ rest = short_take size rest (ltb→lt _ _ short) in
              page_step fuel a p s (take size rest) got ∙ rw short (rw all)
          | inr full ↦
              page_step fuel a p s (take size rest) got
              ∙ rw full (
                  pages_lem fuel (last_id (take size rest) a) (pre ++ take size rest)
                    (drop size rest) (page (take size rest) p s).1 (page (take size rest) p s).0
                    (e ∙ ap (◌++◌ pre) (sym split) ∙ sym (append_assoc pre _ _))
                    (rw (append_assoc pre (take size rest) (drop size rest), split) n)
                    (IsOrdered-append (take size rest) _ ordered)
                    (All-append (λ j. j.job.id ≤ last_id (take size rest) a) pre (take size rest)
                      (UpTo-mono a _ pre
                        (last_ge a _ (Above-append a (take size rest) _ above).0
                          (IsOrdered-left (take size rest) _ ordered))
                        u)
                      divided.0)
                    divided.1 (omega (arith, length-drop_full size rest (ground arith), size_pos))
                  ∙ joined)
        ]
      where
        size : ℕ
        size = default_job_page_size

        split : take size rest ++ drop size rest ≡ rest
        split = take-drop size rest

        got : sv.get_enabled_jobs size a s ≡ some (take size rest)
        got = steady size a s ∙ ap some (page_of_split rows size a pre rest e n u h)

        joined :
            ◌≡◌ {A = Option (S × Option Progress)}
              (let r = page (take size rest) p s in
                let q = page (drop size rest) r.1 r.0 in some (q.0, some q.1))
              (some ((page rest p s).0, some (page rest p s).1))
        joined =
            ap (λ (r : S × Progress). some (r.0, some r.1))
              (sym (page-append (take size rest) (drop size rest) p s) ∙ ap (λ l. page l p s) split)

        ordered : IsOrdered (take size rest ++ drop size rest)
        ordered = subst IsOrdered (sym split) o

        above : Above a (take size rest ++ drop size rest)
        above = subst (Above a) (sym split) h

        divided :
            UpTo (last_id (take size rest) a) (take size rest)
            × Above (last_id (take size rest) a) (drop size rest)
        divided = last_splits a (take size rest) (drop size rest) above ordered

    -- Where the store answers every page from the same rows, and the enabled ones have increasing
    -- positive ids and are fewer than the fuel, a tick reads every page and processes each enabled
    -- job once, in the order of the ids; `lastTick` is then what the last job left.
    pub tick_covers :
        (fuel : ℕ) (s : S)
        → Above 0 enabled
        → IsOrdered enabled
        → length enabled < fuel
        → process_tick sv load_location parse fuel c last_tick now s ≡ (
            let r = page enabled (record { jobs_triggered = 0; next_last_tick = now }) s in
            some (r.0, r.1.next_last_tick))
    unfolding process_tick
    tick_covers fuel s z o f = ap finish (pages_lem fuel 0 [] enabled start s refl z o tt z f)
      where
        start : Progress
        start = record { jobs_triggered = 0; next_last_tick = now }

        finish : Option (S × Option Progress) → Option (S × Time)
        finish none = none
        finish (some (s', none)) = some (s', last_tick)
        finish (some (s', some p)) = some (s', p.next_last_tick)

  -- `lastTick` after one job.
  abbrev lowered : JobResult → Time → Time
  lowered r n = if r.capped && (not (is_zero r.cursor) && before r.cursor n) then r.cursor else n

  lowered_le : (r : JobResult) (n : Time) → lowered r n ≤ n
  lowered_le r n = ground arith

  lowered_cases :
      (r : JobResult) (n : Time) → (r.capped ≡ false) ⊎ (r.cursor ≡ 0) ⊎ (lowered r n ≤ r.cursor)
  lowered_cases r n = ground arith

  page_lowers :
      (xs : List JobWithSchedule) (p : Progress) (s : S)
      → (page xs p s).1.next_last_tick ≤ p.next_last_tick
  unfolding process_page
  page_lowers [] p s = omega arith
  page_lowers (x ∷ xs) p s =
      let r = process_job sv load_location parse c x last_tick now s in
      omega (
        arith,
        page_lowers xs
            (record {
              jobs_triggered = p.jobs_triggered + r.1.triggered;
              next_last_tick = lowered r.1 p.next_last_tick;
            })
            r.0,
        lowered_le r.1 p.next_last_tick,
      )

  -- A job of the page that was capped at a time that is not the zero time holds `lastTick` at or
  -- below that time, wherever it stands among the others; no job moves `lastTick` forward.
  pub held_back :
      (xs ys : List JobWithSchedule) (jws : JobWithSchedule) (p : Progress) (s : S)
      → (let b = page xs p s in
          let r = (process_job sv load_location parse c jws last_tick now b.0).1 in
          let end = (page (xs ++ jws ∷ ys) p s).1 in
          (end.next_last_tick ≤ p.next_last_tick)
          × ((r.capped ≡ false) ⊎ (r.cursor ≡ 0) ⊎ (end.next_last_tick ≤ r.cursor)))
  unfolding process_page
  held_back xs ys jws p s =
      let b = page xs p s in
      let r = process_job sv load_location parse c jws last_tick now b.0 in
      let p' : Progress = record {
        jobs_triggered = b.1.jobs_triggered + r.1.triggered;
        next_last_tick = lowered r.1 b.1.next_last_tick;
      } in
      rw (page-append xs (jws ∷ ys) p s) (
        omega (arith, page_lowers ys p' r.0, lowered_le r.1 b.1.next_last_tick, page_lowers xs p s),
        elim (lowered_cases r.1 b.1.next_last_tick) [
          | inl e ↦ inl e
          | inr (inl e) ↦ inr (inl e)
          | inr (inr l) ↦ inr (inr (omega (arith, page_lowers ys p' r.0)))
        ],
      )
