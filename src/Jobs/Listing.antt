-- ===== src/Jobs/Listing.antt =====
-- internal/store/postgres/store.go: the pages of ListJobs.
use easy_cron.Prelude.{
  ℕ, ◌≤◌, ◌<◌, ◌≡◌, ◌↔◌, ◌∙◌, Bool, true, String, List, arith, In, keep, order_desc, page, length,
  In-keep, keep-In, In-order_by, order_by-In, length-order_by, take-all, leb,
}
use easy_cron.Prelude.Int.{pos}
use easy_cron.Domain.{Job, with_defaults}
use easy_cron.Jobs.{Tables}
use easy_cron.Jobs.Lists.{JobFilter, job_matches, list_jobs}

-- A filter with another page.
abbrev pub at_page : JobFilter → ℕ → ℕ → JobFilter
at_page f limit offset = record f {
  list_params = record { limit = pos limit; offset = pos offset };
}

abbrev jobs_leq : Job → Job → Bool
jobs_leq x y = leb y.created_at x.created_at

module _ (ilike : String → String → Bool) (f : JobFilter) (t : Tables) where
  abbrev pub matching : List Job
  matching = order_desc (λ (j : Job). j.created_at) (keep (job_matches ilike f t.tags) t.jobs)

  -- A page within the bounds is that part of what matches.
  list_jobs-page :
      (limit offset : ℕ)
      → 0 < limit
      → limit ≤ 1000
      → list_jobs ilike (at_page f limit offset) t ≡ page limit offset matching
  unfolding list_jobs with_defaults
  list_jobs-page limit offset a b = ground arith

  -- Where at most as many jobs match a filter as a page of 1 to 1000 rows holds, the first page
  -- has just the jobs that match.
  pub list_jobs_iff :
      (limit : ℕ) (j : Job)
      → 0 < limit
      → limit ≤ 1000
      → length (keep (job_matches ilike f t.tags) t.jobs) ≤ limit
      → In j (list_jobs ilike (at_page f limit 0) t)
        ↔ (In j t.jobs × (job_matches ilike f t.tags j ≡ true))
  list_jobs_iff limit j a b c =
      let whole : list_jobs ilike (at_page f limit 0) t ≡ matching =
        list_jobs-page limit 0 a b
        ∙ take-all limit matching (
            omega
              (arith, c, length-order_by jobs_leq (keep (job_matches ilike f t.tags) t.jobs))) in
      rw whole (
        (λ h.
            In-keep (job_matches ilike f t.tags) t.jobs j
              (In-order_by jobs_leq (keep (job_matches ilike f t.tags) t.jobs) j h)),
        (λ h.
            order_by-In jobs_leq (keep (job_matches ilike f t.tags) t.jobs) j
              (keep-In (job_matches ilike f t.tags) t.jobs j h.0 h.1)),
      )
