-- ===== src/Reconciler.antt =====
-- internal/reconciler/reconciler.go. The store, the emitter, the context and the optional metrics sink
-- are operations on one state.
pub mod Cycle
pub mod Postgres
pub mod Margin
pub mod Recovery
mod Tests
use easy_cron.Prelude.{
  ℕ, ◌+◌, ◌*◌, Bool, true, false, Option, none, some, List, [], ◌∷◌, length, if◌then◌else◌, ◌==◌,
}
use easy_cron.Prelude.Int.{ℤ, pos, negsuc, neg, leb_ℤ}
use easy_cron.Domain.{Time, Duration, Execution, TriggerEvent, add, second, minute}
use easy_cron.Dispatcher.{max_retry_duration}

abbrev pub safety_margin : ℕ
safety_margin = 150 * second

pub record Config : Type 0 where
  pub interval : Duration
  pub threshold : Duration
  pub requeue_threshold : Duration
  pub batch_size : ℕ

unfoldable pub default_requeue_threshold : Duration
unfolding max_retry_duration
default_requeue_threshold = pos (max_retry_duration + safety_margin)

unfoldable pub default_config : Config
unfolding max_retry_duration default_requeue_threshold
default_config = record {
  interval = pos (5 * minute);
  threshold = pos (max_retry_duration + safety_margin);
  requeue_threshold = default_requeue_threshold;
  batch_size = 100;
}

-- What the reconciler calls; `cancelled` is `ctx.Err() != nil`, and a metric changes only what the
-- sink keeps.
pub record Services : Type 1 where
  pub S : Type 0
  pub requeue_stale_executions : Time → ℕ → S → S × Option ℕ
  pub get_orphaned_executions : Time → ℕ → S → Option (List Execution)
  pub emit : TriggerEvent → S → S × Bool
  pub cancelled : S → Bool
  pub orphaned_executions_update : ℕ → S → S

abbrev pub is_zero_duration : Duration → Bool
is_zero_duration (pos n) = n == 0
is_zero_duration (negsuc n) = false

abbrev pub requeue_threshold_of : Config → Duration
requeue_threshold_of c =
    if is_zero_duration c.requeue_threshold then c.threshold else c.requeue_threshold

abbrev pub event_of : Time → Execution → TriggerEvent
event_of now exec = record {
  execution_id = exec.id;
  job_id = exec.job_id;
  namespace = exec.namespace;
  scheduled_at = exec.scheduled_at;
  fired_at = exec.fired_at;
  created_at = now;
}

-- How a cycle ended: the orphans could not be read, the context was cancelled, or all of them were
-- tried; with the numbers of `emitted` and `failed`.
pub data CycleEnd : Type 0 where
  fetch_failed : CycleEnd
  interrupted complete : ℕ → ℕ → CycleEnd

module _ (sv : Services) where
  open sv use {S, emit, cancelled}

  -- The loop over the orphans.
  unfoldable pub emit_orphans : Time → List Execution → ℕ → ℕ → S → S × CycleEnd
  emit_orphans now [] emitted failed s = (s, complete emitted failed)
  emit_orphans now (exec ∷ orphans) emitted failed s =
      let (s', ok) = emit (event_of now exec) s in
      let rest =
        emit_orphans now orphans (if ok then 1 + emitted else emitted)
          (if ok then failed else 1 + failed) s' in
      if cancelled s then (s, interrupted emitted failed) else rest

  -- An early return where nothing was found.
  unfoldable pub emit_found : Time → List Execution → S → S × CycleEnd
  unfolding emit_orphans
  emit_found now [] s = (s, complete 0 0)
  emit_found now (exec ∷ orphans) s = emit_orphans now (exec ∷ orphans) 0 0 s

  -- `runCycle`, at the time `now`. The number of requeued rows is only logged.
  unfoldable pub run_cycle : Config → Time → S → S × CycleEnd
  unfolding emit_found
  run_cycle c now s =
      let requeue_cutoff = add now (neg (requeue_threshold_of c)) in
      let orphan_cutoff = add now (neg c.threshold) in
      let (s1, requeued) = sv.requeue_stale_executions requeue_cutoff c.batch_size s in
      elim (sv.get_orphaned_executions orphan_cutoff c.batch_size s1) [
        | none ↦ (s1, fetch_failed)
        | some orphans ↦
            let s2 = sv.orphaned_executions_update (length orphans) s1 in emit_found now orphans s2
      ]
