-- ===== src/Reconciler/Postgres.antt =====
-- internal/reconciler over the tables of internal/store/postgres and the event bus.
use easy_cron.Prelude.{
  ℕ, Bool, true, false, Option, some, List, [], ◌∷◌, ◌++◌, length, if◌then◌else◌, ltb,
}
use easy_cron.Domain.{Time, Uuid, TriggerEvent}
use easy_cron.Store.{Table, get_orphaned_executions, requeue_stale_executions}
use easy_cron.Reconciler.{Services}

-- The executions, the events in the buffer, whether the context is cancelled, and the counts that the
-- metrics sink was told.
pub record Database : Type 0 where
  pub executions : Table
  pub buffer : List TriggerEvent
  pub cancelled : Bool
  pub orphans : List ℕ

module _ (locked : Uuid → Bool) (capacity : ℕ) where
  abbrev pub emit_now : TriggerEvent → Database → Database × Bool
  emit_now event d =
      if ltb (length d.buffer) capacity
      then (record d { buffer = d.buffer ++ (event ∷ []) }, true)
      else (d, false)

  abbrev pub requeue_now : Time → ℕ → Database → Database × Option ℕ
  requeue_now cutoff limit d =
      let (t, n) = requeue_stale_executions locked cutoff limit d.executions in
      (record d { executions = t }, some n)

  abbrev pub postgres : Services
  postgres = record {
    S = Database;
    requeue_stale_executions = requeue_now;
    get_orphaned_executions =
        λ cutoff limit d. some (get_orphaned_executions cutoff limit d.executions);
    emit = emit_now;
    cancelled = λ d. d.cancelled;
    orphaned_executions_update = λ n d. record d { orphans = d.orphans ++ (n ∷ []) };
  }
