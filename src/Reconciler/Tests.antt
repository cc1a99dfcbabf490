-- ===== src/Reconciler/Tests.antt =====
-- Runs of the reconciler at concrete inputs.
use easy_cron.Prelude.{
  ◌+◌, ◌*◌, ◌<◌, ◌≤◌, ◌≡◌, ◌⊎◌, refl, inl, Bool, some, none, true, false, [], ◌∷◌, arith, In,
  length,
}
use easy_cron.Domain.{
  Time, Uuid, Execution, ExecutionStatus, scheduled, emitted, in_progress, minute,
}
use easy_cron.Dispatcher.{max_retry_duration}
use easy_cron.Store.{
  Table, is_emitted, is_in_progress, get_orphaned_executions, requeue_stale_executions, stale_rows,
  insert_by, order_by, update_where,
}
use easy_cron.Reconciler.{
  event_of, default_config, default_requeue_threshold, run_cycle, emit_found, emit_orphans,
}
use easy_cron.Reconciler.Postgres.{Database, postgres}
use easy_cron.Reconciler.Cycle.{database}
use easy_cron.Reconciler.Margin.{ClaimedFor, default-IsPatient, reemits_after_retries}
use easy_cron.Reconciler.Recovery.{requeued, orphans_of, cycle_recovers}

abbrev row : Uuid → Time → ExecutionStatus → Execution
row i at status = record {
  id = i;
  job_id = 7;
  namespace = "team";
  trigger_type = scheduled;
  scheduled_at = at;
  fired_at = at;
  status = status;
  acknowledged_at = none;
  created_at = at;
  claimed_at = none;
}

abbrev lost : Execution
lost = row 1 1 emitted

abbrev dead : Execution
dead = record (row 2 2 in_progress) { claimed_at = some 5 }

abbrev table : Table
table = lost ∷ dead ∷ row 3 (99 * minute) emitted ∷ []

abbrev unlocked : Uuid → Bool
unlocked i = false

abbrev now : Time
now = 100 * minute

abbrev fresh : Database
fresh = database table [] []

abbrev after : Database
after = (run_cycle (postgres unlocked 200) default_config now fresh).0

lost_emitted : In (event_of now lost) after.buffer
unfolding run_cycle emit_found emit_orphans default_config default_requeue_threshold
    max_retry_duration get_orphaned_executions requeue_stale_executions stale_rows insert_by
    order_by update_where
lost_emitted = inl refl

reemits_after_retries_example :
    In (event_of now lost) []
    ⊎ ((q : Execution) × In q table
        × (event_of now lost ≡ event_of now q)
        × (q.created_at + max_retry_duration < now)
        × ((is_emitted q.status ≡ true)
            ⊎ ((is_in_progress q.status ≡ true) × ClaimedFor max_retry_duration now q.claimed_at)))
reemits_after_retries_example =
    reemits_after_retries unlocked 200 now default_config fresh (event_of now lost)
      default-IsPatient (ground arith) lost_emitted

few :
    length (orphans_of default_config now (requeued unlocked default_config now table))
    ≤ default_config.batch_size
unfolding default_config default_requeue_threshold max_retry_duration requeue_stale_executions
    stale_rows insert_by order_by update_where
few = omega arith

cycle_recovers_example :
    In
      (event_of now lost)
      (run_cycle (postgres unlocked 200) default_config now (database table [] [])).0.buffer
unfolding default_config max_retry_duration
cycle_recovers_example =
    cycle_recovers unlocked 200 now default_config table [] [] lost (ground arith) (inl refl) refl
      few (omega arith)
