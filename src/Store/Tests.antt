-- ===== src/Store/Tests.antt =====
-- Runs of the execution store at concrete inputs.
use easy_cron.Prelude.{ℕ, ◌≡◌, ◌≢◌, refl, Bool, none, false, List, [], ◌∷◌, arith}
use easy_cron.Domain.{
  Time, Uuid, Execution, ExecutionStatus, scheduled, emitted, in_progress, delivered, failed,
}
use easy_cron.Store.{Table, find, claim, dequeue_execution, requeue_stale_executions}
use easy_cron.Store.Rows.{IsUnique}
use easy_cron.Store.Terminal.{
  Op, insert, update, dequeue, requeue, delete_job, run, HasStatus, terminal_stays,
}
use easy_cron.Store.Claims.{dequeue_oldest, Dequeues, claimed_once}

abbrev row : Uuid → Time → ExecutionStatus → Execution
row i at status = record {
  id = i;
  job_id = 7;
  namespace = "team";
  trigger_type = scheduled;
  scheduled_at = at;
  fired_at = at;
  status = status;
  acknowledged_at = none;
  created_at = at;
  claimed_at = none;
}

abbrev table : Table
table = row 1 20 emitted ∷ row 2 10 emitted ∷ row 3 5 delivered ∷ []

abbrev unlocked : Uuid → Bool
unlocked i = false

table-IsUnique : IsUnique table
table-IsUnique = ground arith

abbrev history : List Op
history =
    dequeue unlocked 30
    ∷ update 3 failed
    ∷ requeue unlocked 100 10
    ∷ insert (row 3 50 emitted)
    ∷ delete_job 8
    ∷ []

terminal_stays_example : HasStatus (run table history) 3 (row 3 5 delivered)
unfolding find
terminal_stays_example =
    terminal_stays table history 3 (row 3 5 delivered) (ground arith) table-IsUnique refl refl

dequeue_oldest_example : Dequeues unlocked 30 table (dequeue_execution unlocked 30 table)
dequeue_oldest_example = dequeue_oldest unlocked 30 table table-IsUnique

abbrev once_claimed : Table
once_claimed = row 1 20 emitted ∷ claim 30 (row 2 10 emitted) ∷ row 3 5 delivered ∷ []

-- The table after both rows of the queue are claimed.
abbrev both_claimed : Table
both_claimed = claim 40 (row 1 20 emitted) ∷ claim 30 (row 2 10 emitted) ∷ row 3 5 delivered ∷ []

claimed_once_example : ◌≢◌ {A = ℕ} 1 2
unfolding dequeue_execution run
claimed_once_example =
    claimed_once unlocked unlocked 30 40 table once_claimed both_claimed [] (row 2 10 in_progress)
      (row 1 20 in_progress) table-IsUnique refl tt refl

requeued : (requeue_stale_executions unlocked 100 5 once_claimed).0 ≡ table
unfolding requeue_stale_executions
requeued = refl
