-- ===== src/Leader.antt =====
-- internal/leaderelection/leader.go. The database and the context are the argument `Round`; what the
-- elector does is the list of its actions, in their order.
pub mod Duty
mod Tests
use easy_cron.Prelude.{
  Bool, true, false, String, Option, none, some, List, [], ◌∷◌, ◌++◌, if◌then◌else◌,
}

-- What a query for the lock answers.
pub data LockResult : Type 0 where
  query_failed not_acquired acquired : LockResult

-- What the elector calls: the connection, the lock with its answer, the two callbacks and the
-- metrics sink. `close_conn` is `conn.Close()`, which hands the connection back to the pool; nothing
-- unlocks.
pub data Action : Type 0 where
  open_conn close_conn elected cancel_leader demoted leader_acquired : Action
  try_lock : LockResult → Action
  set_keepalive : String → Action
  leader_status_changed : Bool → Action
  leader_lost : String → Action

-- What ends one turn of the loop of `holdLock`: the context, or a tick and its ping, which may fail
-- and may fail because the context is done.
pub data Beat : Type 0 where
  context_done ping_ok : Beat
  ping_failed : Bool → Beat

-- One call of `runOnce` meets these. `beats` ends with the beat on which the lock is given up.
pub record Round : Type 0 where
  pub conn : Bool
  pub lock : LockResult
  pub beats : List Beat
  pub demote_panics : Bool

-- `holdLock`; none where the beats end and the lock is still held.
unfoldable pub hold_lock : List Beat → Option String
hold_lock [] = none
hold_lock (context_done ∷ beats) = some "shutdown"
hold_lock (ping_ok ∷ beats) = hold_lock beats
hold_lock (ping_failed true ∷ beats) = some "shutdown"
hold_lock (ping_failed false ∷ beats) = some "conn_lost"

-- A call of the metrics sink, where there is one.
abbrev pub tell : Bool → Action → List Action
tell metrics a = if metrics then a ∷ [] else []

abbrev pub keepalives : List Action
keepalives =
    set_keepalive "SET tcp_keepalives_idle = 5"
    ∷ set_keepalive "SET tcp_keepalives_interval = 5"
    ∷ set_keepalive "SET tcp_keepalives_count = 3"
    ∷ []

-- The end of a leadership: the reason is "panic" where `onDemoted` panicked.
unfoldable pub step_down : Bool → Round → String → List Action × Option String
step_down metrics r lost =
    let reason = if r.demote_panics then "panic" else lost in
    (
      (cancel_leader ∷ demoted ∷ [])
          ++ (tell metrics (leader_status_changed false)
              ++ (tell metrics (leader_lost reason) ++ (close_conn ∷ []))),
      some reason,
    )

-- From the lock on, by what `holdLock` returned.
unfoldable pub lead : Bool → Round → Option String → List Action × Option String
unfolding step_down
lead metrics r held =
    let started =
      tell metrics (leader_status_changed true)
      ++ (tell metrics leader_acquired ++ (elected ∷ [])) in
    elim held [
      | none ↦ (started, none)
      | some lost ↦ let (after, reason) = step_down metrics r lost in (started ++ after, reason)
    ]

-- `runOnce`: its actions, and its reason, which is none while the lock is still held. Where
-- `ExecContext` fails for a keepalive, the code goes on.
unfoldable pub run_once : Bool → Round → List Action × Option String
unfolding hold_lock lead
run_once metrics r =
    let failed = tell metrics (leader_lost "error") in
    let tried = open_conn ∷ keepalives ++ (try_lock r.lock ∷ []) in
    if r.conn
    then elim r.lock [
      | query_failed ↦ (tried ++ (failed ++ (close_conn ∷ [])), some "")
      | not_acquired ↦ (tried ++ (close_conn ∷ []), some "")
      | acquired ↦
          let (actions, reason) = lead metrics r (hold_lock r.beats) in (tried ++ actions, reason)
    ]
    else (failed, some "")

-- A round that still holds the lock is the last one.
abbrev pub continue_with : List Action × Option String → List Action → List Action
continue_with (actions, none) rest = actions
continue_with (actions, some lost) rest = actions ++ rest

-- `Run`, over the rounds that it makes before the context ends.
unfoldable pub run : Bool → List Round → List Action
unfolding run_once
run metrics [] = []
run metrics (r ∷ rs) = continue_with (run_once metrics r) (run metrics rs)
