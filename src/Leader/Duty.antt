-- ===== src/Leader/Duty.antt =====
-- internal/leaderelection/leader.go: the order of the calls around the leader duties.
use easy_cron.Prelude.{◌≡◌, ◌⊎◌, String, Option, none, some, List, [], ◌∷◌}
use easy_cron.Leader.{
  Action, open_conn, close_conn, try_lock, elected, cancel_leader, demoted, leader_acquired,
  set_keepalive, leader_status_changed, leader_lost, query_failed, not_acquired, acquired,
}

-- Where the instance stands: without a connection, with one, with one that did not get the lock, with
-- the lock on its connection before the duties, on duty, with the duties cancelled but not yet
-- stopped, and after them.
pub data Phase : Type 0 where
  idle connected refused locked on_duty stopping stopped : Phase

-- The order of the calls: the duties start after the lock was acquired, on the same connection, and
-- are cancelled and stopped before that connection is handed back; the metrics are told anywhere.
unfoldable pub next : Phase → Action → Option Phase
next idle open_conn = some connected
next connected (try_lock acquired) = some locked
next connected (try_lock not_acquired) = some refused
next connected (try_lock query_failed) = some refused
next connected (set_keepalive s) = some connected
next locked elected = some on_duty
next refused close_conn = some idle
next on_duty cancel_leader = some stopping
next stopping demoted = some stopped
next stopped close_conn = some idle
next p (leader_status_changed b) = some p
next p (leader_lost reason) = some p
next p leader_acquired = some p
next p a = none

unfoldable pub follow : Phase → List Action → Option Phase
unfolding next
follow p [] = some p
follow p (a ∷ actions) = elim (next p a) [ none ↦ none | some q ↦ follow q actions ]

-- Where a round ends, by its reason.
abbrev Ends : List Action × Option String → Type 0
Ends (actions, none) = follow idle actions ≡ some on_duty
Ends (actions, some reason) = follow idle actions ≡ some idle

abbrev EndsWell : List Action → Type 0
EndsWell actions = (follow idle actions ≡ some idle) ⊎ (follow idle actions ≡ some on_duty)
