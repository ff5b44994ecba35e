-- ===== src/Leader.antt =====
-- leader.go: the manager that runs a program's routines while it leads.
pub mod Routine
pub mod Interleaving
pub mod Spawning
pub mod Elected
mod Examples
use locking.Prelude.{ℕ, Bool, true, false, List, [], ◌∷◌, ◌++◌, map}
use locking.Raft.Leadership.{
  LeaderCallbacks, Effect, set_leader, go_started, go_stopped, cancel, stop_node,
}

-- `R` is the type of the routines. `spawned` lists the goroutines started so far, each with its
-- leader context.
pub record LeaderManager (R : Type 0) : Type 0 where
  pub leader_routines : List R
  pub is_leader : Bool
  pub spawned : List (R × ℕ)

-- The manager that each of the constructors starts from.
abbrev pub new_leader_manager : {R : Type 0} → LeaderManager R
new_leader_manager = record { leader_routines = []; is_leader = false; spawned = [] }

-- Which of the callbacks `NewRaftLockManager` sets, and `NewLeaderTrackingRaftLockManager` with a
-- function for the leader.
abbrev pub raft_callbacks : Bool → LeaderCallbacks
raft_callbacks tracking = record {
  set_leader = tracking;
  on_started_leading = true;
  on_stopped_leading = true;
}

unfoldable pub register_routine : {R : Type 0} → R → LeaderManager R → LeaderManager R
register_routine fn lm = record lm { leader_routines = lm.leader_routines ++ fn ∷ [] }

-- `runLeaderRoutines`: one goroutine for each routine that is registered now (Leader/Routine).
unfoldable pub run_leader_routines : {R : Type 0} → ℕ → LeaderManager R → LeaderManager R
run_leader_routines ctx lm = record lm {
  is_leader = true;
  spawned = lm.spawned ++ map (λ fn. (fn, ctx)) lm.leader_routines;
}

-- The callbacks that the constructors hand to `kube.Run` and `raft.Run`.
pub data Callback : Type 0 where
  on_started_leading : ℕ → Callback
  on_stopped_leading : Callback

unfoldable pub call : {R : Type 0} → Callback → LeaderManager R → LeaderManager R
unfolding run_leader_routines
call (on_started_leading ctx) lm = run_leader_routines ctx lm
call on_stopped_leading lm = record lm { is_leader = false }

-- The callbacks that the raft loop starts as goroutines.
abbrev pub callbacks : List Effect → List Callback
callbacks [] = []
callbacks (go_started ctx ∷ es) = on_started_leading ctx ∷ callbacks es
callbacks (go_stopped ∷ es) = on_stopped_leading ∷ callbacks es
callbacks (_ ∷ es) = callbacks es
