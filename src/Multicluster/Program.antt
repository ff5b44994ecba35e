-- ===== src/Multicluster/Program.antt =====
-- A runtime manager as a whole: `NewRaftRuntimeManager` of multicluster/raft.go with the manager of
-- multicluster/manager.go that it makes, and the manager of leader.go that both register routines
-- with.
pub mod Spawning
pub mod Leading
pub mod Starting
use locking.Prelude.{
  ℕ, String, Bool, true, false, if◌then◌else◌, none, List, [], ◌∷◌, Option, some, map,
}
use locking.Prelude.Result.{Result, ok, ◌>>=◌}
use locking.Raft.Config.{LockConfiguration}
use locking.Raft.Transport
use locking.Raft.Run.{Wake, run}
use locking.Raft.Leadership.{Effect, set_leader, go_started, go_stopped, cancel, stop_node}
use locking.Leader.{LeaderManager, new_leader_manager, register_routine}
use locking.Multicluster.Config.{RaftConfiguration}
use locking.Multicluster.Node.{
  Platform, FetchRoutine, Gathered, raft_node, get_leader, leader_routines,
}
use locking.Multicluster.Manager.{Runnable, LeaderRoutine, RuntimeManager, new_manager, leader_name}
use locking.Multicluster.Manager.Leading.{add_all}

-- The leader routines: those of raft.go and those of manager.go.
pub data Routine : Type 0 where
  fetching : FetchRoutine → Routine
  running : LeaderRoutine → Routine

-- `manager.Options` in the fields that are set: whether the manager elects a leader of its own, and
-- where it serves metrics, with `none` for controller-runtime's default.
pub record ManagerOptions : Type 0 where
  pub leader_election : Bool
  pub metrics_bind_address : Option String

unfoldable pub manager_options : RaftConfiguration → ManagerOptions
manager_options config = record {
  leader_election = false;
  metrics_bind_address = if config.metrics then none else some "0";
}

abbrev pub register_all : {R : Type 0} → List R → LeaderManager R → LeaderManager R
register_all [] lm = lm
register_all (fn ∷ fns) lm = register_all fns (register_routine fn lm)

module _ (p : Platform) where
  -- `lock` is the leader manager as it is when `newManager` gets it; `current_leader` is the variable
  -- that `setLeader` stores to.
  pub record Program : Type 0 where
    pub raft_config : LockConfiguration
    pub gathered : Gathered p
    pub lock : LeaderManager Routine
    pub manager : RuntimeManager
    pub current_leader : ℕ

  -- `created` and `accepted` are the answers to `newManager`.
  unfoldable pub new_raft_runtime_manager :
      RaftConfiguration
      → Option p.RestConfig
      → Result p.RestConfig
      → (p.RestConfig → Result (List ℕ))
      → (ManagerOptions → Result (Unit {0}))
      → Result (Unit {0})
      → Result Program
  new_raft_runtime_manager config given rest_config fetched created accepted = do
    (c, g) ← raft_node p config given rest_config fetched
    m ← new_manager (created (manager_options config)) accepted
    ok (record {
      raft_config = c;
      gathered = g;
      lock = register_all (map fetching (leader_routines p config c)) new_leader_manager;
      manager = m;
      current_leader = 0;
    })

  -- The leader manager by now: it is one object, which manager.go goes on registering with.
  unfoldable pub lock_manager : Program → LeaderManager Routine
  lock_manager prog = register_all (map running prog.manager.routines) prog.lock

  -- `Add` of the runtime manager, for each of its runnables.
  unfoldable pub add_runnables : (Runnable → Result (Unit {0})) → List Runnable → Program → Program
  add_runnables below rs prog = record prog { manager = add_all below rs prog.manager }

  -- `setLeader`, as often as the raft loop calls it.
  unfoldable pub store_leader : List Effect → Program → Program
  store_leader [] prog = prog
  store_leader (set_leader leader ∷ es) prog =
      store_leader es (record prog { current_leader = leader })
  store_leader (go_started _ ∷ es) prog = store_leader es prog
  store_leader (go_stopped ∷ es) prog = store_leader es prog
  store_leader (cancel _ ∷ es) prog = store_leader es prog
  store_leader (stop_node ∷ es) prog = store_leader es prog

  -- `GetLeader`
  unfoldable pub leader_of : Program → String
  leader_of prog =
      leader_name (some (get_leader p (prog.gathered).ids_to_names prog.current_leader))

-- `w` is what the transport calls.
module _ (w : Transport.Platform) (p : Platform) where
  -- `LeaderManager.Run`, with the runner that `NewLeaderTrackingRaftLockManager` gives it.
  unfoldable pub run_lock_manager : LockConfiguration → Wake → Result (Unit {0})
  run_lock_manager config wake = run w config wake

  -- `leaderRunnable.Start`
  unfoldable pub start : Program p → Wake → Result (Unit {0})
  unfolding run_lock_manager
  start prog wake = run_lock_manager prog.raft_config wake
