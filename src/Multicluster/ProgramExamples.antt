-- ===== src/Multicluster/ProgramExamples.antt =====
-- A runtime manager with a reconciler and a plain runnable, whose node wins the leadership and
-- loses it to the peer `b`.
use locking.Prelude.{◌≡◌, refl, true, false, [], ◌∷◌, some, map, if◌then◌else◌}
use locking.Prelude.Result.{Result, ok, err, foreign}
use locking.Prelude.Map.{insert}
use locking.Raft.Leadership.Callbacks.{any_leads}
use locking.Raft.Loop.Views.{leadership, seen_in}
use locking.Raft.LoopExamples.{wins, loses, answers, did, run_raft-did, settles}
use locking.Multicluster.Config.{validate}
use locking.Leader.{
  LeaderManager, register_routine, on_started_leading, on_stopped_leading, call, callbacks,
}
use locking.Leader.Interleaving.{Runs, done, next}
use locking.Leader.Spawning.{spawned_routines}
use locking.Multicluster.Examples.{here, config_a, lock_a, gathered_a, peer_a, peer_b, peer_c}
use locking.Multicluster.Node.{leader_routines, raft_node}
use locking.Multicluster.Manager.{Runnable, announce, new_manager}
use locking.Multicluster.Program.{
  Routine, fetching, Program, new_raft_runtime_manager, lock_manager, add_runnables, store_leader,
  leader_of,
}
use locking.Multicluster.Program.Spawning.{registered, new_raft_runtime_manager-spawned_routines}
use locking.Multicluster.Program.Leading.{leader_of-run_raft}

abbrev reconciler : Runnable
reconciler = record { id = 4; is_reconciler = true; is_leader_election = false; has_warmup = true }

abbrev plain : Runnable
plain = record { id = 5; is_reconciler = false; is_leader_election = false; has_warmup = false }

abbrev below : Runnable → Result (Unit {0})
below r = ok tt

abbrev prog_a : Program here
prog_a = record {
  raft_config = lock_a;
  gathered = gathered_a;
  lock = record {
    leader_routines =
        fetching (record { peer_name = "c"; asks = ok (record { id = 3; address = "10.0.0.3" }) })
        ∷ [];
    is_leader = false;
    spawned = [];
  };
  manager = record { added = []; runnables = []; routines = announce ∷ [] };
  current_leader = 0;
}

new_raft_runtime_manager-a :
    new_raft_runtime_manager here config_a
      (some [])
      (err (foreign 1))
      (λ r. ok [])
      (λ o. ok tt)
      (ok tt)
    ≡ ok prog_a
unfolding new_raft_runtime_manager leader_routines raft_node validate new_manager insert
    register_routine
new_raft_runtime_manager-a = refl

abbrev before : LeaderManager Routine
before = lock_manager here (add_runnables here below (reconciler ∷ plain ∷ []) prog_a)

abbrev after : LeaderManager Routine
after = call on_stopped_leading (call on_stopped_leading (call (on_started_leading 0) before))

runs : Runs (callbacks (leadership did)) before after
runs = next [] (on_started_leading 0) (on_stopped_leading ∷ on_stopped_leading ∷ []) refl (
    next [] on_stopped_leading (on_stopped_leading ∷ []) refl
      (next [] on_stopped_leading [] refl done))

new_raft_runtime_manager-spawned_routines_example : spawned_routines after ≡ (
    if any_leads 1 (map seen_in (wins ∷ loses ∷ []))
    then registered here config_a (reconciler ∷ plain ∷ [])
    else [])
new_raft_runtime_manager-spawned_routines_example =
    new_raft_runtime_manager-spawned_routines here config_a (some []) (err (foreign 1)) (λ r. ok [])
      (λ o. ok tt) (ok tt) prog_a below (reconciler ∷ plain ∷ []) answers 2 (wins ∷ loses ∷ []) did
      after new_raft_runtime_manager-a settles run_raft-did runs

leader_of-run_raft_example : leader_of here (store_leader here (leadership did) prog_a) ≡ "b"
leader_of-run_raft_example =
    leader_of-run_raft here config_a (some []) (err (foreign 1)) (λ r. ok []) (λ o. ok tt) (ok tt)
      prog_a answers 2 (wins ∷ []) loses did (peer_a ∷ []) (peer_c ∷ []) peer_b
      new_raft_runtime_manager-a settles run_raft-did refl ((λ e. cc), tt) refl
