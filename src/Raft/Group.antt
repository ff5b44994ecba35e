-- ===== src/Raft/Group.antt =====
-- A node of a raft group that has run: the transport that `Run` opens, in which `runRaft` of
-- raft/locker.go sets the raft node and stores what each `Ready` shows.
pub mod Answers
use locking.Prelude.{ℕ, List, Option, some}
use locking.Prelude.Result.{Result, ok, ◌>>=◌}
use locking.Raft.Leadership.{LeaderCallbacks, start, on_all}
use locking.Raft.Leadership.Callbacks.{Seen}
use locking.Raft.Sending.{Message}
use locking.Raft.Transport.{Platform, GrpcTransport}

module _ (p : Platform) where
  unfoldable pub set_node : (Message → Result (Unit {0})) → GrpcTransport p → GrpcTransport p
  set_node step t = record t { node = some step }

  -- The transport after the given `Ready` values.
  unfoldable pub run_node :
      ℕ
      → Option LeaderCallbacks
      → (Message → Result (Unit {0}))
      → List Seen
      → GrpcTransport p
      → Result (GrpcTransport p)
  unfolding set_node
  run_node id cb step seen t = do
    (s, _) ← on_all id cb seen start
    ok (record (set_node step t) { leader = s.transport_leader; is_leader = s.transport_is_leader })
