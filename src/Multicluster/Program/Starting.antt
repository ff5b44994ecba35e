-- ===== src/Multicluster/Program/Starting.antt =====
-- How a runtime manager starts its lock: `NewRaftRuntimeManager` and `leaderRunnable.Start` of
-- multicluster/, `LeaderManager.Run` of leader.go, and `Run` of raft/locker.go.
use locking.Prelude.Result.{Result}
use locking.Raft.Config.{validate as validate_lock}
use locking.Raft.Transport
use locking.Multicluster.Node
use locking.Multicluster.Program.{Program}
