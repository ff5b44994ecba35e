-- ===== src/Lib.antt =====
-- A leader lock over several Kubernetes clusters. A program registers routines with a leader manager
-- (leader.go), which runs them while its lock says that it leads. There are two locks: one made of a
-- lease in each cluster (kube/), and one made of a raft group whose nodes talk over gRPC (raft/). The
-- package multicluster starts a manager for several clusters that is led by the raft lock, and
-- multicluster/bootstrap makes the certificates that the raft nodes use and the kubeconfigs with which
-- they reach one another's clusters.
--
-- The parts, with the files that they are about:
--   * Prelude: the tests, lists, maps and results that the parts share. A Go error is a value of
--     `Result`; a nil dereference is the error `panic`, which no caller handles. Prelude/Action has the
--     functions that also change a world, as a monad.
--   * Kube/ResourceLock: what kube/ relies on of client-go, as a record of functions over a world `W`,
--     the API servers; a call returns its answer and the next world.
--   * Kube/Multi (kube/multi.go): `get`, `create`, `update`, `record_event`, `describe` and `identity`
--     are the methods of `multiLock`, which as `as_lock` is a lock again. The children: Agreement, what
--     the holder's name means; Leases, one lease for each cluster as the specification of the locks
--     below; Creation and Updating, what a success says of the leases.
--   * Kube/Config (kube/locker.go, kube/single.go, and the constructor of kube/multi.go): `validate`,
--     `new_single_resource_lock`, `new_multi_resource_lock`, `leader_elector` and `run`.
--   * Kube/Elector (kube/locker.go): the callbacks that `leaderElector` hands to client-go, each as
--     a whole, and one after the other as `handle_all`; Kube/Elector/Concurrent has them as goroutines whose operations on the two flags
--     interleave, as a relation between states. Its children: Balance, how often either call is made;
--     Once, the calls of an elector that wins once at most; Sequential, the calls where each handler
--     has ended before the next report.
--   * Raft/Config (raft/locker.go): the configuration, `validate`, `peers_for_nodes`, `as_peers`, and
--     the tick counts of `runRaft`.
--   * Raft/Leadership, Raft/Sending, Raft/Ticker (raft/locker.go): the loop of `runRaft` in three
--     parts. `on_ready` is the handling of one `Ready` up to its messages, `on_done` the last round,
--     `send_all` the messages, and `tick` one round of the goroutine beside the loop.
--   * Raft/Loop (raft/locker.go): the loop of `runRaft` as a whole, from its start to the end of its
--     context, as `run_raft`: each `Ready` with its part in the leadership, its entries and its
--     messages. The children: Views, the effects as its raft node, its peers and its leadership see
--     them; Traffic, what it makes of entries and messages; Endings, what is over when it ends.
--   * Raft/Transport (raft/transport.go): `do_send` on the sending node, `send`, `check` and
--     `kubeconfig` on the node that is asked, and the constructors. Its child Arrival follows one
--     message through the sender's loop to a receiver that starts late.
--   * Raft/Group (raft/locker.go, raft/transport.go): a node after a history of `Ready` values, as
--     `run_node`, and in Answers what the nodes of a group say of their leader.
--   * Raft/Run (raft/locker.go): `run` around the loop, and the transport that it opens.
--   * Raft/Shutdown (raft/locker.go, raft/transport.go): the goroutines of both functions `Run`, as a
--     relation between states, one step of one goroutine at a time. Its children: Answer, what `Run`
--     returns; Progress, that no send to its channel of errors blocks.
--   * Leader (leader.go): the manager, over any type of routines; Leader/Routine is the goroutine of
--     one routine, Leader/Interleaving puts the manager under the raft loop, whose callbacks run in any
--     order, Leader/Spawning says which routines run in the end, and Leader/Elected puts the manager
--     under the elector's handlers.
--   * Multicluster/Config (multicluster/raft.go): the configuration of a runtime manager, `validate`,
--     and `raft_configuration_from_flags` over the package variables behind the flags.
--   * Multicluster/Node (multicluster/raft.go, multicluster/load.go): `NewRaftRuntimeManager` up to
--     its manager: `raft_node` is the raft lock's configuration and the peers' clusters, `get_leader`
--     the closure of that name, and `leader_routines` the routines that it registers.
--   * Multicluster/Routine (multicluster/raft.go): the body of such a routine, as `run_fetch`; its
--     child Added puts it under the routines that a configuration registers.
--   * Multicluster/Manager (multicluster/manager.go): the manager that keeps back what must run on the
--     leader only; `add` is `managerI.Add` and `engage` is `leaderRunnable.Engage`.
--   * Multicluster/Kubeconfigs (multicluster/raft.go): the fetcher that a node serves its kubeconfig
--     with, as `fetch`; its child Served puts it under the node's transport.
--   * Multicluster/Restart (multicluster/manager.go, multicluster/raft.go): the leader routines of
--     `wrapStart` and the channel `restart` between them and whoever adds a cluster, as a relation
--     between states.
--   * Multicluster/Clusters (multicluster/manager.go, multicluster/raft.go): `GetClusterNames` over the
--     closure that collects the provider's clusters.
--   * Multicluster/Logger (multicluster/raft.go): `raftLogr`, the logger that raft gets.
--   * Multicluster/Program: the parts of multicluster/ put together over leader.go and raft/locker.go:
--     `new_raft_runtime_manager` is `NewRaftRuntimeManager` to its end, `store_leader` its `setLeader`,
--     `leader_of` is `GetLeader`, and `start` is `leaderRunnable.Start` down to `Run` of raft/. The
--     children: Spawning, which routines run; Leading, whom it names as the leader; Starting, what
--     can fail when it starts.
--   * Bootstrap/Flags (multicluster/bootstrap/flags.go): `configuration_from_flags`, with both loops
--     over overrides as `apply_overrides`.
--   * Bootstrap/Certificates (multicluster/bootstrap/certificates.go): `sign`, `intermediate`,
--     `generate_ca` and `load_ca`, over the operations of crypto/x509, which are in Bootstrap/X509.
--   * Bootstrap/Kubernetes: what multicluster/bootstrap relies on of the API servers and client-go, as
--     a record of functions over a world, and as laws on the secrets that the servers hold.
--   * Bootstrap/Secrets (multicluster/bootstrap/kubeconfig.go, and `CreateTLSSecret` of
--     certificates.go): `create_remote_kubeconfig`, `create_kubeconfig_secret` and `create_tls_secret`.
--   * Bootstrap/Clusters (multicluster/bootstrap/bootstraper.go): `bootstrap_kubernetes_clusters`, with
--     its first loop as `collect` and its second as `distribute`. The children: Names, that no two
--     secrets share a name; Delivery, what the second loop leaves in the clusters; Collection, what the
--     first loop collects, and both together; Distribution and Success, that they come to their end;
--     Failure, what is left where they do not.
--
-- Bounds and fuel. `send` of Raft/Sending takes fuel for its attempts, since the source's loop has no
-- end of its own; each attempt uses one unit. `cluster_check` of Raft/Transport/Health counts the depth
-- of calls between nodes; a request that goes deeper ends at the caller's deadline. `await_token` of
-- Bootstrap/Secrets takes the number of reads that fit in before its context is done. IDs are compared
-- only, and durations are natural numbers of nanoseconds: a negative duration is not modelled, and a
-- certificate's window is taken to lie after the grace period.
--
-- Not modelled: client-go, etcd's raft, gRPC, x509 and the host, which are parameters; the generated
-- messages; what is logged where; and the test harness. The hash of a peer's name is an
-- argument. In Multicluster/Restart no leader routine returns. Raft/Shutdown lets a goroutine end at
-- any time after its context is done: how long it takes, with the raft loop still handing on messages
-- and the server waiting for open calls, is not modelled, and nothing is said of whether `Run` returns.
pub mod Prelude
pub mod Kube
pub mod Raft
pub mod Leader
pub mod Bootstrap
pub mod Multicluster
