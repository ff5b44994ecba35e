-- ===== src/Multicluster/Node.antt =====
-- `NewRaftRuntimeManager` of multicluster/raft.go: the raft lock's configuration, the clusters of the
-- peers, the leader's name, and the routines that fetch the kubeconfigs of peers that have none.
pub mod Names
pub mod Locking
pub mod Fetching
use locking.Prelude.{
  ℕ, zero, suc, String, Bool, true, false, not, ◌&&◌, List, [], ◌∷◌, ◌++◌, Option, none, some, ltb,
  ◌==◌, str_eq, if◌then◌else◌,
}
use locking.Prelude.Result.{Result, ok, err, text, panic, ◌>>=◌, ◌>>◌, reject_if}
use locking.Prelude.Map.{lookup, insert, nat_key}
use locking.Raft.Config.{LockerNode, LockConfiguration}
use locking.Multicluster.Config.{RaftCluster, RaftConfiguration, validate}

-- What the function calls: hash/fnv, os, clientcmd, controller-runtime and the clusters provider.
pub record Platform : Type 1 where
  pub Kubeconfig : Type 0
  pub RestConfig : Type 0
  pub Cluster : Type 0
  pub Provider : Type 0
  pub string_to_hash : String → ℕ
  pub read_file : String → Result (List ℕ)
  pub load : List ℕ → Result Kubeconfig
  pub client_config : Kubeconfig → Result RestConfig
  pub new_cluster : RestConfig → Result Cluster
  pub new_provider : Provider
  pub add : String → Cluster → Provider → Result Provider

-- What the loop over the peers gathers.
pub record Gathered (p : Platform) : Type 0 where
  pub raft_peers : List LockerNode
  pub ids_to_names : List (ℕ × String)
  pub cluster_provider : p.Provider

-- A leader routine: the peer that it is for, and the node that it asks, `raftConfig.Peers[i]`.
pub record FetchRoutine : Type 0 where
  pub peer_name : String
  pub asks : Result LockerNode

abbrev slice_index : ℕ → List LockerNode → Result LockerNode
slice_index i [] = err (panic "index out of range")
slice_index zero (n ∷ ns) = ok n
slice_index (suc i) (n ∷ ns) = slice_index i ns

-- The routines for the peers from the i-th on.
unfoldable pub fetch_routines : String → List LockerNode → ℕ → List RaftCluster → List FetchRoutine
fetch_routines self nodes i [] = []
fetch_routines self nodes i (peer ∷ peers) =
    let rest = fetch_routines self nodes (suc i) peers in
    if not (str_eq peer.name self) && str_eq peer.kubeconfig_file ""
    then record { peer_name = peer.name; asks = slice_index i nodes } ∷ rest
    else rest

module _ (p : Platform) where
  unfoldable pub load_kubeconfig_from_bytes : List ℕ → Result p.RestConfig
  load_kubeconfig_from_bytes yaml = do kubeconfig ← p.load yaml; p.client_config kubeconfig

  unfoldable pub load_kubeconfig : String → Result p.RestConfig
  unfolding load_kubeconfig_from_bytes
  load_kubeconfig file = do yaml ← p.read_file file; load_kubeconfig_from_bytes yaml

  abbrev pub node_of : RaftCluster → LockerNode
  node_of peer = record { id = p.string_to_hash peer.name; address = peer.address }

  unfoldable pub add_cluster : RaftCluster → p.Provider → Result p.Provider
  unfolding load_kubeconfig
  add_cluster peer provider = do
    kube_config ← load_kubeconfig peer.kubeconfig_file
    c ← p.new_cluster kube_config
    p.add peer.name c provider

  -- A peer with a kubeconfig, other than the node itself, is a cluster of its own.
  unfoldable pub next_provider : String → RaftCluster → p.Provider → Result p.Provider
  unfolding add_cluster
  next_provider self peer provider =
      if str_eq peer.name self
      then ok provider
      else if str_eq peer.kubeconfig_file ""
      then ok provider
      else add_cluster peer provider

  -- The loop over the peers.
  unfoldable pub gather : String → List RaftCluster → Gathered p → Result (Gathered p)
  unfolding next_provider
  gather self [] g = ok g
  gather self (peer ∷ peers) g = do
    provider ← next_provider self peer g.cluster_provider
    gather self peers (record {
      raft_peers = g.raft_peers ++ node_of peer ∷ [];
      ids_to_names = insert (p.string_to_hash peer.name) peer.name g.ids_to_names;
      cluster_provider = provider;
    })

  abbrev pub nothing_gathered : Gathered p
  nothing_gathered = record {
    raft_peers = [];
    ids_to_names = [];
    cluster_provider = p.new_provider;
  }

  -- The raft lock's configuration before the files are read. `fetched` is what the
  -- fetcher answers: `bootstrap.CreateRemoteKubeconfig`, over the node's own client configuration.
  abbrev without_files : RaftConfiguration → Result (List ℕ) → List LockerNode → LockConfiguration
  without_files config fetched raft_peers = record {
    id = p.string_to_hash config.name;
    address = config.address;
    ca = [];
    private_key = [];
    certificate = [];
    meta = config.meta;
    peers = raft_peers;
    insecure = config.insecure;
    fetcher = if config.bootstrap then some fetched else none;
    election_timeout = config.election_timeout;
    heartbeat_interval = config.heartbeat_interval;
    has_logger = true;
  }

  -- The block under `if !config.Insecure`.
  abbrev with_files : RaftConfiguration → LockConfiguration → Result LockConfiguration
  with_files config c = do
    ca ← p.read_file config.ca_file
    certificate ← p.read_file config.certificate_file
    private_key ← p.read_file config.private_key_file
    ok (record c { ca = ca; certificate = certificate; private_key = private_key })

  -- The function's own work, before the manager is made. `rest_config` is `ctrl.GetConfig`, which is
  -- asked if the configuration brings no client configuration of its own. `fetched` is what the
  -- fetcher, a closure over the client configuration, answers.
  unfoldable pub raft_node :
      RaftConfiguration
      → Option p.RestConfig
      → Result p.RestConfig
      → (p.RestConfig → Result (List ℕ))
      → Result (LockConfiguration × Gathered p)
  unfolding gather
  raft_node config given rest_config fetched = do
    validate config
    rest ← elim given [ some c ↦ ok c | none ↦ rest_config ]
    g ← gather config.name config.peers nothing_gathered
    let c = without_files config (fetched rest) g.raft_peers
    c' ← if not config.insecure then with_files config c else ok c
    ok (c', g)

  -- The closure that the manager gets as `getLeader`, over the leader that the lock stored last.
  unfoldable pub get_leader : List (ℕ × String) → ℕ → String
  get_leader ids_to_names current_leader = elim (lookup current_leader ids_to_names) [
    | some name ↦ name
    | none ↦ ""
  ]

  -- The routines that are registered with the lock's manager.
  unfoldable pub leader_routines : RaftConfiguration → LockConfiguration → List FetchRoutine
  unfolding fetch_routines
  leader_routines config c =
      if config.bootstrap then fetch_routines config.name c.peers 0 config.peers else []
