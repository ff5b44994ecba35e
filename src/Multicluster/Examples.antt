-- ===== src/Multicluster/Examples.antt =====
-- A runtime manager of three peers: itself, one with a kubeconfig, and one without.
use locking.Prelude.{
  ℕ, String, ◌≡◌, refl, ◌≢◌, true, false, List, [], ◌∷◌, ◌++◌, some, str_eq, map, if◌then◌else◌,
}
use locking.Prelude.Url.{Url}
use locking.Prelude.Result.{Result, ok, err, foreign, traverse}
use locking.Prelude.Map.{insert}
use locking.Raft.Config.{LockConfiguration}
use locking.Multicluster.Config.{
  RaftCluster, RaftConfiguration, Cli, validate, flag_defaults, peer_from_flag,
  raft_configuration_from_flags,
}
use locking.Multicluster.Config.Flags.{flags_again}
use locking.Multicluster.Node.{
  Platform, FetchRoutine, Gathered, node_of, raft_node, gather, nothing_gathered, leader_routines,
  fetch_routines, load_kubeconfig_from_bytes,
}
use locking.Raft.Transport
use locking.Multicluster.Routine.{Shared, waits, run_fetch, fetch_cluster, IsAdded}
use locking.Multicluster.Routine.Added.{IsRemote, leader_routines-IsAdded}
use locking.Raft.Transport.{client_for, client_tls_config}

abbrev hash : String → ℕ
hash s = if str_eq s "a" then 1 else if str_eq s "b" then 2 else 3

abbrev pub here : Platform
here = record {
  Kubeconfig = List ℕ;
  RestConfig = List ℕ;
  Cluster = List ℕ;
  Provider = List String;
  string_to_hash = hash;
  read_file = λ _. ok (7 ∷ []);
  load = λ b. ok b;
  client_config = λ b. ok b;
  new_cluster = λ b. ok b;
  new_provider = [];
  add = λ name c names. ok (name ∷ names);
}

abbrev pub peer_a : RaftCluster
peer_a = record { name = "a"; address = "10.0.0.1"; kubeconfig_file = "" }

abbrev pub peer_b : RaftCluster
peer_b = record { name = "b"; address = "10.0.0.2"; kubeconfig_file = "/b" }

abbrev pub peer_c : RaftCluster
peer_c = record { name = "c"; address = "10.0.0.3"; kubeconfig_file = "" }

abbrev three : List RaftCluster
three = peer_a ∷ peer_b ∷ peer_c ∷ []

abbrev pub config_a : RaftConfiguration
config_a = record flag_defaults.configuration {
  name = "a";
  address = "10.0.0.1";
  peers = three;
  ca_file = "/ca";
  private_key_file = "/key";
  certificate_file = "/crt";
  bootstrap = true;
}

abbrev pub lock_a : LockConfiguration
lock_a = record {
  id = 1;
  address = "10.0.0.1";
  ca = 7 ∷ [];
  private_key = 7 ∷ [];
  certificate = 7 ∷ [];
  meta = [];
  peers = map (node_of here) three;
  insecure = false;
  fetcher = some (ok []);
  election_timeout = config_a.election_timeout;
  heartbeat_interval = config_a.heartbeat_interval;
  has_logger = true;
}

abbrev pub gathered_a : Gathered here
gathered_a = record {
  raft_peers = map (node_of here) three;
  ids_to_names = (1, "a") ∷ (2, "b") ∷ (3, "c") ∷ [];
  cluster_provider = "b" ∷ [];
}

gather-three : gather here "a" three (nothing_gathered here) ≡ ok gathered_a
unfolding gather insert
gather-three = refl

raft_node-a :
    raft_node here config_a (some []) (err (foreign 1)) (λ r. ok []) ≡ ok (lock_a, gathered_a)
unfolding raft_node validate insert
raft_node-a = refl

abbrev parse : String → Result Url
parse s = ok (record { scheme = s; host = "10.0.0.9"; path = "/kubeconfig" })

abbrev cli : Cli
cli = record flag_defaults { peers = "b" ∷ [] }

abbrev parsed_b : RaftCluster
parsed_b = record { name = "b"; address = "10.0.0.9"; kubeconfig_file = "/kubeconfig" }

parse-cli : traverse (peer_from_flag parse cli.configuration) cli.peers ≡ ok (parsed_b ∷ [])
unfolding traverse peer_from_flag
parse-cli = refl

flags_again_example :
    let (first, cli') = raft_configuration_from_flags parse cli in
    let (second, cli'') = raft_configuration_from_flags parse cli' in
    (first ≡ ok (record flag_defaults.configuration { peers = parsed_b ∷ [] }))
    × (second ≡ ok (record flag_defaults.configuration { peers = parsed_b ∷ parsed_b ∷ [] }))
flags_again_example = flags_again parse cli (parsed_b ∷ []) parse-cli

pub full : (file : String) (b : List ℕ) → here.read_file file ≡ ok b → b ≢ []
full file b e h = cc

abbrev pub wire : Transport.Platform
wire = record {
  Certificate = List ℕ;
  CertPool = List ℕ;
  Credentials = ℕ;
  Client = String;
  x509_key_pair = λ c k. ok c;
  append_certs_from_pem = λ c. some c;
  server_tls = λ c q. 1;
  client_tls = λ c q b. 2;
  insecure_credentials = 0;
  new_client = λ a c. ok a;
  marshal = λ m. ok (m.to ∷ m.body);
  unmarshal = λ b. err (foreign 4);
}

abbrev rpc_kubeconfig : String → Result (List ℕ)
rpc_kubeconfig client = if str_eq client "10.0.0.3" then ok (8 ∷ []) else err (foreign 5)

abbrev add_first : String → List ℕ → List String → Result (Unit {0}) × List String
add_first name c names = (ok tt, name ∷ names)

abbrev fetch_c : FetchRoutine
fetch_c = record { peer_name = "c"; asks = ok (node_of here peer_c) }

abbrev shared : Shared here
shared = record { cluster_provider = "b" ∷ []; restart = false }

abbrev renewed : Shared here
renewed = record { cluster_provider = "c" ∷ "b" ∷ []; restart = true }

run_fetch-c :
    run_fetch wire here rpc_kubeconfig (λ b. ok b) add_first lock_a fetch_c shared
    ≡ (waits, renewed)
unfolding run_fetch fetch_cluster client_for load_kubeconfig_from_bytes client_tls_config
run_fetch-c = refl

routines-c : leader_routines here config_a lock_a ≡ [] ++ fetch_c ∷ []
unfolding leader_routines fetch_routines
routines-c = refl

leader_routines-IsAdded_example :
    (q : RaftCluster) × IsRemote here config_a q
    × IsAdded wire here rpc_kubeconfig
        (λ b. ok b)
        add_first
        lock_a
        q.name
        (node_of here q)
        ("b" ∷ [])
        ("c" ∷ "b" ∷ [])
    × (renewed.restart ≡ true)
leader_routines-IsAdded_example =
    leader_routines-IsAdded here wire rpc_kubeconfig (λ b. ok b) add_first config_a (some [])
      (err (foreign 1)) (λ r. ok []) lock_a gathered_a [] [] fetch_c shared renewed raft_node-a refl
      routines-c run_fetch-c
