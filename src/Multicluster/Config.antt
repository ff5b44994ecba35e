-- ===== src/Multicluster/Config.antt =====
-- The configuration of a runtime manager in multicluster/raft.go, and its command-line flags.
-- Durations are in nanoseconds; the scheme and the logger, which are only handed on, are left out.
pub mod Flags
use locking.Prelude.{
  ℕ, ◌*◌, ◌^◌, String, Bool, true, false, not, ◌&&◌, List, [], ◌∷◌, ◌++◌, str_eq, if◌then◌else◌,
}
use locking.Prelude.Url.{Url}
use locking.Prelude.Result.{Result, ok, err, text, ◌>>=◌, ◌>>◌, reject_if}

pub record RaftCluster : Type 0 where
  pub name : String
  pub address : String
  pub kubeconfig_file : String

pub record RaftConfiguration : Type 0 where
  pub name : String
  pub address : String
  pub peers : List RaftCluster
  pub election_timeout : ℕ
  pub heartbeat_interval : ℕ
  pub meta : List ℕ
  pub metrics : Bool
  pub insecure : Bool
  pub ca_file : String
  pub private_key_file : String
  pub certificate_file : String
  pub bootstrap : Bool
  pub kubernetes_api_server : String
  pub kubeconfig_namespace : String
  pub kubeconfig_name : String

abbrev is_empty {ℓ} : {A : Type ℓ} → List A → Bool
is_empty [] = true
is_empty (_ ∷ _) = false

-- The block of `validate` under `if !r.Insecure`.
abbrev check_files : RaftConfiguration → Result (Unit {0})
check_files r = do
  reject_if (str_eq r.ca_file "") "ca must be specified"
  reject_if (str_eq r.private_key_file "") "private key must be specified"
  reject_if (str_eq r.certificate_file "") "certificate must be specified"

unfoldable pub validate : RaftConfiguration → Result (Unit {0})
validate r = do
  reject_if (str_eq r.name "") "name must be specified"
  reject_if (str_eq r.address "") "address must be specified"
  if not r.insecure then check_files r else ok tt
  reject_if (is_empty r.peers) "peers must be set"

-- The two package variables behind the flags. `url.Parse` is an argument of what follows.
pub record Cli : Type 0 where
  pub configuration : RaftConfiguration
  pub peers : List String

-- What `AddRaftConfigurationFlags` makes of them.
abbrev pub flag_defaults : Cli
flag_defaults = record {
  configuration = record {
    name = "";
    address = "";
    peers = [];
    election_timeout = 10 * 10 ^ 9;
    heartbeat_interval = 10 ^ 9;
    meta = [];
    metrics = false;
    insecure = false;
    ca_file = "";
    private_key_file = "";
    certificate_file = "";
    bootstrap = false;
    kubernetes_api_server = "";
    kubeconfig_namespace = "default";
    kubeconfig_name = "multicluster-kubeconfig";
  };
  peers = [];
}

abbrev pub peer_format : String
peer_format = "format of peer flag is name://address/path/to/kubeconfig"

module _ (parse : String → Result Url) where
  unfoldable pub peer_from_flag : RaftConfiguration → String → Result RaftCluster
  peer_from_flag configuration value = elim (parse value) [
    | err _ ↦ err (text peer_format)
    | ok parsed ↦
        if not configuration.bootstrap && str_eq parsed.path ""
        then err (text peer_format)
        else ok
            (record { name = parsed.scheme; address = parsed.host; kubeconfig_file = parsed.path })
  ]

  -- The loop over the peers; each is added to the package variable at once.
  unfoldable pub add_peers : RaftConfiguration → List String → Result (Unit {0}) × RaftConfiguration
  add_peers c [] = (ok tt, c)
  add_peers c (value ∷ values) = elim (peer_from_flag c value) [
    | err e ↦ (err e, c)
    | ok cluster ↦ add_peers (record c { peers = c.peers ++ cluster ∷ [] }) values
  ]

  unfoldable pub raft_configuration_from_flags : Cli → Result RaftConfiguration × Cli
  unfolding add_peers
  raft_configuration_from_flags cli =
      let (added, c) = add_peers cli.configuration cli.peers in
      (added >> ok c, record cli { configuration = c })
