-- ===== src/Raft/Config.antt =====
-- raft/locker.go: the configuration of a raft lock and its peers. Durations are in nanoseconds.
pub mod Peers
use locking.Prelude.{
  ℕ, ◌*◌, ◌/◌, ◌^◌, String, Bool, true, false, not, List, [], ◌∷◌, Option, ◌==◌, str_eq,
  if◌then◌else◌, length, map,
}
use locking.Prelude.Result.{Result, ok, ◌>>=◌, ◌>>◌, reject_if}
use locking.Prelude.Map.{insert, nat_key}

abbrev pub default_heartbeat_interval : ℕ
default_heartbeat_interval = 1 * 10 ^ 9

abbrev pub default_election_timeout : ℕ
default_election_timeout = 10 * 10 ^ 9

pub record LockerNode : Type 0 where
  pub id : ℕ
  pub address : String

-- The fetcher is what its `Fetch` answers, and the logger whether one is set.
pub record LockConfiguration : Type 0 where
  pub id : ℕ
  pub address : String
  pub ca : List ℕ
  pub private_key : List ℕ
  pub certificate : List ℕ
  pub meta : List ℕ
  pub peers : List LockerNode
  pub insecure : Bool
  pub fetcher : Option (Result (List ℕ))
  pub election_timeout : ℕ
  pub heartbeat_interval : ℕ
  pub has_logger : Bool

abbrev is_empty {ℓ} : {A : Type ℓ} → List A → Bool
is_empty [] = true
is_empty (_ ∷ _) = false

-- The block of `validate` under `if !c.Insecure`.
abbrev check_credentials : LockConfiguration → Result (Unit {0})
check_credentials c = do
  reject_if (is_empty c.ca) "ca must be specified"
  reject_if (is_empty c.private_key) "private key must be specified"
  reject_if (is_empty c.certificate) "certificate must be specified"

unfoldable pub validate : LockConfiguration → Result (Unit {0})
validate c = do
  reject_if (c.id == 0) "id must be specified"
  reject_if (str_eq c.address "") "address must be specified"
  if not c.insecure then check_credentials c else ok tt
  reject_if (is_empty c.peers) "peers must be set"

-- `raft.Peer`: the context of a peer is the text of its address.
pub record Peer : Type 0 where
  pub id : ℕ
  pub peer_context : String

unfoldable pub as_peer : LockerNode → Peer
as_peer n = record { id = n.id; peer_context = n.address }

unfoldable pub as_peers : List LockerNode → List Peer
unfolding as_peer
as_peers nodes = map as_peer nodes

add_nodes : List (ℕ × String) → List LockerNode → List (ℕ × String)
add_nodes peers [] = peers
add_nodes peers (n ∷ nodes) = add_nodes (insert n.id n.address peers) nodes

unfoldable pub peers_for_nodes : List LockerNode → List (ℕ × String)
unfolding add_nodes
peers_for_nodes nodes = add_nodes [] nodes

-- What `runRaft` makes of the durations: the defaults in place of 0, in ticks of 10 milliseconds.
pub record Ticks : Type 0 where
  pub election_tick : ℕ
  pub heartbeat_tick : ℕ

abbrev default_to : ℕ → ℕ → ℕ
default_to d x = if x == 0 then d else x

abbrev in_ticks : ℕ → ℕ
in_ticks ns = ns / 10 ^ 6 / 10

unfoldable pub raft_ticks : LockConfiguration → Ticks
raft_ticks c = record {
  election_tick = in_ticks (default_to default_election_timeout c.election_timeout);
  heartbeat_tick = in_ticks (default_to default_heartbeat_interval c.heartbeat_interval);
}
