-- ===== src/Raft/GroupExamples.antt =====
-- A group of two nodes, of which the first has won the leadership.
use locking.Prelude.{
  ℕ, String, ◌≡◌, refl, subst, true, false, [], ◌∷◌, Option, none, some, str_eq, if◌then◌else◌,
}
use locking.Prelude.Result.{Result, ok}
use locking.Prelude.Map.{lookup, insert, nat_key}
use locking.Raft.Config.{LockConfiguration, validate, peers_for_nodes}
use locking.Raft.Leadership.{on_all}
use locking.Raft.Leadership.Callbacks.{Seen, full}
use locking.Raft.Sending.{Message}
use locking.Raft.Transport.{
  CheckResponse, Peer, GrpcTransport, new_insecure_grpc_transport, new_peers, check,
}
use locking.Raft.Transport.Health.{cluster_check, sick_ids}
use locking.Raft.TransportExamples.{wire, peer}
use locking.Raft.Run.{open_transport}
use locking.Raft.Group.{run_node}
use locking.Raft.Group.Answers.{RanTo, check-RanTo}

abbrev config_of : ℕ → String → LockConfiguration
config_of id address = record {
  id = id;
  address = address;
  ca = [];
  private_key = [];
  certificate = [];
  meta = id ∷ [];
  peers = record { id = 1; address = "a" } ∷ record { id = 2; address = "b" } ∷ [];
  insecure = true;
  fetcher = none;
  election_timeout = 0;
  heartbeat_interval = 0;
  has_logger = true;
}

abbrev transport_of : ℕ → String → GrpcTransport wire
transport_of id address = record {
  addr = address;
  peers = (1, peer "a") ∷ (2, peer "b") ∷ [];
  meta = id ∷ [];
  leader = 0;
  is_leader = false;
  node = none;
  kubeconfig_fetcher = none;
  server_credentials = none;
  client_credentials = none;
}

abbrev steps : Message → Result (Unit {0})
steps m = ok tt

abbrev leading : GrpcTransport wire
leading = record (transport_of 1 "a") { leader = 1; is_leader = true; node = some steps }

abbrev following : GrpcTransport wire
following = record (transport_of 2 "b") { leader = 1; node = some steps }

abbrev no_leader : Seen
no_leader = (none, record { lead = 0; state_leader = false })

abbrev first_leads : Seen
first_leads =
    (some (record { lead = 1; state_leader = false }), record { lead = 0; state_leader = false })

opened_a : open_transport wire (config_of 1 "a") ≡ ok (transport_of 1 "a")
unfolding open_transport validate peers_for_nodes insert new_insecure_grpc_transport new_peers
opened_a = refl

opened_b : open_transport wire (config_of 2 "b") ≡ ok (transport_of 2 "b")
unfolding open_transport validate peers_for_nodes insert new_insecure_grpc_transport new_peers
opened_b = refl

ran_a : RanTo wire (config_of 1 "a") first_leads leading
unfolding run_node on_all
ran_a = (transport_of 1 "a", full, steps, no_leader, first_leads ∷ [], opened_a, refl, refl)

ran_b : RanTo wire (config_of 2 "b") first_leads following
unfolding run_node on_all
ran_b = (transport_of 2 "b", full, steps, first_leads, [], opened_b, refl, refl)

-- The second node has gone since.
abbrev dial : String → Option (GrpcTransport wire)
dial address = if str_eq address "a" then some leading else none

reaches_a : (q : Peer wire) → lookup 1 following.peers ≡ some q → dial q.client ≡ some leading
unfolding lookup
reaches_a q h =
    let same : peer "a" ≡ q = cc in
    subst (λ (x : Peer wire). dial x.client ≡ some leading) same refl

check-RanTo_example :
    let answer : Result CheckResponse = ok (record {
      has_leader = true;
      unhealthy_nodes = sick_ids wire dial leading.peers;
      meta = 1 ∷ [];
    }) in
    (check wire (cluster_check wire dial 2) following (record { from_leader = false }) ≡ answer)
    × (check wire (cluster_check wire dial 2) leading (record { from_leader = false }) ≡ answer)
check-RanTo_example =
    check-RanTo wire dial 0 (config_of 2 "b") (config_of 1 "a") first_leads first_leads following
      leading "a" ran_b ran_a refl refl refl refl reaches_a
