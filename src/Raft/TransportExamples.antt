-- ===== src/Raft/TransportExamples.antt =====
-- Runs of the raft transport: messages and health checks among three nodes.
use locking.Prelude.{
  ℕ, zero, suc, ◌≤◌, ◌<◌, String, ◌≡◌, refl, ◌↔◌, Bool, true, false, List, [], ◌∷◌, Option, none,
  some, arith, str_eq, if◌then◌else◌,
}
use locking.Prelude.Result.{Result, ok, err, foreign}
use locking.Prelude.Map.{lookup, insert, nat_key}
use locking.Raft.Config.{LockConfiguration, validate, peers_for_nodes}
use locking.Raft.Sending.{Message, send, delivered}
use locking.Raft.Transport.{
  Platform, CheckRequest, Peer, GrpcTransport, check, do_send, new_insecure_grpc_transport,
  new_peers,
}
use locking.Raft.Transport.Health.{cluster_check, deadline_exceeded, check_cycle}
use locking.Raft.Transport.Messages.{rpc_send, Arrives, do_send-applied}
use locking.Raft.Transport.Arrival.{answer, after_sleeps, send-Arrives}
use locking.Raft.Run.{
  open_transport, Dials, credentials_of, address_of, is_none, open_transport-peers,
}

abbrev message : ℕ → Message
message n = record { to = n; body = 7 ∷ [] }

-- Clients are addresses, and a message travels as its fields.
abbrev decode : List ℕ → Result Message
decode [] = err (foreign 1)
decode (to ∷ body) = ok (record { to = to; body = body })

abbrev pub wire : Platform
wire = record {
  Certificate = List ℕ;
  CertPool = List ℕ;
  Credentials = ℕ;
  Client = String;
  x509_key_pair = λ c k. ok c;
  append_certs_from_pem = λ c. some c;
  server_tls = λ c q. 1;
  client_tls = λ c q b. 2;
  insecure_credentials = 0;
  new_client = λ a c. ok a;
  marshal = λ m. ok (m.to ∷ m.body);
  unmarshal = decode;
}

abbrev pub peer : String → Peer wire
peer a = record { addr = a; client = a }

abbrev node_named : ℕ → Bool → List (ℕ × Peer wire) → GrpcTransport wire
node_named leader is_leader peers = record {
  addr = "here";
  peers = peers;
  meta = 9 ∷ [];
  leader = leader;
  is_leader = is_leader;
  node = some (λ m. ok tt);
  kubeconfig_fetcher = none;
  server_credentials = none;
  client_credentials = none;
}

abbrev all_peers : List (ℕ × Peer wire)
all_peers = (1, peer "a") ∷ (2, peer "b") ∷ (3, peer "c") ∷ []

-- Node 1 leads, node 2 follows, and node 3 is out of reach.
abbrev leader_node : GrpcTransport wire
leader_node = node_named 1 true all_peers

abbrev follower_node : GrpcTransport wire
follower_node = node_named 1 false all_peers

abbrev dial : String → Option (GrpcTransport wire)
dial a =
    if str_eq a "a" then some leader_node else if str_eq a "b" then some follower_node else none

abbrev asked : CheckRequest
asked = record { from_leader = false }

-- Node 1 takes node 2 for the leader, and node 2 takes node 1.
abbrev crossed_one : GrpcTransport wire
crossed_one = node_named 2 false all_peers

abbrev crossed_two : GrpcTransport wire
crossed_two = node_named 1 false all_peers

abbrev dial_crossed : String → Option (GrpcTransport wire)
dial_crossed a = if str_eq a "a" then some crossed_one else some crossed_two

check_cycle_example :
    check wire (cluster_check wire dial_crossed 50) crossed_one asked ≡ err deadline_exceeded
unfolding lookup
check_cycle_example =
    check_cycle wire dial_crossed 50 crossed_one crossed_two (peer "b") (peer "a") (omega arith)
      refl refl refl (omega arith) refl refl refl

decode_marshal : (m : Message) (b : List ℕ) → wire.marshal m ≡ ok b → wire.unmarshal b ≡ ok m
decode_marshal m b h = ground arith

do_send-applied_example :
    (do_send wire (rpc_send wire dial) leader_node (message 2) ≡ ok true)
    ↔ Arrives wire dial leader_node (message 2)
do_send-applied_example = do_send-applied wire decode_marshal dial leader_node (message 2)

abbrev insecure_node : LockConfiguration
insecure_node = record {
  id = 1;
  address = "a";
  ca = [];
  private_key = [];
  certificate = [];
  meta = [];
  peers =
      record { id = 1; address = "a" }
      ∷ record { id = 2; address = "b" }
      ∷ record { id = 2; address = "c" }
      ∷ [];
  insecure = true;
  fetcher = none;
  election_timeout = 0;
  heartbeat_interval = 0;
  has_logger = true;
}

abbrev opened : GrpcTransport wire
opened = record {
  addr = "a";
  peers = (1, peer "a") ∷ (2, peer "c") ∷ [];
  meta = [];
  leader = 0;
  is_leader = false;
  node = none;
  kubeconfig_fetcher = none;
  server_credentials = none;
  client_credentials = none;
}

open_insecure : open_transport wire insecure_node ≡ ok opened
unfolding open_transport validate peers_for_nodes insert new_insecure_grpc_transport new_peers
open_insecure = refl

open_transport-peers_example :
    (address_of wire (lookup 2 opened.peers) ≡ some "c")
    × (opened.node ≡ none)
    × (opened.leader ≡ 0)
    × (is_none opened.server_credentials ≡ true)
    × (credentials : ℕ) × (credentials_of wire insecure_node ≡ ok credentials)
    × Dials wire credentials (lookup 2 opened.peers) (some "c")
open_transport-peers_example = open_transport-peers wire insecure_node opened 2 open_insecure

-- Node 2 is up from the beginning, but sets its raft node only before the second attempt.
abbrev not_started : GrpcTransport wire
not_started = record follower_node { node = none }

abbrev dial_at : ℕ → String → Option (GrpcTransport wire)
dial_at zero a = some not_started
dial_at (suc i) a = some follower_node

reached_at : (i : ℕ) → i ≤ 1 → (s : GrpcTransport wire) × (dial_at i "b" ≡ some s)
reached_at zero le = (not_started, refl)
reached_at (suc i) le = (follower_node, refl)

late_message : Arrives wire (dial_at 1) leader_node (message 2)
unfolding lookup
late_message = (peer "b", follower_node, (λ m. ok tt), 2 ∷ 7 ∷ [], refl, refl, refl, refl, refl)

known_b : lookup 2 all_peers ≡ some (peer "b")
unfolding lookup
known_b = refl

send-Arrives_example :
    (j : ℕ) × (j ≤ 1)
    × (send (answer wire decode_marshal dial_at leader_node (message 2)) (message 2) 2 0
        ≡ some (after_sleeps j (delivered (message 2) ∷ [])))
    × Arrives wire (dial_at j) leader_node (message 2)
    × ((i : ℕ) → i < j → ¬ Arrives wire (dial_at i) leader_node (message 2))
send-Arrives_example =
    send-Arrives wire decode_marshal dial_at leader_node (message 2) (peer "b") (2 ∷ 7 ∷ []) 1 2
      known_b refl reached_at late_message (omega arith)
