-- ===== src/Raft/Transport.antt =====
-- raft/transport.go: the nodes' messages, health checks and kubeconfigs over gRPC.
pub mod Health
pub mod Messages
pub mod Arrival
use locking.Prelude.{
  ℕ, suc, String, Bool, true, false, not, ◌&&◌, ◌||◌, List, [], ◌∷◌, ◌++◌, Option, none, some, ◌==◌,
  if◌then◌else◌,
}
use locking.Prelude.Result.{Error, Result, ok, err, text, wrap, ◌>>=◌, ◌>>◌, wrap_err, reject_if}
use locking.Prelude.Map.{lookup, nat_key}
use locking.Raft.Config.{LockConfiguration, LockerNode}
use locking.Raft.Sending.{Message}

-- What the transport calls: crypto/tls, crypto/x509, grpc and the codec of raftpb.
pub record Platform : Type 1 where
  pub Certificate : Type 0
  pub CertPool : Type 0
  pub Credentials : Type 0
  pub Client : Type 0
  pub x509_key_pair : List ℕ → List ℕ → Result Certificate
  pub append_certs_from_pem : List ℕ → Option CertPool
  pub server_tls : Certificate → CertPool → Credentials
  pub client_tls : Certificate → CertPool → Bool → Credentials
  pub insecure_credentials : Credentials
  pub new_client : String → Credentials → Result Client
  pub marshal : Message → Result (List ℕ)
  pub unmarshal : List ℕ → Result Message

pub record CheckRequest : Type 0 where
  pub from_leader : Bool

pub record CheckResponse : Type 0 where
  pub has_leader : Bool
  pub unhealthy_nodes : List ℕ
  pub meta : List ℕ

pub record Peer (p : Platform) : Type 0 where
  pub addr : String
  pub client : p.Client

-- The raft node, once set, is what its `Step` answers to a message.
pub record GrpcTransport (p : Platform) : Type 0 where
  pub addr : String
  pub peers : List (ℕ × Peer p)
  pub meta : List ℕ
  pub leader : ℕ
  pub is_leader : Bool
  pub node : Option (Message → Result (Unit {0}))
  pub kubeconfig_fetcher : Option (Result (List ℕ))
  pub server_credentials : Option p.Credentials
  pub client_credentials : Option p.Credentials

module _ (p : Platform) where
  open p use {Certificate, Credentials, Client}

  append_pool : List ℕ → Result p.CertPool
  append_pool ca_pem = elim (p.append_certs_from_pem ca_pem) [
    | some pool ↦ ok pool
    | none ↦ err (text "unable to append the CA certificate to CA pool")
  ]

  unfoldable pub server_tls_config : List ℕ → List ℕ → List ℕ → Result Credentials
  unfolding append_pool
  server_tls_config cert_pem key_pem ca_pem = do
    certificate ← wrap_err "failed to load server certificate" (p.x509_key_pair cert_pem key_pem)
    pool ← append_pool ca_pem
    ok (p.server_tls certificate pool)

  -- The variadic `insecure` is a list, of which the first counts.
  abbrev first_or_false : List Bool → Bool
  first_or_false [] = false
  first_or_false (b ∷ _) = b

  unfoldable pub client_tls_config : List ℕ → List ℕ → List ℕ → List Bool → Result Credentials
  unfolding append_pool
  client_tls_config cert_pem key_pem ca_pem insecure = do
    certificate ← wrap_err "failed to load client certificate" (p.x509_key_pair cert_pem key_pem)
    pool ← append_pool ca_pem
    ok (p.client_tls certificate pool (first_or_false insecure))

  unfoldable pub new_peer : String → Option Credentials → Result (Peer p)
  new_peer addr credentials = do
    client ← p.new_client addr (elim credentials [ some c ↦ c | none ↦ p.insecure_credentials ])
    ok (record { addr = addr; client = client })

  -- The loop over the peers in both constructors.
  unfoldable pub new_peers : Option Credentials → List (ℕ × String) → Result (List (ℕ × Peer p))
  unfolding new_peer
  new_peers credentials [] = ok []
  new_peers credentials ((id, addr) ∷ rest) = do
    initialized ← new_peer addr credentials
    others ← new_peers credentials rest
    ok ((id, initialized) ∷ others)

  unfoldable pub new_grpc_transport :
      List ℕ
      → List ℕ
      → List ℕ
      → List ℕ
      → String
      → List (ℕ × String)
      → Option (Result (List ℕ))
      → Result (GrpcTransport p)
  unfolding server_tls_config client_tls_config
  new_grpc_transport meta cert_pem key_pem ca_pem addr peers fetcher = do
    server ←
        wrap_err "unable to initialize server credentials"
          (server_tls_config cert_pem key_pem ca_pem)
    client ←
        wrap_err "unable to initialize client credentials"
          (client_tls_config cert_pem key_pem ca_pem [])
    initialized ← new_peers (some client) peers
    ok (record {
      addr = addr;
      peers = initialized;
      meta = meta;
      leader = 0;
      is_leader = false;
      node = none;
      kubeconfig_fetcher = fetcher;
      server_credentials = some server;
      client_credentials = some client;
    })

  unfoldable pub new_insecure_grpc_transport :
      List ℕ → String → List (ℕ × String) → Option (Result (List ℕ)) → Result (GrpcTransport p)
  new_insecure_grpc_transport meta addr peers fetcher = do
    initialized ← new_peers none peers
    ok (record {
      addr = addr;
      peers = initialized;
      meta = meta;
      leader = 0;
      is_leader = false;
      node = none;
      kubeconfig_fetcher = fetcher;
      server_credentials = none;
      client_credentials = none;
    })

  -- `ClientFor`, and with `skip_verify` `InsecureClientFor`.
  unfoldable pub client_for : LockConfiguration → LockerNode → List Bool → Result Client
  client_for config node skip_verify = do
    credentials ← wrap_err "unable to initialize client credentials" (
        if config.insecure
        then ok p.insecure_credentials
        else client_tls_config config.certificate config.private_key config.ca skip_verify)
    p.new_client node.address credentials

  -- `DoSend`, over the `Send` of the peer's client.
  unfoldable pub do_send : (Client → List ℕ → Result Bool) → GrpcTransport p → Message → Result Bool
  do_send rpc_send t msg = elim (lookup msg.to t.peers) [
    | none ↦ err (text "unknown peer")
    | some peer ↦ do
      payload ← wrap_err "marshaling message for peer" (p.marshal msg)
      wrap_err "sending to peer" (rpc_send peer.client payload)
  ]

  -- The server's `Send`: the response's `Applied`.
  unfoldable pub send : GrpcTransport p → List ℕ → Result Bool
  send t payload = elim t.node [
    | none ↦ ok false
    | some step ↦ elim (p.unmarshal payload) [
      | err _ ↦ ok false
      | ok msg ↦ elim (step msg) [ ok _ ↦ ok true | err _ ↦ ok false ]
    ]
  ]

  abbrev healthy : Result CheckResponse → Bool
  healthy (ok r) = r.has_leader
  healthy (err _) = false

  -- The leader's loop over its peers, in the order in which the map gives them.
  unfoldable pub poll : (Client → CheckRequest → Result CheckResponse) → List (ℕ × Peer p) → List ℕ
  poll rpc_check [] = []
  poll rpc_check ((id, peer) ∷ rest) =
      let others = poll rpc_check rest in
      if healthy (rpc_check peer.client (record { from_leader = true }))
      then others
      else id ∷ others

  -- The server's `Check`, over the `Check` of the peers' clients.
  unfoldable pub check :
      (Client → CheckRequest → Result CheckResponse)
      → GrpcTransport p
      → CheckRequest
      → Result CheckResponse
  check rpc_check t req =
      if t.leader == 0
      then ok no_leader
      else if not req.from_leader && t.is_leader
      then ok (led (poll rpc_check t.peers))
      else if not req.from_leader
      then elim (lookup t.leader t.peers) [
        | none ↦ ok no_leader
        | some peer ↦ rpc_check peer.client (record { from_leader = false })
      ]
      else ok (led [])
    where
      no_leader : CheckResponse
      no_leader = record { has_leader = false; unhealthy_nodes = []; meta = t.meta }

      led : List ℕ → CheckResponse
      led unhealthy = record { has_leader = true; unhealthy_nodes = unhealthy; meta = t.meta }

  unfoldable pub kubeconfig : GrpcTransport p → Result (List ℕ)
  kubeconfig t = elim t.kubeconfig_fetcher [
    | none ↦ err (text "FailedPrecondition: no kubeconfig fetcher specified")
    | some fetched ↦ wrap_err "Internal" fetched
  ]
