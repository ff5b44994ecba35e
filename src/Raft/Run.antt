-- ===== src/Raft/Run.antt =====
-- `Run` of raft/locker.go around the loop: validation, the transport, and how the two goroutines end.
use locking.Prelude.{
  ℕ, String, ◌≡◌, refl, ap, subst, ◌==◌, ◌∙◌, sym, inl, inr, Bool, true, false, List, [], ◌∷◌,
  Option, none, some, if◌then◌else◌, arith, Bool-cases,
}
use mathlib.Core.Option.{map as option_map}
use locking.Prelude.Result.{
  Error, Result, ok, err, panic, ◌>>=◌, ◌>>◌, >>=-eq-ok, wrap_err, wrap_err-eq-ok, ok-injective,
}
use locking.Prelude.Map.{lookup, nat_key}
use locking.Raft.Config.{LockConfiguration, validate, peers_for_nodes}
use locking.Raft.Config.Peers.{last_address, lookup-peers_for_nodes}
use locking.Raft.Transport.{
  Platform, Peer, GrpcTransport, new_peer, new_peers, server_tls_config, client_tls_config,
  new_grpc_transport, new_insecure_grpc_transport,
}

-- What wakes `Run`: the first error of a goroutine, or the end of the context.
pub data Wake : Type 0 where
  failed : Error → Wake
  done : Wake

abbrev pub is_none {ℓ} : {A : Type ℓ} → Option A → Bool
is_none none = true
is_none (some _) = false

abbrev pub finish : Wake → Result (Unit {0})
finish (failed e) = err e
finish done = ok tt

module _ (p : Platform) where
  unfoldable pub new_transport : LockConfiguration → Result (GrpcTransport p)
  new_transport config =
      if config.insecure
      then new_insecure_grpc_transport p config.meta config.address (peers_for_nodes config.peers)
          config.fetcher
      else new_grpc_transport p config.meta config.certificate config.private_key config.ca
          config.address (peers_for_nodes config.peers) config.fetcher

  -- The transport that `Run` serves.
  unfoldable pub open_transport : LockConfiguration → Result (GrpcTransport p)
  unfolding new_transport
  open_transport config = do validate config; new_transport config

  -- Both goroutines begin with a deferred call of the logger's method: with no logger that is a nil
  -- dereference, before `runRaft` puts the discarding logger in its place.
  unfoldable pub run : LockConfiguration → Wake → Result (Unit {0})
  unfolding open_transport
  run config wake = do
    transport ← open_transport config
    if config.has_logger then finish wake else err (panic "nil Logger")

  abbrev pub address_of : Option (Peer p) → Option String
  address_of = option_map (λ q. q.addr)

  -- The peer, if there is one, was dialled with the credentials at the address, if there is one.
  abbrev pub Dials : p.Credentials → Option (Peer p) → Option String → Type 0
  Dials credentials none none = Unit
  Dials credentials none (some _) = ⊥
  Dials credentials (some _) none = ⊥
  Dials credentials (some q) (some a) = p.new_client a credentials ≡ ok q.client

  -- The credentials that a configuration has for its peers.
  abbrev pub credentials_of : LockConfiguration → Result p.Credentials
  credentials_of config =
      if config.insecure
      then ok p.insecure_credentials
      else client_tls_config p config.certificate config.private_key config.ca []

  abbrev given_or_insecure : Option p.Credentials → p.Credentials
  given_or_insecure none = p.insecure_credentials
  given_or_insecure (some credentials) = credentials

  new_peer-client :
      (a : String) (credentials : Option p.Credentials) (q : Peer p)
      → new_peer p a credentials ≡ ok q
      → p.new_client a (given_or_insecure credentials) ≡ ok q.client
  unfolding new_peer
  new_peer-client a credentials q h = ground arith

  either-Dials :
      (credentials : p.Credentials) (b : Bool) (q : Peer p) (a : String) (x : Option (Peer p))
      (y : Option String)
      → p.new_client a credentials ≡ ok q.client
      → Dials credentials x y
      → Dials credentials (if b then some q else x) (if b then some a else y)
  either-Dials credentials true q a x y here there = here
  either-Dials credentials false q a x y here there = there

  new_peers-Dials :
      (credentials : Option p.Credentials) (id : ℕ) (ps : List (ℕ × String))
      (qs : List (ℕ × Peer p))
      → new_peers p credentials ps ≡ ok qs
      → Dials (given_or_insecure credentials) (lookup id qs) (lookup id ps)
  unfolding new_peers lookup
  new_peers-Dials credentials id [] qs h =
      subst (λ xs. Dials (given_or_insecure credentials) (lookup id xs) none) (ok-injective h) tt
  new_peers-Dials credentials id ((i, a) ∷ ps) qs h =
      let (peer, e, h1) = >>=-eq-ok (new_peer p a credentials) _ h in
      let (others, eo, h2) = >>=-eq-ok (new_peers p credentials ps) _ h1 in
      subst
        (λ xs.
          Dials (given_or_insecure credentials) (lookup id xs)
            (if i == id then some a else lookup id ps))
        (ok-injective h2)
        (either-Dials (given_or_insecure credentials) (i == id) peer a (lookup id others)
          (lookup id ps) (new_peer-client a credentials peer e)
          (new_peers-Dials credentials id ps others eo))

  new_peer-addr :
      (a : String) (credentials : Option p.Credentials) (q : Peer p)
      → new_peer p a credentials ≡ ok q
      → q.addr ≡ a
  unfolding new_peer
  new_peer-addr a credentials q h = ground arith

  new_peers-lookup :
      (credentials : Option p.Credentials) (id : ℕ) (ps : List (ℕ × String))
      (qs : List (ℕ × Peer p))
      → new_peers p credentials ps ≡ ok qs
      → address_of (lookup id qs) ≡ lookup id ps
  unfolding new_peers lookup
  new_peers-lookup credentials id [] qs h = ground arith
  new_peers-lookup credentials id ((i, a) ∷ ps) qs h =
      let (peer, e, h1) = >>=-eq-ok (new_peer p a credentials) _ h in
      let (others, eo, h2) = >>=-eq-ok (new_peers p credentials ps) _ h1 in
      ground
        (arith, new_peer-addr a credentials peer e, new_peers-lookup credentials id ps others eo)

  -- A new transport reaches the addresses that it was given, with its credentials, and has server
  -- credentials or none.
  abbrev Fresh : List (ℕ × String) → Bool → p.Credentials → GrpcTransport p → Type 0
  Fresh nodes insecure credentials t =
      ((id : ℕ) → address_of (lookup id t.peers) ≡ lookup id nodes)
      × (t.node ≡ none)
      × (t.leader ≡ 0)
      × (is_none t.server_credentials ≡ insecure)
      × ((id : ℕ) → Dials credentials (lookup id t.peers) (lookup id nodes))

  insecure-Fresh :
      (meta : List ℕ) (addr : String) (nodes : List (ℕ × String))
      (fetcher : Option (Result (List ℕ))) (t : GrpcTransport p)
      → new_insecure_grpc_transport p meta addr nodes fetcher ≡ ok t
      → Fresh nodes true p.insecure_credentials t
  unfolding new_insecure_grpc_transport
  insecure-Fresh meta addr nodes fetcher t h =
      let (qs, e, h1) = >>=-eq-ok (new_peers p none nodes) _ h in
      let same : qs ≡ t.peers = ap (λ x. x.peers) (ok-injective h1) in
      (
        λ id. ground (arith, new_peers-lookup none id nodes qs e),
        ground arith,
        ground arith,
        ground arith,
        λ id.
            subst (λ xs. Dials p.insecure_credentials (lookup id xs) (lookup id nodes)) same
              (new_peers-Dials none id nodes qs e),
      )

  secure-Fresh :
      (meta cert key ca : List ℕ) (addr : String) (nodes : List (ℕ × String))
      (fetcher : Option (Result (List ℕ))) (t : GrpcTransport p)
      → new_grpc_transport p meta cert key ca addr nodes fetcher ≡ ok t
      → (credentials : p.Credentials) × (client_tls_config p cert key ca [] ≡ ok credentials)
        × Fresh nodes false credentials t
  unfolding new_grpc_transport
  secure-Fresh meta cert key ca addr nodes fetcher t h =
      let (server, es, h1) =
        >>=-eq-ok
          (wrap_err "unable to initialize server credentials" (server_tls_config p cert key ca)) _
          h in
      let (client, ec, h2) =
        >>=-eq-ok
          (wrap_err "unable to initialize client credentials" (client_tls_config p cert key ca []))
          _ h1 in
      let (qs, e, h3) = >>=-eq-ok (new_peers p (some client) nodes) _ h2 in
      let same : qs ≡ t.peers = ap (λ x. x.peers) (ok-injective h3) in
      (
        client,
        wrap_err-eq-ok _ (client_tls_config p cert key ca []) ec,
        (
          λ id. ground (arith, new_peers-lookup (some client) id nodes qs e),
          ground arith,
          ground arith,
          ground arith,
          λ id.
              subst (λ xs. Dials client (lookup id xs) (lookup id nodes)) same
                (new_peers-Dials (some client) id nodes qs e),
        ),
      )

  -- The transport that `Run` opens, if it opens one, has for each ID a client that was dialled at the
  -- address of the last configured peer with that ID, with the configuration's credentials, and none
  -- for any other ID. It starts without a raft node and without a leader, and has server credentials
  -- unless the configuration is insecure.
  pub open_transport-peers :
      (config : LockConfiguration) (t : GrpcTransport p) (id : ℕ)
      → open_transport config ≡ ok t
      → (address_of (lookup id t.peers) ≡ last_address id config.peers)
        × (t.node ≡ none)
        × (t.leader ≡ 0)
        × (is_none t.server_credentials ≡ config.insecure)
        × (credentials : p.Credentials) × (credentials_of config ≡ ok credentials)
        × Dials credentials (lookup id t.peers) (last_address id config.peers)
  unfolding open_transport
  open_transport-peers config t id h =
      let (u, ev, h1) = >>=-eq-ok (validate config) _ h in
      let nodes = lookup-peers_for_nodes id config.peers in
      elim (Bool-cases config.insecure) [
        | inl e ↦
            let f =
              insecure-Fresh config.meta config.address (peers_for_nodes config.peers)
                config.fetcher t (rw (e, new_transport) at h1) in
            (
              f.0 id ∙ nodes,
              f.1,
              f.2,
              f.3 ∙ sym e,
              p.insecure_credentials,
              rw (e) refl,
              subst (Dials p.insecure_credentials (lookup id t.peers)) nodes (f.4 id),
            )
        | inr e ↦
            let (credentials, ec, f) =
              secure-Fresh config.meta config.certificate config.private_key config.ca
                config.address (peers_for_nodes config.peers) config.fetcher t
                (rw (e, new_transport) at h1) in
            (
              f.0 id ∙ nodes,
              f.1,
              f.2,
              f.3 ∙ sym e,
              credentials,
              rw (e) ec,
              subst (Dials credentials (lookup id t.peers)) nodes (f.4 id),
            )
      ]
