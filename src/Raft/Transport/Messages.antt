-- ===== src/Raft/Transport/Messages.antt =====
-- Raft messages from `DoSend` of one node to `Send` of another, in raft/transport.go, and the order
-- of the peers, which are a Go map.
use mathlib.Core.List.{filter_map, Perm}
use mathlib.Core.List.Perm
use locking.Prelude.{
  ℕ, ◌≡◌, refl, ◌↔◌, inl, inr, Bool, true, List, [], ◌∷◌, Option, none, some, if◌then◌else◌, arith,
  Option-cases,
}
use locking.Prelude.Result.{Result, ok, err, Result-cases}
use locking.Prelude.Map.{lookup, nat_key}
use locking.Raft.Sending.{Message}
use locking.Raft.Transport.{
  Platform, CheckRequest, CheckResponse, Peer, GrpcTransport, healthy, poll, do_send, send,
}
use locking.Raft.Transport.Health.{unavailable}

module _ (p : Platform) where
  open p use {Client}

  -- The `Send` of a client: it runs the handler of the node that the client reaches.
  abbrev pub rpc_send : (Client → Option (GrpcTransport p)) → Client → List ℕ → Result Bool
  rpc_send node_at c payload = elim (node_at c) [
    | none ↦ err unavailable
    | some s ↦ send p s payload
  ]

  -- The message has a peer, the peer's node is there and has its raft node set, and that steps on the
  -- message with no error.
  abbrev pub Arrives : (Client → Option (GrpcTransport p)) → GrpcTransport p → Message → Type 0
  Arrives node_at t m =
      (peer : Peer p) × (s : GrpcTransport p) × (step : Message → Result (Unit {0}))
      × (payload : List ℕ) × (lookup m.to t.peers ≡ some peer)
      × (p.marshal m ≡ ok payload)
      × (node_at peer.client ≡ some s)
      × (s.node ≡ some step)
      × (step m ≡ ok tt)

  module _ (decodes : (m : Message) (b : List ℕ) → p.marshal m ≡ ok b → p.unmarshal b ≡ ok m)
      (node_at : Client → Option (GrpcTransport p)) (t : GrpcTransport p) (m : Message) where
    send-applied :
        (s : GrpcTransport p) (payload : List ℕ)
        → p.marshal m ≡ ok payload
        → send p s payload ≡ ok true
        → (step : Message → Result (Unit {0})) × (s.node ≡ some step) × (step m ≡ ok tt)
    unfolding send
    send-applied s payload em h = elim (Option-cases s.node) [
      | inl e ↦ absurd (ground arith)
      | inr (step, e) ↦ (step, e, ground (arith, decodes m payload em))
    ]

    send-steps :
        (s : GrpcTransport p) (payload : List ℕ) (step : Message → Result (Unit {0}))
        → p.marshal m ≡ ok payload
        → s.node ≡ some step
        → step m ≡ ok tt
        → send p s payload ≡ ok true
    unfolding send
    send-steps s payload step em es stepped = rw (es, decodes m payload em, send, stepped)

    -- With a codec that reads back what it writes, `DoSend` answers "applied" exactly when the message
    -- arrives: never because of a peer that is unknown, out of reach or not started.
    pub do_send-applied : (do_send p (rpc_send node_at) t m ≡ ok true) ↔ Arrives node_at t m
    unfolding do_send
    do_send-applied = (to, from)
      where
        to : do_send p (rpc_send node_at) t m ≡ ok true → Arrives node_at t m
        to h = elim (Option-cases (lookup m.to t.peers)) [
          | inl e ↦ absurd (ground arith)
          | inr (peer, e) ↦ elim (Result-cases (p.marshal m)) [
            | inr (x, em) ↦ absurd (ground arith)
            | inl (payload, em) ↦ elim (Option-cases (node_at peer.client)) [
              | inl en ↦ absurd (ground arith)
              | inr (s, en) ↦
                  let (step, es, stepped) = send-applied s payload em (ground arith) in
                  (peer, s, step, payload, e, em, en, es, stepped)
            ]
          ]
        ]

        from : Arrives node_at t m → do_send p (rpc_send node_at) t m ≡ ok true
        from (peer, s, step, payload, e, em, en, es, stepped) =
            ground (arith, decodes m payload em, send-steps s payload step em es stepped)

  module _ (rpc : Client → CheckRequest → Result CheckResponse) where
    ill : ℕ × Peer p → Option ℕ
    ill (id, peer) =
        if healthy p (rpc peer.client (record { from_leader = true })) then none else some id

    poll-filter_map : (peers : List (ℕ × Peer p)) → poll p rpc peers ≡ filter_map ill peers
    unfolding poll ill filter_map
    poll-filter_map [] = refl
    poll-filter_map ((id, peer) ∷ rest) = ground (arith, poll-filter_map rest)

    -- The order in which the map gives the leader its peers changes at most the order of the unhealthy
    -- nodes in its answer.
    pub poll-perm : {xs ys : List (ℕ × Peer p)} → Perm xs ys → Perm (poll p rpc xs) (poll p rpc ys)
    poll-perm {xs} {ys} h = rw (poll-filter_map xs, poll-filter_map ys) (Perm.filter_map ill h)
