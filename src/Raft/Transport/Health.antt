-- ===== src/Raft/Transport/Health.antt =====
-- The health check of raft/transport.go over a whole cluster of nodes that ask one another.
use locking.Prelude.{
  ℕ, zero, suc, ◌≡◌, refl, ◌≢◌, Bool, true, false, not, List, [], ◌∷◌, Option, none, some, ◌==◌,
  if◌then◌else◌, arith,
}
use locking.Prelude.Result.{Error, Result, ok, err, foreign}
use locking.Prelude.Map.{lookup, nat_key}
use locking.Raft.Transport.{
  Platform, CheckRequest, CheckResponse, Peer, GrpcTransport, healthy, poll, check,
}

-- The two errors of a call that no handler answers.
abbrev pub deadline_exceeded : Error
deadline_exceeded = foreign 4

abbrev pub unavailable : Error
unavailable = foreign 14

module _ (p : Platform) where
  open p use {Client}

  -- A call of `Check` in a cluster where a client reaches the given node, or none. The depth is the
  -- number of calls, each made by the handler of the one before, that the caller's deadline allows.
  unfoldable pub cluster_check :
      (Client → Option (GrpcTransport p)) → ℕ → Client → CheckRequest → Result CheckResponse
  cluster_check node_at zero c req = err deadline_exceeded
  cluster_check node_at (suc depth) c req = elim (node_at c) [
    | none ↦ err unavailable
    | some t ↦ check p (cluster_check node_at depth) t req
  ]

  -- The peers that are out of reach or know of no leader.
  abbrev pub sick : (Client → Option (GrpcTransport p)) → Peer p → Bool
  sick node_at peer = elim (node_at peer.client) [ none ↦ true | some t ↦ t.leader == 0 ]

  abbrev pub sick_ids : (Client → Option (GrpcTransport p)) → List (ℕ × Peer p) → List ℕ
  sick_ids node_at [] = []
  sick_ids node_at ((id, peer) ∷ rest) =
      let others = sick_ids node_at rest in if sick node_at peer then id ∷ others else others

  -- What a caller learns of a cluster from its leader `t`.
  abbrev pub health : (Client → Option (GrpcTransport p)) → GrpcTransport p → CheckResponse
  health node_at t = record {
    has_leader = true;
    unhealthy_nodes = sick_ids node_at t.peers;
    meta = t.meta;
  }

  -- Asked by the leader, a node answers for itself, and asks nobody.
  asked_by_leader :
      (node_at : Client → Option (GrpcTransport p)) (d : ℕ) (peer : Peer p)
      → healthy p (cluster_check node_at (suc d) peer.client (record { from_leader = true }))
        ≡ not (sick node_at peer)
  unfolding cluster_check check
  asked_by_leader node_at d peer = ground arith

  poll-sick_ids :
      (node_at : Client → Option (GrpcTransport p)) (d : ℕ) (peers : List (ℕ × Peer p))
      → poll p (cluster_check node_at (suc d)) peers ≡ sick_ids node_at peers
  unfolding poll
  poll-sick_ids node_at d [] = refl
  poll-sick_ids node_at d ((id, peer) ∷ rest) =
      ground (arith, asked_by_leader node_at d peer, poll-sick_ids node_at d rest)

  module _ (node_at : Client → Option (GrpcTransport p)) (d : ℕ) where
    -- A node that knows of a leader and takes itself for it answers with the peers that are out of
    -- reach or know of no leader, and two calls deep are enough.
    pub check_leader :
        (t : GrpcTransport p)
        → t.leader ≢ 0
        → t.is_leader ≡ true
        → check p (cluster_check node_at (suc d)) t (record { from_leader = false })
          ≡ ok (health node_at t)
    unfolding check
    check_leader t led leads = ground (arith, poll-sick_ids node_at d t.peers)

    -- A follower whose leader is a peer that it reaches, and that takes itself, answers what the
    -- leader would; three calls deep are enough.
    pub check_follower :
        (f t : GrpcTransport p) (peer : Peer p)
        → f.leader ≢ 0
        → f.is_leader ≡ false
        → lookup f.leader f.peers ≡ some peer
        → node_at peer.client ≡ some t
        → t.leader ≢ 0
        → t.is_leader ≡ true
        → check p (cluster_check node_at (suc (suc d))) f (record { from_leader = false })
          ≡ ok (health node_at t)
    unfolding check cluster_check
    check_follower f t peer led follows found reached led' leads =
        ground (arith, check_leader t led' leads)

  -- Two followers that each take the other for the leader, and reach one another, ask one another
  -- until the caller's deadline: no depth brings an answer.
  pub check_cycle :
      (node_at : Client → Option (GrpcTransport p)) (depth : ℕ) (f g : GrpcTransport p)
      (to_g to_f : Peer p)
      → f.leader ≢ 0
      → f.is_leader ≡ false
      → lookup f.leader f.peers ≡ some to_g
      → node_at to_g.client ≡ some g
      → g.leader ≢ 0
      → g.is_leader ≡ false
      → lookup g.leader g.peers ≡ some to_f
      → node_at to_f.client ≡ some f
      → check p (cluster_check node_at depth) f (record { from_leader = false })
        ≡ err deadline_exceeded
  unfolding check cluster_check
  check_cycle node_at zero f g to_g to_f lf ff af rf lg fg ag rg = ground arith
  check_cycle node_at (suc d) f g to_g to_f lf ff af rf lg fg ag rg =
      ground (arith, check_cycle node_at d g f to_f to_g lg fg ag rg lf ff af rf)
