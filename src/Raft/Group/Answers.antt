-- ===== src/Raft/Group/Answers.antt =====
-- What the nodes of a raft group answer to a health check, from their configurations and what their
-- raft nodes have shown them.
use locking.Prelude.{
  ℕ, suc, String, ◌≡◌, sym, ap, subst, ◌∙◌, ◌≢◌, inl, inr, true, false, List, ◌∷◌, Option, none,
  some, arith, ==_iff, Option-cases,
}
use locking.Prelude.Result.{Result, ok, IsOk, >>=-eq-ok, ok-injective}
use locking.Prelude.Map.{lookup, nat_key}
use locking.Raft.Config.{LockConfiguration, validate}
use locking.Raft.Config.Peers.{last_address, validate-accepts_iff}
use locking.Raft.Leadership.{LeaderCallbacks, observed, start, on_all}
use locking.Raft.Leadership.Callbacks.{Seen, leads}
use locking.Raft.Leadership.Callbacks
use locking.Raft.Leadership.Contexts.{last_seen, on_all-transport}
use locking.Raft.Sending.{Message}
use locking.Raft.Transport.{
  Platform, CheckResponse, Peer, GrpcTransport, new_grpc_transport, new_insecure_grpc_transport,
  check,
}
use locking.Raft.Transport.Health.{cluster_check, sick_ids, health, check_leader, check_follower}
use locking.Raft.Run.{new_transport, open_transport, open_transport-peers, address_of}
use locking.Raft.Group.{set_node, run_node}

leads-lead : (id : ℕ) (h : Seen) → (observed h.0 h.1).lead ≡ id → leads id h ≡ true
leads-lead id h e = ground (arith, ==_iff (observed h.0 h.1).lead id)

module _ (p : Platform) where
  open p use {Client}

  run_node-flags :
      (id : ℕ) (cb : LeaderCallbacks) (step : Message → Result (Unit {0})) (h : Seen)
      (hs : List Seen) (t r : GrpcTransport p)
      → run_node p id (some cb) step (h ∷ hs) t ≡ ok r
      → let seen = last_seen h hs in
        (r.leader ≡ (observed seen.0 seen.1).lead)
        × (r.is_leader ≡ leads id seen)
        × (r.peers ≡ t.peers)
        × (r.meta ≡ t.meta)
  unfolding run_node set_node
  run_node-flags id cb step h hs t r e =
      let ((s, effects), all, led, leads) = on_all-transport id cb h hs start in
      let ((s', effects'), all', made) = >>=-eq-ok (on_all id (some cb) (h ∷ hs) start) _ e in
      let same : s' ≡ s = ap (λ q. q.0) (ok-injective (sym all' ∙ all)) in
      let is : record (set_node p step t) {
        leader = s'.transport_leader;
        is_leader = s'.transport_is_leader;
      }
          ≡ r =
        ok-injective made in
      (
        ap (λ x. x.leader) (sym is) ∙ ap (λ q. q.transport_leader) same ∙ led,
        ap (λ x. x.is_leader) (sym is) ∙ ap (λ q. q.transport_is_leader) same ∙ leads,
        ap (λ x. x.peers) (sym is),
        ap (λ x. x.meta) (sym is),
      )

  new_transport-meta :
      (config : LockConfiguration) (t : GrpcTransport p)
      → new_transport p config ≡ ok t
      → t.meta ≡ config.meta
  unfolding new_transport new_grpc_transport new_insecure_grpc_transport
  new_transport-meta config t h = ground arith

  open_transport-meta :
      (config : LockConfiguration) (t : GrpcTransport p)
      → open_transport p config ≡ ok t
      → (t.meta ≡ config.meta) × (config.id ≢ 0)
  unfolding open_transport
  open_transport-meta config t h =
      let (u, ev, h1) = >>=-eq-ok (validate config) _ h in
      (new_transport-meta config t h1, ((validate-accepts_iff config).0 (subst IsOk (sym ev) tt)).0)

  -- A node of the group and what is known of it: its configuration gave its transport, on which it has
  -- run since, with the last of its `Ready` values as given.
  abbrev pub RanTo : LockConfiguration → Seen → GrpcTransport p → Type 0
  RanTo config seen t =
      (opened : GrpcTransport p) × (cb : LeaderCallbacks) × (step : Message → Result (Unit {0}))
      × (h : Seen) × (hs : List Seen) × (open_transport p config ≡ ok opened)
      × (run_node p config.id (some cb) step (h ∷ hs) opened ≡ ok t)
      × (last_seen h hs ≡ seen)

  RanTo-facts :
      (config : LockConfiguration) (seen : Seen) (t : GrpcTransport p)
      → RanTo config seen t
      → (t.leader ≡ (observed seen.0 seen.1).lead)
        × (t.is_leader ≡ leads config.id seen)
        × (t.meta ≡ config.meta)
        × (config.id ≢ 0)
        × ((id : ℕ) → address_of p (lookup id t.peers) ≡ last_address id config.peers)
  RanTo-facts config seen t (opened, cb, step, h, hs, eo, er, es) =
      let (led, leads, peers, meta) = run_node-flags config.id cb step h hs opened t er in
      let (meta', nonzero) = open_transport-meta config opened eo in
      (
        led ∙ ap (λ (s : Seen). (observed s.0 s.1).lead) es,
        leads ∙ ap (Callbacks.leads config.id) es,
        meta ∙ meta',
        nonzero,
        λ id.
            ap (λ ps. address_of p (lookup id ps)) peers
            ∙ (open_transport-peers p config opened id eo).0,
      )

  module _ (node_at : Client → Option (GrpcTransport p)) (d : ℕ) where
    -- Let two nodes have opened their transports and run since, the last `Ready` of each naming the
    -- second as the leader, whom the first, a follower, lists in its configuration and reaches by
    -- its client for the leader. Then, three calls deep, a health check of either gives the same
    -- answer: there is a leader, with the leader's own `Meta`, and the unhealthy nodes are the
    -- leader's peers that are out of reach or know of no leader.
    pub check-RanTo :
        (config_f config_l : LockConfiguration) (seen_f seen_l : Seen) (f l : GrpcTransport p)
        (a : String)
        → RanTo config_f seen_f f
        → RanTo config_l seen_l l
        → (observed seen_f.0 seen_f.1).lead ≡ config_l.id
        → leads config_f.id seen_f ≡ false
        → (observed seen_l.0 seen_l.1).lead ≡ config_l.id
        → last_address config_l.id config_f.peers ≡ some a
        → ((peer : Peer p) → lookup config_l.id f.peers ≡ some peer → node_at peer.client ≡ some l)
        → let answer : Result CheckResponse = ok (record {
          has_leader = true;
          unhealthy_nodes = sick_ids p node_at l.peers;
          meta = config_l.meta;
        }) in
          (check p (cluster_check p node_at (suc (suc d))) f (record { from_leader = false })
            ≡ answer)
          × (check p (cluster_check p node_at (suc (suc d))) l (record { from_leader = false })
              ≡ answer)
    check-RanTo config_f config_l seen_f seen_l f l a ran_f ran_l named follows named_l listed
          reaches =
        let (led_f, is_f, _, _, peers_f) = RanTo-facts config_f seen_f f ran_f in
        let (led_l, is_l, meta_l, nonzero, _) = RanTo-facts config_l seen_l l ran_l in
        let leading : l.is_leader ≡ true = is_l ∙ leads-lead config_l.id seen_l named_l in
        let some_leader : l.leader ≢ 0 = λ e. nonzero (sym (led_l ∙ named_l) ∙ e) in
        let same : ok (health p node_at l)
            ≡ ok (record (health p node_at l) { meta = config_l.meta }) =
          ap (λ m. ok (record (health p node_at l) { meta = m })) meta_l in
        elim (Option-cases (lookup config_l.id f.peers)) [
          | inl e ↦
              let wrong : none ≡ some a =
                ap (address_of p) (sym e) ∙ peers_f config_l.id ∙ listed in
              cc
          | inr (peer, e) ↦ (
            check_follower p node_at d f l peer (λ e. nonzero (sym (led_f ∙ named) ∙ e))
                  (is_f ∙ follows) (ap (λ id. lookup id f.peers) (led_f ∙ named) ∙ e)
                  (reaches peer e) some_leader leading
                ∙ same,
            check_leader p node_at (suc d) l some_leader leading ∙ same,
          )
        ]
