-- ===== src/Multicluster/Routine/Added.antt =====
-- Which clusters the leader routines of multicluster/raft.go add, from whom, and under which name.
use locking.Prelude.{
  String, ◌≡◌, ◌≢◌, refl, sym, ap, ◌∙◌, inl, inr, true, List, [], ◌∷◌, ◌++◌, map, Option, ℕ,
  str-cases,
}
use locking.Prelude.Result.{Result, ok}
use locking.Raft.Config.{LockConfiguration}
use locking.Raft.Transport
use locking.Multicluster.Config.{RaftCluster, RaftConfiguration}
use locking.Multicluster.Node.{Gathered, FetchRoutine, node_of, raft_node, leader_routines}
use locking.Multicluster.Node
use locking.Multicluster.Node.Fetching.{waiting, fetch_from, leader_routines-waiting}
use locking.Multicluster.Routine.{Shared, waits, run_fetch, run_fetch-IsAdded, IsAdded}

module _ (p : Node.Platform) where
  -- A peer of the configuration, other than the node itself, without a kubeconfig of its own.
  abbrev pub IsRemote : RaftConfiguration → RaftCluster → Type 0
  IsRemote config q =
      (before : List RaftCluster) × (after : List RaftCluster) × (config.peers
        ≡ before ++ q ∷ after)
      × (q.name ≢ config.name)
      × (q.kubeconfig_file ≡ "")

  abbrev IsPlaced : String → List RaftCluster → FetchRoutine → Type 0
  IsPlaced self qs r =
      (q : RaftCluster) × (before : List RaftCluster) × (after : List RaftCluster) × (qs
        ≡ before ++ q ∷ after)
      × (q.name ≢ self)
      × (q.kubeconfig_file ≡ "")
      × (r ≡ fetch_from p q)

  later :
      (self : String) (q : RaftCluster) (qs : List RaftCluster) (r : FetchRoutine)
      → IsPlaced self qs r
      → IsPlaced self (q ∷ qs) r
  later self q qs r (x, before, after, e, other, bare, same) =
      (x, q ∷ before, after, ap (λ ys. q ∷ ys) e, other, bare, same)

  at_head :
      (self : String) (q : RaftCluster) (qs : List RaftCluster) (rs : List FetchRoutine)
      (r : FetchRoutine) (rs' : List FetchRoutine)
      → fetch_from p q ∷ map (fetch_from p) (waiting self qs) ≡ rs ++ r ∷ rs'
      → q.name ≢ self
      → q.kubeconfig_file ≡ ""
      → ((xs : List FetchRoutine)
          → map (fetch_from p) (waiting self qs) ≡ xs ++ r ∷ rs'
          → IsPlaced self qs r)
      → IsPlaced self (q ∷ qs) r
  at_head self q qs [] r rs' h other bare rec = (q, [], qs, refl, other, bare, cc)
  at_head self q qs (x ∷ rs) r rs' h other bare rec = later self q qs r (rec rs cc)

  waiting-IsPlaced :
      (self : String) (qs : List RaftCluster) (rs : List FetchRoutine) (r : FetchRoutine)
      (rs' : List FetchRoutine)
      → map (fetch_from p) (waiting self qs) ≡ rs ++ r ∷ rs'
      → IsPlaced self qs r
  waiting-IsPlaced self [] [] r rs' h = cc
  waiting-IsPlaced self [] (x ∷ rs) r rs' h = cc
  waiting-IsPlaced self (q ∷ qs) rs r rs' h = elim (str-cases q.name self) [
    | inl (b, own) ↦ later self q qs r (waiting-IsPlaced self qs rs r rs' (rw b at h))
    | inr (b, other) ↦ elim (str-cases q.kubeconfig_file "") [
      | inr (b', given) ↦ later self q qs r (waiting-IsPlaced self qs rs r rs' (rw (b, b') at h))
      | inl (b', none_given) ↦
          at_head self q qs rs r rs' (rw (b, b') at h) other none_given
            (λ xs. waiting-IsPlaced self qs xs r rs')
    ]
  ]

  module _ (w : Transport.Platform) (rpc_kubeconfig : w.Client → Result (List ℕ))
      (new_cluster : p.RestConfig → Result p.Cluster)
      (add_or_replace : String → p.Cluster → p.Provider → Result (Unit {0}) × p.Provider) where
    -- Where a leader routine of a runtime manager that is bootstrapped over raft comes to wait for
    -- the end of its context, there is a peer of the configuration, other than the node itself and
    -- without a kubeconfig of its own, whose raft node was asked for its kubeconfig, and the cluster
    -- of that kubeconfig was added under that peer's name; a restart signal is left waiting.
    pub leader_routines-IsAdded :
        (config : RaftConfiguration) (given : Option p.RestConfig)
        (rest_config : Result p.RestConfig) (fetched : p.RestConfig → Result (List ℕ))
        (c : LockConfiguration) (g : Gathered p) (rs rs' : List FetchRoutine) (r : FetchRoutine)
        (s t : Shared p)
        → raft_node p config given rest_config fetched ≡ ok (c, g)
        → config.bootstrap ≡ true
        → leader_routines p config c ≡ rs ++ r ∷ rs'
        → run_fetch w p rpc_kubeconfig new_cluster add_or_replace c r s ≡ (waits, t)
        → (q : RaftCluster) × IsRemote config q
          × IsAdded w p rpc_kubeconfig new_cluster add_or_replace c q.name
              (node_of p q)
              s.cluster_provider
              t.cluster_provider
          × (t.restart ≡ true)
    leader_routines-IsAdded config given rest_config fetched c g rs rs' r s t hn on at ran =
        let (q, before, after, e, other, bare, same) =
          waiting-IsPlaced config.name config.peers rs r rs'
            (sym (leader_routines-waiting p config given rest_config fetched c g hn on) ∙ at) in
        let (added, signal) =
          run_fetch-IsAdded w p rpc_kubeconfig new_cluster add_or_replace c (fetch_from p q)
            (node_of p q) s t refl
            (ap (λ x. run_fetch w p rpc_kubeconfig new_cluster add_or_replace c x s) (sym same)
              ∙ ran) in
        (q, (before, after, e, other, bare), added, signal)
