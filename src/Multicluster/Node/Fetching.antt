-- ===== src/Multicluster/Node/Fetching.antt =====
-- Whom the leader of a runtime manager asks for kubeconfigs.
use locking.Prelude.{
  ℕ, suc, String, ◌≡◌, refl, sym, ◌∙◌, Bool, true, false, not, ◌&&◌, List, [], ◌∷◌, ◌++◌, Option,
  arith, map, length, length-append, str_eq, if◌then◌else◌,
}
use mathlib.Core.List.{append_assoc}
use locking.Prelude.Result.{Result, ok}
use locking.Raft.Config.{LockConfiguration, LockerNode}
use locking.Multicluster.Config.{RaftCluster, RaftConfiguration}
use locking.Multicluster.Node.Locking.{raft_node-peers}
use locking.Multicluster.Node.{
  Platform, Gathered, FetchRoutine, slice_index, node_of, raft_node, fetch_routines,
  leader_routines,
}

-- The peers other than the node itself that come without a kubeconfig, in order.
abbrev pub waiting : String → List RaftCluster → List RaftCluster
waiting self [] = []
waiting self (q ∷ qs) =
    let rest = waiting self qs in
    if not (str_eq q.name self) && str_eq q.kubeconfig_file "" then q ∷ rest else rest

slice_index-append :
    (pre : List LockerNode) (n : LockerNode) (ns : List LockerNode)
    → slice_index (length pre) (pre ++ n ∷ ns) ≡ ok n
slice_index-append [] n ns = refl
slice_index-append (m ∷ pre) n ns = slice_index-append pre n ns

map-if {ℓ κ} :
    {A : Type ℓ} {B : Type κ} (f : A → B) (b : Bool) (x : A) (xs : List A)
    → (if b then f x ∷ map f xs else map f xs) ≡ map f (if b then x ∷ xs else xs)
map-if f true x xs = refl
map-if f false x xs = refl

module _ (p : Platform) where
  abbrev pub fetch_from : RaftCluster → FetchRoutine
  fetch_from q = record { peer_name = q.name; asks = ok (node_of p q) }

  fetch_routines-waiting :
      (self : String) (pre nodes : List LockerNode) (i : ℕ) (qs : List RaftCluster)
      → i ≡ length pre
      → nodes ≡ pre ++ map (node_of p) qs
      → fetch_routines self nodes i qs ≡ map fetch_from (waiting self qs)
  unfolding fetch_routines
  fetch_routines-waiting self pre nodes i [] ei e = refl
  fetch_routines-waiting self pre nodes i (q ∷ qs) ei e =
      let later =
        fetch_routines-waiting self (pre ++ node_of p q ∷ []) nodes (suc i) qs
          (omega (arith, length-append pre (node_of p q ∷ [])))
          (e ∙ sym (append_assoc pre (node_of p q ∷ []) (map (node_of p) qs))) in
      let here : slice_index i nodes ≡ ok (node_of p q) =
        rw (ei, e) (slice_index-append pre (node_of p q) (map (node_of p) qs)) in
      rw (here, later)
        (map-if fetch_from (not (str_eq q.name self) && str_eq q.kubeconfig_file "") q
          (waiting self qs))

  -- In bootstrap mode there is one leader routine for each peer that is not the node itself and
  -- comes without a kubeconfig, in the configuration's order, and it asks that peer's own raft
  -- node: the index into the raft peers is in range and fits.
  pub leader_routines-waiting :
      (config : RaftConfiguration) (given : Option p.RestConfig) (rest_config : Result p.RestConfig)
      (fetched : p.RestConfig → Result (List ℕ)) (c : LockConfiguration) (g : Gathered p)
      → raft_node p config given rest_config fetched ≡ ok (c, g)
      → config.bootstrap ≡ true
      → leader_routines p config c ≡ map fetch_from (waiting config.name config.peers)
  unfolding leader_routines
  leader_routines-waiting config given rest_config fetched c g h e = rw (e) (
      fetch_routines-waiting config.name [] c.peers 0 config.peers refl
        (raft_node-peers p config given rest_config fetched c g h))
