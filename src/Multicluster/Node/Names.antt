-- ===== src/Multicluster/Node/Names.antt =====
-- The peers of a runtime manager by their raft IDs.
use locking.Prelude.{
  ℕ, String, ◌≡◌, refl, sym, ap, ◌∙◌, List, [], ◌∷◌, ◌++◌, some, ==_iff, arith, map, All,
}
use mathlib.Core.List.{append_assoc, append-nil}
use locking.Prelude.Result.{ok, >>=-eq-ok, ok-injective}
use locking.Prelude.Map.{lookup, insert, lookup-insert, nat_key}
use locking.Multicluster.Config.{RaftCluster}
use locking.Multicluster.Node.{
  Platform, Gathered, node_of, next_provider, gather, nothing_gathered, get_leader,
}

module _ (p : Platform) where
  open p use {string_to_hash}

  abbrev add_names : List (ℕ × String) → List RaftCluster → List (ℕ × String)
  add_names m [] = m
  add_names m (q ∷ qs) = add_names (insert (string_to_hash q.name) q.name m) qs

  pub gather-ok :
      (self : String) (peers : List RaftCluster) (g r : Gathered p)
      → gather p self peers g ≡ ok r
      → (r.raft_peers ≡ g.raft_peers ++ map (node_of p) peers)
        × (r.ids_to_names ≡ add_names g.ids_to_names peers)
  unfolding gather
  gather-ok self [] g r h = (
    ap (λ x. x.raft_peers) (sym (ok-injective h)) ∙ sym (append-nil g.raft_peers),
    ap (λ x. x.ids_to_names) (sym (ok-injective h)),
  )
  gather-ok self (q ∷ qs) g r h =
      let (provider, e, h1) = >>=-eq-ok (next_provider p self q g.cluster_provider) _ h in
      let (nodes, names) = gather-ok self qs _ r h1 in
      (nodes ∙ append_assoc g.raft_peers (node_of p q ∷ []) (map (node_of p) qs), names)

  lookup-add_names-skip :
      (name : String) (m : List (ℕ × String)) (qs : List RaftCluster)
      → All (λ q. string_to_hash q.name ≡ string_to_hash name → q.name ≡ name) qs
      → lookup (string_to_hash name) m ≡ some name
      → lookup (string_to_hash name) (add_names m qs) ≡ some name
  lookup-add_names-skip name m [] hs h = h
  lookup-add_names-skip name m (q ∷ qs) hs h =
      lookup-add_names-skip name (insert (string_to_hash q.name) q.name m) qs hs.1 (
        ground (
          arith,
          ==_iff (string_to_hash q.name) (string_to_hash name),
          lookup-insert (string_to_hash q.name) (string_to_hash name) q.name m,
        ))

  lookup-add_names :
      (q : RaftCluster) (m : List (ℕ × String)) (xs ys : List RaftCluster)
      → All (λ r. string_to_hash r.name ≡ string_to_hash q.name → r.name ≡ q.name) ys
      → lookup (string_to_hash q.name) (add_names m (xs ++ q ∷ ys)) ≡ some q.name
  lookup-add_names q m [] ys hs =
      lookup-add_names-skip q.name (insert (string_to_hash q.name) q.name m) ys hs
        (ground (arith, lookup-insert (string_to_hash q.name) (string_to_hash q.name) q.name m))
  lookup-add_names q m (x ∷ xs) ys hs =
      lookup-add_names q (insert (string_to_hash x.name) x.name m) xs ys hs

  -- A peer that leads goes by its own name, unless a peer of another name after it in the list has the
  -- same hash.
  pub get_leader-gather :
      (self : String) (peers xs ys : List RaftCluster) (q : RaftCluster) (g : Gathered p)
      → gather p self peers (nothing_gathered p) ≡ ok g
      → peers ≡ xs ++ q ∷ ys
      → All (λ r. string_to_hash r.name ≡ string_to_hash q.name → r.name ≡ q.name) ys
      → get_leader p g.ids_to_names (string_to_hash q.name) ≡ q.name
  unfolding get_leader
  get_leader-gather self peers xs ys q g h e hs =
      let names = (gather-ok self peers (nothing_gathered p) g h).1 in
      rw (get_leader, names, e, lookup-add_names q [] xs ys hs) refl
