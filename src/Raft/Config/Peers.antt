-- ===== src/Raft/Config/Peers.antt =====
-- What raft/locker.go accepts as a configuration, and whom it takes for a peer.
use locking.Prelude.{
  ℕ, String, ◌≡◌, refl, ◌≢◌, ◌↔◌, ◌⊎◌, true, List, [], ◌∷◌, Option, none, some, ◌==◌, eq_iff,
  if◌then◌else◌, arith,
}
use locking.Prelude.Result.{IsOk}
use locking.Prelude.Map.{lookup, insert, lookup-insert, nat_key}
use locking.Raft.Config.{LockConfiguration, LockerNode, validate, add_nodes, peers_for_nodes}

-- A configuration is accepted exactly when it has a nonzero ID, an address and a peer, and, unless
-- it is insecure, a CA, a private key and a certificate.
pub validate-accepts_iff :
    (c : LockConfiguration)
    → IsOk (validate c) ↔ (
        (c.id ≢ 0)
        × (c.address ≢ "")
        × (c.peers ≢ [])
        × ((c.insecure ≡ true) ⊎ ((c.ca ≢ []) × (c.private_key ≢ []) × (c.certificate ≢ []))))
unfolding validate
validate-accepts_iff c = (
  λ h. (
    ground (arith, eq_iff c.address ""),
    ground (arith, eq_iff c.address ""),
    ground (arith, eq_iff c.address ""),
    ground (arith, eq_iff c.address ""),
  ),
  λ h. ground (arith, eq_iff c.address ""),
)

-- The address of the last node with the ID.
abbrev pub last_address : ℕ → List LockerNode → Option String
last_address id [] = none
last_address id (n ∷ nodes) = elim (last_address id nodes) [
  | some a ↦ some a
  | none ↦ if n.id == id then some n.address else none
]

abbrev or_else : Option String → Option String → Option String
or_else (some a) b = some a
or_else none b = b

lookup-add_nodes :
    (id : ℕ) (peers : List (ℕ × String)) (nodes : List LockerNode)
    → lookup id (add_nodes peers nodes) ≡ or_else (last_address id nodes) (lookup id peers)
unfolding add_nodes
lookup-add_nodes id peers [] = refl
lookup-add_nodes id peers (n ∷ nodes) = ground (
  arith,
  lookup-add_nodes id (insert n.id n.address peers) nodes,
  lookup-insert n.id id n.address peers,
)

-- The map of peers holds, for each ID, the address of the last node that has it.
pub lookup-peers_for_nodes :
    (id : ℕ) (nodes : List LockerNode) → lookup id (peers_for_nodes nodes) ≡ last_address id nodes
unfolding peers_for_nodes lookup
lookup-peers_for_nodes id nodes = ground (arith, lookup-add_nodes id [] nodes)
