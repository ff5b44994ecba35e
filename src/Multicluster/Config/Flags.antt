-- ===== src/Multicluster/Config/Flags.antt =====
-- What multicluster/raft.go accepts, and what its flags come to.
use locking.Prelude.{
  String, ◌≡◌, refl, ◌∙◌, ◌≢◌, ◌↔◌, ◌⊎◌, true, List, [], ◌∷◌, ◌++◌, eq_iff, arith,
}
use mathlib.Core.List.{append_assoc, append-nil}
use locking.Prelude.Url.{Url}
use locking.Prelude.Result.{Result, ok, IsOk, >>=-eq-ok, ok-injective, traverse}
use locking.Multicluster.Config.{
  RaftCluster, RaftConfiguration, Cli, validate, peer_from_flag, add_peers,
  raft_configuration_from_flags,
}

-- A configuration is accepted exactly when it has a name, an address and a peer, and, unless it is
-- insecure, the files of a CA, a private key and a certificate.
pub validate-IsOk_iff :
    (r : RaftConfiguration)
    → IsOk (validate r) ↔ (
        (r.name ≢ "")
        × (r.address ≢ "")
        × (r.peers ≢ [])
        × ((r.insecure ≡ true)
            ⊎ ((r.ca_file ≢ "") × (r.private_key_file ≢ "") × (r.certificate_file ≢ ""))))
unfolding validate
validate-IsOk_iff r = (
  λ h. ground (
    arith,
    eq_iff r.name "",
    eq_iff r.address "",
    eq_iff r.ca_file "",
    eq_iff r.private_key_file "",
    eq_iff r.certificate_file "",
  ),
  λ h. ground (
    arith,
    eq_iff r.name "",
    eq_iff r.address "",
    eq_iff r.ca_file "",
    eq_iff r.private_key_file "",
    eq_iff r.certificate_file "",
  ),
)

module _ (parse : String → Result Url) where
  add_peers-next :
      (c : RaftConfiguration) (value : String) (values : List String) (q : RaftCluster)
      → peer_from_flag parse c value ≡ ok q
      → add_peers parse c (value ∷ values)
        ≡ add_peers parse (record c { peers = c.peers ++ q ∷ [] }) values
  unfolding add_peers
  add_peers-next c value values q e = rw (e, add_peers) refl

  add_peers-traverse :
      (c : RaftConfiguration) (values : List String) (ps : List RaftCluster)
      → traverse (peer_from_flag parse c) values ≡ ok ps
      → add_peers parse c values ≡ (ok tt, record c { peers = c.peers ++ ps })
  unfolding traverse add_peers
  add_peers-traverse c [] ps h = rw (← ok-injective h, append-nil c.peers)
  add_peers-traverse c (value ∷ values) ps h =
      let (q, eq, h1) = >>=-eq-ok (peer_from_flag parse c value) _ h in
      let (qs, eqs, h2) = >>=-eq-ok (traverse (peer_from_flag parse c) values) _ h1 in
      let c' : RaftConfiguration = record c { peers = c.peers ++ q ∷ [] } in
      let rest = add_peers-traverse c' values qs (unfold peer_from_flag in eqs) in
      add_peers-next c value values q eq
      ∙ rest
      ∙ rw (← ok-injective h2, append_assoc c.peers (q ∷ []) qs)

  -- Where every peer flag has the right form, the flags give the configuration with the peers in the
  -- flags' order. They stay in the package variable: a second call gives every peer twice.
  pub flags_again :
      (cli : Cli) (ps : List RaftCluster)
      → traverse (peer_from_flag parse cli.configuration) cli.peers ≡ ok ps
      → let c = cli.configuration in
        let (first, cli') = raft_configuration_from_flags parse cli in
        let (second, cli'') = raft_configuration_from_flags parse cli' in
        (first ≡ ok (record c { peers = c.peers ++ ps }))
        × (second ≡ ok (record c { peers = c.peers ++ ps ++ ps }))
  unfolding raft_configuration_from_flags
  flags_again cli ps h =
      let c = cli.configuration in
      let one = add_peers-traverse c cli.peers ps h in
      let two =
        add_peers-traverse (record c { peers = c.peers ++ ps }) cli.peers ps
          (unfold peer_from_flag in h) in
      rw (one, two) (refl, refl)
