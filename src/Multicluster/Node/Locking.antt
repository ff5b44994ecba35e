-- ===== src/Multicluster/Node/Locking.antt =====
-- The raft lock's configuration that a runtime manager makes of its own.
use locking.Prelude.{
  ℕ, String, ◌≡◌, refl, sym, ap, ◌∙◌, subst, ◌≢◌, ◌⊎◌, inl, inr, true, false, not, List, [], ◌∷◌,
  Option, none, some, arith, map, Bool-cases, if◌then◌else◌,
}
use locking.Prelude.Result.{Result, ok, IsOk, >>=-eq-ok, ok-injective}
use locking.Raft.Config.{LockConfiguration}
use locking.Raft.Config.{validate as validate_lock}
use locking.Raft.Config.Peers.{validate-accepts_iff}
use locking.Multicluster.Config.{RaftConfiguration, validate}
use locking.Multicluster.Config.Flags.{validate-IsOk_iff}
use locking.Multicluster.Node.{
  Platform, Gathered, node_of, gather, nothing_gathered, without_files, with_files, raft_node,
}
use locking.Multicluster.Node.Names.{gather-ok}

map-eq-nil {ℓ κ} : {A : Type ℓ} {B : Type κ} (f : A → B) (xs : List A) → map f xs ≡ [] → xs ≡ []
map-eq-nil f [] h = refl
map-eq-nil f (x ∷ xs) h = cc

module _ (p : Platform) where
  open p use {string_to_hash, read_file}

  -- The node's own client configuration.
  abbrev pub rest_of : Option p.RestConfig → Result p.RestConfig → Result p.RestConfig
  rest_of given rest_config = elim given [ some c ↦ ok c | none ↦ rest_config ]

  abbrev pub credentials : RaftConfiguration → LockConfiguration → Result LockConfiguration
  credentials config c = if not config.insecure then with_files p config c else ok c

  pub raft_node-parts :
      (config : RaftConfiguration) (given : Option p.RestConfig) (rest_config : Result p.RestConfig)
      (fetched : p.RestConfig → Result (List ℕ)) (c : LockConfiguration) (g : Gathered p)
      → raft_node p config given rest_config fetched ≡ ok (c, g)
      → (rest : p.RestConfig) × (rest_of given rest_config ≡ ok rest)
        × (validate config ≡ ok tt)
        × (gather p config.name config.peers (nothing_gathered p) ≡ ok g)
        × (credentials config (without_files p config (fetched rest) g.raft_peers) ≡ ok c)
  unfolding raft_node
  raft_node-parts config given rest_config fetched c g h =
      let (u, ev, h1) = >>=-eq-ok (validate config) _ h in
      let (rest, er, h2) = >>=-eq-ok (rest_of given rest_config) _ h1 in
      let (g', eg, h3) = >>=-eq-ok (gather p config.name config.peers (nothing_gathered p)) _ h2 in
      let (c', ec, h4) =
        >>=-eq-ok (credentials config (without_files p config (fetched rest) g'.raft_peers)) _ h3 in
      let same : g' ≡ g = ap (λ x. x.1) (ok-injective h4) in
      let same_c : c' ≡ c = ap (λ x. x.0) (ok-injective h4) in
      (rest, er, ev, eg ∙ ap ok same, rw (same, same_c) at ec)

  credentials-ok :
      (config : RaftConfiguration) (c r : LockConfiguration)
      → credentials config c ≡ ok r
      → (r.id ≡ c.id)
        × (r.address ≡ c.address)
        × (r.peers ≡ c.peers)
        × (r.insecure ≡ c.insecure)
        × (r.has_logger ≡ c.has_logger)
  credentials-ok config c r h = ground arith

  credentials-fetcher :
      (config : RaftConfiguration) (c r : LockConfiguration)
      → credentials config c ≡ ok r
      → r.fetcher ≡ c.fetcher
  credentials-fetcher config c r h = ground arith

  pub raft_node-fetcher :
      (config : RaftConfiguration) (given : Option p.RestConfig) (rest_config : Result p.RestConfig)
      (fetched : p.RestConfig → Result (List ℕ)) (c : LockConfiguration) (g : Gathered p)
      → raft_node p config given rest_config fetched ≡ ok (c, g)
      → (rest : p.RestConfig) × (rest_of given rest_config ≡ ok rest)
        × (c.fetcher ≡ (if config.bootstrap then some (fetched rest) else none))
  raft_node-fetcher config given rest_config fetched c g h =
      let (rest, er, _, _, ec) = raft_node-parts config given rest_config fetched c g h in
      (
        rest,
        er,
        credentials-fetcher config (without_files p config (fetched rest) g.raft_peers) c ec,
      )

  credentials-files :
      (config : RaftConfiguration) (c r : LockConfiguration)
      → credentials config c ≡ ok r
      → config.insecure ≡ false
      → (read_file config.ca_file ≡ ok r.ca)
        × (read_file config.private_key_file ≡ ok r.private_key)
        × (read_file config.certificate_file ≡ ok r.certificate)
  credentials-files config c r h e = ground arith

  pub raft_node-peers :
      (config : RaftConfiguration) (given : Option p.RestConfig) (rest_config : Result p.RestConfig)
      (fetched : p.RestConfig → Result (List ℕ)) (c : LockConfiguration) (g : Gathered p)
      → raft_node p config given rest_config fetched ≡ ok (c, g)
      → c.peers ≡ map (node_of p) config.peers
  raft_node-peers config given rest_config fetched c g h =
      let (rest, er, ev, eg, ec) = raft_node-parts config given rest_config fetched c g h in
      let kept = credentials-ok config (without_files p config (fetched rest) g.raft_peers) c ec in
      kept.2 ∙ (gather-ok p config.name config.peers (nothing_gathered p) g eg).0

  -- A configuration that the runtime manager accepts gives one that the raft lock accepts, with a
  -- logger and a raft node for each peer, if the node's name does not hash to 0 and no file that is
  -- read is empty.
  pub raft_node-validate :
      (config : RaftConfiguration) (given : Option p.RestConfig) (rest_config : Result p.RestConfig)
      (fetched : p.RestConfig → Result (List ℕ)) (c : LockConfiguration) (g : Gathered p)
      → raft_node p config given rest_config fetched ≡ ok (c, g)
      → string_to_hash config.name ≢ 0
      → ((file : String) (b : List ℕ) → read_file file ≡ ok b → b ≢ [])
      → IsOk (validate_lock c) × (c.has_logger ≡ true) × (c.peers ≡ map (node_of p) config.peers)
  raft_node-validate config given rest_config fetched c g h nonzero full =
      let (rest, er, ev, eg, ec) = raft_node-parts config given rest_config fetched c g h in
      let c0 = without_files p config (fetched rest) g.raft_peers in
      let kept = credentials-ok config c0 c ec in
      let valid = (validate-IsOk_iff config).0 (subst IsOk (sym ev) tt) in
      let peers = raft_node-peers config given rest_config fetched c g h in
      let files : (c.insecure ≡ true)
          ⊎ ((c.ca ≢ []) × (c.private_key ≢ []) × (c.certificate ≢ [])) =
        elim (Bool-cases config.insecure) [
          | inl e ↦ inl (kept.3 ∙ e)
          | inr e ↦
              let (a, k, t) = credentials-files config c0 c ec e in
              inr (full _ _ a, full _ _ k, full _ _ t)
        ] in
      (
        (validate-accepts_iff c).1 (
          (λ e. nonzero (sym kept.0 ∙ e)),
          (λ e. valid.1 (sym kept.1 ∙ e)),
          (λ e. valid.2 (map-eq-nil (node_of p) config.peers (sym peers ∙ e))),
          files,
        ),
        kept.4,
        peers,
      )
