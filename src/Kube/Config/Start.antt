-- ===== src/Kube/Config/Start.antt =====
-- The locks that `Run` of kube/locker.go hands to the elector.
use locking.Prelude.{
  ℕ, ◌*◌, ◌^◌, Option, some, none, String, ◌≡◌, ◌∙◌, ap, List, [], ◌∷◌, map, arith,
}
use locking.Prelude.Result.{Result, err, ok, >>=-eq-ok, wrap_err-eq-ok, wrap_err, traverse}
use locking.Kube.Config.{
  Platform, ClusterNamespaceConfig, LockConfiguration, LeaseLock, ResourceLock, single, multi,
  ElectorConfig, validate, new_single_resource_lock, new_multi_resource_lock, new_resource_lock,
  inner_id, leader_elector, run, client_config,
}
use locking.Kube.Config.Validation.{defaulted, validate-durations}

module _ {p : Platform} where
  -- The single locks of a lock, the primary first.
  abbrev pub leases : ResourceLock p → List (LeaseLock p)
  leases (single l) = l ∷ []
  leases (multi l ls) = l ∷ ls

  -- Where a lock stands, what it is called and who asks for it, and its client.
  abbrev pub seat : LeaseLock p → String × String × String × Option p.Client
  seat l = (l.namespace, l.name, l.identity, some l.client)

  -- A cluster's own client: that of its client configuration, by which it is called the elector's, with
  -- half the renew deadline as its timeout.
  abbrev pub client_of : ℕ → ClusterNamespaceConfig p → Option p.Client
  client_of renew_deadline c = elim c.config [
    | none ↦ none
    | some rest ↦
        elim (p.new_for_config
          (client_config p renew_deadline (p.add_user_agent rest "leader-election"))) [
            | ok client ↦ some client
            | err e ↦ none
          ]
  ]

  abbrev pub asked :
      String → String → ℕ → ClusterNamespaceConfig p → String × String × String × Option p.Client
  asked id name renew_deadline c = (c.namespace, name, id, client_of renew_deadline c)

  single-seat :
      (id : String) (config : LockConfiguration p) (cn : ClusterNamespaceConfig p) (l : LeaseLock p)
      → new_single_resource_lock id config cn ≡ ok l
      → seat l ≡ asked id config.name config.renew_deadline cn
  unfolding new_single_resource_lock
  single-seat id config cn l h = ground arith

  traverse-seat :
      (id : String) (config : LockConfiguration p) (cns : List (ClusterNamespaceConfig p))
      (ls : List (LeaseLock p))
      → traverse (new_single_resource_lock id config) cns ≡ ok ls
      → map seat ls ≡ map (asked id config.name config.renew_deadline) cns
  unfolding traverse
  traverse-seat id config [] ls h = ground arith
  traverse-seat id config (cn ∷ cns) ls h =
      let (l, el, rest) = >>=-eq-ok (new_single_resource_lock id config cn) _ h in
      let (ls', els, done) = >>=-eq-ok (traverse (new_single_resource_lock id config) cns) _ rest in
      ground (arith, single-seat id config cn l el, traverse-seat id config cns ls' els)

  new_resource_lock-seat :
      (id : String) (config : LockConfiguration p) (cns : List (ClusterNamespaceConfig p))
      (r : ResourceLock p)
      → new_resource_lock id config cns ≡ ok r
      → map seat (leases r) ≡ map (asked id config.name config.renew_deadline) cns
  unfolding new_resource_lock new_multi_resource_lock
  new_resource_lock-seat id config [] r h = absurd (cc)
  new_resource_lock-seat id config (cn ∷ []) r h =
      let (l, el, done) = >>=-eq-ok (new_single_resource_lock id config cn) _ h in
      ground (arith, single-seat id config cn l el)
  new_resource_lock-seat id config (cn ∷ cn' ∷ cns) r h =
      let (ls, els, rest) =
        >>=-eq-ok (traverse (new_single_resource_lock id config) (cn' ∷ cns)) _ h in
      let (l, el, done) = >>=-eq-ok (new_single_resource_lock id config cn) _ rest in
      ground (arith, single-seat id config cn l el, traverse-seat id config (cn' ∷ cns) ls els)

  leader_elector-lock :
      (check : ElectorConfig p → Result (Unit {0})) (lock : ResourceLock p)
      (config : LockConfiguration p) (e : ElectorConfig p)
      → leader_elector check lock config ≡ ok e
      → e.lock ≡ lock
  unfolding leader_elector
  leader_elector-lock check lock config e h = ground arith

  -- Where `Run` gets as far as its elector, each cluster of the configuration has its lock, in the
  -- configuration's order and namespace and with a client of that cluster's own client configuration,
  -- whose timeout is set by the renew deadline, 15 seconds by default; and every lock asks in the name
  -- of the configured ID: also where that is empty, whatever the host's name and the random identifier
  -- are.
  pub run-leases :
      (check : ElectorConfig p → Result (Unit {0})) (given : LockConfiguration p)
      (e : ElectorConfig p)
      → run check given ≡ ok e
      → map seat (leases e.lock)
        ≡ map
            (asked given.id given.name (defaulted (15 * 10 ^ 9) given.renew_deadline))
            given.configs
  unfolding run
  run-leases check given e h =
      let (config, ec, h1) = >>=-eq-ok (validate given) _ h in
      let (host, eh, h2) = >>=-eq-ok (inner_id p config.id) _ h1 in
      let (lock, el, h3) =
        >>=-eq-ok (wrap_err _ (new_resource_lock config.id config config.configs)) _ h2 in
      let el' = wrap_err-eq-ok _ (new_resource_lock config.id config config.configs) el in
      let d = validate-durations given config ec in
      ap (λ r. map seat (leases r))
        (leader_elector-lock check lock config e (wrap_err-eq-ok _ _ h3))
      ∙ new_resource_lock-seat config.id config config.configs lock el'
      ∙ λ i. map (asked (d.0 i) (d.1 i) (d.3 i)) (d.2 i)
