-- ===== src/Bootstrap/Clusters/Success.antt =====
-- That multicluster/bootstrap/bootstraper.go gets through its clusters.
use Prim.Native.String.{◌++◌ as str_append}
use locking.Prelude.{
  ℕ, suc, ◌+◌, ◌≤◌, String, ◌≡◌, refl, sym, ap, subst, ◌∙◌, Bool, true, false, List, [], ◌∷◌, none,
  some, Bool-cases, inl, inr, length, length-append, All, arith, str_eq,
}
use locking.Prelude.Result.{ok, ok-injective}
use locking.Prelude.Action.{Succeeds, >>=-Succeeds, >>=-ok}
use locking.Bootstrap.Kubernetes.{Kubernetes, Object}
use locking.Bootstrap.Secrets.{create_remote_kubeconfig}
use locking.Bootstrap.Secrets.Success.{
  Reachable, Fills, lift->>=-Succeeds, create_remote_kubeconfig-Succeeds,
}
use locking.Bootstrap.Certificates.{CaCertificate, Certificate, sign, generate_ca}
use locking.Bootstrap.X509.{Crypto}
use locking.Bootstrap.Flags.{RemoteConfiguration, BootstrapClusterConfiguration}
use locking.Bootstrap.Clusters.{
  Chance, Collected, fqdn, address, add_kubeconfig, add_certificate, branch, collect, nothing,
  bootstrap_kubernetes_clusters,
}
use locking.Bootstrap.Clusters.Distribution.{distribute-Succeeds}
use locking.Bootstrap.Clusters.Collection.{asked, add_kubeconfig-LeadsTo, add_certificate-signed}

module _ {W : Type 0} (k : Kubernetes W) (c : Crypto) (split_colon : String → List String)
    (config : BootstrapClusterConfiguration) (chances : ℕ → Chance c)
    (writes : (cl : k.Client) (o : Object) (w : W) → (k.create_or_update cl o w).0 ≡ ok tt) where
  -- What the whole needs: strings.Split gives one part at least, every cluster is reachable, and every
  -- token comes in time.
  module _ (splits : (s : String) → (x : String) × (xs : List String) × (split_colon s ≡ x ∷ xs))
      (fills : (n : ℕ) → Fills k writes (chances n).patience) where
    address-Succeeds :
        (cluster : RemoteConfiguration)
        → Reachable k writes cluster.context_name
        → (server : String) × (address k c split_colon cluster ≡ ok server)
    unfolding address
    address-Succeeds cluster (ne, rest, cl, er, ec) =
        elim (Bool-cases (str_eq cluster.api_server "")) [
          | inl e ↦ (k.host rest, rw (e, er) refl)
          | inr e ↦ (cluster.api_server, rw (e) refl)
        ]

    fqdn-Succeeds :
        (cluster : RemoteConfiguration)
        → (name : String) × (fqdn split_colon config cluster ≡ ok name)
    unfolding fqdn
    fqdn-Succeeds cluster =
        let (x, xs, es) = splits cluster.service_address in
        elim (Bool-cases (str_eq cluster.service_address "")) [
          | inl e ↦
              (str_append config.service_name (str_append "-" cluster.context_name), rw (e) refl)
          | inr e ↦ (x, rw (e, es) refl)
        ]

    module _ (ca : CaCertificate c)
        (signs : (n : ℕ) (name : String)
          → (x : Certificate) × (sign (chances n).draw (chances n).now ca (name ∷ []) ≡ ok x)) where
      -- A step of the loop succeeds, and adds at most one kubeconfig, and one certificate if there are
      -- to be any.
      kubeconfig_branch-Succeeds :
          (b : Bool) (n : ℕ) (cluster : RemoteConfiguration) (got : Collected k c split_colon)
          (w : W)
          → Reachable k writes cluster.context_name
          → Succeeds
              (branch k c split_colon b
                (add_kubeconfig k c split_colon config (chances n).patience cluster)
                got)
              w
      unfolding add_kubeconfig
      kubeconfig_branch-Succeeds false n cluster got w at = (got, w, refl)
      kubeconfig_branch-Succeeds true n cluster got w at =
          let (server, es) = address-Succeeds cluster at in
          let given = asked k c split_colon config chances cluster server in
          lift->>=-Succeeds k writes (address k c split_colon cluster) server _ w es (
            >>=-Succeeds (create_remote_kubeconfig k (chances n).patience (some given)) _ w
              (create_remote_kubeconfig-Succeeds k writes (chances n).patience given w refl at
                (fills n))
              (λ kc w1 _. (_, w1, refl)))

      certificate_branch-Succeeds :
          (b : Bool) (n : ℕ) (cluster : RemoteConfiguration) (got : Collected k c split_colon)
          (w : W)
          → Succeeds
              (branch k c split_colon b
                (add_certificate k c split_colon config ca (chances n) cluster)
                got)
              w
      unfolding add_certificate
      certificate_branch-Succeeds false n cluster got w = (got, w, refl)
      certificate_branch-Succeeds true n cluster got w =
          let (name, en) = fqdn-Succeeds cluster in
          let (x, ex) = signs n name in
          lift->>=-Succeeds k writes (fqdn split_colon config cluster) name _ w en (
            lift->>=-Succeeds k writes (sign (chances n).draw (chances n).now ca (name ∷ [])) x _ w
              ex (_, w, refl))

      -- How the lists grow.
      abbrev Grown : Bool → Collected k c split_colon → Collected k c split_colon → ℕ → Type 0
      Grown b got r n =
          (length r.kubeconfigs ≤ length got.kubeconfigs + n)
          × (b ≡ true → length r.certificates ≡ length got.certificates + n)

      kubeconfig_branch-Grown :
          (b : Bool) (n : ℕ) (cluster : RemoteConfiguration) (got r : Collected k c split_colon)
          (w w' : W)
          → branch k c split_colon b
              (add_kubeconfig k c split_colon config (chances n).patience cluster)
              got
              w
            ≡ (ok r, w')
          → (length r.kubeconfigs ≤ length got.kubeconfigs + 1)
            × (r.certificates ≡ got.certificates)
      kubeconfig_branch-Grown false n cluster got r w w' h =
          let same : got ≡ r = ok-injective (ap (λ x. x.0) h) in
          (
            subst (λ x. length x.kubeconfigs ≤ length got.kubeconfigs + 1) same (omega arith),
            ap (λ x. x.certificates) (sym same),
          )
      kubeconfig_branch-Grown true n cluster got r w w' h =
          let (kc, _, e) =
            add_kubeconfig-LeadsTo k c split_colon config chances ca (chances n).patience cluster
              got r w w' h in
          (
            subst (λ x. length x.kubeconfigs ≤ length got.kubeconfigs + 1) (sym e)
                (omega (arith, length-append got.kubeconfigs (kc ∷ []))),
            ap (λ x. x.certificates) e,
          )

      certificate_branch-Grown :
          (b : Bool) (n : ℕ) (cluster : RemoteConfiguration) (got r : Collected k c split_colon)
          (w w' : W)
          → branch k c split_colon b
              (add_certificate k c split_colon config ca (chances n) cluster)
              got
              w
            ≡ (ok r, w')
          → (r.kubeconfigs ≡ got.kubeconfigs)
            × (b ≡ true → length r.certificates ≡ length got.certificates + 1)
      certificate_branch-Grown false n cluster got r w w' h =
          (ap (λ x. x.kubeconfigs) (sym (ok-injective (ap (λ x. x.0) h))), λ e. cc)
      certificate_branch-Grown true n cluster got r w w' h =
          let (_, x, name, en, ex, e) =
            add_certificate-signed k c split_colon config chances ca (chances n) cluster got r w w'
              h in
          (
            ap (λ y. y.kubeconfigs) e,
            λ _. ap (λ y. length y.certificates) e ∙ length-append got.certificates (x ∷ []),
          )

      pub collect-Succeeds :
          (n : ℕ) (clusters : List RemoteConfiguration) (got : Collected k c split_colon) (w : W)
          → All (λ r. Reachable k writes r.context_name) clusters
          → (r : Collected k c split_colon) × (w' : W) × (collect k c split_colon config ca chances
                n clusters got w
              ≡ (ok r, w'))
            × Grown config.bootstrap_tls got r (length clusters)
      unfolding collect
      collect-Succeeds n [] got w at = (got, w, refl, (omega arith, λ _. omega arith))
      collect-Succeeds n (cluster ∷ clusters) got w at =
          let (g1, w1, e1) =
            kubeconfig_branch-Succeeds config.bootstrap_kubeconfigs n cluster got w at.0 in
          let (g2, w2, e2) = certificate_branch-Succeeds config.bootstrap_tls n cluster g1 w1 in
          let (r, w3, e3, (lk, lc)) = collect-Succeeds (suc n) clusters g2 w2 at.1 in
          let (k1, c1) =
            kubeconfig_branch-Grown config.bootstrap_kubeconfigs n cluster got g1 w w1 e1 in
          let (k2, c2) = certificate_branch-Grown config.bootstrap_tls n cluster g1 g2 w1 w2 e2 in
          let same = ap (λ kcs. length kcs) k2 in
          let kept = ap (λ xs. length xs) c1 in
          (
            r,
            w3,
            >>=-ok
                  (branch k c split_colon config.bootstrap_kubeconfigs
                    (add_kubeconfig k c split_colon config (chances n).patience cluster) got)
                  _ w e1
                ∙ >>=-ok
                    (branch k c split_colon config.bootstrap_tls
                      (add_certificate k c split_colon config ca (chances n) cluster) g1)
                    _ w1 e2
                ∙ e3,
            (omega (arith, lk, k1, same), λ b. omega (arith, lc b, c2 b, kept)),
          )

    -- Where every write succeeds, every cluster has a context that leads to its server, the tokens
    -- come in time, and the authority is made and signs, the bootstrap of all clusters reports
    -- success, whatever it is to make: no index is out of range, and no wait goes on too long.
    pub bootstrap_kubernetes_clusters-Succeeds :
        (first : Chance c) (organization : String) (ca : CaCertificate c) (w : W)
        → generate_ca first.draw first.now organization "Root CA" none ≡ ok ca
        → ((n : ℕ) (name : String)
            → (x : Certificate) × (sign (chances n).draw (chances n).now ca (name ∷ []) ≡ ok x))
        → All (λ r. Reachable k writes r.context_name) config.remote_clusters
        → Succeeds
            (bootstrap_kubernetes_clusters k c split_colon first chances organization config)
            w
    unfolding bootstrap_kubernetes_clusters
    bootstrap_kubernetes_clusters-Succeeds first organization ca w made signs at =
        let (r, w1, e1, (lk, lc)) =
          collect-Succeeds ca signs 0 config.remote_clusters (nothing k c split_colon) w at in
        let (u, w2, e2) =
          distribute-Succeeds k c split_colon config writes ca r.kubeconfigs r.certificates
            config.remote_clusters w1 (omega (arith, lk)) (λ b. omega (arith, lc b)) at in
        lift->>=-Succeeds k writes (generate_ca first.draw first.now organization "Root CA" none) ca
          _ w made
          (
            u,
            w2,
            >>=-ok
                  (collect k c split_colon config ca chances 0 config.remote_clusters
                    (nothing k c split_colon))
                  _ w e1
                ∙ e2,
          )
