-- ===== src/Bootstrap/Clusters/Distribution.antt =====
-- That the second loop of multicluster/bootstrap/bootstraper.go gets through its clusters.
use locking.Prelude.{
  ℕ, ◌≤◌, String, ◌≡◌, refl, Bool, true, false, List, [], ◌∷◌, some, length, All, arith,
}
use locking.Prelude.Result.{ok}
use locking.Prelude.Action.{when, Succeeds, >>=-Succeeds}
use locking.Bootstrap.Kubernetes.{Kubernetes, Object}
use locking.Bootstrap.Secrets.{create_kubeconfig_secret}
use locking.Bootstrap.Secrets.Success.{
  Reachable, when-Succeeds, lift->>=-Succeeds, create_kubeconfig_secret-Succeeds,
  create_tls_secret-Succeeds,
}
use locking.Bootstrap.Certificates.{CaCertificate, Certificate}
use locking.Bootstrap.X509.{Crypto}
use locking.Bootstrap.Flags.{RemoteConfiguration, BootstrapClusterConfiguration}
use locking.Bootstrap.Clusters.{
  remote, secret_name, hand_out, hand_certificate, certificate_for, rest_of, distribute,
}

module _ {W : Type 0} (k : Kubernetes W) (c : Crypto) (split_colon : String → List String)
    (config : BootstrapClusterConfiguration)
    (writes : (cl : k.Client) (o : Object) (w : W) → (k.create_or_update cl o w).0 ≡ ok tt) where
  hand_out-Succeeds :
      (cluster : RemoteConfiguration) (kcs : List (List ℕ)) (ofs : List RemoteConfiguration) (w : W)
      → Reachable k writes cluster.context_name
      → length kcs ≤ length ofs
      → Succeeds (hand_out k c split_colon config cluster kcs ofs) w
  unfolding hand_out
  hand_out-Succeeds cluster [] ofs w at le = (tt, w, refl)
  hand_out-Succeeds cluster (kc ∷ kcs) [] w at le = absurd (omega (arith, le))
  hand_out-Succeeds cluster (kc ∷ kcs) (of ∷ ofs) w at le =
      let given = remote k c split_colon config cluster (secret_name config of) in
      >>=-Succeeds (create_kubeconfig_secret k kc (some given)) _ w
        (create_kubeconfig_secret-Succeeds k writes given kc w refl at)
        (λ u w' _. hand_out-Succeeds cluster kcs ofs w' at (omega (arith, le)))

  hand_certificate-Succeeds :
      (ca : CaCertificate c) (cluster : RemoteConfiguration) (x : Certificate)
      (xs : List Certificate) (w : W)
      → Reachable k writes cluster.context_name
      → Succeeds (hand_certificate k c split_colon config ca cluster (x ∷ xs)) w
  unfolding hand_certificate
  hand_certificate-Succeeds ca cluster x xs w at =
      lift->>=-Succeeds k writes (certificate_for k c split_colon (x ∷ xs)) x _ w refl (
        create_tls_secret-Succeeds k writes
          (remote k c split_colon config cluster config.service_name) ca.pem x.certificate
          x.private_key w refl at)

  -- A certificate for each cluster, if there are to be any.
  abbrev pub Enough : Bool → List Certificate → List RemoteConfiguration → Type 0
  Enough b certs clusters = b ≡ true → length certs ≡ length clusters

  when_certificate-Succeeds :
      (b : Bool) (ca : CaCertificate c) (cluster : RemoteConfiguration) (certs : List Certificate)
      (clusters : List RemoteConfiguration) (w : W)
      → Reachable k writes cluster.context_name
      → Enough b certs (cluster ∷ clusters)
      → Succeeds (when b (hand_certificate k c split_colon config ca cluster certs)) w
        × Enough b (rest_of k c split_colon certs) clusters
  when_certificate-Succeeds false ca cluster certs clusters w at enough = ((tt, w, refl), λ e. cc)
  when_certificate-Succeeds true ca cluster [] clusters w at enough =
      absurd (omega (arith, enough refl))
  when_certificate-Succeeds true ca cluster (x ∷ xs) clusters w at enough =
      (hand_certificate-Succeeds ca cluster x xs w at, λ e. omega (arith, enough refl))

  pub distribute-Succeeds :
      (ca : CaCertificate c) (kcs : List (List ℕ)) (certs : List Certificate)
      (clusters : List RemoteConfiguration) (w : W)
      → length kcs ≤ length config.remote_clusters
      → Enough config.bootstrap_tls certs clusters
      → All (λ r. Reachable k writes r.context_name) clusters
      → Succeeds (distribute k c split_colon config ca kcs certs clusters) w
  unfolding distribute
  distribute-Succeeds ca kcs certs [] w le enough at = (tt, w, refl)
  distribute-Succeeds ca kcs certs (cluster ∷ clusters) w le enough at =
      let out = hand_out k c split_colon config cluster kcs config.remote_clusters in
      >>=-Succeeds (when config.bootstrap_kubeconfigs out) _ w
        (when-Succeeds k writes config.bootstrap_kubeconfigs out w
          (hand_out-Succeeds cluster kcs config.remote_clusters w at.0 le))
        (λ u w1 _.
          let (handed, left) =
            when_certificate-Succeeds config.bootstrap_tls ca cluster certs clusters w1 at.0
              enough in
          >>=-Succeeds
            (when config.bootstrap_tls (hand_certificate k c split_colon config ca cluster certs)) _
            w1 handed
            (λ v w2 _.
              distribute-Succeeds ca kcs (rest_of k c split_colon certs) clusters w2 le left at.1))
