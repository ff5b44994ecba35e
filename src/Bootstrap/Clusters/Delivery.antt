-- ===== src/Bootstrap/Clusters/Delivery.antt =====
-- What is in the clusters after multicluster/bootstrap/bootstraper.go has gone through them.
use locking.Prelude.{
  ℕ, String, ◌≡◌, refl, sym, ap, ◌∙◌, ◌≢◌, ◌⊎◌, inl, inr, Bool, true, false, List, [], ◌∷◌, some,
  All, All-mono,
}
use locking.Prelude.Result.{ok, ok-injective}
use locking.Prelude.Action.{Action, when, >>=-eq-ok, lift-eq-ok}
use locking.Bootstrap.Kubernetes.{Kubernetes, Servers}
use locking.Bootstrap.Secrets.{
  default_to, default_service_account_namespace, kubeconfig_contents, tls_contents,
  create_kubeconfig_secret,
}
use locking.Bootstrap.Secrets.Writes.{
  server_of, SameBut, create_kubeconfig_secret-Writes, create_tls_secret-Writes,
}
use locking.Bootstrap.Certificates.{CaCertificate, Certificate}
use locking.Bootstrap.X509.{Crypto}
use locking.Bootstrap.Flags.{RemoteConfiguration, BootstrapClusterConfiguration}
use locking.Bootstrap.Clusters.{
  remote, secret_name, hand_out, hand_certificate, certificate_for, rest_of, distribute,
}
use locking.Bootstrap.Clusters.Names.{
  kubeconfig_name, tls_name, kubeconfig_name-injective, kubeconfig_name-ne-tls_name,
}

module _ {W : Type 0} {k : Kubernetes W} (sv : Servers k) (c : Crypto)
    (split_colon : String → List String) (config : BootstrapClusterConfiguration) where
  open sv use {contents}

  abbrev space : String
  space = default_to default_service_account_namespace config.operator_namespace

  -- A server holds the kubeconfigs, each under the name of its cluster.
  abbrev pub Handed : ℕ → List (List ℕ) → List RemoteConfiguration → W → Type 0
  Handed s [] ofs w = Unit
  Handed s (kc ∷ kcs) [] w = ⊥
  Handed s (kc ∷ kcs) (of ∷ ofs) w =
      (contents s space (kubeconfig_name config of) w ≡ some (kubeconfig_contents k kc))
      × Handed s kcs ofs w

  -- The contexts are pairwise different.
  abbrev pub Different : List RemoteConfiguration → Type 0
  Different [] = Unit
  Different (a ∷ bs) = All (λ b. a.context_name ≢ b.context_name) bs × Different bs

  -- The contexts lead to pairwise different servers.
  abbrev pub Apart : List RemoteConfiguration → Type 0
  Apart [] = Unit
  Apart (a ∷ bs) =
      All (λ b. (s : ℕ) → server_of sv a.context_name ≡ ok s → server_of sv b.context_name ≢ ok s)
        bs
      × Apart bs

  hand_out-Handed :
      (cluster : RemoteConfiguration) (s : ℕ) (kcs : List (List ℕ)) (ofs : List RemoteConfiguration)
      (w w' : W)
      → server_of sv cluster.context_name ≡ ok s
      → Different ofs
      → hand_out k c split_colon config cluster kcs ofs w ≡ (ok tt, w')
      → Handed s kcs ofs w'
        × ((s' : ℕ) (ns name : String)
            → (s ≢ s') ⊎ All (λ of. kubeconfig_name config of ≢ name) ofs
            → contents s' ns name w' ≡ contents s' ns name w)
  unfolding hand_out
  hand_out-Handed cluster s [] ofs w w' at d h =
      (tt, λ s' ns name _. ap (contents s' ns name) (sym (ap (λ x. x.1) h)))
  hand_out-Handed cluster s (kc ∷ kcs) [] w w' at d h = cc (ap (λ x. x.0) h)
  hand_out-Handed cluster s (kc ∷ kcs) (of ∷ ofs) w w' at d h =
      let given = remote k c split_colon config cluster (secret_name config of) in
      let (u, w1, e, h1) = >>=-eq-ok (create_kubeconfig_secret k kc (some given)) _ w h in
      let (s0, e0, put, other) = create_kubeconfig_secret-Writes sv given kc w w1 refl e in
      let same : s0 ≡ s = ok-injective (sym e0 ∙ at) in
      let (handed, kept) = hand_out-Handed cluster s kcs ofs w1 w' at d.1 h1 in
      let later : All (λ q. kubeconfig_name config q ≢ kubeconfig_name config of) ofs =
        All-mono (λ q. of.context_name ≢ q.context_name)
          (λ q. kubeconfig_name config q ≢ kubeconfig_name config of) ofs
          (λ q n eq. n (sym (kubeconfig_name-injective config q of eq))) d.0 in
      (
        (kept s space (kubeconfig_name config of) (inr later) ∙ rw same at put, handed),
        λ s' ns name apart. elim apart [
          | inl ne ↦ kept s' ns name (inl ne) ∙ other s' ns name (inl (rw (← same) at ne))
          | inr nes ↦ kept s' ns name (inr nes.1) ∙ other s' ns name (inr nes.0)
        ],
      )

  Handed-mono :
      (s : ℕ) (kcs : List (List ℕ)) (ofs : List RemoteConfiguration) (w w' : W)
      → ((of : RemoteConfiguration)
          → contents s space (kubeconfig_name config of) w'
            ≡ contents s space (kubeconfig_name config of) w)
      → Handed s kcs ofs w
      → Handed s kcs ofs w'
  Handed-mono s [] ofs w w' same h = tt
  Handed-mono s (kc ∷ kcs) [] w w' same h = h
  Handed-mono s (kc ∷ kcs) (of ∷ ofs) w w' same h =
      (same of ∙ h.0, Handed-mono s kcs ofs w w' same h.1)

  when-true :
      (b : Bool) (m : Action W (Unit {0})) (w w' : W)
      → b ≡ true
      → when b m w ≡ (ok tt, w')
      → m w ≡ (ok tt, w')
  when-true true m w w' e h = h
  when-true false m w w' e h = cc

  module _ (ca : CaCertificate c) (kcs : List (List ℕ)) where
    -- Each cluster's server holds the kubeconfigs of all clusters, and a certificate of its own.
    abbrev pub Delivered : List Certificate → List RemoteConfiguration → W → Type 0
    Delivered certs [] w = Unit
    Delivered [] (cluster ∷ clusters) w = ⊥
    Delivered (x ∷ certs) (cluster ∷ clusters) w =
        ((s : ℕ) × (server_of sv cluster.context_name ≡ ok s)
          × Handed s kcs config.remote_clusters w
          × (contents s space (tls_name config) w
              ≡ some (tls_contents k ca.pem x.certificate x.private_key)))
        × Delivered certs clusters w

    hand_certificate-Writes :
        (cluster : RemoteConfiguration) (certs : List Certificate) (w w' : W)
        → hand_certificate k c split_colon config ca cluster certs w ≡ (ok tt, w')
        → (x : Certificate) × (s : ℕ) × (certs ≡ x ∷ rest_of k c split_colon certs)
          × (server_of sv cluster.context_name ≡ ok s)
          × (contents s space (tls_name config) w'
              ≡ some (tls_contents k ca.pem x.certificate x.private_key))
          × SameBut sv s (tls_name config) w w'
    unfolding hand_certificate
    hand_certificate-Writes cluster [] w w' h =
        let (x, e, h1) = lift-eq-ok (certificate_for k c split_colon []) _ w h in cc
    hand_certificate-Writes cluster (y ∷ certs) w w' h =
        let (x, e, h1) = lift-eq-ok (certificate_for k c split_colon (y ∷ certs)) _ w h in
        let same : y ≡ x = ok-injective e in
        let (s, at, put, other) =
          create_tls_secret-Writes sv (remote k c split_colon config cluster config.service_name)
            ca.pem x.certificate x.private_key w w' refl h1 in
        (x, s, ap (λ z. z ∷ certs) same, at, put, other)

    pub distribute-Delivered :
        (certs : List Certificate) (clusters : List RemoteConfiguration) (w w' : W)
        → config.bootstrap_kubeconfigs ≡ true
        → config.bootstrap_tls ≡ true
        → Different config.remote_clusters
        → Apart clusters
        → distribute k c split_colon config ca kcs certs clusters w ≡ (ok tt, w')
        → Delivered certs clusters w'
          × ((s : ℕ) (ns name : String)
              → All (λ b. server_of sv b.context_name ≢ ok s) clusters
              → contents s ns name w' ≡ contents s ns name w)
    unfolding distribute
    distribute-Delivered certs [] w w' bk bt d apart h =
        (tt, λ s ns name _. ap (contents s ns name) (sym (ap (λ x. x.1) h)))
    distribute-Delivered certs (cluster ∷ clusters) w w' bk bt d apart h =
        let (u, w1, e1, h1) =
          >>=-eq-ok
            (when config.bootstrap_kubeconfigs
              (hand_out k c split_colon config cluster kcs config.remote_clusters))
            _ w h in
        let (v, w2, e2, h2) =
          >>=-eq-ok
            (when config.bootstrap_tls (hand_certificate k c split_colon config ca cluster certs)) _
            w1 h1 in
        let out = when-true config.bootstrap_kubeconfigs _ w w1 bk e1 in
        let (x, s, some_left, at, put, other) =
          hand_certificate-Writes cluster certs w1 w2
            (when-true config.bootstrap_tls _ w1 w2 bt e2) in
        let (handed, kept) = hand_out-Handed cluster s kcs config.remote_clusters w w1 at d out in
        let (later, kept_later) =
          distribute-Delivered (rest_of k c split_colon certs) clusters w2 w' bk bt d apart.1 h2 in
        let away : All (λ b. server_of sv b.context_name ≢ ok s) clusters =
          All-mono
            (λ b.
              (s' : ℕ)
              → server_of sv cluster.context_name ≡ ok s'
              → server_of sv b.context_name ≢ ok s')
            (λ b. server_of sv b.context_name ≢ ok s) clusters (λ b f. f s at) apart.0 in
        (
          rw some_left (
            (
              s,
              at,
              Handed-mono s kcs config.remote_clusters w1 w'
                  (λ of.
                    kept_later s space (kubeconfig_name config of) away
                    ∙ other s space (kubeconfig_name config of)
                        (inr (λ eq. kubeconfig_name-ne-tls_name config of (sym eq))))
                  handed,
              kept_later s space (tls_name config) away ∙ put,
            ),
            later,
          ),
          λ s' ns name far.
              let elsewhere : s ≢ s' = (λ eq. far.0 (rw eq at at)) in
              kept_later s' ns name far.1
              ∙ other s' ns name (inl elsewhere)
              ∙ kept s' ns name (inl elsewhere),
        )
