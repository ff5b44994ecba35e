-- ===== src/Bootstrap/Clusters/Failure.antt =====
-- How multicluster/bootstrap/bootstraper.go fails before its second loop.
use Prim.Native.String.{◌++◌ as str_append}
use locking.Prelude.{
  ℕ, suc, String, ◌≡◌, refl, ap, ◌∙◌, Bool, true, false, List, [], ◌∷◌, none, some, subst,
}
use locking.Prelude.Result.{Error, ok, err}
use locking.Prelude.Action.{Action, lift, after, >>=-ok, Keeps}
use locking.Bootstrap.Kubernetes.{Kubernetes, Servers}
use locking.Bootstrap.Secrets.{default_to, default_service_account_name, create_remote_kubeconfig}
use locking.Bootstrap.Secrets.Frame.{SameButToken, chain, create_remote_kubeconfig-Keeps}
use locking.Bootstrap.Certificates.{CaCertificate, generate_ca, sign}
use locking.Bootstrap.X509.{Crypto}
use locking.Bootstrap.Flags.{RemoteConfiguration, BootstrapClusterConfiguration}
use locking.Bootstrap.Clusters.{
  Chance, Collected, fqdn, address, add_kubeconfig, add_certificate, branch, collect, nothing,
  bootstrap_kubernetes_clusters,
}
use locking.Bootstrap.Clusters.Collection.{asked}

module _ {W : Type 0} {k : Kubernetes W} (sv : Servers k) (c : Crypto)
    (split_colon : String → List String) (config : BootstrapClusterConfiguration)
    (chances : ℕ → Chance c) where
  -- The name of the secrets with tokens, in every cluster.
  abbrev pub token_name : String
  token_name = str_append (default_to default_service_account_name config.service_name) "-token"

  branch-Keeps :
      (b : Bool) (step : Collected k c split_colon → Action W (Collected k c split_colon))
      → ((got : Collected k c split_colon) → Keeps (SameButToken sv token_name) (step got))
      → (got : Collected k c split_colon)
      → Keeps (SameButToken sv token_name) (branch k c split_colon b step got)
  branch-Keeps true step h got = h got
  branch-Keeps false step h got = λ w s ns name ne. refl

  add_kubeconfig-Keeps :
      (patience : ℕ) (cluster : RemoteConfiguration) (got : Collected k c split_colon)
      → Keeps
          (SameButToken sv token_name)
          (add_kubeconfig k c split_colon config patience cluster got)
  unfolding add_kubeconfig
  add_kubeconfig-Keeps patience cluster got =
      chain sv token_name (lift (address k c split_colon cluster)) _ (λ w s ns name ne. refl)
        (λ server.
          let given = asked k c split_colon config chances cluster server in
          chain sv token_name (create_remote_kubeconfig k patience (some given)) _
            (create_remote_kubeconfig-Keeps sv patience given) (λ kc w s ns name ne. refl))

  add_certificate-Keeps :
      (ca : CaCertificate c) (chance : Chance c) (cluster : RemoteConfiguration)
      (got : Collected k c split_colon)
      → Keeps
          (SameButToken sv token_name)
          (add_certificate k c split_colon config ca chance cluster got)
  unfolding add_certificate
  add_certificate-Keeps ca chance cluster got =
      chain sv token_name (lift (fqdn split_colon config cluster)) _ (λ w s ns name ne. refl)
        (λ name.
          chain sv token_name (lift (sign chance.draw chance.now ca (name ∷ []))) _
            (λ w s ns name ne. refl) (λ x w s ns name ne. refl))

  collect-Keeps :
      (ca : CaCertificate c) (n : ℕ) (clusters : List RemoteConfiguration)
      (got : Collected k c split_colon)
      → Keeps
          (SameButToken sv token_name)
          (collect k c split_colon config ca chances n clusters got)
  unfolding collect
  collect-Keeps ca n [] got = λ w s ns name ne. refl
  collect-Keeps ca n (cluster ∷ clusters) got =
      chain sv token_name
        (branch k c split_colon config.bootstrap_kubeconfigs
          (add_kubeconfig k c split_colon config (chances n).patience cluster) got)
        _
        (branch-Keeps config.bootstrap_kubeconfigs _
          (add_kubeconfig-Keeps (chances n).patience cluster) got)
        (λ g1.
          chain sv token_name
            (branch k c split_colon config.bootstrap_tls
              (add_certificate k c split_colon config ca (chances n) cluster) g1)
            _
            (branch-Keeps config.bootstrap_tls _ (add_certificate-Keeps ca (chances n) cluster) g1)
            (λ g2. collect-Keeps ca (suc n) clusters g2))

  after-err :
      {A C : Type 0} (m : Action W A) (next : A → Action W C) (e : Error) (w w' : W)
      → m w ≡ (err e, w')
      → after (m w) next ≡ (err e, w')
  unfolding after
  after-err m next e w w' h = ap (λ r. after r next) h

  -- Where the first loop fails, the bootstrap returns the loop's error, and no server's secret has
  -- changed but those of tokens: no cluster has been given a kubeconfig or a certificate.
  pub bootstrap_kubernetes_clusters-err :
      (first : Chance c) (organization : String) (ca : CaCertificate c) (e : Error) (w w' : W)
      → generate_ca first.draw first.now organization "Root CA" none ≡ ok ca
      → collect k c split_colon config ca chances 0 config.remote_clusters
          (nothing k c split_colon)
          w
        ≡ (err e, w')
      → (bootstrap_kubernetes_clusters k c split_colon first chances organization config w
          ≡ (err e, w'))
        × SameButToken sv token_name w w'
  unfolding bootstrap_kubernetes_clusters
  bootstrap_kubernetes_clusters-err first organization ca e w w' made failed =
      let loop =
        collect k c split_colon config ca chances 0 config.remote_clusters
          (nothing k c split_colon) in
      (
        >>=-ok (lift (generate_ca first.draw first.now organization "Root CA" none)) _ w
              (ap (λ r. (r, w)) made)
            ∙ after-err loop _ e w w' failed,
        subst (SameButToken sv token_name w) (ap (λ r. r.1) failed)
            (collect-Keeps ca 0 config.remote_clusters (nothing k c split_colon) w),
      )
