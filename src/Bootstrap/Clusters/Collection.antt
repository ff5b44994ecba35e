-- ===== src/Bootstrap/Clusters/Collection.antt =====
-- What the first loop of `BootstrapKubernetesClusters` in multicluster/bootstrap/bootstraper.go
-- collects, and the whole of it.
use locking.Prelude.{ℕ, suc, String, ◌≡◌, sym, ap, subst, ◌∙◌, List, [], ◌∷◌, ◌++◌, none, some}
use locking.Prelude.Result.{ok, ok-injective}
use locking.Prelude.Action.{Action, >>=-eq-ok, lift-eq-ok}
use locking.Bootstrap.Kubernetes.{Kubernetes}
use locking.Bootstrap.Secrets.{
  RemoteKubernetesConfiguration, with_names, rest_config_of, with_server, create_remote_kubeconfig,
}
use locking.Bootstrap.Secrets.Tokens.{EndsWithRead, create_remote_kubeconfig-rendered}
use locking.Bootstrap.Certificates.{CaCertificate, Certificate, sign}
use locking.Bootstrap.X509.{Crypto}
use locking.Bootstrap.Flags.{RemoteConfiguration, BootstrapClusterConfiguration}
use locking.Bootstrap.Clusters.{Chance, Collected, fqdn, address, add_kubeconfig, add_certificate}

module _ {W : Type 0} (k : Kubernetes W) (c : Crypto) (split_colon : String → List String)
    (config : BootstrapClusterConfiguration) (chances : ℕ → Chance c) where
  -- What the kubeconfig of a cluster is asked for with.
  abbrev pub asked : RemoteConfiguration → String → RemoteKubernetesConfiguration k
  asked cluster server = record {
    context_name = cluster.context_name;
    namespace = config.operator_namespace;
    name = config.service_name;
    api_server = server;
    rest_config = none;
    ensure_namespace = config.ensure_namespace;
  }

  -- The request for the kubeconfig answers with `kc`, which leads to the cluster's address. It carries
  -- the token and the certificate that the request's last read found in the cluster.
  abbrev pub LeadsTo : ℕ → W → W → List ℕ → RemoteConfiguration → Type 0
  LeadsTo patience w w' kc cluster =
      (server : String) × (rest : k.RestConfig) × (cl : k.Client) × (address k c split_colon cluster
        ≡ ok server)
      × (create_remote_kubeconfig k patience (some (asked cluster server)) w ≡ (ok kc, w'))
      × (rest_config_of k (with_names k (some (asked cluster server))) ≡ ok rest)
      × (k.new_client rest ≡ ok cl)
      × EndsWithRead k (with_server k (with_names k (some (asked cluster server))) rest) cl kc w'

  -- One after the other, from the n-th turn and the world `w` on.
  abbrev pub AllLeadTo : ℕ → W → List (List ℕ) → List RemoteConfiguration → Type 0
  AllLeadTo n w [] [] = Unit
  AllLeadTo n w [] (_ ∷ _) = ⊥
  AllLeadTo n w (_ ∷ _) [] = ⊥
  AllLeadTo n w (kc ∷ kcs) (cluster ∷ clusters) =
      (w' : W) × LeadsTo (chances n).patience w w' kc cluster × AllLeadTo (suc n) w' kcs clusters

  module _ (ca : CaCertificate c) where
    -- The certificates are signed for the names of their clusters, from the n-th on.
    abbrev pub AllSigned : ℕ → List Certificate → List RemoteConfiguration → Type 0
    AllSigned n [] [] = Unit
    AllSigned n [] (_ ∷ _) = ⊥
    AllSigned n (_ ∷ _) [] = ⊥
    AllSigned n (x ∷ xs) (cluster ∷ clusters) =
        ((name : String) × (fqdn split_colon config cluster ≡ ok name)
          × (sign (chances n).draw (chances n).now ca (name ∷ []) ≡ ok x))
        × AllSigned (suc n) xs clusters

    pub add_kubeconfig-LeadsTo :
        (patience : ℕ) (cluster : RemoteConfiguration) (got r : Collected k c split_colon)
        (w w' : W)
        → add_kubeconfig k c split_colon config patience cluster got w ≡ (ok r, w')
        → (kc : List ℕ) × LeadsTo patience w w' kc cluster
          × (r ≡ record got { kubeconfigs = got.kubeconfigs ++ kc ∷ [] })
    unfolding add_kubeconfig
    add_kubeconfig-LeadsTo patience cluster got r w w' h =
        let (server, es, h1) = lift-eq-ok (address k c split_colon cluster) _ w h in
        let (kc, w1, e1, h2) =
          >>=-eq-ok (create_remote_kubeconfig k patience (some (asked cluster server))) _ w h1 in
        let (rest, cl, er, ec, found) =
          create_remote_kubeconfig-rendered k patience (asked cluster server) w w1 kc e1 in
        let same : w1 ≡ w' = ap (λ x. x.1) h2 in
        (
          kc,
          (
            server,
            rest,
            cl,
            es,
            e1 ∙ ap (λ x. (ok kc, x)) same,
            er,
            ec,
            subst
                (λ x.
                  EndsWithRead k (with_server k (with_names k (some (asked cluster server))) rest)
                    cl kc x)
                same found,
          ),
          sym (ok-injective (ap (λ x. x.0) h2)),
        )

    pub add_certificate-signed :
        (chance : Chance c) (cluster : RemoteConfiguration) (got r : Collected k c split_colon)
        (w w' : W)
        → add_certificate k c split_colon config ca chance cluster got w ≡ (ok r, w')
        → (w ≡ w')
          × (x : Certificate) × (name : String) × (fqdn split_colon config cluster ≡ ok name)
          × (sign chance.draw chance.now ca (name ∷ []) ≡ ok x)
          × (r ≡ record got { certificates = got.certificates ++ x ∷ [] })
    unfolding add_certificate
    add_certificate-signed chance cluster got r w w' h =
        let (name, en, h1) = lift-eq-ok (fqdn split_colon config cluster) _ w h in
        let (x, ex, h2) = lift-eq-ok (sign chance.draw chance.now ca (name ∷ [])) _ w h1 in
        (ap (λ y. y.1) h2, x, name, en, ex, sym (ok-injective (ap (λ y. y.0) h2)))
