-- ===== src/Bootstrap/Clusters.antt =====
-- multicluster/bootstrap/bootstraper.go: kubeconfigs and certificates for every cluster, in every
-- cluster. `strings.Split(_, ":")` is an argument.
pub mod Names
pub mod Delivery
pub mod Collection
pub mod Distribution
pub mod Failure
pub mod Success
use Prim.Native.String.{◌++◌ as str_append}
use locking.Prelude.{
  ℕ, zero, suc, String, Bool, true, false, List, [], ◌∷◌, ◌++◌, Option, none, some, str_eq,
  if◌then◌else◌,
}
use locking.Prelude.Result.{Error, Result, ok, err, panic}
use locking.Prelude.Action.{Action, pure, lift, when, ◌>>=◌, ◌>>◌}
use locking.Bootstrap.Kubernetes.{Kubernetes}
use locking.Bootstrap.Secrets.{
  RemoteKubernetesConfiguration, create_kubeconfig_secret, create_tls_secret,
  create_remote_kubeconfig,
}
use locking.Bootstrap.Certificates.{CaCertificate, Certificate, sign, generate_ca}
use locking.Bootstrap.X509.{Crypto, Draw}
use locking.Bootstrap.Flags.{RemoteConfiguration, BootstrapClusterConfiguration}

-- `xs[0]`
abbrev first_element : List String → Result String
first_element [] = err (panic "index out of range")
first_element (x ∷ _) = ok x

-- `RemoteConfiguration.FQDN`
unfoldable pub fqdn :
    (String → List String) → BootstrapClusterConfiguration → RemoteConfiguration → Result String
fqdn split_colon c r =
    if str_eq r.service_address ""
    then ok (str_append c.service_name (str_append "-" r.context_name))
    else first_element (split_colon r.service_address)

-- The name of the secret with another cluster's kubeconfig, before its ending.
abbrev pub secret_name : BootstrapClusterConfiguration → RemoteConfiguration → String
secret_name config of = str_append config.service_name (str_append "-" of.context_name)

-- What outside of the program bears on the n-th cluster: the random source, the clock, and how often
-- a token is asked for before the context is done.
pub record Chance (c : Crypto) : Type 0 where
  pub draw : Draw c
  pub now : ℕ
  pub patience : ℕ

module _ {W : Type 0} (k : Kubernetes W) (c : Crypto) (split_colon : String → List String) where
  -- `RemoteConfiguration.Address`
  unfoldable pub address : RemoteConfiguration → Result String
  address r =
      if str_eq r.api_server ""
      then elim (k.load_context r.context_name) [ ok rest ↦ ok (k.host rest) | err e ↦ err e ]
      else ok r.api_server

  -- The two lists that the first loop fills.
  pub record Collected : Type 0 where
    pub kubeconfigs : List (List ℕ)
    pub certificates : List Certificate

  unfoldable pub add_kubeconfig :
      BootstrapClusterConfiguration → ℕ → RemoteConfiguration → Collected → Action W Collected
  add_kubeconfig config patience cluster got = do
    server ← lift (address cluster)
    kubeconfig ← create_remote_kubeconfig k patience (
        some (record {
          context_name = cluster.context_name;
          namespace = config.operator_namespace;
          name = config.service_name;
          api_server = server;
          rest_config = none;
          ensure_namespace = config.ensure_namespace;
        }))
    pure (record got { kubeconfigs = got.kubeconfigs ++ kubeconfig ∷ [] })

  unfoldable pub add_certificate :
      BootstrapClusterConfiguration
      → CaCertificate c
      → Chance c
      → RemoteConfiguration
      → Collected
      → Action W Collected
  add_certificate config ca chance cluster got = do
    name ← lift (fqdn split_colon config cluster)
    certificate ← lift (sign chance.draw chance.now ca (name ∷ []))
    pure (record got { certificates = got.certificates ++ certificate ∷ [] })

  abbrev branch : Bool → (Collected → Action W Collected) → Collected → Action W Collected
  branch true step got = step got
  branch false step got = pure got

  -- The first loop, from the n-th cluster on.
  unfoldable pub collect :
      BootstrapClusterConfiguration
      → CaCertificate c
      → (ℕ → Chance c)
      → ℕ
      → List RemoteConfiguration
      → Collected
      → Action W Collected
  unfolding add_kubeconfig add_certificate
  collect config ca chances n [] got = pure got
  collect config ca chances n (cluster ∷ clusters) got = do
    got' ←
        branch config.bootstrap_kubeconfigs (add_kubeconfig config (chances n).patience cluster) got
    got'' ← branch config.bootstrap_tls (add_certificate config ca (chances n) cluster) got'
    collect config ca chances (suc n) clusters got''

  abbrev remote :
      BootstrapClusterConfiguration → RemoteConfiguration → String → RemoteKubernetesConfiguration k
  remote config cluster name = record {
    context_name = cluster.context_name;
    namespace = config.operator_namespace;
    name = name;
    api_server = "";
    rest_config = none;
    ensure_namespace = config.ensure_namespace;
  }

  -- The loop over the kubeconfigs in one cluster. `of` runs through the list of clusters beside them.
  unfoldable pub hand_out :
      BootstrapClusterConfiguration
      → RemoteConfiguration
      → List (List ℕ)
      → List RemoteConfiguration
      → Action W (Unit {0})
  hand_out config cluster [] ofs = pure tt
  hand_out config cluster (kubeconfig ∷ kubeconfigs) [] = lift (err (panic "index out of range"))
  hand_out config cluster (kubeconfig ∷ kubeconfigs) (of ∷ ofs) = do
    create_kubeconfig_secret k kubeconfig (some (remote config cluster (secret_name config of)))
    hand_out config cluster kubeconfigs ofs

  abbrev certificate_for : List Certificate → Result Certificate
  certificate_for [] = err (panic "index out of range")
  certificate_for (x ∷ _) = ok x

  abbrev rest_of : List Certificate → List Certificate
  rest_of [] = []
  rest_of (_ ∷ xs) = xs

  unfoldable pub hand_certificate :
      BootstrapClusterConfiguration
      → CaCertificate c
      → RemoteConfiguration
      → List Certificate
      → Action W (Unit {0})
  hand_certificate config ca cluster certificates = do
    certificate ← lift (certificate_for certificates)
    create_tls_secret k ca.pem certificate.certificate certificate.private_key
        (some (remote config cluster config.service_name))

  -- The second loop. `certificates` is what is left of the list from the loop's index on.
  unfoldable pub distribute :
      BootstrapClusterConfiguration
      → CaCertificate c
      → List (List ℕ)
      → List Certificate
      → List RemoteConfiguration
      → Action W (Unit {0})
  unfolding hand_out hand_certificate
  distribute config ca kubeconfigs certificates [] = pure tt
  distribute config ca kubeconfigs certificates (cluster ∷ clusters) = do
    when config.bootstrap_kubeconfigs (hand_out config cluster kubeconfigs config.remote_clusters)
    when config.bootstrap_tls (hand_certificate config ca cluster certificates)
    distribute config ca kubeconfigs (rest_of certificates) clusters

  abbrev pub nothing : Collected
  nothing = record { kubeconfigs = []; certificates = [] }

  -- `BootstrapKubernetesClusters`. The first chance is that of the authority.
  unfoldable pub bootstrap_kubernetes_clusters :
      Chance c → (ℕ → Chance c) → String → BootstrapClusterConfiguration → Action W (Unit {0})
  unfolding collect distribute
  bootstrap_kubernetes_clusters first chances organization config = do
    ca ← lift (generate_ca first.draw first.now organization "Root CA" none)
    got ← collect config ca chances 0 config.remote_clusters nothing
    distribute config ca got.kubeconfigs got.certificates config.remote_clusters
