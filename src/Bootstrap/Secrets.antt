-- ===== src/Bootstrap/Secrets.antt =====
-- multicluster/bootstrap/kubeconfig.go, and `CreateTLSSecret` of certificates.go beside it: what is
-- made in the cluster of one kubeconfig context.
pub mod Writes
pub mod Tokens
pub mod Success
pub mod Frame
use Prim.Native.String.{◌++◌ as str_append}
use locking.Prelude.{
  ℕ, zero, suc, String, Bool, true, false, List, [], ◌∷◌, Option, none, some, str_eq, if◌then◌else◌,
}
use locking.Prelude.Result.{Error, Result, ok, err, text, wrap_err}
use locking.Prelude.Map.{lookup, string_key}
use locking.Prelude.Action.{Action, pure, lift, wrapped, when, ◌>>=◌, ◌>>◌}
use locking.Bootstrap.Kubernetes.{
  Kubernetes, Contents, namespace, service_account, token_secret, secret,
}

pub record RemoteKubernetesConfiguration {W : Type 0} (k : Kubernetes W) : Type 0 where
  pub context_name : String
  pub namespace : String
  pub name : String
  pub api_server : String
  pub rest_config : Option k.RestConfig
  pub ensure_namespace : Bool

abbrev pub default_service_account_namespace : String
default_service_account_namespace = "default"

abbrev pub default_service_account_name : String
default_service_account_name = "multicluster-operator"

abbrev pub default_to : String → String → String
default_to d s = if str_eq s "" then d else s

-- What the template gets.
pub record KubeconfigValues : Type 0 where
  pub ca : String
  pub api_server : String
  pub cluster : String
  pub user : String
  pub token : String

abbrev lines : List String → String
lines [] = ""
lines (l ∷ ls) = str_append l (str_append "\n" (lines ls))

-- `kubeconfigTemplate`, executed.
pub kubeconfig_template : KubeconfigValues → String
kubeconfig_template v = lines (
    ""
    ∷ "apiVersion: v1"
    ∷ "clusters:"
    ∷ "- cluster:"
    ∷ str_append "    certificate-authority-data: " v.ca
    ∷ str_append "    server: " v.api_server
    ∷ str_append "  name: " v.cluster
    ∷ "contexts:"
    ∷ "- context:"
    ∷ str_append "    cluster: " v.cluster
    ∷ str_append "    user: " v.user
    ∷ str_append "  name: " v.cluster
    ∷ str_append "current-context: " v.cluster
    ∷ "kind: Config"
    ∷ "preferences: {}"
    ∷ "users:"
    ∷ str_append "- name: " v.user
    ∷ "  user:"
    ∷ str_append "    token: " v.token
    ∷ [])

module _ {W : Type 0} (k : Kubernetes W) where
  open k use {RestConfig, Client, load_context, new_client, create_or_update, get_secret}

  abbrev pub empty_configuration : RemoteKubernetesConfiguration k
  empty_configuration = record {
    context_name = "";
    namespace = "";
    name = "";
    api_server = "";
    rest_config = none;
    ensure_namespace = false;
  }

  abbrev given_or_empty : Option (RemoteKubernetesConfiguration k) → RemoteKubernetesConfiguration k
  given_or_empty none = empty_configuration
  given_or_empty (some c) = c

  -- The head of all three functions: the defaults of the names.
  unfoldable pub with_names :
      Option (RemoteKubernetesConfiguration k) → RemoteKubernetesConfiguration k
  with_names given =
      let c = given_or_empty given in
      record c {
        namespace = default_to default_service_account_namespace c.namespace;
        name = default_to default_service_account_name c.name;
      }

  -- The client configuration: the given one, or that of the context.
  unfoldable pub rest_config_of : RemoteKubernetesConfiguration k → Result RestConfig
  rest_config_of c = elim c.rest_config [
    | some r ↦ ok r
    | none ↦
        if str_eq c.context_name ""
        then err (text "either the name of a kubernetes context of a rest Config must be specified")
        else wrap_err "getting REST configuration" (load_context c.context_name)
  ]

  unfoldable pub make_namespace : String → Client → Action W (Unit {0})
  make_namespace n cl = create_or_update cl (namespace n)

  -- The client, and its namespace if that is asked for.
  unfoldable pub open_cluster : RemoteKubernetesConfiguration k → RestConfig → Action W Client
  open_cluster c rest = do
    cl ← lift (wrap_err "initializing client" (new_client rest))
    when c.ensure_namespace (wrapped "ensuring namespace exists" (make_namespace c.namespace cl))
    pure cl

  abbrev pub kubeconfig_contents : List ℕ → Contents
  kubeconfig_contents d = ("kubeconfig.yaml", d) ∷ []

  unfoldable pub create_kubeconfig_secret :
      List ℕ → Option (RemoteKubernetesConfiguration k) → Action W (Unit {0})
  create_kubeconfig_secret d given = do
    let c = with_names given
    rest ← lift (rest_config_of c)
    cl ← open_cluster c rest
    wrapped "creating kubeconfig file" (
        create_or_update cl
          (secret c.namespace (str_append c.name "-kubeconfig") (kubeconfig_contents d)))

  abbrev pub tls_contents : List ℕ → List ℕ → List ℕ → Contents
  tls_contents ca crt key = ("ca.crt", ca) ∷ ("tls.crt", crt) ∷ ("tls.key", key) ∷ []

  -- `CreateTLSSecret`, over the bytes of the authority, of the certificate and of its key.
  unfoldable pub create_tls_secret :
      List ℕ → List ℕ → List ℕ → Option (RemoteKubernetesConfiguration k) → Action W (Unit {0})
  create_tls_secret ca crt key given = do
    let c = with_names given
    rest ← lift (rest_config_of c)
    cl ← open_cluster c rest
    wrapped "creating tls file" (
        create_or_update cl
          (secret c.namespace (str_append c.name "-certificates") (tls_contents ca crt key)))

  -- The token and the certificate in a secret, if both are there.
  abbrev pub populated : Contents → Option (List ℕ × List ℕ)
  populated d = elim (lookup "token" d) [
    | none ↦ none
    | some token ↦ elim (lookup "ca.crt" d) [
      | none ↦ none
      | some certificate ↦ some (token, certificate)
    ]
  ]

  abbrev pub rendered : RemoteKubernetesConfiguration k → List ℕ × List ℕ → List ℕ
  rendered c (token, certificate) = k.bytes_of (
      kubeconfig_template (record {
        ca = k.base64 certificate;
        api_server = c.api_server;
        cluster = c.context_name;
        user = c.name;
        token = k.text_of token;
      }))

  -- What a round of the loop does with its read: it returns, or waits for the next.
  abbrev respond :
      RemoteKubernetesConfiguration k
      → Result Contents × W
      → Action W (List ℕ)
      → Result (List ℕ) × W
  respond c (err e, w') again = (err e, w')
  respond c (ok d, w') again = elim (populated d) [
    | some found ↦ (ok (rendered c found), w')
    | none ↦ again w'
  ]

  abbrev pub timed_out : Result (List ℕ)
  timed_out = err (text "unable to get populated token")

  -- The loop that waits for the token. `patience` is how often the trigger is taken before the
  -- context is done.
  unfoldable pub await_token : RemoteKubernetesConfiguration k → Client → ℕ → Action W (List ℕ)
  await_token c cl zero w = (timed_out, w)
  await_token c cl (suc patience) w =
      respond c (get_secret cl c.namespace (str_append c.name "-token") w)
        (λ w'. await_token c cl patience w')

  abbrev pub with_server :
      RemoteKubernetesConfiguration k → RestConfig → RemoteKubernetesConfiguration k
  with_server c rest = record c { api_server = default_to (k.host rest) c.api_server }

  unfoldable pub create_remote_kubeconfig :
      ℕ → Option (RemoteKubernetesConfiguration k) → Action W (List ℕ)
  create_remote_kubeconfig patience given = do
    let named = with_names given
    rest ← lift (rest_config_of named)
    let c = with_server named rest
    cl ← open_cluster c rest
    wrapped "creating service account" (create_or_update cl (service_account c.namespace c.name))
    wrapped "creating service account token"
        (create_or_update cl (token_secret c.namespace (str_append c.name "-token") c.name))
    await_token c cl patience
