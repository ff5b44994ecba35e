-- ===== src/Multicluster/Kubeconfigs/Served.antt =====
-- What a node's transport serves as its kubeconfig.
use locking.Prelude.{ℕ, ◌≡◌, List, some}
use locking.Prelude.Result.{Result, ok, >>=-eq-ok}
use locking.Prelude.Action.{>>=-eq-ok as action-eq-ok}
use locking.Raft.Transport
use locking.Bootstrap.Kubernetes.{Kubernetes, Contents}
use locking.Prelude.Map.{lookup, string_key}
use Prim.Native.String.{◌++◌ as str_append}
use locking.Bootstrap.Secrets.{
  with_names, default_to, kubeconfig_template, default_service_account_name, KubeconfigValues,
}
use locking.Multicluster.Config.{RaftConfiguration}
use locking.Multicluster.Node
use locking.Multicluster.Kubeconfigs.{requested}

module _ (p : Transport.Platform) where
  module _ {W : Type 0} (k : Kubernetes W) (n : Node.Platform) where
    abbrev pub values : RaftConfiguration → k.RestConfig → List ℕ → List ℕ → KubeconfigValues
    values config rest token certificate = record {
      ca = k.base64 certificate;
      api_server = default_to (k.host rest) config.kubernetes_api_server;
      cluster = "";
      user = default_to default_service_account_name config.kubeconfig_name;
      token = k.text_of token;
    }

    -- The kubeconfig is for the configured API server, or else for the server of the client
    -- configuration, and carries the token and the certificate that the last read of the account's
    -- token secret, made with a client of that configuration, found there.
    abbrev pub IsFetched : RaftConfiguration → k.RestConfig → List ℕ → Type 0
    IsFetched config rest payload =
        let c = with_names k (some (requested k config rest)) in
        (cl : k.Client) × (w : W) × (w' : W) × (d : Contents) × (token : List ℕ)
        × (certificate : List ℕ) × (k.new_client rest ≡ ok cl)
        × (k.get_secret cl c.namespace (str_append c.name "-token") w ≡ (ok d, w'))
        × (lookup "token" d ≡ some token)
        × (lookup "ca.crt" d ≡ some certificate)
        × (payload ≡ k.bytes_of (kubeconfig_template (values config rest token certificate)))
