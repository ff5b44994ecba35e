-- ===== src/Multicluster/Kubeconfigs.antt =====
-- The fetcher of multicluster/raft.go: what a node that is bootstrapped over raft answers to the
-- leader that asks for its kubeconfig.
pub mod Served
use locking.Prelude.{ℕ, List, some, false}
use locking.Prelude.Action.{Action, pure, ◌>>=◌}
use locking.Bootstrap.Kubernetes.{Kubernetes}
use locking.Bootstrap.Secrets.{RemoteKubernetesConfiguration, create_remote_kubeconfig}
use locking.Multicluster.Config.{RaftConfiguration}

module _ {W : Type 0} (k : Kubernetes W) where
  abbrev pub requested : RaftConfiguration → k.RestConfig → RemoteKubernetesConfiguration k
  requested config rest = record {
    context_name = "";
    namespace = config.kubeconfig_namespace;
    name = config.kubeconfig_name;
    api_server = config.kubernetes_api_server;
    rest_config = some rest;
    ensure_namespace = false;
  }

  -- `rest` is the node's own client configuration; `patience` as in `CreateRemoteKubeconfig`.
  unfoldable pub fetch : RaftConfiguration → k.RestConfig → ℕ → Action W (List ℕ)
  fetch config rest patience = do
    kubeconfig ← create_remote_kubeconfig k patience (some (requested config rest))
    pure kubeconfig
