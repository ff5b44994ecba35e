-- ===== src/Multicluster/KubeconfigExamples.antt =====
-- A node that is bootstrapped over raft without TLS, and the kubeconfig that it serves.
use locking.Prelude.{ℕ, ◌+◌, ◌==◌, if◌then◌else◌, String, true, false, List, [], ◌∷◌, none, some}
use locking.Prelude.Result.{ok, err, foreign}
use locking.Raft.Config.{LockConfiguration}
use locking.Raft.Config.{validate as validate_lock}
use locking.Raft.Transport.{GrpcTransport, Peer}
use locking.Raft.Transport
use locking.Bootstrap.Kubernetes.{Kubernetes}
use locking.Multicluster.Config.{RaftConfiguration, validate}
use locking.Multicluster.Examples.{config_a, lock_a}

abbrev cloud : Kubernetes ℕ
cloud = record {
  RestConfig = ℕ;
  Client = ℕ;
  host = λ s. if s == 5 then "https://a" else "https://b";
  load_context = λ s. err (foreign 1);
  new_client = λ s. ok s;
  create_or_update = λ c o w. (ok tt, w);
  get_secret = λ c ns name w. (ok (("token", 1 ∷ []) ∷ ("ca.crt", 2 ∷ []) ∷ []), w);
  base64 = λ b. "base64";
  text_of = λ b. "token";
  bytes_of = λ s. 3 ∷ [];
}

abbrev wire : Transport.Platform
wire = record {
  Certificate = List ℕ;
  CertPool = List ℕ;
  Credentials = ℕ;
  Client = String;
  x509_key_pair = λ c k. ok c;
  append_certs_from_pem = λ c. some c;
  server_tls = λ c q. 1;
  client_tls = λ c q b. 2;
  insecure_credentials = 0;
  new_client = λ a c. ok a;
  marshal = λ m. ok (m.to ∷ m.body);
  unmarshal = λ b. err (foreign 1);
}

abbrev plain : RaftConfiguration
plain = record config_a { insecure = true }

abbrev plain_lock : LockConfiguration
plain_lock = record lock_a {
  ca = [];
  private_key = [];
  certificate = [];
  insecure = true;
  fetcher = some (ok (3 ∷ []));
}

-- The client configurations of the one platform, for those of the other.
abbrev total : List ℕ → ℕ
total [] = 0
total (x ∷ xs) = x + total xs

abbrev peer : String → Peer wire
peer a = record { addr = a; client = a }

abbrev opened : GrpcTransport wire
opened = record {
  addr = "10.0.0.1";
  peers = (1, peer "10.0.0.1") ∷ (2, peer "10.0.0.2") ∷ (3, peer "10.0.0.3") ∷ [];
  meta = [];
  leader = 0;
  is_leader = false;
  node = none;
  kubeconfig_fetcher = some (ok (3 ∷ []));
  server_credentials = none;
  client_credentials = none;
}
