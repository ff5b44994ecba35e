-- ===== src/Bootstrap/ClusterExamples.antt =====
-- Two clusters, whose servers are a function from a number and two names to a secret, and a bootstrap
-- of both.
use locking.Prelude.{
  ℕ, ◌+◌, ltb, String, ◌≡◌, refl, sym, ap, ◌∙◌, ◌≢◌, true, List, [], ◌∷◌, Option, none, some,
  str_eq, eq_iff, ==_iff, ◌==◌, if◌then◌else◌, arith,
}
use locking.Prelude.Result.{foreign, Result, ok, err}
use locking.Bootstrap.Kubernetes.{
  Kubernetes, Servers, Object, Contents, namespace, service_account, token_secret, secret,
}
use locking.Bootstrap.Flags.{RemoteConfiguration, BootstrapClusterConfiguration}
use locking.Bootstrap.Clusters.{Chance, bootstrap_kubernetes_clusters}
use locking.Bootstrap.Examples.{toy, drawn, noon}

abbrev pub World : Type 0
World = ℕ → String → String → Option Contents

abbrev put : ℕ → String → String → Contents → World → World
put c ns name d w s ns' name' =
    if c == s
    then (if str_eq ns ns'
        then (if str_eq name name' then some d else w s ns' name')
        else w s ns' name')
    else w s ns' name'

-- A token's secret has its contents at once.
abbrev write : ℕ → Object → World → World
write c (namespace n) w = w
write c (service_account ns name) w = w
write c (token_secret ns name account) w = w
write c (secret ns name d) w = put c ns name d w

abbrev pub token_contents : Contents
token_contents = ("token", 1 ∷ []) ∷ ("ca.crt", 2 ∷ []) ∷ []

abbrev context_server : String → Result ℕ
context_server ctx =
    if str_eq ctx "a" then ok 1 else if str_eq ctx "b" then ok 2 else err (foreign 1)

abbrev pub cloud : Kubernetes World
cloud = record {
  RestConfig = ℕ;
  Client = ℕ;
  host = λ s. if s == 1 then "https://a" else "https://b";
  load_context = context_server;
  new_client = λ s. ok s;
  create_or_update = λ c o w. (ok tt, write c o w);
  get_secret = λ c ns name w. (ok token_contents, w);
  base64 = λ b. "base64";
  text_of = λ b. "token";
  bytes_of = λ s. 3 ∷ [];
}

pub write-other_server :
    (c : ℕ) (o : Object) (s : ℕ) (ns name : String) (w : World)
    → c ≢ s
    → write c o w s ns name ≡ w s ns name
write-other_server c (namespace n) s ns name w ne = refl
write-other_server c (service_account n m) s ns name w ne = refl
write-other_server c (token_secret n m a) s ns name w ne = refl
write-other_server c (secret n m d) s ns name w ne = ground (arith, ==_iff c s)

pub write-other_name :
    (c : ℕ) (ns name : String) (d : Contents) (s : ℕ) (ns' name' : String) (w : World)
    → name ≢ name'
    → put c ns name d w s ns' name' ≡ w s ns' name'
write-other_name c ns name d s ns' name' w ne = ground (arith, eq_iff name name')

pub write_self :
    (c : ℕ) (ns name : String) (d : Contents) (w : World) → put c ns name d w c ns name ≡ some d
write_self c ns name d w = ground (arith, eq_iff name name, eq_iff ns ns)

abbrev pub cloud_servers : Servers cloud
cloud_servers = record {
  server = λ c. c;
  contents = λ s ns name w. w s ns name;
  write_ok = λ c ns name d w w' h. ap (λ r. r.1 c ns name) (sym h) ∙ write_self c ns name d w;
  write_other_server = write-other_server;
  write_other_name = write-other_name;
  write_namespace = λ c n s ns name w. refl;
  write_service_account = λ c n account s ns name w. refl;
  write_token_secret = λ c n token account s ns name w ne. refl;
  read_secret = λ c n token s ns name w. refl;
}

abbrev cluster : String → String → RemoteConfiguration
cluster ctx service = record { context_name = ctx; api_server = ""; service_address = service }

abbrev pub two_clusters : BootstrapClusterConfiguration
two_clusters = record {
  bootstrap_tls = true;
  bootstrap_kubeconfigs = true;
  ensure_namespace = true;
  operator_namespace = "operators";
  service_name = "operator";
  remote_clusters = cluster "a" "" ∷ cluster "b" "10.0.0.2:443" ∷ [];
}

abbrev pub split_colon : String → List String
split_colon s = if str_eq s "10.0.0.2:443" then "10.0.0.2" ∷ "443" ∷ [] else s ∷ []

abbrev pub chance : Chance toy
chance = record { draw = drawn; now = noon; patience = 1 }

abbrev pub blank : World
blank s ns name = none

abbrev bootstrapped : Result (Unit {0}) × World
bootstrapped =
    bootstrap_kubernetes_clusters cloud toy split_colon chance (λ _. chance) "operator" two_clusters
      blank

-- A server whose world counts the reads, and that has a token from the third read on.
abbrev slow : Kubernetes ℕ
slow = record {
  RestConfig = ℕ;
  Client = ℕ;
  host = λ s. "https://a";
  load_context = context_server;
  new_client = λ s. ok s;
  create_or_update = λ c o w. (ok tt, w);
  get_secret = λ c ns name w. (ok (if ltb w 2 then [] else token_contents), w + 1);
  base64 = λ b. "base64";
  text_of = λ b. "token";
  bytes_of = λ s. 3 ∷ [];
}
