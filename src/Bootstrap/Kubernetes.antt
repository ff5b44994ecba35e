-- ===== src/Bootstrap/Kubernetes.antt =====
-- What multicluster/bootstrap calls of client-go and controller-runtime, over a world `W`: the API
-- servers of the clusters.
use locking.Prelude.{ℕ, String, ◌≡◌, ◌≢◌, List, Option, some}
use locking.Prelude.Result.{Result, ok}
use locking.Prelude.Action.{Action}

abbrev pub Contents : Type 0
Contents = List (String × List ℕ)

-- The objects that the program writes, each in its namespace and under its name. An object of the
-- first three kinds is left as it is where it exists; a secret with contents gets them in any case.
pub data Object : Type 0 where
  namespace : String → Object
  service_account : String → String → Object
  token_secret : String → String → String → Object
  secret : String → String → Contents → Object

-- `get_secret` answers with the contents, which are empty where the secret has no data yet.
-- `base64`, `text_of` and `bytes_of` convert between bytes and texts.
pub record Kubernetes (W : Type 0) : Type 1 where
  pub RestConfig : Type 0
  pub Client : Type 0
  pub host : RestConfig → String
  pub load_context : String → Result RestConfig
  pub new_client : RestConfig → Result Client
  pub create_or_update : Client → Object → Action W (Unit {0})
  pub get_secret : Client → String → String → Action W Contents
  pub base64 : List ℕ → String
  pub text_of : List ℕ → String
  pub bytes_of : String → List ℕ

-- How the calls act on the secrets of the servers: `contents` is what the server of a number holds
-- under a namespace and a name.
pub record Servers {W : Type 0} (k : Kubernetes W) : Type 0 where
  pub server : k.Client → ℕ
  pub contents : ℕ → String → String → W → Option Contents
  pub write_ok :
      (c : k.Client) (ns name : String) (d : Contents) (w w' : W)
      → k.create_or_update c (secret ns name d) w ≡ (ok tt, w')
      → contents (server c) ns name w' ≡ some d
  -- A write reaches the server of its client only, and there one name.
  pub write_other_server :
      (c : k.Client) (o : Object) (s : ℕ) (ns name : String) (w : W)
      → server c ≢ s
      → contents s ns name (k.create_or_update c o w).1 ≡ contents s ns name w
  pub write_other_name :
      (c : k.Client) (ns name : String) (d : Contents) (s : ℕ) (ns' name' : String) (w : W)
      → name ≢ name'
      → contents s ns' name' (k.create_or_update c (secret ns name d) w).1 ≡ contents s ns' name' w
  pub write_namespace :
      (c : k.Client) (n : String) (s : ℕ) (ns name : String) (w : W)
      → contents s ns name (k.create_or_update c (namespace n) w).1 ≡ contents s ns name w
  pub write_service_account :
      (c : k.Client) (n account : String) (s : ℕ) (ns name : String) (w : W)
      → contents s ns name (k.create_or_update c (service_account n account) w).1
        ≡ contents s ns name w
  pub write_token_secret :
      (c : k.Client) (n token account : String) (s : ℕ) (ns name : String) (w : W)
      → token ≢ name
      → contents s ns name (k.create_or_update c (token_secret n token account) w).1
        ≡ contents s ns name w
  pub read_secret :
      (c : k.Client) (n token : String) (s : ℕ) (ns name : String) (w : W)
      → contents s ns name (k.get_secret c n token w).1 ≡ contents s ns name w
