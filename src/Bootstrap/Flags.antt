-- ===== src/Bootstrap/Flags.antt =====
-- multicluster/bootstrap/flags.go: the clusters to bootstrap, by the command line. `url.Parse` and
-- `strings.Split(_, "+")` are arguments.
pub mod Overrides
use Prim.Native.String.{◌++◌ as str_append}
use locking.Prelude.{
  ℕ, String, Bool, true, false, List, [], ◌∷◌, ◌++◌, Option, none, some, ltb, length,
}
use locking.Prelude.Url.{Url}
use locking.Prelude.Result.{Error, Result, ok, err, text, ◌>>=◌, ◌>>◌, reject_if}
use locking.Prelude.Map.{lookup, insert, string_key}

pub record RemoteConfiguration : Type 0 where
  pub context_name : String
  pub api_server : String
  pub service_address : String

pub record BootstrapClusterConfiguration : Type 0 where
  pub bootstrap_tls : Bool
  pub bootstrap_kubeconfigs : Bool
  pub ensure_namespace : Bool
  pub operator_namespace : String
  pub service_name : String
  pub remote_clusters : List RemoteConfiguration

pub record Override : Type 0 where
  pub service_address : String
  pub api_server_address : String

-- The four package variables behind the flags.
pub record Cli : Type 0 where
  pub configuration : BootstrapClusterConfiguration
  pub contexts : List String
  pub service_address_overrides : List String
  pub api_server_overrides : List String

-- What `AddBootstrapConfigurationFlags` makes of them.
abbrev pub flag_defaults : Cli
flag_defaults = record {
  configuration = record {
    bootstrap_tls = false;
    bootstrap_kubeconfigs = false;
    ensure_namespace = false;
    operator_namespace = "default";
    service_name = "operator";
    remote_clusters = [];
  };
  contexts = [];
  service_address_overrides = [];
  api_server_overrides = [];
}

abbrev no_override : Override
no_override = record { service_address = ""; api_server_address = "" }

-- The loop over the contexts.
unfoldable pub add_contexts : List String → List (String × Override) → List (String × Override)
add_contexts [] contexts = contexts
add_contexts (ctx ∷ ctxs) contexts = add_contexts ctxs (insert ctx no_override contexts)

-- `%q` of the source writes the context in quotes.
abbrev not_found : String → Error
not_found ctx = text (str_append "context " (str_append ctx " not found"))

abbrev bad_flag : String → Result Url → Result Url
bad_flag msg (ok u) = ok u
bad_flag msg (err _) = err (text msg)

abbrev pub bad_server : String
bad_server = "invalid override flag, must be of the form context-name+scheme://address"

abbrev pub bad_service : String
bad_service = "invalid override flag, must be of the form context-name://address"

abbrev two_tokens : List String → Result (String × String)
two_tokens (a ∷ b ∷ []) = ok (a, b)
two_tokens _ = err (text bad_server)

-- Both loops over overrides: `target` reads a flag as a context and an address.
unfoldable pub apply_overrides :
    (String → Result (String × String))
    → (String → Override → Override)
    → List String
    → List (String × Override)
    → Result (List (String × Override))
apply_overrides target set [] contexts = ok contexts
apply_overrides target set (addr ∷ addrs) contexts = do
  (ctx, address) ← target addr
  elim (lookup ctx contexts) [
    | none ↦ err (not_found ctx)
    | some o ↦ apply_overrides target set addrs (insert ctx (set address o) contexts)
  ]

abbrev pub set_api_server : String → Override → Override
set_api_server address o = record o { api_server_address = address }

abbrev pub set_service : String → Override → Override
set_service address o = record o { service_address = address }

abbrev found : Option Override → Override
found (some o) = o
found none = no_override

-- The loop that makes the clusters. A key that is missing reads as the empty override.
unfoldable pub remote_clusters : List (String × Override) → List String → List RemoteConfiguration
remote_clusters contexts [] = []
remote_clusters contexts (ctx ∷ ctxs) =
    record {
      context_name = ctx;
      api_server = (found (lookup ctx contexts)).api_server_address;
      service_address = (found (lookup ctx contexts)).service_address;
    }
    ∷ remote_clusters contexts ctxs

module _ (parse : String → Result Url) (split_plus : String → List String) where
  unfoldable pub api_server_target : String → Result (String × String)
  api_server_target addr = do
    parsed ← bad_flag bad_server (parse addr)
    (ctx, scheme) ← two_tokens (split_plus parsed.scheme)
    ok (ctx, str_append scheme (str_append "://" parsed.host))

  unfoldable pub service_target : String → Result (String × String)
  service_target addr = do
    parsed ← bad_flag bad_service (parse addr)
    ok (parsed.scheme, parsed.host)

  -- The map of overrides, as it stands before the last loop.
  unfoldable pub overrides : Cli → Result (List (String × Override))
  unfolding add_contexts apply_overrides
  overrides cli = do
    reject_if (ltb (length cli.contexts) 3) "must specify at least 3 contexts"
    contexts ←
        apply_overrides api_server_target set_api_server cli.api_server_overrides
          (add_contexts cli.contexts [])
    apply_overrides service_target set_service cli.service_address_overrides contexts

  unfoldable pub configuration_from_flags : Cli → Result BootstrapClusterConfiguration × Cli
  configuration_from_flags cli = elim (overrides cli) [
    | err e ↦ (err e, cli)
    | ok contexts ↦
        let c : BootstrapClusterConfiguration = record cli.configuration {
          remote_clusters =
              cli.configuration.remote_clusters ++ remote_clusters contexts cli.contexts;
        } in
        (ok c, record cli { configuration = c })
  ]
