-- ===== src/Bootstrap/FlagExamples.antt =====
-- Flags for three clusters, of which one has its addresses overridden.
use locking.Prelude.{◌≤◌, String, ◌≡◌, refl, List, [], ◌∷◌, str_eq, if◌then◌else◌, map}
use locking.Prelude.Url.{Url}
use locking.Prelude.Result.{Result, ok, err, foreign}
use locking.Prelude.Map.{lookup, insert}
use locking.Bootstrap.Flags.{
  BootstrapClusterConfiguration, RemoteConfiguration, Cli, flag_defaults, overrides,
  remote_clusters, configuration_from_flags, api_server_target, service_target,
}
use locking.Bootstrap.Flags.Overrides.{described, configuration_from_flags-described}

abbrev parse : String → Result Url
parse s =
    if str_eq s "b+https://api"
    then ok (record { scheme = "b+https"; host = "api"; path = "" })
    else if str_eq s "b://svc"
    then ok (record { scheme = "b"; host = "svc"; path = "" })
    else err (foreign 1)

abbrev split_plus : String → List String
split_plus s = if str_eq s "b+https" then "b" ∷ "https" ∷ [] else s ∷ []

abbrev three_contexts : Cli
three_contexts = record flag_defaults {
  contexts = "a" ∷ "b" ∷ "c" ∷ [];
  service_address_overrides = "b://svc" ∷ [];
  api_server_overrides = "b+https://api" ∷ [];
}

abbrev plain : String → RemoteConfiguration
plain ctx = record { context_name = ctx; api_server = ""; service_address = "" }

abbrev bootstrapped : BootstrapClusterConfiguration
bootstrapped = record flag_defaults.configuration {
  remote_clusters =
      plain "a"
      ∷ record { context_name = "b"; api_server = "https://api"; service_address = "svc" }
      ∷ plain "c"
      ∷ [];
}

configuration_from_flags-three :
    (configuration_from_flags parse split_plus three_contexts).0 ≡ ok bootstrapped
unfolding configuration_from_flags overrides remote_clusters lookup insert api_server_target
    service_target
configuration_from_flags-three = refl

configuration_from_flags-described_example :
    (3 ≤ 3)
    × (bootstrapped.remote_clusters
        ≡ map (described parse split_plus three_contexts) ("a" ∷ "b" ∷ "c" ∷ []))
    × ((configuration_from_flags parse split_plus three_contexts).1.configuration ≡ bootstrapped)
configuration_from_flags-described_example =
    configuration_from_flags-described parse split_plus three_contexts bootstrapped
      configuration_from_flags-three
