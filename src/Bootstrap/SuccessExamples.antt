-- ===== src/Bootstrap/SuccessExamples.antt =====
-- The bootstrap of two clusters, again, and that it succeeds.
use locking.Prelude.{
  String, ◌≡◌, refl, Bool-cases, inl, inr, List, [], ◌∷◌, none, some, str_eq, arith,
}
use locking.Prelude.Result.{Result, ok, err, foreign}
use locking.Prelude.Map.{lookup}
use locking.Prelude.Action.{Succeeds, after}
use locking.Bootstrap.Secrets.{
  create_remote_kubeconfig, with_names, rest_config_of, open_cluster, make_namespace, await_token,
  populated,
}
use locking.Bootstrap.Secrets.Tokens.{here}
use locking.Bootstrap.Secrets.Success.{Fills}
use locking.Bootstrap.Certificates.{sign, generate_ca, leaf_template, check_window}
use locking.Bootstrap.Secrets.Frame.{SameButToken}
use locking.Bootstrap.Flags.{BootstrapClusterConfiguration}
use locking.Bootstrap.Clusters.Failure.{bootstrap_kubernetes_clusters-err}
use locking.Bootstrap.Clusters.{
  Collected, collect, nothing, fqdn, address, add_kubeconfig, add_certificate,
  bootstrap_kubernetes_clusters,
}
use locking.Bootstrap.Clusters.Success.{bootstrap_kubernetes_clusters-Succeeds}
use locking.Bootstrap.Examples.{toy, drawn, noon, root, leaf}
use locking.Bootstrap.ClusterExamples.{
  World, token_contents, cloud, cloud_servers, two_clusters, split_colon, chance, blank,
}

generate_ca-operator : generate_ca drawn noon "operator" "Root CA" none ≡ ok root
unfolding generate_ca
generate_ca-operator = refl

sign-operator : (name : String) → sign drawn noon root (name ∷ []) ≡ ok leaf
unfolding sign check_window leaf_template
sign-operator name = refl

split_colon-full : (s : String) → (x : String) × (xs : List String) × (split_colon s ≡ x ∷ xs)
split_colon-full s = elim (Bool-cases (str_eq s "10.0.0.2:443")) [
  | inl e ↦ ("10.0.0.2", "443" ∷ [], rw (e) refl)
  | inr e ↦ (s, [], rw (e) refl)
]

cloud-populated : populated cloud token_contents ≡ some (1 ∷ [], 2 ∷ [])
unfolding lookup
cloud-populated = refl

cloud-Fills : Fills cloud (λ cl o w. refl) 1
cloud-Fills c cl w w' _ =
    (0, w', w', token_contents, (1 ∷ [], 2 ∷ []), omega arith, here, refl, cloud-populated)

bootstrap_kubernetes_clusters-Succeeds_example :
    Succeeds
      (bootstrap_kubernetes_clusters cloud toy split_colon chance
        (λ _. chance)
        "operator"
        two_clusters)
      blank
bootstrap_kubernetes_clusters-Succeeds_example =
    bootstrap_kubernetes_clusters-Succeeds cloud toy split_colon two_clusters (λ _. chance)
      (λ cl o w. refl) split_colon-full (λ n. cloud-Fills) chance "operator" root blank
      generate_ca-operator (λ n name. (leaf, sign-operator name))
      (((λ e. cc), 1, 1, refl, refl), (((λ e. cc), 2, 2, refl, refl), tt))

-- The second cluster's context is unknown.
abbrev lost : BootstrapClusterConfiguration
lost = record two_clusters {
  remote_clusters =
      record { context_name = "a"; api_server = ""; service_address = "" }
      ∷ record { context_name = "z"; api_server = ""; service_address = "" }
      ∷ [];
}

abbrev collected : Result (Collected cloud toy split_colon) × World
collected =
    collect cloud toy split_colon lost root (λ _. chance) 0 lost.remote_clusters
      (nothing cloud toy split_colon) blank

collected-err : collected ≡ (err (foreign 1), collected.1)
unfolding after fqdn address add_kubeconfig add_certificate collect create_remote_kubeconfig
    with_names rest_config_of open_cluster make_namespace await_token lookup sign leaf_template
    check_window
collected-err = refl

bootstrap_kubernetes_clusters-err_example :
    (bootstrap_kubernetes_clusters cloud toy split_colon chance (λ _. chance) "operator" lost blank
      ≡ (err (foreign 1), collected.1))
    × SameButToken cloud_servers "operator-token" blank collected.1
bootstrap_kubernetes_clusters-err_example =
    bootstrap_kubernetes_clusters-err cloud_servers toy split_colon lost (λ _. chance) chance
      "operator" root (foreign 1) blank collected.1 generate_ca-operator collected-err
