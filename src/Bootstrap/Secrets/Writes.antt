-- ===== src/Bootstrap/Secrets/Writes.antt =====
-- What the writes of multicluster/bootstrap/kubeconfig.go and of `CreateTLSSecret` leave in the
-- secrets of the clusters.
use Prim.Native.String.{◌++◌ as str_append}
use locking.Prelude.{
  ℕ, String, ◌≡◌, sym, ap, ◌∙◌, ◌≢◌, ◌⊎◌, inl, inr, Bool, true, false, List, none, some, arith,
}
use locking.Prelude.Result.{Result, ok, err, wrap_err, wrap_err-eq-ok, ok-injective}
use locking.Prelude.Action.{
  Action, lift, wrapped, when, ◌>>=◌, >>=-eq-ok, wrapped-eq-ok, lift-eq-ok,
}
use locking.Bootstrap.Kubernetes.{Kubernetes, Servers, Contents, secret}
use locking.Bootstrap.Secrets.{
  RemoteKubernetesConfiguration, default_to, default_service_account_namespace,
  default_service_account_name, with_names, rest_config_of, open_cluster, make_namespace,
  create_kubeconfig_secret, create_tls_secret, kubeconfig_contents, tls_contents,
}

module _ {W : Type 0} {k : Kubernetes W} (sv : Servers k) where
  open k use {RestConfig, Client, load_context, new_client, create_or_update}
  open sv use {server, contents}

  -- The server that a context leads to.
  abbrev pub server_of : String → Result ℕ
  server_of ctx = elim (load_context ctx) [
    | ok rest ↦ elim (new_client rest) [ ok cl ↦ ok (server cl) | err e ↦ err e ]
    | err e ↦ err e
  ]

  server_of-ok :
      (ctx : String) (rest : RestConfig) (cl : Client)
      → load_context ctx ≡ ok rest
      → new_client rest ≡ ok cl
      → server_of ctx ≡ ok (server cl)
  server_of-ok ctx rest cl e h = ground arith

  -- No secret is changed.
  abbrev pub Same : W → W → Type 0
  Same w w' = (s : ℕ) (ns name : String) → contents s ns name w' ≡ contents s ns name w

  -- No secret is changed but, maybe, those of one name on one server.
  abbrev pub SameBut : ℕ → String → W → W → Type 0
  SameBut s name w w' =
      (s' : ℕ) (ns name' : String)
      → (s ≢ s') ⊎ (name ≢ name')
      → contents s' ns name' w' ≡ contents s' ns name' w

  when_namespace-Same :
      (b : Bool) (n : String) (cl : Client) (w w' : W)
      → when b (wrapped "ensuring namespace exists" (make_namespace k n cl)) w ≡ (ok tt, w')
      → Same w w'
  unfolding make_namespace
  when_namespace-Same true n cl w w' h s ns name =
      ap (contents s ns name) (sym (ap (λ x. x.1) h)) ∙ sv.write_namespace cl n s ns name w
  when_namespace-Same false n cl w w' h s ns name = ap (contents s ns name) (sym (ap (λ x. x.1) h))

  open_cluster-Same :
      (c : RemoteKubernetesConfiguration k) (rest : RestConfig) (cl : Client) (w w' : W)
      → open_cluster k c rest w ≡ (ok cl, w')
      → (new_client rest ≡ ok cl) × Same w w'
  unfolding open_cluster
  open_cluster-Same c rest cl w w' h =
      let (cl', e, h1) = lift-eq-ok (wrap_err "initializing client" (new_client rest)) _ w h in
      let (u, w1, m, h2) =
        >>=-eq-ok
          (when c.ensure_namespace
            (wrapped "ensuring namespace exists" (make_namespace k c.namespace cl')))
          _ w h1 in
      let same : cl' ≡ cl = ok-injective (ap (λ x. x.0) h2) in
      (
        wrap_err-eq-ok _ (new_client rest) e ∙ ap ok same,
        λ s ns name.
            ap (contents s ns name) (sym (ap (λ x. x.1) h2))
            ∙ when_namespace-Same c.ensure_namespace c.namespace cl' w w1 m s ns name,
      )

  -- What the two functions that write a secret have in common.
  abbrev put_secret :
      RemoteKubernetesConfiguration k → String → String → Contents → Action W (Unit {0})
  put_secret c msg name d = do
    rest ← lift (rest_config_of k c)
    cl ← open_cluster k c rest
    wrapped msg (create_or_update cl (secret c.namespace name d))

  rest_config_of-ok :
      (c : RemoteKubernetesConfiguration k) (rest : RestConfig)
      → c.rest_config ≡ none
      → rest_config_of k c ≡ ok rest
      → load_context c.context_name ≡ ok rest
  unfolding rest_config_of
  rest_config_of-ok c rest e h = ground arith

  put_secret-Writes :
      (c : RemoteKubernetesConfiguration k) (msg name : String) (d : Contents) (w w' : W)
      → c.rest_config ≡ none
      → put_secret c msg name d w ≡ (ok tt, w')
      → (s : ℕ) × (server_of c.context_name ≡ ok s)
        × (contents s c.namespace name w' ≡ some d)
        × SameBut s name w w'
  put_secret-Writes c msg name d w w' e h =
      let (rest, er, h1) = lift-eq-ok (rest_config_of k c) _ w h in
      let (cl, w1, eo, h2) = >>=-eq-ok (open_cluster k c rest) _ w h1 in
      let (client, kept) = open_cluster-Same c rest cl w w1 eo in
      let written = wrapped-eq-ok msg (create_or_update cl (secret c.namespace name d)) w1 h2 in
      let after : (create_or_update cl (secret c.namespace name d) w1).1 ≡ w' =
        ap (λ x. x.1) written in
      (
        server cl,
        server_of-ok c.context_name rest cl (rest_config_of-ok c rest e er) client,
        sv.write_ok cl c.namespace name d w1 w' written,
        λ s' ns name' other.
            ap (contents s' ns name') (sym after)
            ∙ elim other [
              | inl ne ↦ sv.write_other_server cl (secret c.namespace name d) s' ns name' w1 ne
              | inr ne ↦ sv.write_other_name cl c.namespace name d s' ns name' w1 ne
            ]
            ∙ kept s' ns name',
      )

  pub create_kubeconfig_secret-Writes :
      (c : RemoteKubernetesConfiguration k) (d : List ℕ) (w w' : W)
      → c.rest_config ≡ none
      → create_kubeconfig_secret k d (some c) w ≡ (ok tt, w')
      → let name = str_append (default_to default_service_account_name c.name) "-kubeconfig" in
        (s : ℕ) × (server_of c.context_name ≡ ok s)
        × (contents s (default_to default_service_account_namespace c.namespace) name w'
            ≡ some (kubeconfig_contents k d))
        × SameBut s name w w'
  unfolding create_kubeconfig_secret with_names
  create_kubeconfig_secret-Writes c d w w' e h =
      put_secret-Writes (with_names k (some c)) _ _ (kubeconfig_contents k d) w w' e h

  pub create_tls_secret-Writes :
      (c : RemoteKubernetesConfiguration k) (ca crt key : List ℕ) (w w' : W)
      → c.rest_config ≡ none
      → create_tls_secret k ca crt key (some c) w ≡ (ok tt, w')
      → let name = str_append (default_to default_service_account_name c.name) "-certificates" in
        (s : ℕ) × (server_of c.context_name ≡ ok s)
        × (contents s (default_to default_service_account_namespace c.namespace) name w'
            ≡ some (tls_contents k ca crt key))
        × SameBut s name w w'
  unfolding create_tls_secret with_names
  create_tls_secret-Writes c ca crt key w w' e h =
      put_secret-Writes (with_names k (some c)) _ _ (tls_contents k ca crt key) w w' e h
