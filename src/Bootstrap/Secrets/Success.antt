-- ===== src/Bootstrap/Secrets/Success.antt =====
-- When the functions of multicluster/bootstrap/kubeconfig.go and `CreateTLSSecret` succeed.
use Prim.Native.String.{◌++◌ as str_append}
use locking.Prelude.{
  ℕ, ◌<◌, String, ◌≡◌, ◌≢◌, refl, ap, ◌∙◌, Bool, true, false, List, none, some, arith, eq_iff,
}
use locking.Prelude.Result.{Result, ok, wrap_err}
use locking.Prelude.Action.{
  Action, lift, wrapped, when, ◌>>=◌, ◌>>◌, after, Succeeds, >>=-Succeeds, wrapped-eq-ok,
}
use locking.Bootstrap.Kubernetes.{
  Kubernetes, Object, Contents, namespace, service_account, token_secret,
}
use locking.Bootstrap.Secrets.{
  RemoteKubernetesConfiguration, with_names, with_server, rest_config_of, open_cluster,
  make_namespace, populated, rendered, create_kubeconfig_secret, create_tls_secret,
  create_remote_kubeconfig, await_token,
}
use locking.Bootstrap.Secrets.Tokens.{Unpopulated, await_token-cases}

module _ {W : Type 0} (k : Kubernetes W)
    (writes : (cl : k.Client) (o : Object) (w : W) → (k.create_or_update cl o w).0 ≡ ok tt) where
  open k use {RestConfig, Client, load_context, new_client, create_or_update, get_secret}

  -- A context with a name, which leads to a server.
  abbrev pub Reachable : String → Type 0
  Reachable ctx =
      (ctx ≢ "")
      × (rest : RestConfig) × (cl : Client) × (load_context ctx ≡ ok rest)
      × (new_client rest ≡ ok cl)

  -- After its creation, the secret of a token gets its contents before the given number of reads.
  abbrev pub Fills : ℕ → Type 0
  Fills patience =
      (c : RemoteKubernetesConfiguration k) (cl : Client) (w w' : W)
      → create_or_update cl (token_secret c.namespace (str_append c.name "-token") c.name) w
        ≡ (ok tt, w')
      → (n : ℕ) × (w1 : W) × (w2 : W) × (d : Contents) × (found : List ℕ × List ℕ) × (n < patience)
        × Unpopulated k c cl n w' w1
        × (get_secret cl c.namespace (str_append c.name "-token") w1 ≡ (ok d, w2))
        × (populated k d ≡ some found)

  wrapped_write :
      (msg : String) (cl : Client) (o : Object) (w : W)
      → Succeeds (wrapped msg (create_or_update cl o)) w
  wrapped_write msg cl o w = (
    tt,
    (create_or_update cl o w).1,
    ap (λ r. (wrap_err msg r, (create_or_update cl o w).1)) (writes cl o w),
  )

  rest_config_of-Succeeds :
      (c : RemoteKubernetesConfiguration k) (rest : RestConfig)
      → c.rest_config ≡ none
      → c.context_name ≢ ""
      → load_context c.context_name ≡ ok rest
      → rest_config_of k c ≡ ok rest
  unfolding rest_config_of
  rest_config_of-Succeeds c rest e ne h = ground (arith, eq_iff c.context_name "")

  pub when-Succeeds :
      (b : Bool) (m : Action W (Unit {0})) (w : W) → Succeeds m w → Succeeds (when b m) w
  when-Succeeds true m w h = h
  when-Succeeds false m w h = (tt, w, refl)

  lift-Succeeds : {A : Type 0} (r : Result A) (a : A) (w : W) → r ≡ ok a → Succeeds (lift r) w
  lift-Succeeds r a w e = (a, w, ap (λ x. (x, w)) e)

  -- A chain that starts with a call that does not look at the world.
  pub lift->>=-Succeeds :
      {A C : Type 0} (r : Result A) (a : A) (next : A → Action W C) (w : W)
      → r ≡ ok a
      → Succeeds (next a) w
      → Succeeds (lift r >>= next) w
  unfolding after
  lift->>=-Succeeds r a next w e (c, w', h) = (c, w', ap (λ x. after (x, w) next) e ∙ h)

  open_cluster-Succeeds :
      (c : RemoteKubernetesConfiguration k) (rest : RestConfig) (cl : Client) (w : W)
      → new_client rest ≡ ok cl
      → Succeeds (open_cluster k c rest) w
  unfolding open_cluster make_namespace
  open_cluster-Succeeds c rest cl w e =
      let make =
        wrapped "ensuring namespace exists" (create_or_update cl (namespace c.namespace)) in
      lift->>=-Succeeds (wrap_err "initializing client" (new_client rest)) cl _ w
        (ap (wrap_err "initializing client") e)
        (>>=-Succeeds (when c.ensure_namespace make) _ w
          (when-Succeeds c.ensure_namespace make w
            (wrapped_write "ensuring namespace exists" cl (namespace c.namespace) w))
          (λ u w1 _. (cl, w1, refl)))

  -- What the three functions have in common: a client, and then the rest.
  on_cluster-Succeeds :
      {A : Type 0} (c : RemoteKubernetesConfiguration k)
      (d : RestConfig → RemoteKubernetesConfiguration k) (go : RestConfig → Client → Action W A)
      (w : W)
      → c.rest_config ≡ none
      → Reachable c.context_name
      → ((rest : RestConfig) (cl : Client) (w' : W) → Succeeds (go rest cl) w')
      → Succeeds (lift (rest_config_of k c) >>= λ rest. open_cluster k (d rest) rest >>= go rest) w
  on_cluster-Succeeds c d go w e (ne, rest, cl, er, ec) h =
      lift->>=-Succeeds (rest_config_of k c) rest _ w (rest_config_of-Succeeds c rest e ne er) (
        >>=-Succeeds (open_cluster k (d rest) rest) (go rest) w
          (open_cluster-Succeeds (d rest) rest cl w ec) (λ cl' w' _. h rest cl' w'))

  pub create_kubeconfig_secret-Succeeds :
      (c : RemoteKubernetesConfiguration k) (d : List ℕ) (w : W)
      → c.rest_config ≡ none
      → Reachable c.context_name
      → Succeeds (create_kubeconfig_secret k d (some c)) w
  unfolding create_kubeconfig_secret with_names
  create_kubeconfig_secret-Succeeds c d w e at =
      let named = with_names k (some c) in
      on_cluster-Succeeds named (λ _. named) _ w e at (λ rest cl w'. wrapped_write _ cl _ w')

  pub create_tls_secret-Succeeds :
      (c : RemoteKubernetesConfiguration k) (ca crt key : List ℕ) (w : W)
      → c.rest_config ≡ none
      → Reachable c.context_name
      → Succeeds (create_tls_secret k ca crt key (some c)) w
  unfolding create_tls_secret with_names
  create_tls_secret-Succeeds c ca crt key w e at =
      let named = with_names k (some c) in
      on_cluster-Succeeds named (λ _. named) _ w e at (λ rest cl w'. wrapped_write _ cl _ w')

  -- The secret of the token is made, and the token awaited.
  fetch_token-Succeeds :
      (c : RemoteKubernetesConfiguration k) (cl : Client) (patience : ℕ) (msg : String) (w : W)
      → Fills patience
      → Succeeds
          (wrapped msg
              (create_or_update cl (token_secret c.namespace (str_append c.name "-token") c.name))
            >> await_token k c cl patience)
          w
  fetch_token-Succeeds c cl patience msg w fills =
      let make =
        create_or_update cl (token_secret c.namespace (str_append c.name "-token") c.name) in
      >>=-Succeeds (wrapped msg make) (λ _. await_token k c cl patience) w
        (wrapped_write msg cl _ w)
        (λ u w1 e.
          let (n, w2, w3, d, found, lt, unpopulated, r, p) =
            fills c cl w w1 (wrapped-eq-ok msg make w e) in
          (
            rendered k c found,
            w3,
            (await_token-cases k c cl n w1 w2 w3 d found patience unpopulated r p).0 lt,
          ))

  pub create_remote_kubeconfig-Succeeds :
      (patience : ℕ) (c : RemoteKubernetesConfiguration k) (w : W)
      → c.rest_config ≡ none
      → Reachable c.context_name
      → Fills patience
      → Succeeds (create_remote_kubeconfig k patience (some c)) w
  unfolding create_remote_kubeconfig with_names
  create_remote_kubeconfig-Succeeds patience c w e at fills =
      let named = with_names k (some c) in
      on_cluster-Succeeds named (with_server k named) _ w e at (λ rest cl w1.
        >>=-Succeeds
          (wrapped "creating service account"
            (create_or_update cl (service_account named.namespace named.name)))
          _ w1 (wrapped_write _ cl _ w1)
          (λ u w2 _. fetch_token-Succeeds (with_server k named rest) cl patience _ w2 fills))
