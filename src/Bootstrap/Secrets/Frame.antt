-- ===== src/Bootstrap/Secrets/Frame.antt =====
-- Which secrets `CreateRemoteKubeconfig` of multicluster/bootstrap/kubeconfig.go leaves alone.
use Prim.Native.String.{◌++◌ as str_append}
use locking.Prelude.{
  ℕ, zero, suc, String, ◌≡◌, refl, sym, ◌∙◌, ◌≢◌, Bool, true, false, List, some, subst,
  Option-cases, inl, inr,
}
use locking.Prelude.Result.{Result, ok, err, wrap_err}
use locking.Prelude.Action.{Action, lift, wrapped, when, after, Keeps, >>=-Keeps}
use locking.Bootstrap.Kubernetes.{
  Kubernetes, Servers, Contents, namespace, service_account, token_secret,
}
use locking.Bootstrap.Secrets.Tokens.{respond-none, respond-some}
use locking.Bootstrap.Secrets.{
  RemoteKubernetesConfiguration, default_to, default_service_account_name, with_names, with_server,
  rest_config_of, open_cluster, make_namespace, respond, populated, await_token,
  create_remote_kubeconfig,
}

module _ {W : Type 0} {k : Kubernetes W} (sv : Servers k) where
  open sv use {contents}

  -- No secret is changed but, maybe, those of the given name.
  abbrev pub SameButToken : String → W → W → Type 0
  SameButToken token w w' =
      (s : ℕ) (ns name : String) → token ≢ name → contents s ns name w' ≡ contents s ns name w

  both :
      (token : String) (a b d : W)
      → SameButToken token a b
      → SameButToken token b d
      → SameButToken token a d
  both token a b d h g s ns name ne = g s ns name ne ∙ h s ns name ne

  pub chain :
      {A C : Type 0} (token : String) (m : Action W A) (next : A → Action W C)
      → Keeps (SameButToken token) m
      → ((a : A) → Keeps (SameButToken token) (next a))
      → Keeps (SameButToken token) (λ w. after (m w) next)
  chain token m next h g = >>=-Keeps (SameButToken token) (both token) m next h g

  when-Keeps :
      (token : String) (b : Bool) (m : Action W (Unit {0}))
      → Keeps (SameButToken token) m
      → Keeps (SameButToken token) (when b m)
  when-Keeps token true m h = h
  when-Keeps token false m h = λ w s ns name ne. refl

  respond-Keeps :
      (token : String) (c : RemoteKubernetesConfiguration k) (cl : k.Client) (r : Result Contents)
      (w w' : W) (again : Action W (List ℕ))
      → SameButToken token w w'
      → Keeps (SameButToken token) again
      → SameButToken token w (respond k c (r, w') again).1
  respond-Keeps token c cl (err e) w w' again h g = h
  respond-Keeps token c cl (ok d) w w' again h g = elim (Option-cases (populated k d)) [
    | inl p ↦
        subst (λ x. SameButToken token w x.1) (sym (respond-none k c cl d w' again p))
          (both token w w' (again w').1 h (g w'))
    | inr (found, p) ↦
        subst (λ x. SameButToken token w x.1) (sym (respond-some k c cl d found w' again p)) h
  ]

  await_token-Keeps :
      (token : String) (c : RemoteKubernetesConfiguration k) (cl : k.Client) (patience : ℕ)
      → Keeps (SameButToken token) (await_token k c cl patience)
  unfolding await_token
  await_token-Keeps token c cl zero w = λ s ns name ne. refl
  await_token-Keeps token c cl (suc patience) w =
      let read = k.get_secret cl c.namespace (str_append c.name "-token") w in
      respond-Keeps token c cl read.0 w read.1 (await_token k c cl patience)
        (λ s ns name _. sv.read_secret cl c.namespace (str_append c.name "-token") s ns name w)
        (await_token-Keeps token c cl patience)

  open_cluster-Keeps :
      (token : String) (c : RemoteKubernetesConfiguration k) (rest : k.RestConfig)
      → Keeps (SameButToken token) (open_cluster k c rest)
  unfolding open_cluster make_namespace
  open_cluster-Keeps token c rest =
      chain token (lift (wrap_err "initializing client" (k.new_client rest))) _
        (λ w s ns name ne. refl)
        (λ cl.
          chain token
            (when c.ensure_namespace
              (wrapped "ensuring namespace exists" (k.create_or_update cl (namespace c.namespace))))
            _
            (when-Keeps token c.ensure_namespace _
              (λ w s ns name ne. sv.write_namespace cl c.namespace s ns name w))
            (λ u w s ns name ne. refl))

  -- Whether it succeeds or not, `CreateRemoteKubeconfig` changes no secret but one of a token.
  pub create_remote_kubeconfig-Keeps :
      (patience : ℕ) (given : RemoteKubernetesConfiguration k)
      → Keeps
          (SameButToken (str_append (default_to default_service_account_name given.name) "-token"))
          (create_remote_kubeconfig k patience (some given))
  unfolding create_remote_kubeconfig with_names
  create_remote_kubeconfig-Keeps patience given =
      let named = with_names k (some given) in
      let token = str_append named.name "-token" in
      chain token (lift (rest_config_of k named)) _ (λ w s ns name ne. refl)
        (λ rest.
          let c = with_server k named rest in
          chain token (open_cluster k c rest) _ (open_cluster-Keeps token c rest) (λ cl.
            chain token
              (wrapped "creating service account"
                (k.create_or_update cl (service_account c.namespace c.name)))
              _ (λ w s ns name ne. sv.write_service_account cl c.namespace c.name s ns name w)
              (λ u.
                chain token
                  (wrapped "creating service account token"
                    (k.create_or_update cl (token_secret c.namespace token c.name)))
                  _
                  (λ w s ns name ne.
                    sv.write_token_secret cl c.namespace token c.name s ns name w ne)
                  (λ v. await_token-Keeps token c cl patience))))
