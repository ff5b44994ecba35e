-- ===== src/Bootstrap/Secrets/Tokens.antt =====
-- What `CreateRemoteKubeconfig` of multicluster/bootstrap/kubeconfig.go answers, and when.
use Prim.Native.String.{◌++◌ as str_append}
use locking.Prelude.{
  ℕ, zero, suc, ◌≤◌, ◌<◌, ◌≡◌, refl, sym, ap, ◌∙◌, List, none, some, arith, Option-cases, inl, inr,
}
use locking.Prelude.Map.{lookup, string_key}
use locking.Prelude.Result.{Result, ok, err, ok-injective, wrap_err, wrap_err-eq-ok}
use locking.Prelude.Action.{Action, when, wrapped, >>=-eq-ok, lift-eq-ok}
use locking.Bootstrap.Kubernetes.{Kubernetes, Contents, service_account, token_secret}
use locking.Bootstrap.Secrets.{
  RemoteKubernetesConfiguration, with_names, rest_config_of, open_cluster, populated, rendered,
  respond, timed_out, await_token, with_server, create_remote_kubeconfig, make_namespace,
}

module _ {W : Type 0} (k : Kubernetes W) where
  open k use {RestConfig, Client, create_or_update, get_secret}

  module _ (c : RemoteKubernetesConfiguration k) (cl : Client) where
    abbrev read : W → Result Contents × W
    read = get_secret cl c.namespace (str_append c.name "-token")

    -- The first `n` reads, from the world `w` on, come to no token, and lead to the world `w'`.
    pub data Unpopulated : ℕ → W → W → Type 0 where
      here : {w : W} → Unpopulated zero w w
      next :
          {n : ℕ} {w w' w'' : W} (d : Contents)
          → read w ≡ (ok d, w')
          → populated k d ≡ none
          → Unpopulated n w' w''
          → Unpopulated (suc n) w w''

    pub respond-none :
        (d : Contents) (w : W) (again : Action W (List ℕ))
        → populated k d ≡ none
        → respond k c (ok d, w) again ≡ again w
    respond-none d w again p = ground arith

    pub respond-some :
        (d : Contents) (found : List ℕ × List ℕ) (w : W) (again : Action W (List ℕ))
        → populated k d ≡ some found
        → respond k c (ok d, w) again ≡ (ok (rendered k c found), w)
    respond-some d found w again p = rw (p, respond) refl

    pub await_token-cases :
        (n : ℕ) (w w' w'' : W) (d : Contents) (found : List ℕ × List ℕ) (patience : ℕ)
        → Unpopulated n w w'
        → read w' ≡ (ok d, w'')
        → populated k d ≡ some found
        → (n < patience → await_token k c cl patience w ≡ (ok (rendered k c found), w''))
          × (patience ≤ n → (await_token k c cl patience w).0 ≡ timed_out k)
    unfolding await_token
    await_token-cases zero w w' w'' d found zero here h p =
        ((λ lt. absurd (omega arith)), λ _. refl)
    await_token-cases zero w w' w'' d found (suc patience) here h p = (
      (λ _.
          ap (λ r. respond k c r (λ w1. await_token k c cl patience w1)) h
          ∙ respond-some d found w'' (λ w1. await_token k c cl patience w1) p),
      λ le. absurd (omega arith),
    )
    await_token-cases (suc n) w w' w'' d found zero (next d' r q u) h p =
        ((λ lt. absurd (omega arith)), λ _. refl)
    await_token-cases (suc n) w w' w'' d found (suc patience) (next {w' = w1} d' r q u) h p =
        let rest = await_token-cases n w1 w' w'' d found patience u h p in
        let step : await_token k c cl (suc patience) w ≡ await_token k c cl patience w1 =
          ap (λ x. respond k c x (λ w2. await_token k c cl patience w2)) r
          ∙ respond-none d' w1 (λ w2. await_token k c cl patience w2) q in
        ((λ lt. step ∙ rest.0 (omega arith)), λ le. ap (λ x. x.0) step ∙ rest.1 (omega arith))

    -- The last read finds a token and a certificate, which the kubeconfig is made of, and nothing is
    -- done after it.
    abbrev pub EndsWithRead : List ℕ → W → Type 0
    EndsWithRead kc w' =
        (w : W) × (d : Contents) × (found : List ℕ × List ℕ) × (read w ≡ (ok d, w'))
        × (lookup "token" d ≡ some found.0)
        × (lookup "ca.crt" d ≡ some found.1)
        × (kc ≡ rendered k c found)

    populated-found :
        (d : Contents) (found : List ℕ × List ℕ)
        → populated k d ≡ some found
        → (lookup "token" d ≡ some found.0) × (lookup "ca.crt" d ≡ some found.1)
    populated-found d found p = ground arith

    respond-rendered :
        (w : W) (r : Result Contents × W) (again : Action W (List ℕ)) (w' : W) (kc : List ℕ)
        → read w ≡ r
        → ((w1 : W) → again w1 ≡ (ok kc, w') → EndsWithRead kc w')
        → respond k c r again ≡ (ok kc, w')
        → EndsWithRead kc w'
    respond-rendered w (err e, w1) again w' kc at ih h = cc (ap (λ x. x.0) h)
    respond-rendered w (ok d, w1) again w' kc at ih h = elim (Option-cases (populated k d)) [
      | inl p ↦ ih w1 (sym (respond-none d w1 again p) ∙ h)
      | inr (found, p) ↦
          let same = sym (respond-some d found w1 again p) ∙ h in
          (
            w,
            d,
            found,
            at ∙ ap (λ x. (ok d, x)) (ap (λ x. x.1) same),
            (populated-found d found p).0,
            (populated-found d found p).1,
            ok-injective (ap (λ x. x.0) (sym same)),
          )
    ]

    await_token-rendered :
        (patience : ℕ) (w w' : W) (kc : List ℕ)
        → await_token k c cl patience w ≡ (ok kc, w')
        → EndsWithRead kc w'
    unfolding await_token
    await_token-rendered zero w w' kc h = cc (ap (λ x. x.0) h)
    await_token-rendered (suc patience) w w' kc h =
        respond-rendered w (read w) (λ w1. await_token k c cl patience w1) w' kc refl
          (λ w1 e. await_token-rendered patience w1 w' kc e) h

  open_cluster-client :
      (c : RemoteKubernetesConfiguration k) (rest : RestConfig) (cl : Client) (w w' : W)
      → open_cluster k c rest w ≡ (ok cl, w')
      → k.new_client rest ≡ ok cl
  unfolding open_cluster
  open_cluster-client c rest cl w w' h =
      let (cl', e, h1) = lift-eq-ok (wrap_err "initializing client" (k.new_client rest)) _ w h in
      let (u, w1, e1, h2) =
        >>=-eq-ok
          (when c.ensure_namespace
            (wrapped "ensuring namespace exists" (make_namespace k c.namespace cl')))
          _ w h1 in
      wrap_err-eq-ok "initializing client" (k.new_client rest) e
      ∙ ap ok (ok-injective (ap (λ x. x.0) h2))

  pub create_remote_kubeconfig-rendered :
      (patience : ℕ) (given : RemoteKubernetesConfiguration k) (w w' : W) (kc : List ℕ)
      → create_remote_kubeconfig k patience (some given) w ≡ (ok kc, w')
      → (rest : RestConfig) × (cl : Client) × (rest_config_of k (with_names k (some given))
          ≡ ok rest)
        × (k.new_client rest ≡ ok cl)
        × EndsWithRead (with_server k (with_names k (some given)) rest) cl kc w'
  unfolding create_remote_kubeconfig
  create_remote_kubeconfig-rendered patience given w w' kc h =
      let named = with_names k (some given) in
      let (rest, er, h1) = lift-eq-ok (rest_config_of k named) _ w h in
      let c = with_server k named rest in
      let (cl, w1, e1, h2) = >>=-eq-ok (open_cluster k c rest) _ w h1 in
      let (u, w2, e2, h3) =
        >>=-eq-ok
          (wrapped "creating service account"
            (create_or_update cl (service_account c.namespace c.name)))
          _ w1 h2 in
      let (v, w3, e3, h4) =
        >>=-eq-ok
          (wrapped "creating service account token"
            (create_or_update cl (token_secret c.namespace (str_append c.name "-token") c.name)))
          _ w2 h3 in
      (
        rest,
        cl,
        er,
        open_cluster-client c rest cl w w1 e1,
        await_token-rendered c cl patience w3 w' kc h4,
      )
