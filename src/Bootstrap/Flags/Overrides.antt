-- ===== src/Bootstrap/Flags/Overrides.antt =====
-- Which overrides a cluster ends up with.
use locking.Prelude.{
  ◌≤◌, String, ◌≡◌, refl, sym, ap, ◌∙◌, List, [], ◌∷◌, ◌++◌, some, ltb, length, map, arith,
  Option-cases, str-cases, inl, inr, Bool-cases, str_eq, if◌then◌else◌,
}
use locking.Prelude.Url.{Url}
use locking.Prelude.Result.{Result-cases, Result, ok, err, >>=-eq-ok, ok-injective, reject_if}
use locking.Prelude.Map.{lookup, insert, lookup-insert, string_key}
use locking.Bootstrap.Flags.{
  RemoteConfiguration, BootstrapClusterConfiguration, Override, Cli, add_contexts, no_override,
  found, apply_overrides, set_api_server, set_service, remote_clusters, api_server_target,
  service_target, overrides, configuration_from_flags,
}

-- The address of the last flag for the context, and the given one if there is none.
abbrev pub last_for : (String → Result (String × String)) → String → List String → String → String
last_for target ctx [] address = address
last_for target ctx (addr ∷ addrs) address =
    last_for target ctx addrs
      (elim (target addr) [ ok (c, a) ↦ if str_eq c ctx then a else address | err _ ↦ address ])

abbrev pub overridden :
    (String → Result (String × String))
    → (String → Override → Override)
    → String
    → List String
    → Override
    → Override
overridden target set ctx [] o = o
overridden target set ctx (addr ∷ addrs) o =
    overridden target set ctx addrs
      (elim (target addr) [ ok (c, a) ↦ if str_eq c ctx then set a o else o | err _ ↦ o ])

lookup-add_contexts :
    (ctx : String) (ctxs : List String) (m : List (String × Override))
    → found (lookup ctx m) ≡ no_override
    → found (lookup ctx (add_contexts ctxs m)) ≡ no_override
unfolding add_contexts
lookup-add_contexts ctx [] m h = h
lookup-add_contexts ctx (c ∷ ctxs) m h =
    lookup-add_contexts ctx ctxs (insert c no_override m)
      (ground (arith, lookup-insert c ctx no_override m))

module _ (target : String → Result (String × String)) (set : String → Override → Override) where
  apply_overrides-step :
      (addr : String) (addrs : List String) (m m' : List (String × Override)) (c a : String)
      → target addr ≡ ok (c, a)
      → apply_overrides target set (addr ∷ addrs) m ≡ ok m'
      → (o : Override) × (lookup c m ≡ some o)
        × (apply_overrides target set addrs (insert c (set a o) m) ≡ ok m')
  unfolding apply_overrides
  apply_overrides-step addr addrs m m' c a e h = elim (Option-cases (lookup c m)) [
    | inl n ↦ ground arith
    | inr (o, s) ↦ (o, s, ground arith)
  ]

  overridden-step :
      (ctx c a : String) (o : Override) (m : List (String × Override))
      → lookup c m ≡ some o
      → found (lookup ctx (insert c (set a o) m))
        ≡ (if str_eq c ctx then set a (found (lookup ctx m)) else found (lookup ctx m))
  overridden-step ctx c a o m e = elim (str-cases c ctx) [
    | inl (t, same) ↦ rw (lookup-insert c ctx (set a o) m, t, ← same, e) refl
    | inr (t, other) ↦ rw (lookup-insert c ctx (set a o) m, t) refl
  ]

  apply_overrides-found :
      (ctx : String) (addrs : List String) (m m' : List (String × Override))
      → apply_overrides target set addrs m ≡ ok m'
      → found (lookup ctx m') ≡ overridden target set ctx addrs (found (lookup ctx m))
  unfolding apply_overrides
  apply_overrides-found ctx [] m m' h = ap (λ x. found (lookup ctx x)) (sym (ok-injective h))
  apply_overrides-found ctx (addr ∷ addrs) m m' h =
      let ((c, a), e, h1) = >>=-eq-ok (target addr) _ h in
      let (o, eo, h2) = apply_overrides-step addr addrs m m' c a e h in
      apply_overrides-found ctx addrs (insert c (set a o) m) m' h2
      ∙ rw (e, overridden-step ctx c a o m eo) refl

overridden-api_server :
    (target : String → Result (String × String)) (ctx : String) (addrs : List String) (o : Override)
    → overridden target set_api_server ctx addrs o
      ≡ record o { api_server_address = last_for target ctx addrs o.api_server_address }
overridden-api_server target ctx [] o = refl
overridden-api_server target ctx (addr ∷ addrs) o = elim (Result-cases (target addr)) [
  | inl ((c, a), h) ↦ elim (Bool-cases (str_eq c ctx)) [
    | inl t ↦ rw (h, t) (overridden-api_server target ctx addrs (set_api_server a o))
    | inr t ↦ rw (h, t) (overridden-api_server target ctx addrs o)
  ]
  | inr (e, h) ↦ rw (h) (overridden-api_server target ctx addrs o)
]

overridden-service :
    (target : String → Result (String × String)) (ctx : String) (addrs : List String) (o : Override)
    → overridden target set_service ctx addrs o
      ≡ record o { service_address = last_for target ctx addrs o.service_address }
overridden-service target ctx [] o = refl
overridden-service target ctx (addr ∷ addrs) o = elim (Result-cases (target addr)) [
  | inl ((c, a), h) ↦ elim (Bool-cases (str_eq c ctx)) [
    | inl t ↦ rw (h, t) (overridden-service target ctx addrs (set_service a o))
    | inr t ↦ rw (h, t) (overridden-service target ctx addrs o)
  ]
  | inr (e, h) ↦ rw (h) (overridden-service target ctx addrs o)
]

module _ (parse : String → Result Url) (split_plus : String → List String) where
  -- The cluster of a context, by the flags alone.
  abbrev pub described : Cli → String → RemoteConfiguration
  described cli ctx = record {
    context_name = ctx;
    api_server = last_for (api_server_target parse split_plus) ctx cli.api_server_overrides "";
    service_address =
        last_for (service_target parse split_plus) ctx cli.service_address_overrides "";
  }

  overrides-described :
      (cli : Cli) (m : List (String × Override)) (ctx : String)
      → overrides parse split_plus cli ≡ ok m
      → found (lookup ctx m) ≡ record {
        service_address = (described cli ctx).service_address;
        api_server_address = (described cli ctx).api_server;
      }
  unfolding overrides
  overrides-described cli m ctx h =
      let api = api_server_target parse split_plus in
      let service = service_target parse split_plus in
      let none_yet = add_contexts cli.contexts [] in
      let (u, eu, h1) =
        >>=-eq-ok (reject_if (ltb (length cli.contexts) 3) "must specify at least 3 contexts") _
          h in
      let (m1, e1, h2) =
        >>=-eq-ok (apply_overrides api set_api_server cli.api_server_overrides none_yet) _ h1 in
      apply_overrides-found service set_service ctx cli.service_address_overrides m1 m h2
      ∙ overridden-service service ctx cli.service_address_overrides (found (lookup ctx m1))
      ∙ rw
          (
            apply_overrides-found api set_api_server ctx cli.api_server_overrides none_yet m1 e1,
            overridden-api_server api ctx cli.api_server_overrides (found (lookup ctx none_yet)),
            lookup-add_contexts ctx cli.contexts [] (unfold lookup in refl),
          )
          refl

  overrides-length :
      (cli : Cli) (m : List (String × Override))
      → overrides parse split_plus cli ≡ ok m
      → 3 ≤ length cli.contexts
  unfolding overrides
  overrides-length cli m h =
      let (u, eu, h1) =
        >>=-eq-ok (reject_if (ltb (length cli.contexts) 3) "must specify at least 3 contexts") _
          h in
      ground arith

  remote_clusters-described :
      (cli : Cli) (m : List (String × Override)) (ctxs : List String)
      → overrides parse split_plus cli ≡ ok m
      → remote_clusters m ctxs ≡ map (described cli) ctxs
  unfolding remote_clusters
  remote_clusters-described cli m [] h = refl
  remote_clusters-described cli m (ctx ∷ ctxs) h =
      rw (overrides-described cli m ctx h, remote_clusters-described cli m ctxs h) refl

  -- Flags that are accepted name at least three contexts, and add one cluster for each of them, in
  -- their order, to those of the calls before: with the address of the API server, and the address of
  -- the service, of the last flag that overrides it for the context, and none if no flag does.
  pub configuration_from_flags-described :
      (cli : Cli) (r : BootstrapClusterConfiguration)
      → (configuration_from_flags parse split_plus cli).0 ≡ ok r
      → (3 ≤ length cli.contexts)
        × (r.remote_clusters
            ≡ cli.configuration.remote_clusters ++ map (described cli) cli.contexts)
        × ((configuration_from_flags parse split_plus cli).1.configuration ≡ r)
  unfolding configuration_from_flags
  configuration_from_flags-described cli r h =
      elim (Result-cases (overrides parse split_plus cli)) [
        | inr (e, he) ↦ ground arith
        | inl (m, hm) ↦
            let built = ok-injective (rw (hm, configuration_from_flags) at h) in
            (
              overrides-length cli m hm,
              ap (λ c. c.remote_clusters) (sym built)
                  ∙ ap (λ cs. cli.configuration.remote_clusters ++ cs)
                      (remote_clusters-described cli m cli.contexts hm),
              rw (hm, configuration_from_flags) built,
            )
      ]
