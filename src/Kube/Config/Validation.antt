-- ===== src/Kube/Config/Validation.antt =====
-- What `validate` of kube/locker.go accepts, and what it gives back.
use locking.Prelude.{
  ℕ, ◌≡◌, refl, ◌≢◌, ◌↔◌, inl, inr, ◌*◌, ◌^◌, List, [], ◌∷◌, none, eq_iff, All, arith,
  if◌then◌else◌, ◌==◌,
}
use locking.Prelude.Result.{ok, IsOk, Result-cases}
use locking.Kube.Config.{
  Platform, ClusterNamespaceConfig, LockConfiguration, validate_configs, validate,
}

-- A duration that was given stays, and 0 becomes the default.
abbrev pub defaulted : ℕ → ℕ → ℕ
defaulted d given = if given == 0 then d else given

module _ {p : Platform} where
  -- A cluster has a namespace and a client configuration.
  abbrev pub IsComplete : ClusterNamespaceConfig p → Type 0
  IsComplete c = (c.namespace ≢ "") × (c.config ≢ none)

  validate_configs_iff :
      (cs : List (ClusterNamespaceConfig p)) → (validate_configs cs ≡ ok tt) ↔ All IsComplete cs
  unfolding validate_configs
  validate_configs_iff [] = (λ h. tt, λ h. refl)
  validate_configs_iff (c ∷ cs) =
      let (to, from) = validate_configs_iff cs in
      (
        λ h. ground (arith, eq_iff c.namespace "", to),
        λ h. ground (arith, eq_iff c.namespace "", from),
      )

  validate_configs-IsOk :
      (cs : List (ClusterNamespaceConfig p)) → IsOk (validate_configs cs) → All IsComplete cs
  validate_configs-IsOk cs h = elim (Result-cases (validate_configs cs)) [
    | inl (u, e) ↦ (validate_configs_iff cs).0 e
    | inr (x, e) ↦ absurd (rw e at h)
  ]

  -- `validate` accepts a configuration exactly when it has a name and at least one cluster, and every
  -- cluster has a namespace and a client configuration.
  pub validate_iff :
      (lc : LockConfiguration p)
      → IsOk (validate lc) ↔ ((lc.name ≢ "") × (lc.configs ≢ []) × All IsComplete lc.configs)
  unfolding validate
  validate_iff lc = (
    λ h. (
      λ e. ground (arith, eq_iff lc.name ""),
      λ e. ground arith,
      ground (arith, validate_configs-IsOk lc.configs),
    ),
    λ h. ground (arith, eq_iff lc.name "", (validate_configs_iff lc.configs).1 h.2),
  )

  -- An accepted configuration comes back with its name, clusters and identity, and with each
  -- duration as given, or 15, 30 and 5 seconds in place of 0.
  pub validate-durations :
      (lc r : LockConfiguration p)
      → validate lc ≡ ok r
      → (r.id ≡ lc.id)
        × (r.name ≡ lc.name)
        × (r.configs ≡ lc.configs)
        × (r.renew_deadline ≡ defaulted (15 * 10 ^ 9) lc.renew_deadline)
        × (r.lease_duration ≡ defaulted (30 * 10 ^ 9) lc.lease_duration)
        × (r.retry_period ≡ defaulted (5 * 10 ^ 9) lc.retry_period)
  unfolding validate
  validate-durations lc r h = ground arith
