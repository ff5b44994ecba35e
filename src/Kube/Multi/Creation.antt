-- ===== src/Kube/Multi/Creation.antt =====
-- What `Create` of kube/multi.go leaves in the leases of several clusters.
use locking.Prelude.{
  ℕ, ◌≡◌, refl, sym, ◌∙◌, ◌≢◌, ◌⊎◌, inl, inr, true, List, [], ◌∷◌, map, All, arith, none, ap,
  Bool-cases, subst, All-mono, All-map₂,
}
use locking.Prelude.Result.{Error, Result, ok, err, Result-cases}
use locking.Kube.ResourceLock.{Api, Lock}
use locking.Kube.Multi.Leases.{Leases, Distinct, multi, Fresh-swap}
use locking.Kube.Multi.{create_all, create}

-- The loop goes on after such an answer.
abbrev Accepted : (api : Api) → Result (Unit {0}) → Type 0
Accepted api (ok _) = Unit
Accepted api (err e) = api.is_already_exists e ≡ true

module _ {api : Api} {W : Type 0} (l : Lock api W) (ls : List (Lock api W)) where
  open api use {LeaderElectionRecord}

  create_all-next :
      (r : LeaderElectionRecord) (w : W)
      → Accepted api (l.create r w).0
      → create_all (l ∷ ls) r w ≡ create_all ls r (l.create r w).1
  unfolding create_all
  create_all-next r w h = ground arith

  -- Either the loop goes on, or it stops at the call's error.
  create_all-cases :
      (r : LeaderElectionRecord) (w : W)
      → Accepted api (l.create r w).0
        ⊎ ((e : Error) × (create_all (l ∷ ls) r w ≡ (err e, (l.create r w).1)))
  unfolding create_all
  create_all-cases r w = elim (Result-cases (l.create r w).0) [
    | inl (u, e) ↦ inl (rw e tt)
    | inr (x, e) ↦ elim (Bool-cases (api.is_already_exists x)) [
      | inl dup ↦ inl (rw e dup)
      | inr other ↦ inr (x, rw (e, other, create_all))
    ]
  ]

module _ {api : Api} {W : Type 0} (c : Leases api W) where
  open api use {LeaderElectionRecord}

  -- Creating in some clusters leaves the lease of any other as it was.
  create_all-frame :
      (is : List ℕ) (j : ℕ) (r : LeaderElectionRecord) (w : W)
      → All (λ i. i ≢ j) is
      → c.lease j (create_all (map c.lock is) r w).1 ≡ c.lease j w
  unfolding create_all
  create_all-frame [] j r w h = refl
  create_all-frame (i ∷ is) j r w h =
      let here = c.create_frame i j r w h.0 in
      let later = create_all-frame is j r ((c.lock i).create r w).1 h.1 in
      elim (create_all-cases (c.lock i) (map c.lock is) r w) [
        | inl next ↦
            ap (λ t. c.lease j t.1) (create_all-next (c.lock i) (map c.lock is) r w next)
            ∙ later
            ∙ here
        | inr (x, e) ↦ ap (λ t. c.lease j t.1) e ∙ here
      ]

  create-Accepted :
      (i : ℕ) (r : LeaderElectionRecord) (w : W)
      → Accepted api ((c.lock i).create r w).0
      → c.lease i ((c.lock i).create r w).1 ≢ none
  create-Accepted i r w h n = elim (Result-cases ((c.lock i).create r w).0) [
    | inl (u, e) ↦ cc (sym n ∙ c.create_ok i r w e)
    | inr (x, e) ↦ c.create_taken i r w x e (rw e at h) (sym (c.create_err i r w x e) ∙ n)
  ]

  create_all-exists :
      (is : List ℕ) (r : LeaderElectionRecord) (w : W)
      → Distinct is
      → (create_all (map c.lock is) r w).0 ≡ ok tt
      → All (λ j. c.lease j (create_all (map c.lock is) r w).1 ≢ none) is
  create_all-exists [] r w d h = tt
  create_all-exists (i ∷ is) r w d h =
      let w' = ((c.lock i).create r w).1 in
      let kept = create_all-frame is i r w' (Fresh-swap i is d.0) in
      elim (create_all-cases (c.lock i) (map c.lock is) r w) [
        | inr (x, e) ↦ absurd (ground arith)
        | inl next ↦
            let e = create_all-next (c.lock i) (map c.lock is) r w next in
            subst (λ t. All (λ j. c.lease j t.1 ≢ none) (i ∷ is)) (sym e)
              (
                λ n. create-Accepted i r w next (sym kept ∙ n),
                create_all-exists is r w' d.1 (ap (λ t. t.0) (sym e) ∙ h),
              )
      ]

  -- For locks on distinct leases: a creation that reports success leaves a lease in every cluster,
  -- whoever holds it.
  pub create-exists :
      (i : ℕ) (is : List ℕ) (r : LeaderElectionRecord) (w : W)
      → Distinct (i ∷ is)
      → (create (multi c i is) r w).0 ≡ ok tt
      → All (λ j. c.lease j (create (multi c i is) r w).1 ≢ none) (i ∷ is)
  unfolding create
  create-exists i is r w d h = create_all-exists (i ∷ is) r w d h

  -- The API servers refuse `r` wherever a lease exists, and say so.
  abbrev pub RefusesTaken : LeaderElectionRecord → Type 0
  RefusesTaken r =
      (i : ℕ) (w : W)
      → c.lease i w ≢ none
      → (e : Error) × (((c.lock i).create r w).0 ≡ err e) × (api.is_already_exists e ≡ true)

  create_all-taken :
      (is : List ℕ) (r : LeaderElectionRecord) (w : W)
      → RefusesTaken r
      → Distinct is
      → All (λ j. c.lease j w ≢ none) is
      → ((create_all (map c.lock is) r w).0 ≡ ok tt)
        × All (λ j. c.lease j (create_all (map c.lock is) r w).1 ≡ c.lease j w) is
  unfolding create_all
  create_all-taken [] r w refuses d h = (refl, tt)
  create_all-taken (i ∷ is) r w refuses d h =
      let w' = ((c.lock i).create r w).1 in
      let (x, e, dup) = refuses i w h.0 in
      let next = create_all-next (c.lock i) (map c.lock is) r w (rw e dup) in
      let same =
        All-mono (λ j. i ≢ j) (λ j. c.lease j w' ≡ c.lease j w) is (λ j n. c.create_frame i j r w n)
          d.0 in
      let rest = create_all-taken is r w' refuses d.1 (
        All-map₂ (λ j. c.lease j w ≢ none) (λ j. c.lease j w' ≡ c.lease j w)
          (λ j. c.lease j w' ≢ none) is (λ j taken e n. taken (sym e ∙ n)) h.1 same) in
      let w'' = (create_all (map c.lock is) r w').1 in
      subst (λ t. (t.0 ≡ ok tt) × All (λ j. c.lease j t.1 ≡ c.lease j w) (i ∷ is)) (sym next)
        (
          rest.0,
          (
            create_all-frame is i r w' (Fresh-swap i is d.0) ∙ c.create_err i r w x e,
            All-map₂ (λ j. c.lease j w'' ≡ c.lease j w') (λ j. c.lease j w' ≡ c.lease j w)
                (λ j. c.lease j w'' ≡ c.lease j w) is (λ j p q. p ∙ q) rest.1 same,
          ),
        )

  -- For locks on distinct leases whose servers refuse a lease that is taken: where every lease is
  -- taken already, `Create` reports success and changes none of them.
  pub create_taken :
      (i : ℕ) (is : List ℕ) (r : LeaderElectionRecord) (w : W)
      → RefusesTaken r
      → Distinct (i ∷ is)
      → All (λ j. c.lease j w ≢ none) (i ∷ is)
      → ((create (multi c i is) r w).0 ≡ ok tt)
        × All (λ j. c.lease j (create (multi c i is) r w).1 ≡ c.lease j w) (i ∷ is)
  unfolding create
  create_taken i is r w refuses d h = create_all-taken (i ∷ is) r w refuses d h
