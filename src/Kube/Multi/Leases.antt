-- ===== src/Kube/Multi/Leases.antt =====
-- The API servers behind the locks of kube/multi.go: one lease in each of several clusters.
use locking.Prelude.{
  ℕ, ◌≡◌, sym, ◌≢◌, true, List, [], ◌∷◌, map, ◌++◌, All, All-mono, All-map₂, Option, none, some,
}
use locking.Prelude.Result.{Error, ok, err}
use locking.Kube.ResourceLock.{Api, Lock}
use locking.Kube.Multi.{MultiLock}

-- Leases numbered by their clusters. A call may fail, and then changes nothing; a call that works
-- reads or writes the lease of its own cluster and of no other.
pub record Leases (api : Api) (W : Type 0) : Type 0 where
  pub lock : ℕ → Lock api W
  pub lease : ℕ → W → Option api.LeaderElectionRecord
  pub get_pure : (i : ℕ) (w : W) → ((lock i).get w).1 ≡ w
  -- A read says "not found" only where there is no lease.
  pub get_missing :
      (i : ℕ) (w : W) (e : Error)
      → ((lock i).get w).0 ≡ err e
      → api.is_not_found e ≡ true
      → lease i w ≡ none
  pub create_ok :
      (i : ℕ) (r : api.LeaderElectionRecord) (w : W)
      → ((lock i).create r w).0 ≡ ok tt
      → lease i ((lock i).create r w).1 ≡ some r
  pub create_err :
      (i : ℕ) (r : api.LeaderElectionRecord) (w : W) (e : Error)
      → ((lock i).create r w).0 ≡ err e
      → lease i ((lock i).create r w).1 ≡ lease i w
  pub create_taken :
      (i : ℕ) (r : api.LeaderElectionRecord) (w : W) (e : Error)
      → ((lock i).create r w).0 ≡ err e
      → api.is_already_exists e ≡ true
      → lease i w ≢ none
  pub update_ok :
      (i : ℕ) (r : api.LeaderElectionRecord) (w : W)
      → ((lock i).update r w).0 ≡ ok tt
      → lease i ((lock i).update r w).1 ≡ some r
  pub create_frame :
      (i j : ℕ) (r : api.LeaderElectionRecord) (w : W)
      → i ≢ j
      → lease j ((lock i).create r w).1 ≡ lease j w
  pub update_frame :
      (i j : ℕ) (r : api.LeaderElectionRecord) (w : W)
      → i ≢ j
      → lease j ((lock i).update r w).1 ≡ lease j w

-- The numbers of a list are pairwise different.
abbrev pub Distinct : List ℕ → Type 0
Distinct [] = Unit
Distinct (i ∷ is) = All (λ j. i ≢ j) is × Distinct is

module _ {api : Api} {W : Type 0} (c : Leases api W) where
  open api use {LeaderElectionRecord}

  abbrev pub multi : ℕ → List ℕ → MultiLock api W
  multi i is = record { primary = c.lock i; secondaries = map c.lock is }

pub Fresh-swap : (i : ℕ) (is : List ℕ) → All (λ j. i ≢ j) is → All (λ j. j ≢ i) is
Fresh-swap i is = All-mono (λ j. i ≢ j) (λ j. j ≢ i) is (λ j n e. n (sym e))

All-units {ℓ} : {A : Type ℓ} (xs : List A) → All (λ x. Unit {0}) xs
All-units [] = tt
All-units (x ∷ xs) = (tt, All-units xs)

All-split : (P : ℕ → Type 0) (xs ys : List ℕ) → All P (xs ++ ys) → All P xs × All P ys
All-split P [] ys h = (tt, h)
All-split P (x ∷ xs) ys h = let (hx, hy) = All-split P xs ys h.1 in ((h.0, hx), hy)

-- The parts of a list of different numbers, and that no number of the one is in the other.
pub Distinct-split :
    (xs ys : List ℕ)
    → Distinct (xs ++ ys)
    → Distinct xs × Distinct ys × All (λ y. All (λ x. x ≢ y) xs) ys
Distinct-split [] ys d = (tt, d, All-units ys)
Distinct-split (x ∷ xs) ys d =
    let (apart, apart') = All-split (λ y. x ≢ y) xs ys d.0 in
    let (dx, dy, others) = Distinct-split xs ys d.1 in
    (
      (apart, dx),
      dy,
      All-map₂ (λ y. x ≢ y) (λ y. All (λ z. z ≢ y) xs) (λ y. All (λ z. z ≢ y) (x ∷ xs)) ys
          (λ y p q. (p, q)) apart' others,
    )
