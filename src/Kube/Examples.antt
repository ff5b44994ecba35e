-- ===== src/Kube/Examples.antt =====
-- Runs of the Kubernetes locks over three small clusters.
use locking.Prelude.{
  ◌++◌, ℕ, String, ◌≡◌, refl, ◌≢◌, ◌↔◌, inl, inr, Bool, false, List, [], ◌∷◌, Option, none, some,
  arith, All, Option-cases, eq_iff, ◌==◌,
}
use locking.Prelude.Result.{Error, Result, ok, err, foreign}
use locking.Prelude.Map.{lookup, insert, lookup-insert, nat_key}
use locking.Kube.ResourceLock.{Api, Lock}
use locking.Kube.Multi.{create, update, as_lock, merge, get}
use locking.Kube.Multi.Agreement.{Names, Names-as_lock}
use locking.Kube.Multi.Leases.{Leases, Distinct, multi}
use locking.Kube.Multi.Creation.{RefusesTaken, create_taken}
use locking.Kube.Multi.Updating.{update_every, update_skips}

abbrev is_foreign : ℕ → Error → Bool
is_foreign n (foreign m) = m == n
is_foreign n _ = false

-- A record is its holder, and so is its text.
abbrev names_only : Api
names_only = record {
  LeaderElectionRecord = String;
  Raw = String;
  holder_identity = λ r. r;
  set_holder_identity = λ s r. s;
  unknown_leader = "unknown";
  marshal = λ r. ok r;
  concat_raw_record = λ a b. a;
  is_not_found = is_foreign 404;
  is_already_exists = is_foreign 409;
  holder_identity-set = λ s r. refl;
}

-- The leases of the clusters, by the cluster's number.
abbrev World : Type 0
World = List (ℕ × String)

abbrev read : Option String → Result (String × String)
read none = err (foreign 404)
read (some r) = ok (r, r)

abbrev put_new : ℕ → String → World → Option String → Result (Unit {0}) × World
put_new i r w none = (ok tt, insert i r w)
put_new i r w (some _) = (err (foreign 409), w)

abbrev put_old : ℕ → String → World → Option String → Result (Unit {0}) × World
put_old i r w none = (err (foreign 404), w)
put_old i r w (some _) = (ok tt, insert i r w)

abbrev lease_lock : ℕ → Lock names_only World
lease_lock i = record {
  get = λ w. (read (lookup i w), w);
  create = λ r w. put_new i r w (lookup i w);
  update = λ r w. put_old i r w (lookup i w);
  record_event = λ s w. w;
  describe = "lease";
  identity = "a";
}

abbrev servers : Leases names_only World
servers = record {
  lock = lease_lock;
  lease = λ i w. lookup i w;
  get_pure = λ i w. refl;
  get_missing = λ i w e h k. ground arith;
  create_ok = λ i r w h. ground (arith, lookup-insert i i r w);
  create_err = λ i r w e h. ground arith;
  create_taken = λ i r w e h k. ground arith;
  update_ok = λ i r w h. ground (arith, lookup-insert i i r w);
  create_frame = λ i j r w n. ground (arith, lookup-insert i j r w);
  update_frame = λ i j r w n. ground (arith, lookup-insert i j r w);
}

abbrev held : World
held = (0, "a") ∷ (1, "a") ∷ (2, "a") ∷ []

get_held : (get (multi servers 0 (1 ∷ 2 ∷ [])) held).0 ≡ ok ("a", "a")
unfolding get merge lookup
get_held = refl

Names-as_lock_example :
    Names "a" held (as_lock (multi servers 0 (1 ∷ 2 ∷ [])))
    ↔ All (Names "a" held) (lease_lock 0 ∷ lease_lock 1 ∷ lease_lock 2 ∷ [])
Names-as_lock_example =
    Names-as_lock "a" (multi servers 0 (1 ∷ 2 ∷ [])) held
      (λ e. ground (arith, eq_iff "a" "unknown")) ((λ w. refl), ((λ w. refl), ((λ w. refl), tt)))
      (refl, (refl, (refl, tt)))

Distinct-012 : Distinct (0 ∷ 1 ∷ 2 ∷ [])
Distinct-012 = omega arith

refuses_taken : RefusesTaken servers "b"
refuses_taken i w h = elim (Option-cases (lookup i w)) [
  | inl e ↦ absurd (h e)
  | inr (r, e) ↦ (foreign 409, rw e, refl)
]

All-held : All (λ j. lookup j held ≢ none) (0 ∷ 1 ∷ 2 ∷ [])
unfolding lookup
All-held = ((λ e. cc), ((λ e. cc), ((λ e. cc), tt)))

-- A second candidate creates the leases that the first one holds, and is told that it succeeded.
create_taken_example :
    ((create (multi servers 0 (1 ∷ 2 ∷ [])) "b" held).0 ≡ ok tt)
    × All
        (λ j. lookup j (create (multi servers 0 (1 ∷ 2 ∷ [])) "b" held).1 ≡ lookup j held)
        (0 ∷ 1 ∷ 2 ∷ [])
create_taken_example =
    create_taken servers 0 (1 ∷ 2 ∷ []) "b" held refuses_taken Distinct-012 All-held

others_held : All (λ j. lookup j held ≢ none) (1 ∷ 2 ∷ [])
others_held = All-held.1

update_every_example :
    All
      (λ j. lookup j (update (multi servers 0 (1 ∷ 2 ∷ [])) "b" held).1 ≡ some "b")
      (0 ∷ 1 ∷ 2 ∷ [])
update_every_example =
    update_every servers 0 (1 ∷ 2 ∷ []) "b" held Distinct-012 others_held
      (unfold update lookup insert in refl)

-- The lease of cluster 2 is missing: it is created after the update of cluster 1, and cluster 3 keeps
-- its old holder "b".
abbrev some_missing : List (ℕ × String)
some_missing = (0, "b") ∷ (1, "b") ∷ (3, "b") ∷ []

Distinct-0123 : Distinct ((0 ∷ 1 ∷ []) ++ 2 ∷ 3 ∷ [])
Distinct-0123 = omega arith

second_held : All (λ j. lookup j some_missing ≢ none) (1 ∷ [])
unfolding lookup
second_held = ((λ e. cc), tt)

update_skips_example :
    let done = update (multi servers 0 (1 ∷ 2 ∷ 3 ∷ [])) "a" some_missing in
    (done.0 ≡ ok tt)
    × All (λ k. lookup k done.1 ≡ some "a") (0 ∷ 1 ∷ [])
    × (lookup 2 done.1 ≡ some "a")
    × All (λ k. lookup k done.1 ≡ lookup k some_missing) (3 ∷ [])
unfolding update lookup insert
update_skips_example =
    update_skips servers 0 (1 ∷ []) 2 (3 ∷ []) "a" some_missing Distinct-0123 second_held refl refl
      refl
