-- ===== src/Multicluster/Manager/Leading.antt =====
-- Where the runnables of multicluster/manager.go end up.
use locking.Prelude.{
  ◌≡◌, refl, sym, ap, ◌∙◌, inl, inr, Bool, true, false, ◌||◌, List, [], ◌∷◌, ◌++◌, if◌then◌else◌,
  Bool-cases,
}
use mathlib.Core.List.{append_assoc, append-nil}
use locking.Prelude.Result.{Result, ok, err}
use locking.Multicluster.Manager.{
  Runnable, LeaderRoutine, RuntimeManager, routines_of, add_leading, keep, add,
}

-- The runnables added one after the other, whatever the answers.
abbrev pub add_all :
    (Runnable → Result (Unit {0})) → List Runnable → RuntimeManager → RuntimeManager
add_all below [] m = m
add_all below (r ∷ rs) m = add_all below rs (add below r m).1

-- The runnables for the leader only, and their routines.
abbrev pub leading : List Runnable → List Runnable
leading [] = []
leading (r ∷ rs) =
    let rest = leading rs in if r.is_reconciler || r.is_leader_election then r ∷ rest else rest

abbrev pub all_routines : List Runnable → List LeaderRoutine
all_routines [] = []
all_routines (r ∷ rs) = routines_of r ++ all_routines rs

keep-lists :
    (r : Runnable) (m : RuntimeManager) (a : Result (Unit {0}))
    → ((keep r m a).1.runnables ≡ m.runnables ++ []) × ((keep r m a).1.routines ≡ m.routines ++ [])
keep-lists r m (ok _) = (sym (append-nil m.runnables), sym (append-nil m.routines))
keep-lists r m (err e) = (sym (append-nil m.runnables), sym (append-nil m.routines))

-- The branches of an addition, for the two tests of its runnable and the answer from below.
branch-lists :
    (r : Runnable) (m : RuntimeManager) (a : Result (Unit {0})) (b c : Bool)
    → let after =
        (if b
          then (ok tt, add_leading r m)
          else if c
          then (ok tt, add_leading r m)
          else keep r m a).1 in
      let kept = (if b || c then r ∷ [] else []) in
      (after.runnables ≡ m.runnables ++ kept) × (after.routines ≡ m.routines ++ all_routines kept)
unfolding add_leading
branch-lists r m a true c = (refl, ap (λ xs. m.routines ++ xs) (sym (append-nil (routines_of r))))
branch-lists r m a false true =
    (refl, ap (λ xs. m.routines ++ xs) (sym (append-nil (routines_of r))))
branch-lists r m a false false = keep-lists r m a

-- What an addition does to the two lists.
add-cases :
    (below : Runnable → Result (Unit {0})) (r : Runnable) (m : RuntimeManager)
    → ((add below r m).1.runnables ≡ m.runnables ++ leading (r ∷ []))
      × ((add below r m).1.routines ≡ m.routines ++ all_routines (leading (r ∷ [])))
unfolding add
add-cases below r m = branch-lists r m (below r) r.is_reconciler r.is_leader_election

leading-cons :
    (r : Runnable) (rs : List Runnable) → leading (r ∷ rs) ≡ leading (r ∷ []) ++ leading rs
leading-cons r rs = elim (Bool-cases (r.is_reconciler || r.is_leader_election)) [
  | inl e ↦ rw (e) refl
  | inr e ↦ rw (e) refl
]

all_routines-append :
    (xs ys : List Runnable) → all_routines (xs ++ ys) ≡ all_routines xs ++ all_routines ys
all_routines-append [] ys = refl
all_routines-append (x ∷ xs) ys =
    ap (λ rs. routines_of x ++ rs) (all_routines-append xs ys)
    ∙ sym (append_assoc (routines_of x) (all_routines xs) (all_routines ys))

-- However the manager below answers, the runnables that are reconcilers or ask for a leader are kept
-- back, in the order of their addition, and each has its routines in that order, the warmup before the
-- start; the other runnables get none.
pub add_all-leading :
    (below : Runnable → Result (Unit {0})) (rs : List Runnable) (m : RuntimeManager)
    → ((add_all below rs m).runnables ≡ m.runnables ++ leading rs)
      × ((add_all below rs m).routines ≡ m.routines ++ all_routines (leading rs))
add_all-leading below [] m = (sym (append-nil m.runnables), sym (append-nil m.routines))
add_all-leading below (r ∷ rs) m =
    let here = add-cases below r m in
    let later = add_all-leading below rs (add below r m).1 in
    (
      later.0
          ∙ ap (λ xs. xs ++ leading rs) here.0
          ∙ append_assoc m.runnables (leading (r ∷ [])) (leading rs)
          ∙ ap (λ xs. m.runnables ++ xs) (sym (leading-cons r rs)),
      later.1
          ∙ ap (λ xs. xs ++ all_routines (leading rs)) here.1
          ∙ append_assoc m.routines (all_routines (leading (r ∷ []))) (all_routines (leading rs))
          ∙ ap (λ xs. m.routines ++ xs)
              (sym (all_routines-append (leading (r ∷ [])) (leading rs))
                ∙ ap all_routines (sym (leading-cons r rs))),
    )
