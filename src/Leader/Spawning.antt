-- ===== src/Leader/Spawning.antt =====
-- Which routines of the manager of leader.go run in the end, under the whole loop of `runRaft` in
-- raft/locker.go.
use mathlib.Core.List.{append_assoc, append-nil, map-append}
use locking.Prelude.{
  ℕ, zero, suc, ◌+◌, ◌≡◌, refl, sym, ◌∙◌, ap, ap₂, Bool, true, false, some, List, [], ◌∷◌, ◌++◌,
  map, arith, if◌then◌else◌,
}
use locking.Prelude.Result.{Result, ok, ok-injective}
use locking.Raft.Leadership.{start, Loop}
use locking.Raft.Leadership.Callbacks.{
  starts, starts-append, both, any_leads, once, started_once, rounds, on_all-rounds,
}
use locking.Raft.Loop.{Ready, run_raft}
use locking.Raft.Loop
use locking.Raft.Loop.Views.{leadership, seen_in}
use locking.Raft.Loop.Traffic.{AllSettle, final, run_raft-leadership}
use locking.Leader.{
  raft_callbacks, LeaderManager, Callback, on_started_leading, on_stopped_leading,
  run_leader_routines, call, callbacks,
}
use locking.Leader.Interleaving.{
  Runs, done, next, is_start, count_starts, count_starts-append, count_starts-callbacks,
}

abbrev pub spawned_routines : {R : Type 0} → LeaderManager R → List R
spawned_routines lm = map (λ p. p.0) lm.spawned

-- The list, `n` times in a row.
abbrev pub times : {R : Type 0} → ℕ → List R → List R
times zero xs = []
times (suc n) xs = xs ++ times n xs

pub times-add : {R : Type 0} (m n : ℕ) (xs : List R) → times (m + n) xs ≡ times m xs ++ times n xs
times-add zero n xs = ap (λ k. times k xs) (omega arith)
times-add (suc m) n xs =
    let regroup : suc m + n ≡ suc (m + n) = omega arith in
    ap (λ k. times k xs) regroup
    ∙ ap (λ ys. xs ++ ys) (times-add m n xs)
    ∙ sym (append_assoc xs (times m xs) (times n xs))

map-fst :
    {R : Type 0} (ctx : ℕ) (fns : List R)
    → map {A = R × ℕ} (λ p. p.0) (map (λ fn. (fn, ctx)) fns) ≡ fns
map-fst ctx [] = refl
map-fst ctx (fn ∷ fns) = ap (λ xs. fn ∷ xs) (map-fst ctx fns)

pub call-routines :
    {R : Type 0} (c : Callback) (lm : LeaderManager R)
    → (spawned_routines (call c lm) ≡ spawned_routines lm ++ times (is_start c) lm.leader_routines)
      × ((call c lm).leader_routines ≡ lm.leader_routines)
unfolding call run_leader_routines
call-routines (on_started_leading ctx) lm = (
  map-append (λ p. p.0) lm.spawned (map (λ fn. (fn, ctx)) lm.leader_routines)
      ∙ ap (λ xs. spawned_routines lm ++ xs)
          (map-fst ctx lm.leader_routines ∙ sym (append-nil lm.leader_routines)),
  refl,
)
call-routines on_stopped_leading lm = (sym (append-nil (spawned_routines lm)), refl)

Runs-routines :
    {R : Type 0} {pending : List Callback} {lm lm' : LeaderManager R}
    → Runs pending lm lm'
    → (spawned_routines lm'
        ≡ spawned_routines lm ++ times (count_starts pending) lm.leader_routines)
Runs-routines {lm = lm} done = sym (append-nil (spawned_routines lm))
Runs-routines {pending = pending} {lm = lm} (next xs c ys e r) =
    let (grown, kept) = call-routines c lm in
    let total = Runs-routines r in
    let rest = count_starts (xs ++ ys) in
    let all : is_start c + rest ≡ count_starts pending =
      rw (e) (omega (arith, count_starts-append xs ys, count_starts-append xs (c ∷ ys))) in
    total
    ∙ ap₂ (λ old fns. old ++ times rest fns) grown kept
    ∙ append_assoc (spawned_routines lm) (times (is_start c) lm.leader_routines)
        (times rest lm.leader_routines)
    ∙ ap (λ fns. spawned_routines lm ++ fns)
        (sym (times-add (is_start c) rest lm.leader_routines)
          ∙ ap (λ n. times n lm.leader_routines) all)

times-once : {R : Type 0} (b : Bool) (xs : List R) → times (once b) xs ≡ (if b then xs else [])
times-once true xs = append-nil xs
times-once false xs = refl

-- The last round starts no leader function.
starts-final : (id : ℕ) (tracking : Bool) (s : Loop) → starts (final id (both tracking) s) ≡ 0
starts-final id tracking s = ground arith

-- With the callbacks of either manager for the raft lock, over any run of the loop from its start
-- to the end of its context, and in whatever order the callbacks run: the routines of a fresh
-- manager are started, each once and in the order of their registration, if the node was ever seen
-- as leader, and else none is.
pub run_raft-spawned_routines :
    {R : Type 0} (id : ℕ) (tracking : Bool) (answers : ℕ → ℕ → ℕ → Result Bool) (fuel : ℕ)
    (rds : List Ready) (es : List Loop.Effect) (lm lm' : LeaderManager R)
    → AllSettle id (raft_callbacks tracking) answers fuel
    → run_raft id (some (raft_callbacks tracking)) answers fuel rds ≡ ok (some es)
    → lm.spawned ≡ []
    → Runs (callbacks (leadership es)) lm lm'
    → spawned_routines lm' ≡ (if any_leads id (map seen_in rds) then lm.leader_routines else [])
run_raft-spawned_routines id tracking answers fuel rds es lm lm' settles ran fresh runs =
    let r = rounds id (both tracking) (map seen_in rds) start in
    let (q, eq, n) = started_once id tracking (map seen_in rds) in
    let same : q ≡ r =
      ok-injective (sym eq ∙ on_all-rounds id (both tracking) (map seen_in rds) start) in
    let counted : count_starts (callbacks (leadership es)) ≡ once (any_leads id (map seen_in rds)) =
      count_starts-callbacks (leadership es)
      ∙ ap starts (run_raft-leadership id (both tracking) answers fuel rds es settles ran)
      ∙ starts-append r.1 (final id (both tracking) r.0)
      ∙ omega (arith, starts-final id tracking r.0, ap (λ x. starts x.1) same, n) in
    Runs-routines runs
    ∙ ap₂ (λ old k. old ++ times k lm.leader_routines) (ap (map (λ p. p.0)) fresh) counted
    ∙ times-once (any_leads id (map seen_in rds)) lm.leader_routines
