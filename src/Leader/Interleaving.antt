-- ===== src/Leader/Interleaving.antt =====
-- The manager of leader.go under the raft loop, whose callbacks are goroutines: each runs to its end,
-- in any order.
use locking.Prelude.{
  ℕ, ◌≤◌, Bool-cases, inl, inr, subst, suc, ◌+◌, ◌*◌, ◌≡◌, refl, sym, ◌∙◌, ap, Bool, true, false,
  some, List, [], ◌∷◌, ◌++◌, map, arith, length, length-append,
}
use locking.Prelude.Result.{ok, ok-injective}
use locking.Raft.Leadership.{
  Loop, Effect, set_leader, go_started, go_stopped, cancel, stop_node, start, on_all,
}
use locking.Raft.Leadership.Callbacks.{
  Seen, starts, stops, full, any_leads, once, started_once, stopped_often, followings_after_lead,
}
use locking.Leader.{
  raft_callbacks, LeaderManager, Callback, on_started_leading, on_stopped_leading, call, callbacks,
}

-- The pending callbacks run in some order, and bring the first manager to the second.
pub data Runs {R : Type 0} : List Callback → LeaderManager R → LeaderManager R → Type 0 where
  done : {lm : LeaderManager R} → Runs [] lm lm
  next :
      {pending : List Callback} {lm lm' : LeaderManager R} (xs : List Callback) (c : Callback)
      (ys : List Callback)
      → pending ≡ xs ++ c ∷ ys
      → Runs (xs ++ ys) (call c lm) lm'
      → Runs pending lm lm'

abbrev pub is_start : Callback → ℕ
is_start (on_started_leading _) = 1
is_start on_stopped_leading = 0

abbrev pub count_starts : List Callback → ℕ
count_starts [] = 0
count_starts (c ∷ cs) = is_start c + count_starts cs

pub count_starts-append :
    (xs ys : List Callback) → count_starts (xs ++ ys) ≡ count_starts xs + count_starts ys
count_starts-append [] ys = omega arith
count_starts-append (c ∷ xs) ys = omega (arith, count_starts-append xs ys)

length-map :
    {R : Type 0} (ctx : ℕ) (fns : List R)
    → length {A = R × ℕ} (map (λ fn. (fn, ctx)) fns) ≡ length fns
length-map ctx [] = refl
length-map ctx (fn ∷ fns) = ap suc (length-map ctx fns)

call-spawned :
    {R : Type 0} (c : Callback) (lm : LeaderManager R)
    → (length (call c lm).spawned ≡ length lm.spawned + is_start c * length lm.leader_routines)
      × ((call c lm).leader_routines ≡ lm.leader_routines)
unfolding call
call-spawned (on_started_leading ctx) lm = (
  omega (
    arith,
    length-append lm.spawned (map (λ fn. (fn, ctx)) lm.leader_routines),
    length-map ctx lm.leader_routines,
  ),
  refl,
)
call-spawned on_stopped_leading lm = (omega arith, refl)

Runs-spawned :
    {R : Type 0} {pending : List Callback} {lm lm' : LeaderManager R}
    → Runs pending lm lm'
    → (length lm'.spawned ≡ length lm.spawned + count_starts pending * length lm.leader_routines)
      × (lm'.leader_routines ≡ lm.leader_routines)
Runs-spawned done = (omega arith, refl)
Runs-spawned {lm = lm} (next xs c ys e r) =
    let (grown, kept) = call-spawned c lm in
    let (total, kept') = Runs-spawned r in
    (
      rw (e, count_starts-append xs (c ∷ ys))
          (rw (kept, count_starts-append xs ys) at total ∙ omega (arith, grown)),
      kept' ∙ kept,
    )

pub count_starts-callbacks : (es : List Effect) → count_starts (callbacks es) ≡ starts es
count_starts-callbacks [] = refl
count_starts-callbacks (go_started c ∷ es) = omega (arith, count_starts-callbacks es)
count_starts-callbacks (go_stopped ∷ es) = omega (arith, count_starts-callbacks es)
count_starts-callbacks (set_leader l ∷ es) = count_starts-callbacks es
count_starts-callbacks (cancel c ∷ es) = count_starts-callbacks es
count_starts-callbacks (stop_node ∷ es) = count_starts-callbacks es

-- With all callbacks set, over any history of the raft node, and in whatever order the callbacks
-- run, each routine of a fresh manager gets one goroutine if the node was ever seen as leader, and
-- else none: a node that loses the leadership and wins it back does not start its routines again.
pub routines_once :
    {R : Type 0} (id : ℕ) (hs : List Seen) (r : Loop × List Effect) (lm lm' : LeaderManager R)
    → on_all id (some full) hs start ≡ ok r
    → lm.spawned ≡ []
    → Runs (callbacks r.1) lm lm'
    → length lm'.spawned ≡ once (any_leads id hs) * length lm.leader_routines
routines_once id hs r lm lm' e fresh runs =
    let (q, eq, n) = started_once id true hs in
    let same : q ≡ r = ok-injective (sym eq ∙ e) in
    (Runs-spawned runs).0 ∙ rw (fresh, count_starts-callbacks r.1, ← same, n) (omega arith)

-- All but one of the callbacks in their order, and then that one.
Runs-last :
    {R : Type 0} (xs : List Callback) (c : Callback) (ys : List Callback) (lm : LeaderManager R)
    → (lm' : LeaderManager R) × Runs (xs ++ c ∷ ys) lm (call c lm')
Runs-last [] c [] lm = (lm, next [] c [] refl done)
Runs-last [] c (y ∷ ys) lm =
    let (lm', r) = Runs-last [] c ys (call y lm) in (lm', next (c ∷ []) y ys refl r)
Runs-last (x ∷ xs) c ys lm =
    let (lm', r) = Runs-last xs c ys (call x lm) in (lm', next [] x (xs ++ c ∷ ys) refl r)

-- The callback is among those that the effects start.
abbrev Pending : (Callback → Type 0) → List Effect → Type 0
Pending P es =
    (xs : List Callback) × (c : Callback) × (ys : List Callback) × P c
    × (callbacks es ≡ xs ++ c ∷ ys)

abbrev Starting : Callback → Type 0
Starting (on_started_leading _) = Unit
Starting on_stopped_leading = ⊥

abbrev Stopping : Callback → Type 0
Stopping (on_started_leading _) = ⊥
Stopping on_stopped_leading = Unit

behind :
    {P : Callback → Type 0} (d : Callback) (es es' : List Effect)
    → callbacks es' ≡ d ∷ callbacks es
    → Pending P es
    → Pending P es'
behind d es es' e (xs, c, ys, p, h) = (d ∷ xs, c, ys, p, e ∙ ap (λ cs. d ∷ cs) h)

find_start : (es : List Effect) → 1 ≤ starts es → Pending Starting es
find_start [] h = absurd (omega (arith, h))
find_start (go_started c ∷ es) h = ([], on_started_leading c, callbacks es, tt, refl)
find_start (go_stopped ∷ es) h =
    behind on_stopped_leading es (go_stopped ∷ es) refl (find_start es h)
find_start (set_leader l ∷ es) h = find_start es h
find_start (cancel c ∷ es) h = find_start es h
find_start (stop_node ∷ es) h = find_start es h

find_stop : (es : List Effect) → 1 ≤ stops es → Pending Stopping es
find_stop [] h = absurd (omega (arith, h))
find_stop (go_stopped ∷ es) h = ([], on_stopped_leading, callbacks es, tt, refl)
find_stop (go_started c ∷ es) h =
    behind (on_started_leading c) es (go_started c ∷ es) refl (find_stop es h)
find_stop (set_leader l ∷ es) h = find_stop es h
find_stop (cancel c ∷ es) h = find_stop es h
find_stop (stop_node ∷ es) h = find_stop es h

raised :
    {R : Type 0} (c : Callback) (lm : LeaderManager R) → Starting c → (call c lm).is_leader ≡ true
unfolding call
raised (on_started_leading ctx) lm p = refl
raised on_stopped_leading lm p = absurd p

lowered :
    {R : Type 0} (c : Callback) (lm : LeaderManager R) → Stopping c → (call c lm).is_leader ≡ false
unfolding call
lowered (on_started_leading ctx) lm p = absurd p
lowered on_stopped_leading lm p = refl

followings-any_leads :
    (id : ℕ) (hs : List Seen) → 1 ≤ followings_after_lead id hs → any_leads id hs ≡ true
followings-any_leads id [] h = absurd (omega (arith, h))
followings-any_leads id (x ∷ hs) h = ground (arith, followings-any_leads id hs)

-- The callbacks that the raft loop has started over a history in which the node was seen as leader, and
-- later without the leadership, can run in an order that leaves the manager's flag raised, as well as in
-- one that leaves it lowered.
pub flag_race :
    {R : Type 0} (id : ℕ) (tracking : Bool) (hs : List Seen) (r : Loop × List Effect)
    (lm : LeaderManager R) (b : Bool)
    → on_all id (some (raft_callbacks tracking)) hs start ≡ ok r
    → 1 ≤ followings_after_lead id hs
    → (lm' : LeaderManager R) × Runs (callbacks r.1) lm lm' × (lm'.is_leader ≡ b)
flag_race id tracking hs r lm b e lost =
    let (q, eq, n) = started_once id tracking hs in
    let (q', eq', n') = stopped_often id tracking hs in
    let same : q ≡ r = ok-injective (sym eq ∙ e) in
    let same' : q' ≡ r = ok-injective (sym eq' ∙ e) in
    let won : starts r.1 ≡ 1 =
      ap (λ x. starts x.1) (sym same) ∙ n ∙ ap once (followings-any_leads id hs lost) in
    let (xs, c, ys, p, h) = find_start r.1 (omega (arith, won)) in
    let some_stop : 1 ≤ stops r.1 = omega (arith, ap (λ x. stops x.1) (sym same') ∙ n', lost) in
    let (xs', c', ys', p', h') = find_stop r.1 some_stop in
    elim (Bool-cases b) [
      | inl up ↦
          let (lm', runs) = Runs-last xs c ys lm in
          (call c lm', subst (λ cs. Runs cs lm (call c lm')) (sym h) runs, raised c lm' p ∙ sym up)
      | inr down ↦
          let (lm', runs) = Runs-last xs' c' ys' lm in
          (
            call c' lm',
            subst (λ cs. Runs cs lm (call c' lm')) (sym h') runs,
            lowered c' lm' p' ∙ sym down,
          )
    ]
