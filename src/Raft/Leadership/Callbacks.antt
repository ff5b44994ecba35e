-- ===== src/Raft/Leadership/Callbacks.antt =====
-- How often the loop of `runRaft` calls back, over a whole history of `Ready` values.
use locking.Prelude.{
  ℕ, suc, ◌+◌, ◌≡◌, refl, Bool, true, false, not, ◌&&◌, ◌||◌, List, [], ◌∷◌, ◌++◌, Option, some,
  if◌then◌else◌, arith,
}
use locking.Prelude.Result.{ok}
use locking.Raft.Leadership.{
  SoftState, LeaderCallbacks, Loop, Effect, set_leader, go_started, go_stopped, cancel, stop_node,
  start, observed, now_leader, changed, is_news, set_leader_if, on_all,
}

-- A `Ready`: its soft state, if any, and the node's status beside it.
abbrev pub Seen : Type 0
Seen = Option SoftState × SoftState

abbrev pub leads : ℕ → Seen → Bool
leads id h = now_leader id (observed h.0 h.1)

-- How many goroutines start the user's leader function.
abbrev pub starts : List Effect → ℕ
starts [] = 0
starts (go_started c ∷ es) = suc (starts es)
starts (_ ∷ es) = starts es

-- How many start the function for the end of the leadership.
abbrev pub stops : List Effect → ℕ
stops [] = 0
stops (go_stopped ∷ es) = suc (stops es)
stops (_ ∷ es) = stops es

pub starts-append : (xs ys : List Effect) → starts (xs ++ ys) ≡ starts xs + starts ys
starts-append [] ys = omega arith
starts-append (go_started c ∷ xs) ys = omega (arith, starts-append xs ys)
starts-append (set_leader l ∷ xs) ys = starts-append xs ys
starts-append (go_stopped ∷ xs) ys = starts-append xs ys
starts-append (cancel c ∷ xs) ys = starts-append xs ys
starts-append (stop_node ∷ xs) ys = starts-append xs ys

stops-append : (xs ys : List Effect) → stops (xs ++ ys) ≡ stops xs + stops ys
stops-append [] ys = omega arith
stops-append (go_stopped ∷ xs) ys = omega (arith, stops-append xs ys)
stops-append (set_leader l ∷ xs) ys = stops-append xs ys
stops-append (go_started c ∷ xs) ys = stops-append xs ys
stops-append (cancel c ∷ xs) ys = stops-append xs ys
stops-append (stop_node ∷ xs) ys = stops-append xs ys

module _ (id : ℕ) (cb : LeaderCallbacks) where
  -- One round: the loop's new state and its effects.
  unfoldable pub round : Seen → Loop → Loop × List Effect
  unfolding changed
  round h s =
      let seen = observed h.0 h.1 in
      let stored = record s { transport_leader = seen.lead; transport_is_leader = leads id h } in
      let (s', effects) =
        (if is_news (leads id h) stored then changed cb (leads id h) stored else (stored, [])) in
      (s', set_leader_if (some cb) seen.lead ++ effects)

  unfoldable pub rounds : List Seen → Loop → Loop × List Effect
  unfolding round
  rounds [] s = (s, [])
  rounds (h ∷ hs) s =
      let (s', effects) = round h s in let (s'', later) = rounds hs s' in (s'', effects ++ later)

  -- With callbacks the loop never fails.
  pub on_all-rounds : (hs : List Seen) (s : Loop) → on_all id (some cb) hs s ≡ ok (rounds hs s)
  unfolding on_all rounds
  on_all-rounds [] s = refl
  on_all-rounds (h ∷ hs) s = rw (on_all-rounds hs (round h s).0)

-- The callbacks for the leadership are set, and `SetLeader` as given.
abbrev pub both : Bool → LeaderCallbacks
both tracking = record {
  set_leader = tracking;
  on_started_leading = true;
  on_stopped_leading = true;
}

abbrev pub full : LeaderCallbacks
full = both true

abbrev pub once : Bool → ℕ
once true = 1
once false = 0

-- Some `Ready` of the history shows the node as leader.
abbrev pub any_leads : ℕ → List Seen → Bool
any_leads id [] = false
any_leads id (h ∷ hs) = leads id h || any_leads id hs

-- The `Ready` values that show the node as no leader; those of them after one that shows it as leader;
-- and whether the first is one.
abbrev pub followings : ℕ → List Seen → ℕ
followings id [] = 0
followings id (h ∷ hs) = once (not (leads id h)) + followings id hs

abbrev pub followings_after_lead : ℕ → List Seen → ℕ
followings_after_lead id [] = 0
followings_after_lead id (h ∷ hs) =
    if leads id h then followings id hs else followings_after_lead id hs

abbrev pub follows_first : ℕ → List Seen → Bool
follows_first id [] = false
follows_first id (h ∷ hs) = not (leads id h)

abbrev pub Inv : Loop → Type 0
Inv s = s.is_leader ≡ true → s.initialized ≡ true

module _ (id : ℕ) (tracking : Bool) where
  pub round-flags :
      (h : Seen) (s : Loop)
      → Inv s
      → let r = round id (both tracking) h s in
        ((r.0).initialized ≡ true)
        × ((r.0).is_leader ≡ (s.is_leader || leads id h))
        × (starts r.1 ≡ once (not s.is_leader && leads id h))
        × (stops r.1 ≡ once (not (leads id h) && (s.is_leader || not s.initialized)))
  unfolding round
  round-flags h s v = ground arith

  rounds-starts :
      (hs : List Seen) (s : Loop)
      → Inv s
      → let r = rounds id (both tracking) hs s in
        ((r.0).is_leader ≡ (s.is_leader || any_leads id hs))
        × (starts r.1 ≡ once (not s.is_leader && any_leads id hs))
  unfolding rounds
  rounds-starts [] s v = ground arith
  rounds-starts (h ∷ hs) s v =
      let (s', effects) = round id (both tracking) h s in
      let f = round-flags h s v in
      ground (
        arith,
        f,
        starts-append effects (rounds id (both tracking) hs s').1,
        rounds-starts hs s' (λ _. f.0),
      )

  rounds-stops :
      (hs : List Seen) (s : Loop)
      → s.initialized ≡ true
      → stops (rounds id (both tracking) hs s).1
        ≡ (if s.is_leader then followings id hs else followings_after_lead id hs)
  unfolding rounds
  rounds-stops [] s v = ground arith
  rounds-stops (h ∷ hs) s v =
      let (s', effects) = round id (both tracking) h s in
      let f = round-flags h s (λ _. v) in
      ground
        (arith, f, stops-append effects (rounds id (both tracking) hs s').1, rounds-stops hs s' f.0)

  rounds-stops-start :
      (hs : List Seen)
      → stops (rounds id (both tracking) hs start).1
        ≡ once (follows_first id hs) + followings_after_lead id hs
  unfolding rounds
  rounds-stops-start [] = refl
  rounds-stops-start (h ∷ hs) =
      let (s', effects) = round id (both tracking) h start in
      let f = round-flags h start (λ e. cc) in
      ground
        (arith, f, stops-append effects (rounds id (both tracking) hs s').1, rounds-stops hs s' f.0)

  -- With both callbacks for the leadership set, and `SetLeader` or not, over any history from the
  -- start, the loop returns, and starts the user's leader function once if the node was ever seen
  -- as leader, and else never. A node that loses the leadership and wins it back gets no second
  -- start.
  pub started_once :
      (hs : List Seen)
      → (r : Loop × List Effect) × (on_all id (some (both tracking)) hs start ≡ ok r)
        × (starts r.1 ≡ once (any_leads id hs))
  started_once hs = (
    rounds id (both tracking) hs start,
    on_all-rounds id (both tracking) hs start,
    ground (arith, rounds-starts hs start (λ e. cc)),
  )

  -- With both callbacks for the leadership set, and `SetLeader` or not, over any history from the
  -- start, the loop runs the user's function for the end of the leadership once if its first
  -- `Ready` shows no leadership, and once more for every `Ready` without leadership that comes
  -- after one with it: not once for each loss.
  pub stopped_often :
      (hs : List Seen)
      → (r : Loop × List Effect) × (on_all id (some (both tracking)) hs start ≡ ok r)
        × (stops r.1 ≡ once (follows_first id hs) + followings_after_lead id hs)
  stopped_often hs = (
    rounds id (both tracking) hs start,
    on_all-rounds id (both tracking) hs start,
    rounds-stops-start hs,
  )
