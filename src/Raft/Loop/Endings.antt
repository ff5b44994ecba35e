-- ===== src/Raft/Loop/Endings.antt =====
-- What is over by the time that the loop of `runRaft` has come to the end of its context.
use mathlib.Core.List.{append_assoc}
use locking.Prelude.{
  ℕ, ◌≡◌, refl, sym, subst, ◌⊎◌, inl, inr, Bool, ◌&&◌, true, false, List, [], ◌∷◌, ◌++◌, map, some,
  arith,
}
use locking.Prelude.Result.{Result, ok}
use locking.Raft.Leadership.{
  Loop, Effect, observed, effect_if, set_leader, go_started, go_stopped, cancel, stop_node, start,
}
use locking.Raft.Leadership.Callbacks.{Seen, both, round, rounds}
use locking.Raft.Loop.{Ready, run_raft}
use locking.Raft.Loop
use locking.Raft.Loop.Views.{leadership, seen_in}
use locking.Raft.Loop.Traffic.{AllSettle, final, run_raft-parts, run_raft-leadership}

-- The context is cancelled.
abbrev pub Cancels : ℕ → List Effect → Type 0
Cancels c [] = ⊥
Cancels c (cancel d ∷ es) = (d ≡ c) ⊎ Cancels c es
Cancels c (set_leader _ ∷ es) = Cancels c es
Cancels c (go_started _ ∷ es) = Cancels c es
Cancels c (go_stopped ∷ es) = Cancels c es
Cancels c (stop_node ∷ es) = Cancels c es

-- Each context that the leader function is started on is cancelled later, and the last effect stops
-- the node, which no other does.
abbrev pub WindsUp : List Effect → Type 0
WindsUp [] = ⊥
WindsUp (stop_node ∷ []) = Unit
WindsUp (stop_node ∷ _ ∷ _) = ⊥
WindsUp (go_started c ∷ es) = Cancels c es × WindsUp es
WindsUp (set_leader _ ∷ es) = WindsUp es
WindsUp (go_stopped ∷ es) = WindsUp es
WindsUp (cancel _ ∷ es) = WindsUp es

-- What a round does for the leadership beside `SetLeader`: nothing, start the leader function on the
-- present context, or cancel that and go on with the next.
abbrev pub Rounds : Bool → ℕ → Loop → Loop × List Effect → Type 0
Rounds tracking lead s r =
    let told = effect_if tracking (set_leader lead) in
    ((r.1 ≡ told ++ []) × ((r.0).leader_context ≡ s.leader_context))
    ⊎ (((r.1 ≡ told ++ go_started s.leader_context ∷ [])
          × ((r.0).leader_context ≡ s.leader_context))
        ⊎ (r.1 ≡ told ++ cancel s.leader_context ∷ go_stopped ∷ []))

told-WindsUp :
    (tracking : Bool) (lead c : ℕ) (es : List Effect)
    → Cancels c es × WindsUp es
    → let told = effect_if tracking (set_leader lead) in
      Cancels c (told ++ es) × WindsUp (told ++ es)
told-WindsUp true lead c es h = h
told-WindsUp false lead c es h = h

module _ (id : ℕ) (tracking : Bool) where
  pub round-Rounds :
      (h : Seen) (s : Loop)
      → Rounds tracking (observed h.0 h.1).lead s (round id (both tracking) h s)
  unfolding round
  round-Rounds h s = ground arith

  -- The round's effects in front of effects that wind up the loop from the state after it.
  cons-WindsUp :
      (lead : ℕ) (s : Loop) (r : Loop × List Effect) (later : List Effect)
      → Rounds tracking lead s r
      → Cancels (r.0).leader_context later × WindsUp later
      → Cancels s.leader_context (r.1 ++ later) × WindsUp (r.1 ++ later)
  cons-WindsUp lead s r later rounds (cancelled, ends) =
      let told = effect_if tracking (set_leader lead) in
      elim rounds [
        | inl (e, c) ↦
            let here = subst (λ n. Cancels n later) c cancelled in
            rw (e, append_assoc told [] later)
              (told-WindsUp tracking lead s.leader_context later (here, ends))
        | inr (inl (e, c)) ↦
            let here = subst (λ n. Cancels n later) c cancelled in
            rw (e, append_assoc told (go_started s.leader_context ∷ []) later)
              (told-WindsUp tracking lead s.leader_context (go_started s.leader_context ∷ later)
                (here, (here, ends)))
        | inr (inr e) ↦
            rw (e, append_assoc told (cancel s.leader_context ∷ go_stopped ∷ []) later)
              (told-WindsUp tracking lead s.leader_context
                (cancel s.leader_context ∷ go_stopped ∷ later) (inl refl, ends))
      ]

  final-WindsUp :
      (s : Loop) (b : Bool)
      → let last = cancel s.leader_context ∷ (effect_if b go_stopped ++ stop_node ∷ []) in
        Cancels s.leader_context last × WindsUp last
  final-WindsUp s true = (inl refl, tt)
  final-WindsUp s false = (inl refl, tt)

  rounds-WindsUp :
      (hs : List Seen) (s : Loop)
      → let r = rounds id (both tracking) hs s in
        let es = r.1 ++ final id (both tracking) r.0 in Cancels s.leader_context es × WindsUp es
  unfolding rounds
  rounds-WindsUp [] s = final-WindsUp s (s.is_leader && true)
  rounds-WindsUp (h ∷ hs) s =
      let r = round id (both tracking) h s in
      let (s', later) = rounds id (both tracking) hs r.0 in
      rw (append_assoc r.1 later (final id (both tracking) s')) (
        cons-WindsUp (observed h.0 h.1).lead s r (later ++ final id (both tracking) s')
          (round-Rounds h s) (rounds-WindsUp hs r.0))

  -- With both callbacks for the leadership set, `SetLeader` or not, and where each message gets an
  -- answer in the end: when the loop has come to the end of its context, each context on which the
  -- leader function was started has been cancelled after that, and the node has been stopped, once
  -- and last.
  pub run_raft-WindsUp :
      (answers : ℕ → ℕ → ℕ → Result Bool) (fuel : ℕ) (rds : List Ready)
      → AllSettle id (both tracking) answers fuel
      → (es : List Loop.Effect) × (run_raft id (some (both tracking)) answers fuel rds
          ≡ ok (some es))
        × WindsUp (leadership es)
  run_raft-WindsUp answers fuel rds settles =
      let (es, _, _, e, _, _, _, _) = run_raft-parts id (both tracking) answers fuel rds settles in
      let l = run_raft-leadership id (both tracking) answers fuel rds es settles e in
      (es, e, subst WindsUp (sym l) (rounds-WindsUp (map seen_in rds) start).1)
