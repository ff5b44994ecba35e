-- ===== src/Raft/Leadership/Contexts.antt =====
-- The leader contexts of `runRaft` and the transport's atomics, over a whole history.
use locking.Prelude.{
  Bool, ℕ, zero, suc, ◌+◌, refl, sym, ap, ap₂, ◌∙◌, subst, ◌≡◌, List, [], ◌∷◌, some, arith,
}
use locking.Prelude.Result.{ok, ok-injective}
use locking.Raft.Leadership.{
  LeaderCallbacks, Loop, Effect, set_leader, go_started, go_stopped, cancel, stop_node, start,
  observed, on_all,
}
use locking.Raft.Leadership.Callbacks.{
  Seen, leads, both, round, rounds, on_all-rounds, stops, once, follows_first,
  followings_after_lead, stopped_often,
}

-- From the context numbered `n` on: the leader function is started on the current context, and a
-- context is cancelled once, in its turn, directly before the function for the end of the leadership.
abbrev pub Paired : ℕ → List Effect → Type 0
Paired n [] = Unit
Paired n (set_leader _ ∷ es) = Paired n es
Paired n (go_started c ∷ es) = (c ≡ n) × Paired n es
Paired n (cancel c ∷ go_stopped ∷ es) = (c ≡ n) × Paired (suc n) es
Paired n (_ ∷ es) = ⊥

-- The contexts that are cancelled, in order.
abbrev pub cancelled : List Effect → List ℕ
cancelled [] = []
cancelled (cancel c ∷ es) = c ∷ cancelled es
cancelled (set_leader _ ∷ es) = cancelled es
cancelled (go_started _ ∷ es) = cancelled es
cancelled (go_stopped ∷ es) = cancelled es
cancelled (stop_node ∷ es) = cancelled es

-- So many numbers from the given one on.
abbrev pub numbers : ℕ → ℕ → List ℕ
numbers n zero = []
numbers n (suc k) = n ∷ numbers (suc n) k

Paired-cancelled : (n : ℕ) (es : List Effect) → Paired n es → cancelled es ≡ numbers n (stops es)
Paired-cancelled n [] h = refl
Paired-cancelled n (set_leader _ ∷ es) h = Paired-cancelled n es h
Paired-cancelled n (go_started c ∷ es) h = Paired-cancelled n es h.1
Paired-cancelled n (cancel c ∷ go_stopped ∷ es) h = ap₂ ◌∷◌ h.0 (Paired-cancelled (suc n) es h.1)
Paired-cancelled n (cancel c ∷ []) h = absurd h
Paired-cancelled n (cancel c ∷ set_leader _ ∷ es) h = absurd h
Paired-cancelled n (cancel c ∷ go_started _ ∷ es) h = absurd h
Paired-cancelled n (cancel c ∷ cancel _ ∷ es) h = absurd h
Paired-cancelled n (cancel c ∷ stop_node ∷ es) h = absurd h
Paired-cancelled n (go_stopped ∷ es) h = absurd h
Paired-cancelled n (stop_node ∷ es) h = absurd h

module _ (id : ℕ) (tracking : Bool) where
  rounds-Paired :
      (hs : List Seen) (s : Loop) → Paired s.leader_context (rounds id (both tracking) hs s).1
  unfolding rounds
  rounds-Paired [] s = tt
  rounds-Paired (h ∷ hs) s = ground (arith, rounds-Paired hs (round id (both tracking) h s).0)

  -- With both callbacks for the leadership set, and `SetLeader` or not, over any history from the
  -- start: no leader function is started on a context that is cancelled already; and the contexts are
  -- cancelled in order, each once and directly before the function for the end of the leadership, one
  -- if the first `Ready` shows no leadership, and one more for every `Ready` without leadership that
  -- comes after one with it.
  pub on_all-Paired :
      (hs : List Seen)
      → (r : Loop × List Effect) × (on_all id (some (both tracking)) hs start ≡ ok r)
        × Paired 0 r.1
        × (cancelled r.1 ≡ numbers 0 (once (follows_first id hs) + followings_after_lead id hs))
  on_all-Paired hs =
      let (r, e, n) = stopped_often id tracking hs in
      let same : rounds id (both tracking) hs start ≡ r =
        ok-injective (sym (on_all-rounds id (both tracking) hs start) ∙ e) in
      let paired = subst (λ q. Paired 0 q.1) same (rounds-Paired hs start) in
      (r, e, paired, Paired-cancelled 0 r.1 paired ∙ ap (numbers 0) n)

-- The last of a list that begins with `h`.
abbrev pub last_seen : Seen → List Seen → Seen
last_seen h [] = h
last_seen h (h' ∷ hs) = last_seen h' hs

module _ (id : ℕ) (cb : LeaderCallbacks) where
  rounds-transport :
      (h : Seen) (hs : List Seen) (s : Loop)
      → let r = (rounds id cb (h ∷ hs) s).0 in
        let seen = last_seen h hs in
        (r.transport_leader ≡ (observed seen.0 seen.1).lead)
        × (r.transport_is_leader ≡ leads id seen)
  unfolding rounds
  rounds-transport h [] s = ground arith
  rounds-transport h (h' ∷ hs) s = rounds-transport h' hs (round id cb h s).0

  -- Whatever callbacks are set, the transport holds the leader and the leadership that the last
  -- `Ready` showed.
  pub on_all-transport :
      (h : Seen) (hs : List Seen) (s : Loop)
      → let seen = last_seen h hs in
        (r : Loop × List Effect) × (on_all id (some cb) (h ∷ hs) s ≡ ok r)
        × ((r.0).transport_leader ≡ (observed seen.0 seen.1).lead)
        × ((r.0).transport_is_leader ≡ leads id seen)
  on_all-transport h hs s =
      let t = rounds-transport h hs s in
      (rounds id cb (h ∷ hs) s, on_all-rounds id cb (h ∷ hs) s, t.0, t.1)
