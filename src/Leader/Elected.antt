-- ===== src/Leader/Elected.antt =====
-- The manager that `NewKubernetesLockManager` of leader.go makes, under the handlers that kube/locker.go
-- hands to client-go's elector.
use mathlib.Core.List.{append_assoc, append-nil}
use locking.Prelude.{ℕ, ◌≤◌, ◌≡◌, sym, ap, ap₂, ◌∙◌, List, [], ◌∷◌, ◌++◌, map, arith, All}
use locking.Kube.Elector.{Call, started, stopped}
use locking.Kube.Elector.Concurrent.{System, idle, ended, Reach}
use locking.Kube.Elector.Concurrent.Balance.{count_calls}
use locking.Kube.Elector.Concurrent.Once.{starts_reported, Reach-starts_reported}
use locking.Leader.{LeaderManager, Callback, on_started_leading, on_stopped_leading, call}
use locking.Leader.Spawning.{spawned_routines, times, times-add, call-routines}

-- What the manager does for a call; `ctx` is the context of the elector's leadership.
abbrev pub kube_callback : ℕ → Call → Callback
kube_callback ctx started = on_started_leading ctx
kube_callback ctx stopped = on_stopped_leading

unfoldable pub call_all : {R : Type 0} → List Callback → LeaderManager R → LeaderManager R
call_all [] lm = lm
call_all (c ∷ cs) lm = call_all cs (call c lm)

call_all-routines :
    {R : Type 0} (ctx : ℕ) (cs : List Call) (lm : LeaderManager R)
    → spawned_routines (call_all (map (kube_callback ctx) cs) lm)
      ≡ spawned_routines lm ++ times (count_calls started cs) lm.leader_routines
unfolding call_all
call_all-routines ctx [] lm = sym (append-nil (spawned_routines lm))
call_all-routines ctx (started ∷ cs) lm =
    let (grown, kept) = call-routines (on_started_leading ctx) lm in
    call_all-routines ctx cs (call (on_started_leading ctx) lm)
    ∙ ap₂ (λ old fns. old ++ times (count_calls started cs) fns) grown kept
    ∙ append_assoc (spawned_routines lm) (times 1 lm.leader_routines)
        (times (count_calls started cs) lm.leader_routines)
    ∙ ap (λ xs. spawned_routines lm ++ xs)
        (sym (times-add 1 (count_calls started cs) lm.leader_routines))
call_all-routines ctx (stopped ∷ cs) lm =
    let (grown, kept) = call-routines on_stopped_leading lm in
    call_all-routines ctx cs (call on_stopped_leading lm)
    ∙ ap₂ (λ old fns. old ++ times (count_calls started cs) fns)
        (grown ∙ append-nil (spawned_routines lm)) kept
    ∙ ap (λ n. spawned_routines lm ++ times n lm.leader_routines) (omega arith)

-- Let the elector have reported one start at most, as client-go's does in a run, and all handlers have
-- come to their end, however they interleaved: then the routines of a fresh manager have been started,
-- each in the order of their registration, once if a start was reported, and else not at all.
pub call_all-spawned_routines :
    {R : Type 0} {s : System} (r : Reach idle s) (ctx : ℕ) (lm : LeaderManager R)
    → starts_reported r ≤ 1
    → All (λ h. h ≡ ended) s.handlers
    → lm.spawned ≡ []
    → spawned_routines (call_all (map (kube_callback ctx) s.calls) lm)
      ≡ times (starts_reported r) lm.leader_routines
call_all-spawned_routines {s = s} r ctx lm le over fresh =
    call_all-routines ctx s.calls lm
    ∙ ap₂ (λ old n. map (λ p. p.0) old ++ times n lm.leader_routines) fresh
        (Reach-starts_reported r le over)
