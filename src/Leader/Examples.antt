-- ===== src/Leader/Examples.antt =====
-- Runs of the leader manager, with two routines, and of one routine.
use locking.Prelude.{refl, map, arith, ℕ, ◌≡◌, true, false, none, some, List, [], ◌∷◌}
use locking.Prelude.Result.{foreign, ok}
use locking.Raft.Leadership.{Loop, Effect, go_started, go_stopped, cancel, start, on_all}
use locking.Raft.Leadership.Callbacks.{Seen}
use locking.Leader.{LeaderManager, callbacks, raft_callbacks}
use locking.Kube.ConfigExamples.{told_late, late}
use locking.Leader.Spawning.{spawned_routines}
use locking.Leader.Elected.{kube_callback, call_all, call_all-spawned_routines}
use locking.Leader.Routine.{Round, run_routine, calls, logs, exits, run_routine-counts}
use locking.Leader.Interleaving.{Runs, flag_race}

abbrev two_routines : LeaderManager ℕ
two_routines = record { leader_routines = 1 ∷ 2 ∷ []; is_leader = false; spawned = [] }

abbrev seen : ℕ → Seen
seen n = (none, record { lead = n; state_leader = false })

abbrev win_lose : List Seen
win_lose = seen 1 ∷ seen 2 ∷ []

abbrev outcome : Loop × List Effect
outcome = (
  record {
    is_leader = true;
    initialized = true;
    leader_context = 1;
    transport_leader = 2;
    transport_is_leader = false;
  },
  go_started 0 ∷ cancel 0 ∷ go_stopped ∷ [],
)

on_all-win_lose : on_all 1 (some (raft_callbacks false)) win_lose start ≡ ok outcome
unfolding on_all
on_all-win_lose = refl

-- The callback for the start runs last.
flag_race_example :
    (lm' : LeaderManager ℕ) × Runs (callbacks outcome.1) two_routines lm' × (lm'.is_leader ≡ true)
flag_race_example =
    flag_race 1 false win_lose outcome two_routines true on_all-win_lose (omega arith)

-- A failing call, a quiet one, and one during which the context ends.
abbrev three_rounds : List Round
three_rounds =
    record { returned = some (foreign 7); done_after_call = false; done_while_waiting = false }
    ∷ record { returned = none; done_after_call = false; done_while_waiting = false }
    ∷ record { returned = some (foreign 8); done_after_call = true; done_while_waiting = false }
    ∷ []

run_routine-counts_example :
    (calls (run_routine three_rounds) ≡ 3)
    × (logs (run_routine three_rounds) ≡ 1)
    × (exits (run_routine three_rounds) ≡ true)
run_routine-counts_example = run_routine-counts three_rounds

call_all-spawned_routines_example :
    spawned_routines (call_all (map (kube_callback 0) told_late.calls) two_routines) ≡ 1 ∷ 2 ∷ []
unfolding late
call_all-spawned_routines_example =
    call_all-spawned_routines late 0 two_routines (omega arith) (refl, (refl, tt)) refl
