-- ===== src/Raft/LoopExamples.antt =====
-- A run of the whole loop: a node that wins the leadership, with entries and messages, and loses it.
use locking.Prelude.{ℕ, zero, suc, ◌≡◌, refl, Bool, true, false, List, [], ◌∷◌, none, some, arith}
use locking.Prelude.Result.{Result, ok}
use locking.Raft.Leadership.{Loop, set_leader, go_started, go_stopped, cancel, stop_node, on_done}
use locking.Raft.Leadership
use locking.Raft.Leadership.Callbacks.{full}
use locking.Raft.Sending
use locking.Raft.Sending.{Message, step, delivered, sleep}
use locking.Raft.Loop.{Ready, Effect, led, append, sent, advance, run_raft}
use locking.Raft.Loop.Views.{leadership}
use locking.Raft.Loop.Traffic.{AllSettle}
use locking.Raft.Loop.Endings.{WindsUp, run_raft-WindsUp}

abbrev to_self : Message
to_self = record { to = 1; body = 5 ∷ [] }

abbrev to_peer : Message
to_peer = record { to = 2; body = 6 ∷ [] }

abbrev pub wins : Ready
wins = record {
  soft_state = some (record { lead = 1; state_leader = true });
  status = record { lead = 0; state_leader = false };
  entries = 7 ∷ [];
  messages = to_self ∷ to_peer ∷ [];
}

abbrev pub loses : Ready
loses = record {
  soft_state = none;
  status = record { lead = 2; state_leader = false };
  entries = [];
  messages = [];
}

-- A message is applied at the second attempt.
abbrev pub answers : ℕ → ℕ → ℕ → Result Bool
answers i p zero = ok false
answers i p (suc n) = ok true

abbrev pub did : List Effect
did =
    led (set_leader 1)
    ∷ led (go_started 0)
    ∷ append (7 ∷ [])
    ∷ sent (step to_self)
    ∷ sent sleep
    ∷ sent (delivered to_peer)
    ∷ advance
    ∷ led (set_leader 2)
    ∷ led (cancel 0)
    ∷ led go_stopped
    ∷ append []
    ∷ advance
    ∷ led (cancel 1)
    ∷ led go_stopped
    ∷ led stop_node
    ∷ []

pub run_raft-did : run_raft 1 (some full) answers 2 (wins ∷ loses ∷ []) ≡ ok (some did)
unfolding run_raft Leadership.on_ready Sending.send_all on_done
run_raft-did = refl

pub settles : AllSettle 1 full answers 2
settles i p = (1, omega arith, λ e. cc)

run_raft-WindsUp_example :
    (es : List Effect) × (run_raft 1 (some full) answers 2 (wins ∷ loses ∷ []) ≡ ok (some es))
    × WindsUp (leadership es)
run_raft-WindsUp_example = run_raft-WindsUp 1 true answers 2 (wins ∷ loses ∷ []) settles
