-- ===== src/Raft/Examples.antt =====
-- Runs of the raft lock's loop: a node that wins, loses and wins back the leadership, and messages
-- that are sent again.
use locking.Prelude.{true, ℕ, ◌+◌, ◌≡◌, refl, false, List, [], ◌∷◌, none, some, arith}
use locking.Prelude.Result.{ok}
use locking.Prelude.Map.{nat_key}
use locking.Raft.Leadership.{Loop, Effect, start, on_all}
use locking.Raft.Leadership.Callbacks.{Seen, full, starts, stops, started_once, stopped_often}
use locking.Raft.Leadership.Contexts.{Paired, cancelled, on_all-Paired}
use locking.Raft.Sending.{Message, send_all}
use locking.Raft.Sending.Delivery.{send_all-stuck}
use locking.Raft.Ticker.{ticks, ticks-compacted}
use locking.Raft.Ticker

-- Node 1 sees: node 2 leads, it leads itself, node 2 leads again (twice), and it leads again.
abbrev seen_lead : ℕ → Seen
seen_lead n = (none, record { lead = n; state_leader = false })

abbrev back_and_forth : List Seen
back_and_forth = seen_lead 2 ∷ seen_lead 1 ∷ seen_lead 2 ∷ seen_lead 2 ∷ seen_lead 1 ∷ []

started_once_example :
    (r : Loop × List Effect) × (on_all 1 (some full) back_and_forth start ≡ ok r) × (starts r.1 ≡ 1)
started_once_example = started_once 1 true back_and_forth

stopped_often_example :
    (r : Loop × List Effect) × (on_all 1 (some full) back_and_forth start ≡ ok r) × (stops r.1 ≡ 3)
stopped_often_example = stopped_often 1 true back_and_forth

on_all-Paired_example :
    (r : Loop × List Effect) × (on_all 1 (some full) back_and_forth start ≡ ok r)
    × Paired 0 r.1
    × (cancelled r.1 ≡ 0 ∷ 1 ∷ 2 ∷ [])
on_all-Paired_example = on_all-Paired 1 true back_and_forth

abbrev message : ℕ → Message
message n = record { to = n; body = 7 ∷ [] }

send_all-stuck_example :
    send_all 1 (λ p n. ok false) 1000 0 (message 1 ∷ message 2 ∷ message 3 ∷ []) ≡ none
send_all-stuck_example =
    send_all-stuck 1 (λ p n. ok false) 1000 0 (message 1 ∷ []) (message 2) (message 3 ∷ [])
      (omega arith) (λ k. refl)

ticks-compacted_example :
    let t = ticks 2001 Ticker.start in
    (t.ticked ≡ 2001) × (t.compacted ≡ 2) × (t.compactions + 0 + 1 ≡ 1000)
ticks-compacted_example = ticks-compacted 2001
