-- ===== src/Raft/Ticker.antt =====
-- The ticker goroutine of `runRaft` in raft/locker.go: a tick every 10 milliseconds, and now and then
-- a compaction of the storage.
use locking.Prelude.{ℕ, zero, suc, ◌+◌, ◌-◌, ◌/◌, ◌%◌, ◌≡◌, refl, ◌==◌, if◌then◌else◌, arith}

pub record Ticker : Type 0 where
  pub compactions : ℕ
  pub ticked : ℕ
  pub compacted : ℕ

abbrev pub start : Ticker
start = record { compactions = 1000; ticked = 0; compacted = 0 }

-- `node.Tick()`, then `storage.Compact(...)` if the counter is 0. The counter is not 0 where it is
-- decremented.
unfoldable pub tick : Ticker → Ticker
tick t =
    let t' =
      (if t.compactions == 0
        then record t { compactions = 1000; compacted = t.compacted + 1 }
        else t) in
    record t' { ticked = t.ticked + 1; compactions = t'.compactions - 1 }

unfoldable pub ticks : ℕ → Ticker → Ticker
unfolding tick
ticks zero t = t
ticks (suc n) t = tick (ticks n t)

-- The storage is compacted at the 1001st tick and at each 1000th tick after it: n ticks make (n -
-- 1) / 1000 compactions. The counter stands at 1000 before the first tick, and at 999 - (n - 1) %
-- 1000 after the n-th.
pub ticks-compacted :
    (n : ℕ)
    → let t = ticks n start in
      (t.ticked ≡ n)
      × (t.compacted ≡ (n - 1) / 1000)
      × (t.compactions + (n - 1) % 1000 + (n - (n - 1)) ≡ 1000)
unfolding ticks
ticks-compacted zero = (refl, refl, refl)
ticks-compacted (suc n) = ground (arith, ticks-compacted n)
