-- ===== src/Raft/Shutdown/Progress.antt =====
-- That the transport's goroutine of `Run` in raft/locker.go is never held up by the channel of errors.
use locking.Prelude.{◌<◌, ◌≡◌, ◌∙◌, sym, ap, subst, [], none, some, length, arith}
use locking.Raft.Shutdown.{
  running, Main, selecting, waiting, returned, System, start, capacity, Reach,
}
use locking.Raft.Shutdown.Answer.{failures, IsSound, Reach-IsSound}

-- Nothing waits in the channel while the transport runs.
quiet : (m : Main) (s : System) → IsSound m s → s.transport ≡ running → s.errs ≡ []
quiet selecting s h run = h.0 ∙ ap failures run
quiet (waiting (some e)) s h run = h.0
quiet (waiting none) s h run = h.0 ∙ ap failures run
quiet (returned (some e)) s h run = h.0
quiet (returned none) s h run = h.0 ∙ ap failures run

-- However the goroutines of `Run` are interleaved, the channel of errors has a free place for as long
-- as the transport's goroutine runs, so that its send never blocks.
pub Reach-has_room : (s : System) → Reach start s → s.transport ≡ running → length s.errs < capacity
Reach-has_room s reach run =
    subst (λ es. length es < capacity) (sym (quiet s.main s (Reach-IsSound reach) run))
      (omega arith)
