-- ===== src/Raft/Shutdown.antt =====
-- The goroutines of `Run` in raft/locker.go: the transport's server, the raft loop, and `Run` itself,
-- which starts both and waits; one step of one of them at a time. The configuration has a logger.
pub mod Answer
pub mod Progress
use locking.Prelude.{
  ℕ, ◌+◌, ◌<◌, ◌≡◌, Bool, true, false, List, [], ◌∷◌, ◌++◌, Option, none, some, length,
}
use locking.Prelude.Result.{Error, Result, ok, err, wrap}

-- How `Run` of raft/transport.go comes to its end: it cannot listen, the server fails, or the context
-- is done; then the server has reported an error by the time it has stopped, or not.
pub data Served : Type 0 where
  listen_failed : Error → Served
  serve_failed : Error → Served
  stopped : Option Error → Served

unfoldable pub serve : Served → Result (Unit {0})
serve (listen_failed e) = err (wrap "failed to listen" e)
serve (serve_failed e) = err e
serve (stopped none) = ok tt
serve (stopped (some e)) = err e

pub data Goroutine : Type 0 where
  running : Goroutine
  ended : Option Error → Goroutine

-- `Run` is at its `select`, waits for both goroutines with what it will return, or has returned.
pub data Main : Type 0 where
  selecting : Main
  waiting : Option Error → Main
  returned : Option Error → Main

-- `errs` is the buffered channel, and `cancelled` whether the inner context is done.
pub record System : Type 0 where
  pub main : Main
  pub transport : Goroutine
  pub raft : Goroutine
  pub errs : List Error
  pub cancelled : Bool
  pub caller_cancelled : Bool

abbrev pub start : System
start = record {
  main = selecting;
  transport = running;
  raft = running;
  errs = [];
  cancelled = false;
  caller_cancelled = false;
}

-- `make(chan error, 2)`
abbrev pub capacity : ℕ
capacity = 2

-- The server stops without a failure of its own only on a context that is done.
abbrev pub Ends : Served → System → Type 0
Ends (stopped _) s = s.cancelled ≡ true
Ends (listen_failed _) s = Unit
Ends (serve_failed _) s = Unit

-- What the goroutines may do. How long one takes over it is not part of the steps: the raft loop may
-- still be handing on messages when the context is done, and the server may still wait for open calls.
-- The raft loop returns on a context that is done, and never with an error. A send to the channel
-- takes a free place in it.
pub data Step : System → System → Type 0 where
  caller_cancels :
      (s : System)
      → s.caller_cancelled ≡ false
      → Step s (record s { cancelled = true; caller_cancelled = true })
  transport_fails :
      (s : System) (o : Served) (e : Error)
      → s.transport ≡ running
      → Ends o s
      → serve o ≡ err e
      → length s.errs < capacity
      → Step s (record s { transport = ended (some e); errs = s.errs ++ e ∷ [] })
  transport_stops :
      (s : System) (o : Served)
      → s.transport ≡ running
      → Ends o s
      → serve o ≡ ok tt
      → Step s (record s { transport = ended none })
  raft_stops :
      (s : System) → s.raft ≡ running → s.cancelled ≡ true → Step s (record s { raft = ended none })
  takes_error :
      (s : System) (e : Error) (es : List Error)
      → s.main ≡ selecting
      → s.errs ≡ e ∷ es
      → Step s (record s { main = waiting (some e); errs = es; cancelled = true })
  sees_done :
      (s : System)
      → s.main ≡ selecting
      → s.cancelled ≡ true
      → Step s (record s { main = waiting none })
  returns :
      (s : System) (r t u : Option Error)
      → s.main ≡ waiting r
      → s.transport ≡ ended t
      → s.raft ≡ ended u
      → Step s (record s { main = returned r })

pub data Reach (s : System) : System → Type 0 where
  here : Reach s s
  later : {t u : System} → Reach s t → Step t u → Reach s u
