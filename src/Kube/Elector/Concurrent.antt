-- ===== src/Kube/Elector/Concurrent.antt =====
-- The three handlers of kube/locker.go as client-go runs them: as goroutines beside one another,
-- each of whose operations on an atomic flag is one step.
pub mod Balance
pub mod Once
pub mod Sequential
use locking.Prelude.{ℕ, suc, Bool, true, false, not, List, [], ◌∷◌, ◌++◌, ◌≡◌, if◌then◌else◌}
use locking.Kube.Elector.{
  Call, started, stopped, Flags, Event, on_started_leading, on_stopped_leading, on_new_leader,
  fresh,
}

-- Where a handler stands: before each of its operations on a flag, before the call that it owes, or at
-- its end.
pub data Handler : Type 0 where
  storing swapping_true : Handler
  swapping_initialized swapping_false : Handler
  owing : Call → Handler
  ended : Handler

abbrev pub handler_of : Event → Handler
handler_of on_started_leading = storing
handler_of on_stopped_leading = swapping_initialized
handler_of (on_new_leader _) = swapping_initialized

-- The next operation of a handler, with both callbacks set.
unfoldable pub advance : Handler → Flags → Handler × Flags
advance storing f = (swapping_true, record f { initialized = true })
advance swapping_true f =
    (if f.is_leader then ended else owing started, record f { is_leader = true })
advance swapping_initialized f =
    (if f.initialized then swapping_false else owing stopped, record f { initialized = true })
advance swapping_false f =
    (if f.is_leader then owing stopped else ended, record f { is_leader = false })
advance (owing c) f = (ended, f)
advance ended f = (ended, f)

abbrev pub makes : Handler → List Call
makes (owing c) = c ∷ []
makes storing = []
makes swapping_true = []
makes swapping_initialized = []
makes swapping_false = []
makes ended = []

-- The flags, the handlers that were started, and the calls made so far.
pub record System : Type 0 where
  pub flags : Flags
  pub handlers : List Handler
  pub calls : List Call

abbrev pub idle : System
idle = record { flags = fresh; handlers = []; calls = [] }

-- The elector reports something, or one of the handlers goes on.
pub data Step : System → System → Type 0 where
  report :
      {s : System} (e : Event) → Step s (record s { handlers = s.handlers ++ handler_of e ∷ [] })
  go_on :
      {s : System} (xs : List Handler) (h : Handler) (ys : List Handler)
      → s.handlers ≡ xs ++ h ∷ ys
      → Step s (record {
        flags = (advance h s.flags).1;
        handlers = xs ++ (advance h s.flags).0 ∷ ys;
        calls = s.calls ++ makes h;
      })

pub data Reach : System → System → Type 0 where
  here : {s : System} → Reach s s
  step : {s t u : System} → Reach s t → Step t u → Reach s u
