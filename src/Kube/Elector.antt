-- ===== src/Kube/Elector.antt =====
-- The callbacks that `leaderElector` of kube/locker.go hands to client-go's elector, over its two
-- atomic flags. A handler runs to its end before the next one starts.
pub mod Alternation
pub mod Concurrent
use locking.Prelude.{
  String, Bool, true, false, not, ◌&&◌, ◌||◌, List, [], ◌∷◌, ◌++◌, Option, none, some,
  if◌then◌else◌,
}

-- `LeaderCallbacks`, by which of its functions are set.
pub record LeaderCallbacks : Type 0 where
  pub on_started_leading : Bool
  pub on_stopped_leading : Bool

pub data Call : Type 0 where
  started stopped : Call

pub record Flags : Type 0 where
  pub initialized : Bool
  pub is_leader : Bool

-- What the elector reports; a new leader by its identity.
pub data Event : Type 0 where
  on_started_leading : Event
  on_stopped_leading : Event
  on_new_leader : String → Event

abbrev pub fresh : Flags
fresh = record { initialized = false; is_leader = false }

abbrev call_if : Bool → Call → List Call
call_if true c = c ∷ []
call_if false c = []

-- `!initialized.Swap(true) || isLeader.Swap(false)`: the second swap is made only if the first
-- finds the flag set.
pub swap_flags : Flags → Bool × Flags
swap_flags f =
    if not f.initialized
    then (true, record f { initialized = true })
    else (f.is_leader, record { initialized = true; is_leader = false })

stop : LeaderCallbacks → Flags → List Call × Flags
unfolding swap_flags
stop cb f = let (due, f') = swap_flags f in (call_if (due && cb.on_stopped_leading) stopped, f')

start : LeaderCallbacks → Flags → List Call × Flags
start cb f = (
  call_if (not f.is_leader && cb.on_started_leading) started,
  record { initialized = true; is_leader = true },
)

unfoldable pub handle : Option LeaderCallbacks → Event → Flags → List Call × Flags
unfolding start stop
handle none e f = ([], f)
handle (some cb) on_started_leading f = start cb f
handle (some cb) on_stopped_leading f = stop cb f
handle (some cb) (on_new_leader _) f = stop cb f

-- The handlers one after the other: each has ended before the next starts. client-go starts two of them
-- as goroutines, and Kube/Elector/Concurrent has them beside one another.
unfoldable pub handle_all : Option LeaderCallbacks → List Event → Flags → List Call × Flags
unfolding handle
handle_all cb [] f = ([], f)
handle_all cb (e ∷ es) f =
    let (calls, f') = handle cb e f in let (rest, f'') = handle_all cb es f' in (calls ++ rest, f'')
