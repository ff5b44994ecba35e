-- ===== src/Raft/Leadership.antt =====
-- The leadership part of the loop of `runRaft` in raft/locker.go: what each `Ready` of the raft node
-- makes of the flags, of the leader's context and of the user's callbacks.
pub mod Callbacks
pub mod Contexts
use locking.Prelude.{
  ℕ, suc, ◌+◌, Bool, true, false, not, ◌&&◌, ◌||◌, List, [], ◌∷◌, ◌++◌, Option, none, some, ◌==◌,
  if◌then◌else◌,
}
use locking.Prelude.Result.{Result, ok, err, panic, ◌>>=◌, ◌>>◌}

-- `raft.SoftState`, and as much of `raft.Status`: the leader's ID, 0 for none, and whether the node's
-- own state is `StateLeader`.
pub record SoftState : Type 0 where
  pub lead : ℕ
  pub state_leader : Bool

-- Which of the callbacks are set.
pub record LeaderCallbacks : Type 0 where
  pub set_leader : Bool
  pub on_started_leading : Bool
  pub on_stopped_leading : Bool

-- The loop's variables and the transport's two atomics. Leader contexts are numbered as they are
-- made; each is cancelled before the next is made.
pub record Loop : Type 0 where
  pub is_leader : Bool
  pub initialized : Bool
  pub leader_context : ℕ
  pub transport_leader : ℕ
  pub transport_is_leader : Bool

-- In the order in which the loop makes them. A `go_` effect starts a goroutine.
pub data Effect : Type 0 where
  set_leader : ℕ → Effect
  go_started : ℕ → Effect
  go_stopped : Effect
  cancel : ℕ → Effect
  stop_node : Effect

abbrev pub start : Loop
start = record {
  is_leader = false;
  initialized = false;
  leader_context = 0;
  transport_leader = 0;
  transport_is_leader = false;
}

abbrev pub effect_if : Bool → Effect → List Effect
effect_if true e = e ∷ []
effect_if false e = []

-- `rd.SoftState` if it is there, and `node.Status()` if not.
abbrev pub observed : Option SoftState → SoftState → SoftState
observed (some s) status = s
observed none status = status

abbrev pub now_leader : ℕ → SoftState → Bool
now_leader id s = s.lead == id || s.state_leader

-- The branch taken when the leadership is news.
changed : LeaderCallbacks → Bool → Loop → Loop × List Effect
changed cb true s = (
  record s { is_leader = true; initialized = true },
  effect_if cb.on_started_leading (go_started s.leader_context),
)
changed cb false s = (
  record s { initialized = true; leader_context = s.leader_context + 1 },
  cancel s.leader_context ∷ effect_if cb.on_stopped_leading go_stopped,
)

abbrev is_news : Bool → Loop → Bool
is_news true s = not s.is_leader || not s.initialized
is_news false s = s.is_leader || not s.initialized

-- With no callbacks the news is a nil dereference: only `SetLeader` is guarded.
announce : Option LeaderCallbacks → Bool → Loop → Result (Loop × List Effect)
unfolding changed
announce none now s = if is_news now s then err (panic "nil callbacks") else ok (s, [])
announce (some cb) now s =
    let (s', effects) = changed cb now s in ok (if is_news now s then (s', effects) else (s, []))

abbrev set_leader_if : Option LeaderCallbacks → ℕ → List Effect
set_leader_if none lead = []
set_leader_if (some cb) lead = effect_if cb.set_leader (set_leader lead)

-- One `Ready`, up to the sending of its messages (Raft/Sending).
unfoldable pub on_ready :
    ℕ → Option LeaderCallbacks → Option SoftState → SoftState → Loop → Result (Loop × List Effect)
unfolding announce
on_ready id cb soft status s = do
  let seen = observed soft status
  let now = now_leader id seen
  let stored = record s { transport_leader = seen.lead; transport_is_leader = now }
  (s', effects) ← announce cb now stored
  ok (s', set_leader_if cb seen.lead ++ effects)

-- `ctx.Done()`: the loop's last round. It looks at the callbacks only if it leads.
unfoldable pub on_done : Option LeaderCallbacks → Loop → Result (List Effect)
on_done none s =
    if s.is_leader
    then err (panic "nil callbacks")
    else ok (cancel s.leader_context ∷ stop_node ∷ [])
on_done (some cb) s = ok (
    cancel s.leader_context
    ∷ (effect_if (s.is_leader && cb.on_stopped_leading) go_stopped ++ stop_node ∷ []))

-- The loop over a list of `Ready` values, each as what it shows of the leadership.
unfoldable pub on_all :
    ℕ
    → Option LeaderCallbacks
    → List (Option SoftState × SoftState)
    → Loop
    → Result (Loop × List Effect)
unfolding on_ready
on_all id cb [] s = ok (s, [])
on_all id cb ((soft, status) ∷ rest) s = do
  (s', effects) ← on_ready id cb soft status s
  (s'', later) ← on_all id cb rest s'
  ok (s'', effects ++ later)
