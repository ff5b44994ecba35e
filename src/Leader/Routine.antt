-- ===== src/Leader/Routine.antt =====
-- The goroutine of one routine in `runLeaderRoutines` of leader.go.
use locking.Prelude.{
  ℕ, suc, ◌+◌, ◌≡◌, refl, Bool, true, false, ◌||◌, List, [], ◌∷◌, ◌++◌, Option, none, some,
  if◌then◌else◌, arith,
}
use locking.Prelude.Result.{Error}

-- One call of the routine: what it returned, whether the context was done by then, and whether it was
-- done before the 10 seconds were over.
pub record Round : Type 0 where
  pub returned : Option Error
  pub done_after_call : Bool
  pub done_while_waiting : Bool

pub data Action : Type 0 where
  call : Action
  log : Error → Action
  wait : Action
  exit : Action

abbrev log_if : Option Error → List Action
log_if none = []
log_if (some e) = log e ∷ []

-- What the goroutine does over the given rounds; with no round left the next call has not returned.
unfoldable pub run_routine : List Round → List Action
run_routine [] = call ∷ []
run_routine (r ∷ rs) =
    let rest = run_routine rs in
    if r.done_after_call
    then call ∷ exit ∷ []
    else if r.done_while_waiting
    then call ∷ (log_if r.returned ++ wait ∷ exit ∷ [])
    else call ∷ (log_if r.returned ++ wait ∷ rest)

-- How often the routine is called, how often its error is logged, and whether the goroutine is over.
abbrev pub calls : List Action → ℕ
calls [] = 0
calls (call ∷ as') = suc (calls as')
calls (_ ∷ as') = calls as'

abbrev pub logs : List Action → ℕ
logs [] = 0
logs (log e ∷ as') = suc (logs as')
logs (_ ∷ as') = logs as'

abbrev pub exits : List Action → Bool
exits [] = false
exits (exit ∷ as') = true
exits (_ ∷ as') = exits as'

abbrev pub is_done : Round → Bool
is_done r = r.done_after_call || r.done_while_waiting

-- The rounds up to the one in which the context is done, that one excluded; the errors among the
-- rounds that end with the context alive after the call; and whether there is one in which it is done.
abbrev pub live_rounds : List Round → ℕ
live_rounds [] = 0
live_rounds (r ∷ rs) = let n = live_rounds rs in if is_done r then 0 else suc n

abbrev pub failures : Option Error → ℕ
failures none = 0
failures (some e) = 1

abbrev pub reported : List Round → ℕ
reported [] = 0
reported (r ∷ rs) =
    let n = reported rs in
    if r.done_after_call
    then 0
    else if r.done_while_waiting
    then failures r.returned
    else failures r.returned + n

abbrev pub any_done : List Round → Bool
any_done [] = false
any_done (r ∷ rs) = is_done r || any_done rs

-- The routine is called once more than there are rounds before the context's end, whatever it
-- returned in them; its error is logged just when the context is alive after the call; and the
-- goroutine is over exactly when the context is done.
pub run_routine-counts :
    (rs : List Round)
    → (calls (run_routine rs) ≡ suc (live_rounds rs))
      × (logs (run_routine rs) ≡ reported rs)
      × (exits (run_routine rs) ≡ any_done rs)
unfolding run_routine
run_routine-counts [] = (refl, refl, refl)
run_routine-counts (r ∷ rs) = ground (arith, run_routine-counts rs)
