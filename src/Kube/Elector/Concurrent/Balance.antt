-- ===== src/Kube/Elector/Concurrent/Balance.antt =====
-- What holds of the calls of kube/locker.go's handlers however their steps interleave.
use locking.Prelude.{ℕ, zero, suc, ◌+◌, ◌≤◌, ◌≡◌, Bool, true, false, List, [], ◌∷◌, ◌++◌, arith}
use locking.Kube.Elector.{
  Call, started, stopped, Flags, Event, on_started_leading, on_stopped_leading, on_new_leader,
  handle,
}
use locking.Kube.Elector.Alternation.{both}
use locking.Kube.Elector.Concurrent.{Handler, handler_of, advance, makes, System}

abbrev pub is_call : Call → Call → ℕ
is_call started started = 1
is_call stopped stopped = 1
is_call started stopped = 0
is_call stopped started = 0

abbrev pub count_calls : Call → List Call → ℕ
count_calls c [] = 0
count_calls c (d ∷ cs) = is_call c d + count_calls c cs

abbrev pub owed : Call → List Handler → ℕ
owed c [] = 0
owed c (h ∷ hs) = count_calls c (makes h) + owed c hs

-- The calls of a kind that are made or owed.
abbrev pub due : Call → System → ℕ
due c s = count_calls c s.calls + owed c s.handlers

abbrev pub once : Bool → ℕ
once true = 1
once false = 0

pub count_calls-append :
    (c : Call) (xs ys : List Call) → count_calls c (xs ++ ys) ≡ count_calls c xs + count_calls c ys
count_calls-append c [] ys = omega arith
count_calls-append c (x ∷ xs) ys = omega (arith, count_calls-append c xs ys)

pub owed-append : (c : Call) (xs ys : List Handler) → owed c (xs ++ ys) ≡ owed c xs + owed c ys
owed-append c [] ys = omega arith
owed-append c (x ∷ xs) ys = omega (arith, owed-append c xs ys)

-- `first` is 1 if the first of all handlers to touch a flag was one for a stop: that owes a call
-- without a start before it.
abbrev Balanced : System → Type 0
Balanced s =
    (first : ℕ) × (first ≤ once (s.flags).initialized)
    × (due started s + first ≡ due stopped s + once (s.flags).is_leader)

-- The calls of a kind after an operation of a handler: those of before, and what the handler owes
-- then.
pub due-go_on :
    (c : Call) (s : System) (xs : List Handler) (h h' : Handler) (ys : List Handler) (f : Flags)
    → s.handlers ≡ xs ++ h ∷ ys
    → due c (record { flags = f; handlers = xs ++ h' ∷ ys; calls = s.calls ++ makes h })
      ≡ due c s + count_calls c (makes h')
due-go_on c s xs h h' ys f e = rw (e) (
    omega (
      arith,
      count_calls-append c s.calls (makes h),
      owed-append c xs (h ∷ ys),
      owed-append c xs (h' ∷ ys),
    ))

-- A handler on its own, for a number of operations: its calls, and the flags that it leaves.
abbrev pub run : ℕ → Handler → Flags → List Call × Flags
run zero h f = ([], f)
run (suc n) h f =
    let (h', f') = advance h f in let (calls, f'') = run n h' f' in (makes h ++ calls, f'')

-- With no other handler beside it, a handler does what Kube/Elector says of it.
pub run-handle : (e : Event) (f : Flags) → run 3 (handler_of e) f ≡ handle both e f
unfolding advance handle
run-handle on_started_leading f = ground arith
run-handle on_stopped_leading f = ground arith
run-handle (on_new_leader s) f = ground arith
