-- ===== src/Kube/Elector/Concurrent/Once.antt =====
-- The calls for a start under an elector that reports one start at most, as client-go's does in each of
-- its runs.
use locking.Prelude.{ℕ, ◌+◌, ◌≤◌, ◌≡◌, refl, ◌⊎◌, inl, inr, List, [], ◌∷◌, ◌++◌, arith, All}
use locking.Kube.Elector.{
  started, Flags, Event, on_started_leading, on_stopped_leading, on_new_leader,
}
use locking.Kube.Elector.Concurrent.{
  Handler, storing, swapping_true, swapping_initialized, swapping_false, owing, ended, handler_of,
  advance, makes, System, idle, Step, report, go_on, Reach, here, step,
}
use locking.Kube.Elector.Concurrent.Balance.{count_calls, owed, due, once, owed-append, due-go_on}

abbrev pub is_start : Event → ℕ
is_start on_started_leading = 1
is_start on_stopped_leading = 0
is_start (on_new_leader _) = 0

abbrev pub starts_in : {s t : System} → Step s t → ℕ
starts_in (report e) = is_start e
starts_in (go_on _ _ _ _) = 0

-- How many starts the elector has reported on the way.
abbrev pub starts_reported : {s t : System} → Reach s t → ℕ
starts_reported here = 0
starts_reported (step r st) = starts_in st + starts_reported r

-- A handler of a start that has not looked at the flag yet.
abbrev undecided : Handler → ℕ
undecided storing = 1
undecided swapping_true = 1
undecided swapping_initialized = 0
undecided swapping_false = 0
undecided (owing c) = 0
undecided ended = 0

abbrev all_undecided : List Handler → ℕ
all_undecided [] = 0
all_undecided (h ∷ hs) = undecided h + all_undecided hs

all_undecided-append :
    (xs ys : List Handler) → all_undecided (xs ++ ys) ≡ all_undecided xs + all_undecided ys
all_undecided-append [] ys = omega arith
all_undecided-append (x ∷ xs) ys = omega (arith, all_undecided-append xs ys)

-- A handler of a start owes its call next, unless the flag says already that the elector leads.
advance-undecided :
    (h : Handler) (f : Flags)
    → let r = advance h f in
      ((undecided r.0 + count_calls started (makes r.0) ≡ undecided h)
        ⊎ ((1 ≤ undecided h) × (1 ≤ once f.is_leader)))
      × (once (r.1).is_leader ≤ once f.is_leader + count_calls started (makes r.0))
unfolding advance
advance-undecided storing f = ground arith
advance-undecided swapping_true f = ground arith
advance-undecided swapping_initialized f = ground arith
advance-undecided swapping_false f = ground arith
advance-undecided (owing c) f = ground arith
advance-undecided ended f = ground arith

abbrev Counted : ℕ → System → Type 0
Counted n s =
    (due started s + all_undecided s.handlers ≡ n) × (once (s.flags).is_leader ≤ due started s)

handler_of-undecided :
    (e : Event)
    → (count_calls started (makes (handler_of e)) ≡ 0) × (undecided (handler_of e) ≡ is_start e)
handler_of-undecided on_started_leading = (refl, refl)
handler_of-undecided on_stopped_leading = (refl, refl)
handler_of-undecided (on_new_leader _) = (refl, refl)

Step-Counted :
    {s t : System} (st : Step s t) (n : ℕ)
    → starts_in st + n ≤ 1
    → Counted n s
    → Counted (starts_in st + n) t
Step-Counted {s = s} (report e) n le (counted, led) =
    let h = handler_of e in
    let (quiet, same) = handler_of-undecided e in
    let grown = owed-append started s.handlers (h ∷ []) in
    (
      omega (arith, grown, all_undecided-append s.handlers (h ∷ []), quiet, same, counted),
      omega (arith, grown, led),
    )
Step-Counted {s = s} (go_on xs h ys e) n le (counted, led) =
    let (h', f') = advance h s.flags in
    let (moved, raised) = advance-undecided h s.flags in
    let grown = due-go_on started s xs h h' ys f' e in
    let before : all_undecided s.handlers ≡ all_undecided xs + (undecided h + all_undecided ys) =
      rw (e) (all_undecided-append xs (h ∷ ys)) in
    let after = all_undecided-append xs (h' ∷ ys) in
    (
      elim moved [
        | inl kept ↦ omega (arith, grown, before, after, kept, counted)
        | inr (lo, up) ↦ absurd (omega (arith, before, lo, up, led, counted, le))
      ],
      omega (arith, grown, raised, led),
    )

Reach-Counted :
    {s : System} (r : Reach idle s) → starts_reported r ≤ 1 → Counted (starts_reported r) s
Reach-Counted here le = (refl, omega arith)
Reach-Counted (step r st) le =
    Step-Counted st (starts_reported r) le (Reach-Counted r (omega arith))

settled :
    (hs : List Handler) → All (λ h. h ≡ ended) hs → (owed started hs ≡ 0) × (all_undecided hs ≡ 0)
settled [] h = (refl, refl)
settled (x ∷ hs) (e, es) =
    let (none_owed, none_open) = settled hs es in
    rw (e) (omega (arith, none_owed), omega (arith, none_open))

-- If the elector has reported one start at most, and all handlers have come to their end, then the user
-- was told of a start as often as the elector reported one, however the handlers interleaved.
pub Reach-starts_reported :
    {s : System} (r : Reach idle s)
    → starts_reported r ≤ 1
    → All (λ h. h ≡ ended) s.handlers
    → count_calls started s.calls ≡ starts_reported r
Reach-starts_reported {s} r le over =
    let (counted, _) = Reach-Counted r le in
    let (nothing_owed, all_decided) = settled s.handlers over in
    omega (arith, counted, nothing_owed, all_decided)
