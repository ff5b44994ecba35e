-- ===== src/Kube/Elector/Concurrent/Sequential.antt =====
-- The handlers of kube/locker.go as goroutines, where each has ended before the elector's next report.
use locking.Prelude.{
  ◌≡◌, refl, sym, ap, ap₂, ◌∙◌, subst, ◌⊎◌, inl, inr, List, [], ◌∷◌, ◌++◌, none, All, arith,
}
use mathlib.Core.List.{append-nil, append_assoc}
use locking.Kube.Elector.{Flags, Event, fresh, handle, handle_all}
use locking.Kube.Elector.Alternation.{both, last_call, verdict, handle_all-last}
use locking.Kube.Elector.Concurrent.{
  Handler, storing, swapping_true, swapping_initialized, swapping_false, owing, ended, handler_of,
  advance, makes, System, idle, report, go_on, Reach, here, step,
}
use locking.Kube.Elector.Concurrent.Balance.{run, run-handle}

abbrev pub AllEnded : List Handler → Type 0
AllEnded hs = All (λ h. h ≡ ended) hs

-- The system after one operation of a handler.
abbrev pub gone_on : System → List Handler → Handler → List Handler → System
gone_on s xs h ys = record {
  flags = (advance h s.flags).1;
  handlers = xs ++ (advance h s.flags).0 ∷ ys;
  calls = s.calls ++ makes h;
}

-- Handlers go on, in any order, and the elector reports nothing.
pub data Works : System → System → Type 0 where
  rest : {s : System} → Works s s
  goes :
      {s t : System} (xs : List Handler) (h : Handler) (ys : List Handler)
      → s.handlers ≡ xs ++ h ∷ ys
      → Works (gone_on s xs h ys) t
      → Works s t

abbrev pub reported : Event → System → System
reported e s = record s { handlers = s.handlers ++ handler_of e ∷ [] }

-- The elector has reported the events, and after each one all handlers have come to their end.
pub data Handled : List Event → System → Type 0 where
  none_yet : Handled [] idle
  next :
      {es : List Event} {s t : System} (e : Event)
      → Handled es s
      → Works (reported e s) t
      → AllEnded t.handlers
      → Handled (es ++ e ∷ []) t

run-advance :
    (h : Handler) (f : Flags)
    → let (h', f') = advance h f in run 3 h f ≡ (makes h ++ (run 3 h' f').0, (run 3 h' f').1)
unfolding advance
run-advance storing f = ground arith
run-advance swapping_true f = ground arith
run-advance swapping_initialized f = ground arith
run-advance swapping_false f = ground arith
run-advance (owing c) f = refl
run-advance ended f = refl

-- Of handlers that have ended and one more, either that one goes on, or one that has ended.
who :
    (ends : List Handler) (h : Handler) (xs : List Handler) (x : Handler) (ys : List Handler)
    → AllEnded ends
    → ends ++ h ∷ [] ≡ xs ++ x ∷ ys
    → ((xs ≡ ends) × (x ≡ h) × (ys ≡ [])) ⊎ (x ≡ ended)
who [] h [] x ys all e = inl (refl, cc, cc)
who [] h (y ∷ []) x ys all e = cc
who [] h (y ∷ (z ∷ xs)) x ys all e = cc
who (a ∷ ends) h [] x ys all e = inr (cc (all.0))
who (a ∷ ends) h (y ∷ xs) x ys all e = elim (who ends h xs x ys all.1 cc) [
  | inl (p, q, r) ↦ inl (cc, q, r)
  | inr p ↦ inr p
]

All-last : (ends : List Handler) (h : Handler) → AllEnded (ends ++ h ∷ []) → h ≡ ended
All-last [] h all = all.0
All-last (a ∷ ends) h all = All-last ends h all.1

-- What the one handler does, where the others have ended.
Works-run :
    {s t : System} (ends : List Handler) (h : Handler)
    → s.handlers ≡ ends ++ h ∷ []
    → AllEnded ends
    → Works s t
    → AllEnded t.handlers
    → (t.calls ≡ s.calls ++ (run 3 h s.flags).0) × (t.flags ≡ (run 3 h s.flags).1)
unfolding advance
Works-run {s = s} ends h at all rest over =
    let done = All-last ends h (subst AllEnded at over) in
    rw (done) (sym (append-nil s.calls), refl)
Works-run {s = s} ends h at all (goes xs x ys e w) over =
    elim (who ends h xs x ys all (sym at ∙ e)) [
      | inl (p, q, r) ↦
          let (h', f') = advance h s.flags in
          let placed : (gone_on s xs x ys).handlers ≡ ends ++ h' ∷ [] = rw (p, q, r) refl in
          let (calls, flags) = Works-run ends h' placed all w over in
          let same : gone_on s xs x ys ≡ gone_on s ends h [] = rw (p, q, r) refl in
          (
            calls
                ∙ ap (λ z. z.calls ++ (run 3 h' z.flags).0) same
                ∙ append_assoc s.calls (makes h) (run 3 h' f').0
                ∙ ap (λ z. s.calls ++ z.0) (sym (run-advance h s.flags)),
            flags
                ∙ ap (λ z. (run 3 h' z.flags).1) same
                ∙ ap (λ z. z.1) (sym (run-advance h s.flags)),
          )
      | inr p ↦
          let placed : (gone_on s xs x ys).handlers ≡ ends ++ h ∷ [] =
            rw (p) (sym (rw p at e) ∙ at) in
          let (calls, flags) = Works-run ends h placed all w over in
          let same : gone_on s xs x ys ≡ gone_on s xs ended ys = rw (p) refl in
          (
            calls
                ∙ ap (λ z. z.calls ++ (run 3 h z.flags).0) same
                ∙ ap (λ cs. cs ++ (run 3 h s.flags).0) (append-nil s.calls),
            flags ∙ ap (λ z. (run 3 h z.flags).1) same,
          )
    ]

handle_all-append :
    (es : List Event) (e : Event) (f : Flags)
    → let (calls, f') = handle_all both es f in
      handle_all both (es ++ e ∷ []) f ≡ (calls ++ (handle both e f').0, (handle both e f').1)
unfolding handle_all
handle_all-append [] e f = ap (λ cs. (cs, (handle both e f).1)) (append-nil (handle both e f).0)
handle_all-append (x ∷ es) e f =
    let (calls, f1) = handle both x f in
    let (calls', f2) = handle_all both es f1 in
    ap (λ r. (calls ++ r.0, r.1)) (handle_all-append es e f1)
    ∙ ap (λ cs. (cs, (handle both e f2).1)) (sym (append_assoc calls calls' (handle both e f2).0))

Works-Reach : {s t : System} → Reach idle s → Works s t → Reach idle t
Works-Reach r rest = r
Works-Reach r (goes xs h ys e w) = Works-Reach (step r (go_on xs h ys e)) w

Handled-Reach : {es : List Event} {s : System} → Handled es s → Reach idle s
Handled-Reach none_yet = here
Handled-Reach (next e h w over) = Works-Reach (step (Handled-Reach h) (report e)) w

Handled-AllEnded : {es : List Event} {s : System} → Handled es s → AllEnded s.handlers
Handled-AllEnded none_yet = tt
Handled-AllEnded (next e h w over) = over

Handled-handle_all :
    {es : List Event} {s : System}
    → Handled es s
    → (s.calls ≡ (handle_all both es fresh).0) × (s.flags ≡ (handle_all both es fresh).1)
unfolding handle_all
Handled-handle_all none_yet = (refl, refl)
Handled-handle_all (next {es = es} {s = s} e h w over) =
    let (calls, flags) = Handled-handle_all h in
    let (calls', flags') = Works-run s.handlers (handler_of e) refl (Handled-AllEnded h) w over in
    let ran : run 3 (handler_of e) s.flags ≡ handle both e (handle_all both es fresh).1 =
      run-handle e s.flags ∙ ap (handle both e) flags in
    let whole = sym (handle_all-append es e fresh) in
    (
      calls' ∙ ap₂ (λ cs r. cs ++ r.0) calls ran ∙ ap (λ z. z.0) whole,
      flags' ∙ ap (λ r. r.1) ran ∙ ap (λ z. z.1) whole,
    )

-- With both callbacks set, and where all handlers have ended before the elector's next report, the
-- calls are those of the handlers one after the other, and the last report alone decides what the
-- user was told last: that it leads after a start, and that it does not after a stop or a new leader.
-- The new leader's identity plays no part, also where it is the elector's own, which client-go reports
-- on the first acquisition. Such states are reachable ones of the handlers that interleave.
pub Handled-last :
    (es : List Event) (s : System)
    → Handled es s
    → Reach idle s
      × (s.calls ≡ (handle_all both es fresh).0)
      × (last_call none s.calls ≡ verdict none es)
Handled-last es s h =
    let (calls, _) = Handled-handle_all h in
    (Handled-Reach h, calls, ap (last_call none) calls ∙ handle_all-last es none)
