-- ===== src/Raft/Shutdown/Answer.antt =====
-- What `Run` of raft/locker.go answers in the end.
use locking.Prelude.{◌≡◌, refl, sym, ◌∙◌, ap, subst, true, List, [], ◌∷◌, ◌++◌, Option, none, some}
use locking.Prelude.Result.{Error}
use locking.Raft.Shutdown.{
  Goroutine, running, ended, Main, selecting, waiting, returned, System, start, Step,
  caller_cancels, transport_fails, transport_stops, raft_stops, takes_error, sees_done, returns,
  Reach, here, later,
}

-- The error that a goroutine has sent.
abbrev pub failures : Goroutine → List Error
failures running = []
failures (ended none) = []
failures (ended (some e)) = e ∷ []

-- What `Run` waits or returns with.
abbrev pub Owed : Option Error → System → Type 0
Owed (some e) s = (s.errs ≡ []) × (s.transport ≡ ended (some e)) × (s.cancelled ≡ true)
Owed none s = (s.errs ≡ failures s.transport) × (s.caller_cancelled ≡ true) × (s.cancelled ≡ true)

abbrev pub IsSound : Main → System → Type 0
IsSound selecting s = (s.errs ≡ failures s.transport) × (s.cancelled ≡ s.caller_cancelled)
IsSound (waiting r) s = Owed r s
IsSound (returned r) s = Owed r s

caller_cancels-IsSound :
    (m : Main) (s : System)
    → IsSound m s
    → IsSound m (record s { cancelled = true; caller_cancelled = true })
caller_cancels-IsSound selecting s h = (h.0, refl)
caller_cancels-IsSound (waiting (some e)) s h = (h.0, h.1, refl)
caller_cancels-IsSound (waiting none) s h = (h.0, refl, refl)
caller_cancels-IsSound (returned (some e)) s h = (h.0, h.1, refl)
caller_cancels-IsSound (returned none) s h = (h.0, refl, refl)

sent :
    (s : System) (e : Error)
    → s.transport ≡ running
    → s.errs ≡ failures s.transport
    → s.errs ++ e ∷ [] ≡ e ∷ []
sent s e run h = ap (λ es. es ++ e ∷ []) (h ∙ ap failures run)

transport_fails-IsSound :
    (m : Main) (s : System) (e : Error)
    → s.transport ≡ running
    → IsSound m s
    → IsSound m (record s { transport = ended (some e); errs = s.errs ++ e ∷ [] })
transport_fails-IsSound selecting s e run h = (sent s e run h.0, h.1)
transport_fails-IsSound (waiting (some x)) s e run h = cc (sym run ∙ h.1)
transport_fails-IsSound (waiting none) s e run h = (sent s e run h.0, h.1, h.2)
transport_fails-IsSound (returned (some x)) s e run h = cc (sym run ∙ h.1)
transport_fails-IsSound (returned none) s e run h = (sent s e run h.0, h.1, h.2)

transport_stops-IsSound :
    (m : Main) (s : System)
    → s.transport ≡ running
    → IsSound m s
    → IsSound m (record s { transport = ended none })
transport_stops-IsSound selecting s run h = (h.0 ∙ ap failures run, h.1)
transport_stops-IsSound (waiting (some x)) s run h = cc (sym run ∙ h.1)
transport_stops-IsSound (waiting none) s run h = (h.0 ∙ ap failures run, h.1, h.2)
transport_stops-IsSound (returned (some x)) s run h = cc (sym run ∙ h.1)
transport_stops-IsSound (returned none) s run h = (h.0 ∙ ap failures run, h.1, h.2)

raft_stops-IsSound :
    (m : Main) (s : System) → IsSound m s → IsSound m (record s { raft = ended none })
raft_stops-IsSound selecting s h = h
raft_stops-IsSound (waiting (some x)) s h = h
raft_stops-IsSound (waiting none) s h = h
raft_stops-IsSound (returned (some x)) s h = h
raft_stops-IsSound (returned none) s h = h

-- The only error that can wait in the channel is the transport's.
queued :
    (g : Goroutine) (e : Error) (es : List Error)
    → e ∷ es ≡ failures g
    → (es ≡ []) × (g ≡ ended (some e))
queued running e es h = cc
queued (ended none) e es h = cc
queued (ended (some x)) e es h = (cc, cc)

owed : (r : Option Error) (s : System) → Owed r s → Owed r (record s { main = returned r })
owed (some e) s h = h
owed none s h = h

pub Step-IsSound : {s t : System} → Step s t → IsSound s.main s → IsSound t.main t
Step-IsSound (caller_cancels s _) h = caller_cancels-IsSound s.main s h
Step-IsSound (transport_fails s o e run _ _ _) h = transport_fails-IsSound s.main s e run h
Step-IsSound (transport_stops s o run _ _) h = transport_stops-IsSound s.main s run h
Step-IsSound (raft_stops s _ _) h = raft_stops-IsSound s.main s h
Step-IsSound (takes_error s e es at q) h =
    let (empty, failed) = queued s.transport e es (sym q ∙ (subst (λ m. IsSound m s) at h).0) in
    (empty, failed, refl)
Step-IsSound (sees_done s at done) h =
    let open_select = subst (λ m. IsSound m s) at h in
    (open_select.0, sym open_select.1 ∙ done, done)
Step-IsSound (returns s r t u at _ _) h = owed r s (subst (λ m. IsSound m s) at h)

pub Reach-IsSound : {s : System} → Reach start s → IsSound s.main s
Reach-IsSound here = (refl, refl)
Reach-IsSound (later r st) = Step-IsSound st (Reach-IsSound r)

-- `Run` returns the error with which the transport ended, or nothing where its caller has cancelled
-- the context: in particular it never returns without an error by itself.
abbrev pub Explained : Option Error → System → Type 0
Explained (some e) s = s.transport ≡ ended (some e)
Explained none s = s.caller_cancelled ≡ true

Owed-Explained : (r : Option Error) (s : System) → Owed r s → Explained r s
Owed-Explained (some e) s h = h.1
Owed-Explained none s h = h.1

-- However its goroutines are interleaved, `Run` returns only an error with which the transport has
-- ended, and returns without one only where its caller has cancelled the context.
pub Reach-Explained :
    (s : System) (r : Option Error) → Reach start s → s.main ≡ returned r → Explained r s
Reach-Explained s r reach at =
    Owed-Explained r s (subst (λ m. IsSound m s) at (Reach-IsSound reach))
