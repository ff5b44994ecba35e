-- ===== src/Multicluster/Restart/Signals.antt =====
-- What a restart signal achieves.
use locking.Prelude.{ℕ, suc, String, ◌≡◌, refl, ◌⊎◌, inl, inr, true, false, List, [], ◌∷◌, ◌++◌}
use locking.Prelude.Map.{insert, string_key}
use locking.Multicluster.Restart.{
  Clusters, Routine, System, start, started, woken, do_engage, Step, adds, sends, starts,
  takes_signal, engages, Reach, here, later,
}

-- Nothing is under way: no send is to come, no signal waits, and no routine is about to engage.
abbrev pub AllIdle : List Routine → Type 0
AllIdle [] = Unit
AllIdle (r ∷ rs) = (r.engages ≡ false) × AllIdle rs

abbrev pub IsQuiet : System → Type 0
IsQuiet s = (s.unsent ≡ 0) × (s.restart ≡ false) × AllIdle s.routines

-- One of the routines has the property.
pub data Some (P : Routine → Type 0) : List Routine → Type 0 where
  found : (before after : List Routine) (r : Routine) → P r → Some P (before ++ r ∷ after)

abbrev pub IsCurrent : Clusters → Routine → Type 0
IsCurrent clusters r = r.engaged ≡ clusters

-- A routine that will engage the present clusters, or has.
abbrev IsServed : Clusters → Routine → Type 0
IsServed clusters r = (r.engages ≡ true) ⊎ IsCurrent clusters r

abbrev Invariant : System → Type 0
Invariant s =
    (s.routines ≡ [])
    ⊎ (((n : ℕ) × (s.unsent ≡ suc n))
        ⊎ ((s.restart ≡ true) ⊎ Some (IsServed s.clusters) s.routines))

Step-Invariant : {s t : System} → Step s t → Invariant t
Step-Invariant (adds s name c) = inr (inl (s.unsent, refl))
Step-Invariant (sends s n _) = inr (inr (inl refl))
Step-Invariant (starts s) = inr (inr (inr (found s.routines [] started (inl refl))))
Step-Invariant (takes_signal s before after r _ _ _) =
    inr (inr (inr (found before after (woken r) (inl refl))))
Step-Invariant (engages s before after r _ _) =
    inr (inr (inr (found before after (do_engage s.clusters) (inr refl))))

Reach-Invariant : {clusters : Clusters} {s : System} → Reach (start clusters) s → Invariant s
Reach-Invariant here = inl refl
Reach-Invariant (later _ st) = Step-Invariant st

idle_at :
    (before after : List Routine) (r : Routine) → AllIdle (before ++ r ∷ after) → r.engages ≡ false
idle_at [] after r h = h.0
idle_at (b ∷ before) after r h = idle_at before after r h.1

idle_served :
    {clusters : Clusters} {rs : List Routine}
    → AllIdle rs
    → Some (IsServed clusters) rs
    → Some (IsCurrent clusters) rs
idle_served h (found before after r (inl e)) = absurd (cc (e, idle_at before after r h))
idle_served h (found before after r (inr e)) = found before after r e

-- Once nothing is under way, one of the routines has engaged the clusters as they are then: a signal
-- that finds the channel full, or comes while a routine engages, is not lost.
pub Reach-Some :
    (clusters : Clusters) (s : System)
    → Reach (start clusters) s
    → IsQuiet s
    → (s.routines ≡ []) ⊎ Some (IsCurrent s.clusters) s.routines
Reach-Some clusters s reach (sent, none_waits, idle) = elim (Reach-Invariant reach) [
  | inl e ↦ inl e
  | inr (inl (n, e)) ↦ absurd (cc (e, sent))
  | inr (inr (inl e)) ↦ absurd (cc (e, none_waits))
  | inr (inr (inr h)) ↦ inr (idle_served idle h)
]

abbrev pub added_for : String → ℕ → List Routine → List Routine → System → System
added_for name c before after s =
    let clusters = insert name c s.clusters in
    record s {
      clusters = clusters;
      unsent = 0;
      restart = false;
      routines = before ++ do_engage clusters ∷ after;
    }
