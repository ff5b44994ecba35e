-- ===== src/Multicluster/RestartExamples.antt =====
-- Two runnables, of which the first engages the one peer.
use locking.Prelude.{◌≡◌, refl, ◌⊎◌, List, [], ◌∷◌}
use locking.Prelude.Map.{string_key}
use locking.Multicluster.Restart.{
  Clusters, Routine, System, start, started, do_engage, starts, engages, Reach, here, later,
}
use locking.Multicluster.Restart.Signals.{Some, IsCurrent, Reach-Some}

abbrev peers : Clusters
peers = ("ham", 1) ∷ []

abbrev both : List Routine
both = do_engage peers ∷ do_engage peers ∷ []

abbrev settled : System
settled = record (start peers) { routines = both }

abbrev first_started : System
first_started = record (start peers) { routines = started ∷ [] }

abbrev two_started : System
two_started = record (start peers) { routines = started ∷ started ∷ [] }

abbrev one_engaged : System
one_engaged = record (start peers) { routines = do_engage peers ∷ started ∷ [] }

reach-settled : Reach (start peers) settled
reach-settled =
    later
      (later (later (later here (starts (start peers))) (starts first_started))
        (engages two_started [] (started ∷ []) started refl refl))
      (engages one_engaged (do_engage peers ∷ []) [] started refl refl)

Reach-Some_example : (settled.routines ≡ []) ⊎ Some (IsCurrent settled.clusters) settled.routines
Reach-Some_example = Reach-Some peers settled reach-settled (refl, refl, (refl, (refl, tt)))
