-- ===== src/Multicluster/Restart.antt =====
-- `wrapStart` of multicluster/manager.go with the channel `restart` of raft.go: the leader routines of
-- the runnables, and the clusters that are added while they run.
pub mod Signals
use locking.Prelude.{
  ℕ, zero, suc, String, ◌≡◌, Bool, true, false, List, [], ◌∷◌, ◌++◌, Option, none, some,
}
use locking.Prelude.Map.{insert, string_key}

-- The clusters of the provider, each with a number that tells it from one it replaces.
abbrev pub Clusters : Type 0
Clusters = List (String × ℕ)

-- A runnable's routine. `engages` is set where it is about to call `doEngage`, at its start or after a
-- signal; `engaged` is what the last call got from `getClusters`.
pub record Routine : Type 0 where
  pub engages : Bool
  pub engaged : Clusters

-- `unsent` counts the calls that have added their cluster and not yet come to their send. `restart`
-- tells whether a signal waits in the channel, which holds one.
pub record System : Type 0 where
  pub clusters : Clusters
  pub unsent : ℕ
  pub restart : Bool
  pub routines : List Routine

abbrev pub started : Routine
started = record { engages = true; engaged = [] }

-- The closure over `AddOrReplace`, and the end of the routines that fetch a kubeconfig.
abbrev pub add_or_replace : String → ℕ → System → System
add_or_replace name c s = record s { clusters = insert name c s.clusters; unsent = suc s.unsent }

-- The send, which is dropped if a signal waits already.
abbrev pub send : ℕ → System → System
send n s = record s { unsent = n; restart = true }

abbrev pub woken : Routine → Routine
woken r = record r { engages = true }

-- `doEngage`; the answers of `Engage` are dropped.
abbrev pub do_engage : Clusters → Routine
do_engage clusters = record { engages = false; engaged = clusters }

-- One step of one goroutine, while none of the routines returns.
pub data Step : System → System → Type 0 where
  adds : (s : System) (name : String) (c : ℕ) → Step s (add_or_replace name c s)
  sends : (s : System) (n : ℕ) → s.unsent ≡ suc n → Step s (send n s)
  starts : (s : System) → Step s (record s { routines = s.routines ++ started ∷ [] })
  takes_signal :
      (s : System) (before after : List Routine) (r : Routine)
      → s.routines ≡ before ++ r ∷ after
      → r.engages ≡ false
      → s.restart ≡ true
      → Step s (record s { restart = false; routines = before ++ woken r ∷ after })
  engages :
      (s : System) (before after : List Routine) (r : Routine)
      → s.routines ≡ before ++ r ∷ after
      → r.engages ≡ true
      → Step s (record s { routines = before ++ do_engage s.clusters ∷ after })

-- At first no routine runs, and no signal waits.
abbrev pub start : Clusters → System
start clusters = record { clusters = clusters; unsent = 0; restart = false; routines = [] }

pub data Reach (s : System) : System → Type 0 where
  here : Reach s s
  later : {t u : System} → Reach s t → Step t u → Reach s u
