-- ===== src/Multicluster/Manager.antt =====
-- multicluster/manager.go: the manager that keeps back, until its lock leads, what must run on the
-- leader only.
pub mod Leading
use locking.Prelude.{
  ℕ, String, Bool, true, false, ◌||◌, List, [], ◌∷◌, ◌++◌, Option, none, some, if◌then◌else◌,
}
use locking.Prelude.Result.{Result, ok, err, ◌>>=◌, ◌>>◌}

-- A runnable by number, and which of the interfaces it has that the program asks for.
pub record Runnable : Type 0 where
  pub id : ℕ
  pub is_reconciler : Bool
  pub is_leader_election : Bool
  pub has_warmup : Bool

-- The leader routines of this file: the one of `newManager`, and those of a runnable.
pub data LeaderRoutine : Type 0 where
  announce : LeaderRoutine
  warmup : ℕ → LeaderRoutine
  start : ℕ → LeaderRoutine

-- `managerI` with its `leaderRunnable`. `added` is what the manager below was given besides that, and
-- `routines` what the leader manager was given.
pub record RuntimeManager : Type 0 where
  pub added : List Runnable
  pub runnables : List Runnable
  pub routines : List LeaderRoutine

-- `created` and `accepted` are the answers of the manager below, to its creation and to the leader
-- runnable.
unfoldable pub new_manager : Result (Unit {0}) → Result (Unit {0}) → Result RuntimeManager
new_manager created accepted = do
  created
  accepted
  ok (record { added = []; runnables = []; routines = announce ∷ [] })

abbrev pub routines_of : Runnable → List LeaderRoutine
routines_of r = if r.has_warmup then warmup r.id ∷ start r.id ∷ [] else start r.id ∷ []

-- `leaderRunnable.Add`
unfoldable pub add_leading : Runnable → RuntimeManager → RuntimeManager
add_leading r m = record m {
  runnables = m.runnables ++ r ∷ [];
  routines = m.routines ++ routines_of r;
}

abbrev keep : Runnable → RuntimeManager → Result (Unit {0}) → Result (Unit {0}) × RuntimeManager
keep r m (ok _) = (ok tt, record m { added = m.added ++ r ∷ [] })
keep r m (err e) = (err e, m)

-- `managerI.Add`, over the answers of the manager below.
unfoldable pub add :
    (Runnable → Result (Unit {0})) → Runnable → RuntimeManager → Result (Unit {0}) × RuntimeManager
unfolding add_leading
add below r m =
    if r.is_reconciler
    then (ok tt, add_leading r m)
    else if r.is_leader_election
    then (ok tt, add_leading r m)
    else keep r m (below r)

-- `leaderRunnable.Engage`: the runnables that are asked, and the answer.
unfoldable pub engage : (Runnable → Result (Unit {0})) → List Runnable → List ℕ × Result (Unit {0})
engage answer [] = ([], ok tt)
engage answer (r ∷ rs) =
    let (asked, rest) = engage answer rs in
    elim (answer r) [ ok _ ↦ (r.id ∷ asked, rest) | err e ↦ (r.id ∷ [], err e) ]

-- `GetLeader`
unfoldable pub leader_name : Option String → String
leader_name none = ""
leader_name (some leader) = leader
