-- ===== src/Multicluster/Program/Spawning.antt =====
-- Which routines run on a node that leads: raft.go and manager.go of multicluster/, leader.go and
-- raft/locker.go together.
use mathlib.Core.List.{append_assoc, append-nil}
use locking.Prelude.{
  ℕ, ◌≡◌, refl, sym, ap, ◌∙◌, true, List, [], ◌∷◌, ◌++◌, Bool, Option, some, map, if◌then◌else◌,
  Bool-cases, inl, inr, arith,
}
use locking.Prelude.Result.{Result, ok, >>=-eq-ok, ok-injective}
use locking.Raft.Config.{LockConfiguration}
use locking.Raft.Leadership.Callbacks.{any_leads}
use locking.Raft.Loop.{Ready, Effect, run_raft}
use locking.Raft.Loop.Views.{leadership, seen_in}
use locking.Raft.Loop.Traffic.{AllSettle}
use locking.Leader.{LeaderManager, raft_callbacks, new_leader_manager, register_routine, callbacks}
use locking.Leader.Interleaving.{Runs}
use locking.Leader.Spawning.{spawned_routines, run_raft-spawned_routines}
use locking.Multicluster.Config.{RaftConfiguration}
use locking.Multicluster.Node.{Platform, FetchRoutine, Gathered, raft_node, leader_routines}
use locking.Multicluster.Node.Fetching.{waiting, fetch_from, leader_routines-waiting}
use locking.Multicluster.Manager.{Runnable, RuntimeManager, announce, new_manager}
use locking.Multicluster.Manager.Leading.{leading, all_routines, add_all, add_all-leading}
use locking.Multicluster.Program.{
  ManagerOptions, manager_options, Routine, fetching, running, register_all, Program,
  new_raft_runtime_manager, lock_manager, add_runnables,
}

register_all-routines :
    {R : Type 0} (fns : List R) (lm : LeaderManager R)
    → ((register_all fns lm).leader_routines ≡ lm.leader_routines ++ fns)
      × ((register_all fns lm).spawned ≡ lm.spawned)
unfolding register_routine
register_all-routines [] lm = (sym (append-nil lm.leader_routines), refl)
register_all-routines (fn ∷ fns) lm =
    let (routines, spawned) = register_all-routines fns (register_routine fn lm) in
    (routines ∙ append_assoc lm.leader_routines (fn ∷ []) fns, spawned)

new_manager-routines :
    (created accepted : Result (Unit {0})) (m : RuntimeManager)
    → new_manager created accepted ≡ ok m
    → (m.routines ≡ announce ∷ []) × (m.runnables ≡ [])
unfolding new_manager
new_manager-routines created accepted m h = ground arith

module _ (p : Platform) where
  pub new_raft_runtime_manager-parts :
      (config : RaftConfiguration) (given : Option p.RestConfig) (rest_config : Result p.RestConfig)
      (fetched : p.RestConfig → Result (List ℕ)) (created : ManagerOptions → Result (Unit {0}))
      (accepted : Result (Unit {0})) (prog : Program p)
      → new_raft_runtime_manager p config given rest_config fetched created accepted ≡ ok prog
      → (raft_node p config given rest_config fetched ≡ ok (prog.raft_config, prog.gathered))
        × (prog.lock
            ≡ register_all
                (map fetching (leader_routines p config prog.raft_config))
                new_leader_manager)
        × (new_manager (created (manager_options config)) accepted ≡ ok prog.manager)
  unfolding new_raft_runtime_manager
  new_raft_runtime_manager-parts config given rest_config fetched created accepted prog h =
      let ((c, g), e, h1) = >>=-eq-ok (raft_node p config given rest_config fetched) _ h in
      let (m, em, h2) = >>=-eq-ok (new_manager (created (manager_options config)) accepted) _ h1 in
      let same = ok-injective h2 in
      (
        e ∙ ap (λ x. ok (x.raft_config, x.gathered)) same,
        ap (λ x. x.lock) (sym same)
            ∙ ap
                (λ x.
                  register_all (map fetching (leader_routines p config x.raft_config))
                    new_leader_manager)
                same,
        em ∙ ap (λ x. ok x.manager) same,
      )

  -- The routines that raft.go registers.
  abbrev pub fetchers : RaftConfiguration → List FetchRoutine
  fetchers config =
      if config.bootstrap then map (fetch_from p) (waiting config.name config.peers) else []

  leader_routines-fetchers :
      (config : RaftConfiguration) (given : Option p.RestConfig) (rest_config : Result p.RestConfig)
      (fetched : p.RestConfig → Result (List ℕ)) (c : LockConfiguration) (g : Gathered p)
      → raft_node p config given rest_config fetched ≡ ok (c, g)
      → leader_routines p config c ≡ fetchers config
  unfolding leader_routines
  leader_routines-fetchers config given rest_config fetched c g h =
      elim (Bool-cases config.bootstrap) [
        | inl e ↦ leader_routines-waiting p config given rest_config fetched c g h e ∙ rw (e) refl
        | inr e ↦ rw (e) refl
      ]

  -- What the program has registered after its runnables were added.
  abbrev pub registered : RaftConfiguration → List Runnable → List Routine
  registered config rs =
      map fetching (fetchers config) ++ map running (announce ∷ all_routines (leading rs))

  lock_manager-registered :
      (config : RaftConfiguration) (given : Option p.RestConfig) (rest_config : Result p.RestConfig)
      (fetched : p.RestConfig → Result (List ℕ)) (created : ManagerOptions → Result (Unit {0}))
      (accepted : Result (Unit {0})) (prog : Program p) (below : Runnable → Result (Unit {0}))
      (rs : List Runnable)
      → new_raft_runtime_manager p config given rest_config fetched created accepted ≡ ok prog
      → let lm = lock_manager p (add_runnables p below rs prog) in
        (lm.leader_routines ≡ registered config rs) × (lm.spawned ≡ [])
  unfolding lock_manager add_runnables
  lock_manager-registered config given rest_config fetched created accepted prog below rs h =
      let (en, el, em) =
        new_raft_runtime_manager-parts config given rest_config fetched created accepted prog h in
      let m = add_all below rs prog.manager in
      let (first, fresh) =
        register_all-routines (map fetching (leader_routines p config prog.raft_config))
          (new_leader_manager {R = Routine}) in
      let (later, fresh') = register_all-routines (map running m.routines) prog.lock in
      let routines =
        (add_all-leading below rs prog.manager).1
        ∙ ap (λ xs. xs ++ all_routines (leading rs))
            (new_manager-routines (created (manager_options config)) accepted prog.manager em).0 in
      (
        later
            ∙ ap (λ xs. xs.leader_routines ++ map running m.routines) el
            ∙ ap (λ xs. xs ++ map running m.routines) first
            ∙ ap (λ xs. map fetching (leader_routines p config prog.raft_config) ++ map running xs)
                routines
            ∙ ap (λ xs. map fetching xs ++ map running (announce ∷ all_routines (leading rs)))
                (leader_routines-fetchers config given rest_config fetched prog.raft_config
                  prog.gathered en),
        fresh' ∙ ap (λ x. x.spawned) el ∙ fresh,
      )

  -- Let a runtime manager have been made, and runnables added to it, however the manager below
  -- answers. Over any run of the raft loop, from its start to the end of its context, in which each
  -- message gets an answer in the end, and in whatever order the callbacks run: if the node was
  -- ever seen as leader, then the routines that run are, in bootstrap mode, one for each other peer
  -- without a kubeconfig, to fetch it; the manager's own; and those of the runnables for the leader
  -- only; each once and in this order. Else none runs.
  pub new_raft_runtime_manager-spawned_routines :
      (config : RaftConfiguration) (given : Option p.RestConfig) (rest_config : Result p.RestConfig)
      (fetched : p.RestConfig → Result (List ℕ)) (created : ManagerOptions → Result (Unit {0}))
      (accepted : Result (Unit {0})) (prog : Program p) (below : Runnable → Result (Unit {0}))
      (rs : List Runnable) (answers : ℕ → ℕ → ℕ → Result Bool) (fuel : ℕ) (rds : List Ready)
      (es : List Effect) (lm' : LeaderManager Routine)
      → new_raft_runtime_manager p config given rest_config fetched created accepted ≡ ok prog
      → AllSettle (prog.raft_config).id (raft_callbacks true) answers fuel
      → run_raft (prog.raft_config).id (some (raft_callbacks true)) answers fuel rds ≡ ok (some es)
      → Runs (callbacks (leadership es)) (lock_manager p (add_runnables p below rs prog)) lm'
      → spawned_routines lm'
        ≡ (if any_leads (prog.raft_config).id (map seen_in rds) then registered config rs else [])
  new_raft_runtime_manager-spawned_routines config given rest_config fetched created accepted prog
        below rs answers fuel rds es lm' h settles ran runs =
      let lm = lock_manager p (add_runnables p below rs prog) in
      let (routines, fresh) =
        lock_manager-registered config given rest_config fetched created accepted prog below rs h in
      let id = (prog.raft_config).id in
      run_raft-spawned_routines id true answers fuel rds es lm lm' settles ran fresh runs
      ∙ ap (λ xs. if any_leads id (map seen_in rds) then xs else []) routines
