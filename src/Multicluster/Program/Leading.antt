-- ===== src/Multicluster/Program/Leading.antt =====
-- Whom a runtime manager names as the leader: `SetLeader` of the loop in raft/locker.go, the
-- closures of multicluster/raft.go, and `GetLeader` of multicluster/manager.go.
use mathlib.Core.List.{map-append}
use locking.Prelude.{
  ℕ, ◌≡◌, refl, ap, ◌∙◌, inl, inr, Bool, true, false, ◌&&◌, List, [], ◌∷◌, ◌++◌, Option, some, map,
  All,
}
use locking.Prelude.Result.{Result, ok}
use locking.Raft.Leadership.{
  Loop, Effect, set_leader, go_started, go_stopped, cancel, stop_node, observed, start, effect_if,
}
use locking.Raft.Leadership.Callbacks.{Seen, full, round, rounds}
use locking.Raft.Loop.{Ready, run_raft}
use locking.Raft.Loop
use locking.Raft.Loop.Views.{leadership, seen_in}
use locking.Raft.Loop.Traffic.{AllSettle, final, run_raft-leadership}
use locking.Raft.Loop.Endings.{round-Rounds}
use locking.Leader.{raft_callbacks}
use locking.Multicluster.Config.{RaftCluster, RaftConfiguration}
use locking.Multicluster.Node.{Platform, get_leader}
use locking.Multicluster.Node.Locking.{raft_node-parts}
use locking.Multicluster.Node.Names.{get_leader-gather}
use locking.Multicluster.Manager.{leader_name}
use locking.Multicluster.Program.{
  ManagerOptions, Program, new_raft_runtime_manager, store_leader, leader_of,
}
use locking.Multicluster.Program.Spawning.{new_raft_runtime_manager-parts}

-- The leader that the last `Ready` shows, or that given if there is none.
abbrev pub last_lead : List Seen → ℕ → ℕ
last_lead [] leader = leader
last_lead (h ∷ hs) leader = last_lead hs (observed h.0 h.1).lead

last_lead-append :
    (hs : List Seen) (h : Seen) (leader : ℕ)
    → last_lead (hs ++ h ∷ []) leader ≡ (observed h.0 h.1).lead
last_lead-append [] h leader = refl
last_lead-append (g ∷ hs) h leader = last_lead-append hs h (observed g.0 g.1).lead

module _ (p : Platform) where
  store_leader-append :
      (xs ys : List Effect) (prog : Program p)
      → store_leader p (xs ++ ys) prog ≡ store_leader p ys (store_leader p xs prog)
  unfolding store_leader
  store_leader-append [] ys prog = refl
  store_leader-append (set_leader l ∷ xs) ys prog =
      store_leader-append xs ys (record prog { current_leader = l })
  store_leader-append (go_started c ∷ xs) ys prog = store_leader-append xs ys prog
  store_leader-append (go_stopped ∷ xs) ys prog = store_leader-append xs ys prog
  store_leader-append (cancel c ∷ xs) ys prog = store_leader-append xs ys prog
  store_leader-append (stop_node ∷ xs) ys prog = store_leader-append xs ys prog

  store_leader-round :
      (id : ℕ) (h : Seen) (s : Loop) (prog : Program p)
      → store_leader p (round id full h s).1 prog
        ≡ record prog { current_leader = (observed h.0 h.1).lead }
  unfolding store_leader
  store_leader-round id h s prog = elim (round-Rounds id true h s) [
    | inl (e, _) ↦ rw (e) refl
    | inr (inl (e, _)) ↦ rw (e) refl
    | inr (inr e) ↦ rw (e) refl
  ]

  store_leader-rounds :
      (id : ℕ) (hs : List Seen) (s : Loop) (prog : Program p)
      → store_leader p (rounds id full hs s).1 prog
        ≡ record prog { current_leader = last_lead hs prog.current_leader }
  unfolding rounds store_leader
  store_leader-rounds id [] s prog = refl
  store_leader-rounds id (h ∷ hs) s prog =
      let r = round id full h s in
      store_leader-append r.1 (rounds id full hs r.0).1 prog
      ∙ ap (store_leader p (rounds id full hs r.0).1) (store_leader-round id h s prog)
      ∙ store_leader-rounds id hs r.0 (record prog { current_leader = (observed h.0 h.1).lead })

  store_leader-last :
      (s : Loop) (b : Bool) (prog : Program p)
      → store_leader p (cancel s.leader_context ∷ (effect_if b go_stopped ++ stop_node ∷ [])) prog
        ≡ prog
  unfolding store_leader
  store_leader-last s true prog = refl
  store_leader-last s false prog = refl

  -- Over a whole run of the loop, the last leader that it saw is the one that is stored.
  store_leader-run_raft :
      (id : ℕ) (answers : ℕ → ℕ → ℕ → Result Bool) (fuel : ℕ) (rds : List Ready)
      (es : List Loop.Effect) (prog : Program p)
      → AllSettle id full answers fuel
      → run_raft id (some full) answers fuel rds ≡ ok (some es)
      → store_leader p (leadership es) prog
        ≡ record prog { current_leader = last_lead (map seen_in rds) prog.current_leader }
  store_leader-run_raft id answers fuel rds es prog settles ran =
      let r = rounds id full (map seen_in rds) start in
      ap (λ xs. store_leader p xs prog)
        (run_raft-leadership id full answers fuel rds es settles ran)
      ∙ store_leader-append r.1 (final id full r.0) prog
      ∙ store_leader-last (r.0) ((r.0).is_leader && true) (store_leader p r.1 prog)
      ∙ store_leader-rounds id (map seen_in rds) start prog

  -- Let a runtime manager have been made. After a run of the raft loop in which each message got an
  -- answer in the end: if its last `Ready` shows a leader with the hash of a peer's name, then
  -- `GetLeader` gives that peer's name, unless a peer of another name after it in the list has the
  -- same hash.
  pub leader_of-run_raft :
      (config : RaftConfiguration) (given : Option p.RestConfig) (rest_config : Result p.RestConfig)
      (fetched : p.RestConfig → Result (List ℕ)) (created : ManagerOptions → Result (Unit {0}))
      (accepted : Result (Unit {0})) (prog : Program p) (answers : ℕ → ℕ → ℕ → Result Bool)
      (fuel : ℕ) (rds : List Ready) (rd : Ready) (es : List Loop.Effect) (xs ys : List RaftCluster)
      (q : RaftCluster)
      → new_raft_runtime_manager p config given rest_config fetched created accepted ≡ ok prog
      → AllSettle (prog.raft_config).id (raft_callbacks true) answers fuel
      → run_raft (prog.raft_config).id (some (raft_callbacks true)) answers fuel (rds ++ rd ∷ [])
        ≡ ok (some es)
      → config.peers ≡ xs ++ q ∷ ys
      → All (λ r. p.string_to_hash r.name ≡ p.string_to_hash q.name → r.name ≡ q.name) ys
      → (observed rd.soft_state rd.status).lead ≡ p.string_to_hash q.name
      → leader_of p (store_leader p (leadership es) prog) ≡ q.name
  unfolding leader_of leader_name
  leader_of-run_raft config given rest_config fetched created accepted prog answers fuel rds rd es
        xs ys q h settles ran listed apart led =
      let (en, _, _) =
        new_raft_runtime_manager-parts p config given rest_config fetched created accepted prog h in
      let gathered =
        (raft_node-parts p config given rest_config fetched prog.raft_config prog.gathered en).3 in
      let shown : last_lead (map seen_in (rds ++ rd ∷ [])) prog.current_leader
          ≡ p.string_to_hash q.name =
        ap (λ hs. last_lead hs prog.current_leader) (map-append seen_in rds (rd ∷ []))
        ∙ last_lead-append (map seen_in rds) (seen_in rd) prog.current_leader
        ∙ led in
      ap (leader_of p) (
        store_leader-run_raft (prog.raft_config).id answers fuel (rds ++ rd ∷ []) es prog settles
          ran)
      ∙ ap (get_leader p (prog.gathered).ids_to_names) shown
      ∙ get_leader-gather p config.name config.peers xs ys q prog.gathered gathered listed apart
