-- ===== src/Raft/Loop/Traffic.antt =====
-- What the loop of `runRaft` makes of its `Ready` values, apart from the leadership, and that the
-- leadership is as if there were nothing else.
use mathlib.Core.List.{append-nil}
use locking.Prelude.{
  ℕ, suc, ◌<◌, ◌≡◌, refl, sym, subst, ap, ap₂, ◌∙◌, List, [], ◌∷◌, ◌++◌, map, Bool, ◌&&◌, some,
}
use locking.Prelude.Result.{Result, ok, ok-injective}
use locking.Raft.Leadership.{
  LeaderCallbacks, Loop, effect_if, cancel, go_stopped, stop_node, start, on_ready, on_done, on_all,
}
use locking.Raft.Leadership
use locking.Raft.Leadership.Callbacks.{Seen, rounds, on_all-rounds}
use locking.Raft.Leadership.Callbacks
use locking.Raft.Sending.Delivery.{Fate, AllFates, handled, Settles, send_all-returns}
use locking.Raft.Loop.{
  Ready, Effect, led, append, sent, advance, in_order, round, run_all, run_raft,
}
use locking.Raft.Loop.Views.{
  kept, traffic, leadership, followed, Follows, seen_in, traffic-append, leadership-append,
  traffic-led, leadership-led, traffic-sent, leadership-sent,
}

module _ (id : ℕ) (cb : LeaderCallbacks) where
  on_ready-round :
      (rd : Ready) (s : Loop)
      → on_ready id (some cb) rd.soft_state rd.status s ≡ ok (Callbacks.round id cb (seen_in rd) s)
  unfolding on_ready Callbacks.round
  on_ready-round rd s = refl

  -- One round handles the entries and messages of its `Ready`, and does what the leadership asks for.
  round-parts :
      (answers : ℕ → ℕ → Result Bool) (fuel : ℕ) (rd : Ready) (s : Loop)
      → ((p : ℕ) → (k : ℕ) × (k < fuel) × Settles (answers p k))
      → (es : List Effect) × (fates : List Fate) × (round id (some cb) answers fuel rd s
          ≡ ok (some ((Callbacks.round id cb (seen_in rd) s).0, es)))
        × AllFates id answers 0 rd.messages fates
        × (traffic es ≡ followed rd fates)
        × (leadership es ≡ (Callbacks.round id cb (seen_in rd) s).1)
  unfolding round
  round-parts answers fuel rd s settles =
      let (sending, e, h) = send_all-returns id answers fuel 0 rd.messages settles in
      let (s', leading) = Callbacks.round id cb (seen_in rd) s in
      (
        in_order leading rd.entries sending,
        handled sending,
        rw (on_ready-round rd s, e) refl,
        h,
        traffic-led leading (append rd.entries ∷ (map sent sending ++ advance ∷ []))
            ∙ ap (λ es. kept rd.entries ∷ es) (traffic-sent sending (advance ∷ [])),
        leadership-led leading (append rd.entries ∷ (map sent sending ++ advance ∷ []))
            ∙ ap (λ es. leading ++ es) (leadership-sent sending (advance ∷ []))
            ∙ append-nil leading,
      )

  -- The last round's effects.
  abbrev pub final : Loop → List Leadership.Effect
  final s =
      cancel s.leader_context
      ∷ (effect_if (s.is_leader && cb.on_stopped_leading) go_stopped ++ stop_node ∷ [])

  -- Each message of each `Ready` gets an answer at some attempt below the fuel.
  abbrev pub AllSettle : (ℕ → ℕ → ℕ → Result Bool) → ℕ → Type 0
  AllSettle answers fuel = (i p : ℕ) → (k : ℕ) × (k < fuel) × Settles (answers i p k)

  run_all-parts :
      (answers : ℕ → ℕ → ℕ → Result Bool) (fuel i : ℕ) (rds : List Ready) (s : Loop)
      → AllSettle answers fuel
      → (es : List Effect) × (run_all id (some cb) answers fuel i rds s
          ≡ ok (some ((rounds id cb (map seen_in rds) s).0, es)))
        × Follows id answers i rds (traffic es)
        × (leadership es ≡ (rounds id cb (map seen_in rds) s).1)
  unfolding run_all rounds
  run_all-parts answers fuel i [] s settles = ([], refl, refl, refl)
  run_all-parts answers fuel i (rd ∷ rds) s settles =
      let (es, fates, e, all, t, l) = round-parts (answers i) fuel rd s (settles i) in
      let (es', e', t', l') =
        run_all-parts answers fuel (suc i) rds (Callbacks.round id cb (seen_in rd) s).0 settles in
      (
        es ++ es',
        rw (e, e') refl,
        (fates, traffic es', all, traffic-append es es' ∙ ap (λ evs. evs ++ traffic es') t, t'),
        leadership-append es es' ∙ ap₂ ◌++◌ l l',
      )

  pub run_raft-parts :
      (answers : ℕ → ℕ → ℕ → Result Bool) (fuel : ℕ) (rds : List Ready)
      → AllSettle answers fuel
      → (es : List Effect) × (r : Loop × List Leadership.Effect) × (last : List Leadership.Effect)
        × (run_raft id (some cb) answers fuel rds ≡ ok (some es))
        × Follows id answers 0 rds (traffic es)
        × (on_all id (some cb) (map seen_in rds) start ≡ ok r)
        × (on_done (some cb) r.0 ≡ ok last)
        × (leadership es ≡ r.1 ++ last)
  unfolding run_raft on_done
  run_raft-parts answers fuel rds settles =
      let (es, e, t, l) = run_all-parts answers fuel 0 rds start settles in
      let r = rounds id cb (map seen_in rds) start in
      let last = final r.0 in
      (
        es ++ map led last,
        r,
        last,
        rw (e) refl,
        subst (Follows id answers 0 rds)
            (sym (
              traffic-append es (map led last)
              ∙ ap (λ evs. traffic es ++ evs)
                  (ap traffic (sym (append-nil (map led last))) ∙ traffic-led last [])
              ∙ append-nil (traffic es)))
            t,
        on_all-rounds id cb (map seen_in rds) start,
        refl,
        leadership-append es (map led last)
            ∙ ap₂ ◌++◌ l (
                ap leadership (sym (append-nil (map led last)))
                ∙ leadership-led last []
                ∙ append-nil last),
      )

  -- What a run does for the leadership, as the rounds without entries and messages.
  pub run_raft-leadership :
      (answers : ℕ → ℕ → ℕ → Result Bool) (fuel : ℕ) (rds : List Ready) (es : List Effect)
      → AllSettle answers fuel
      → run_raft id (some cb) answers fuel rds ≡ ok (some es)
      → let r = rounds id cb (map seen_in rds) start in leadership es ≡ r.1 ++ final r.0
  unfolding on_done
  run_raft-leadership answers fuel rds es settles ran =
      let (es', r, last, e, _, all, ended, l) = run_raft-parts answers fuel rds settles in
      let same : es' ≡ es = cc in
      let rest : rounds id cb (map seen_in rds) start ≡ r =
        ok-injective (sym (on_all-rounds id cb (map seen_in rds) start) ∙ all) in
      let done : final r.0 ≡ last = ok-injective ended in
      ap leadership (sym same)
      ∙ l
      ∙ ap (λ xs. r.1 ++ xs) (sym done)
      ∙ ap (λ q. q.1 ++ final q.0) (sym rest)
