-- ===== src/Raft/Loop.antt =====
-- The loop of `runRaft` in raft/locker.go as a whole: each `Ready` with its part in the leadership
-- (Raft/Leadership), its entries and its messages (Raft/Sending), and the end of the context.
pub mod Views
pub mod Traffic
pub mod Endings
use mathlib.Core.Option.{map as option_map}
use locking.Prelude.{ℕ, suc, List, [], ◌∷◌, ◌++◌, map, Bool, Option, none, some}
use locking.Prelude.Result.{Result, ok, err, ◌>>=◌}
use locking.Raft.Leadership.{SoftState, LeaderCallbacks, Loop, start, on_ready, on_done}
use locking.Raft.Leadership
use locking.Raft.Sending.{Message, send_all}
use locking.Raft.Sending

-- `raft.Ready` in the fields that the loop reads, with the node's status beside it. An entry stands as
-- a number.
pub record Ready : Type 0 where
  pub soft_state : Option SoftState
  pub status : SoftState
  pub entries : List ℕ
  pub messages : List Message

-- `storage.Append` and `node.Advance` beside the effects of the two parts.
pub data Effect : Type 0 where
  led : Leadership.Effect → Effect
  append : List ℕ → Effect
  sent : Sending.Effect → Effect
  advance : Effect

abbrev in_order : List Leadership.Effect → List ℕ → List Sending.Effect → List Effect
in_order leadership entries sending =
    map led leadership ++ append entries ∷ (map sent sending ++ advance ∷ [])

-- One `Ready`. `none` means that the fuel ran out over its messages.
unfoldable pub round :
    ℕ
    → Option LeaderCallbacks
    → (ℕ → ℕ → Result Bool)
    → ℕ
    → Ready
    → Loop
    → Result (Option (Loop × List Effect))
round id cb answers fuel rd s = do
  (s', leadership) ← on_ready id cb rd.soft_state rd.status s
  ok (
      option_map (λ sending. (s', in_order leadership rd.entries sending))
        (send_all id answers fuel 0 rd.messages))

abbrev prepend : List Effect → Option (Loop × List Effect) → Option (Loop × List Effect)
prepend es none = none
prepend es (some (s, later)) = some (s, es ++ later)

-- The `Ready` values from the i-th on; the answers of `DoSend` are those to the i-th.
unfoldable pub run_all :
    ℕ
    → Option LeaderCallbacks
    → (ℕ → ℕ → ℕ → Result Bool)
    → ℕ
    → ℕ
    → List Ready
    → Loop
    → Result (Option (Loop × List Effect))
unfolding round
run_all id cb answers fuel i [] s = ok (some (s, []))
run_all id cb answers fuel i (rd ∷ rds) s = do
  this ← round id cb (answers i) fuel rd s
  elim this [
    | none ↦ ok none
    | some (s', es) ↦ do rest ← run_all id cb answers fuel (suc i) rds s'; ok (prepend es rest)
  ]

-- The loop from its start to the end of the context, with what it does in all.
unfoldable pub run_raft :
    ℕ
    → Option LeaderCallbacks
    → (ℕ → ℕ → ℕ → Result Bool)
    → ℕ
    → List Ready
    → Result (Option (List Effect))
unfolding run_all
run_raft id cb answers fuel rds = do
  ended ← run_all id cb answers fuel 0 rds start
  elim ended [
    | none ↦ ok none
    | some (s, es) ↦ do last ← on_done cb s; ok (some (es ++ map led last))
  ]
