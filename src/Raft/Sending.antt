-- ===== src/Raft/Sending.antt =====
-- The part of the loop of `runRaft` in raft/locker.go that hands on the messages of a `Ready`: those
-- for the node itself at once, the others by `DoSend`, again after a second until they are applied.
pub mod Delivery
use mathlib.Core.Option.{map as option_map}
use locking.Prelude.{
  ℕ, zero, suc, ◌+◌, Bool, true, false, List, [], ◌∷◌, ◌++◌, Option, none, some, ◌==◌,
  if◌then◌else◌,
}
use locking.Prelude.Result.{Result, ok, err}

-- `raftpb.Message`: the receiver, and the rest of the message.
pub record Message : Type 0 where
  pub to : ℕ
  pub body : List ℕ

pub data Effect : Type 0 where
  step : Message → Effect
  delivered : Message → Effect
  sleep : Effect
  report_unreachable : ℕ → Effect

-- The inner loop from the n-th attempt on, over what `DoSend` answers to each. `none` means that the
-- fuel ran out: the loop is still trying.
unfoldable pub send : (ℕ → Result Bool) → Message → ℕ → ℕ → Option (List Effect)
send answer m zero n = none
send answer m (suc fuel) n = elim (answer n) [
  | err e ↦ some (report_unreachable m.to ∷ [])
  | ok applied ↦ elim applied [
    | true ↦ some (delivered m ∷ [])
    | false ↦ option_map (λ es. sleep ∷ es) (send answer m fuel (suc n))
  ]
]

-- The loop over the messages. `answers p n` is the answer to the n-th attempt at the p-th message.
unfoldable pub send_all : ℕ → (ℕ → ℕ → Result Bool) → ℕ → ℕ → List Message → Option (List Effect)
unfolding send
send_all id answers fuel p [] = some []
send_all id answers fuel p (m ∷ ms) =
    let here = (if m.to == id then some (step m ∷ []) else send (answers p) m fuel 0) in
    elim here [
      | none ↦ none
      | some es ↦ option_map (λ rest. es ++ rest) (send_all id answers fuel (suc p) ms)
    ]
