-- ===== src/Prelude/Map.antt =====
-- Go's maps as association lists. A write to a key that is there replaces its value in place.
use Prim.Native.Nat.{ℕ}
use Prim.Native.String.{String}
use mathlib.Core.Path.{◌≡◌, refl}
use mathlib.Core.Logic.{◌↔◌}
use mathlib.Core.Bool.{Bool, true}
use mathlib.Core.List.{List, [], ◌∷◌}
use mathlib.Core.Option.{Option, none, some}
use native.Mathlib.Omega.{arith}
use package.locking.Prelude.Tests.{if◌then◌else◌, str_eq, eq_iff, ◌==◌ as nat_eq, ==_iff}

-- The equality test of a key type.
pub record Eq {ℓ} (K : Type ℓ) : Type ℓ where
  pub eqb : K → K → Bool
  pub eqb_iff : (a b : K) → (eqb a b ≡ true) ↔ (a ≡ b)

instance abbrev pub string_key : Eq String
string_key = record { eqb = str_eq; eqb_iff = eq_iff }

instance abbrev pub nat_key : Eq ℕ
nat_key = record { eqb = nat_eq; eqb_iff = ==_iff }

module _ {ℓ κ} {K : Type ℓ} {V : Type κ} ⦃e : Eq K⦄ where
  unfoldable pub lookup : K → List (K × V) → Option V
  lookup k [] = none
  lookup k ((j, v) ∷ m) = if e.eqb j k then some v else lookup k m

  unfoldable pub insert : K → V → List (K × V) → List (K × V)
  insert k v [] = (k, v) ∷ []
  insert k v ((j, w) ∷ m) = if e.eqb j k then (j, v) ∷ m else (j, w) ∷ insert k v m

  pub lookup-insert :
      (k j : K) (v : V) (m : List (K × V))
      → lookup j (insert k v m) ≡ (if e.eqb k j then some v else lookup j m)
  unfolding lookup insert
  lookup-insert k j v [] = refl
  lookup-insert k j v ((i, w) ∷ m) =
      ground (arith, e.eqb_iff k j, e.eqb_iff i k, e.eqb_iff i j, lookup-insert k j v m)
