-- ===== src/Prelude/Result.antt =====
-- Go's `(T, error)` as a value, and `if err != nil { return err }` as the bind of a `do` block.
use Prim.Native.Nat.{ℕ}
use Prim.Native.String.{String}
use mathlib.Core.Path.{◌≡◌, refl}
use mathlib.Core.Bool.{Bool, true, false}
use mathlib.Core.Logic.{◌⊎◌, inl, inr}
use mathlib.Core.List.{List, [], ◌∷◌}

-- `text` is `errors.New`, `wrap` is `fmt.Errorf("…: %w", err)`, and `foreign` is an error of a
-- library, which the program passes on or asks the library about. A `panic` is no error value: it
-- ends the program, and no caller sees it.
pub data Error : Type 0 where
  text : String → Error
  wrap : String → Error → Error
  foreign : ℕ → Error
  panic : String → Error

pub data Result {ℓ} (A : Type ℓ) : Type ℓ where
  ok : A → Result A
  err : Error → Result A

infixl 5 ◌>>=◌ ◌>>◌
abbrev pub ◌>>=◌ {ℓ κ} : {A : Type ℓ} {C : Type κ} → Result A → (A → Result C) → Result C
err failure >>= next = err failure
ok value >>= next = next value

abbrev pub ◌>>◌ {ℓ} : {C : Type ℓ} → Result (Unit {0}) → Result C → Result C
check >> next = check >>= λ _. next

-- `if bad { return errors.New(msg) }`
abbrev pub reject_if : Bool → String → Result (Unit {0})
reject_if true msg = err (text msg)
reject_if false msg = ok tt

-- `if err != nil { return fmt.Errorf("msg: %w", err) }`
abbrev pub wrap_err {ℓ} : {A : Type ℓ} → String → Result A → Result A
wrap_err msg (ok a) = ok a
wrap_err msg (err e) = err (wrap msg e)

-- The call reports no error.
abbrev pub IsOk {ℓ} : {A : Type ℓ} → Result A → Type 0
IsOk (ok a) = Unit
IsOk (err e) = ⊥

pub Result-cases {ℓ} :
    {A : Type ℓ} (r : Result A) → ((a : A) × (r ≡ ok a)) ⊎ ((e : Error) × (r ≡ err e))
Result-cases (ok a) = inl (a, refl)
Result-cases (err e) = inr (e, refl)

pub ok-injective {ℓ} : {A : Type ℓ} {a b : A} → ok a ≡ ok b → a ≡ b
ok-injective h = cc

pub >>=-eq-ok {ℓ κ} :
    {A : Type ℓ} {C : Type κ} (r : Result A) (next : A → Result C) {c : C}
    → (r >>= next) ≡ ok c
    → (value : A) × (r ≡ ok value) × (next value ≡ ok c)
>>=-eq-ok (err failure) next h = cc
>>=-eq-ok (ok value) next h = (value, refl, h)

pub wrap_err-eq-ok {ℓ} :
    {A : Type ℓ} (msg : String) (r : Result A) {a : A} → wrap_err msg r ≡ ok a → r ≡ ok a
wrap_err-eq-ok msg (ok a) h = h
wrap_err-eq-ok msg (err e) h = cc

pub wrapped-eq-ok {ℓ κ} :
    {A : Type ℓ} {B : Type κ} (msg : String) (m : Result A) (f : A → Result B) {b : B}
    → (wrap_err msg m >>= f) ≡ ok b
    → (a : A) × (m ≡ ok a) × (f a ≡ ok b)
wrapped-eq-ok msg (ok a) f h = (a, refl, h)
wrapped-eq-ok msg (err e) f h = cc

-- A loop that appends the result of each round and returns on the first error.
unfoldable pub traverse {ℓ κ} :
    {A : Type ℓ} {B : Type κ} → (A → Result B) → List A → Result (List B)
traverse f [] = ok []
traverse f (x ∷ xs) = do y ← f x; ys ← traverse f xs; ok (y ∷ ys)
