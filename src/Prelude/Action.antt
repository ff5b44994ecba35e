-- ===== src/Prelude/Action.antt =====
-- Code that returns a result and changes a world `W` outside of the program, also where it fails.
use Prim.Native.String.{String}
use mathlib.Core.Path.{◌≡◌, refl, ap, ◌∙◌}
use mathlib.Core.Bool.{Bool, true, false}
use package.locking.Prelude.Result.{Result, ok, err, wrap_err}

abbrev pub Action : Type 0 → Type 0 → Type 0
Action W A = W → Result A × W

module _ {W A : Type 0} where
  abbrev pub pure : A → Action W A
  pure a w = (ok a, w)

  -- A call that does not look at the world.
  abbrev pub lift : Result A → Action W A
  lift r w = (r, w)

  abbrev pub wrapped : String → Action W A → Action W A
  wrapped msg m w = let (r, w') = m w in (wrap_err msg r, w')

-- What follows a call is made where the call succeeded.
unfoldable pub after : {W A C : Type 0} → Result A × W → (A → Action W C) → Result C × W
after (ok a, w') next = next a w'
after (err e, w') next = (err e, w')

infixl 5 ◌>>=◌ ◌>>◌
abbrev pub ◌>>=◌ : {W A C : Type 0} → Action W A → (A → Action W C) → Action W C
◌>>=◌ m next w = after (m w) next

abbrev pub ◌>>◌ : {W C : Type 0} → Action W (Unit {0}) → Action W C → Action W C
m >> next = m >>= λ _. next

abbrev pub when : {W : Type 0} → Bool → Action W (Unit {0}) → Action W (Unit {0})
when true m w = m w
when false m w = (ok tt, w)

after-eq-ok :
    {W A C : Type 0} (r : Result A) (w' : W) (next : A → Action W C) {c : C} {w'' : W}
    → (after (r, w') next ≡ (ok c, w''))
    → (a : A) × (r ≡ ok a) × (next a w' ≡ (ok c, w''))
unfolding after
after-eq-ok (ok a) w' next h = (a, refl, h)
after-eq-ok (err e) w' next h = cc (ap (λ x. x.0) h)

-- A chain that succeeds succeeds in its first step, and then in the rest.
pub >>=-eq-ok :
    {W A C : Type 0} (m : Action W A) (next : A → Action W C) (w : W) {c : C} {w'' : W}
    → (m >>= next) w ≡ (ok c, w'')
    → (a : A) × (w' : W) × (m w ≡ (ok a, w')) × (next a w' ≡ (ok c, w''))
>>=-eq-ok m next w h =
    let (a, e, n) = after-eq-ok (m w).0 (m w).1 next h in (a, (m w).1, ap (λ r. (r, (m w).1)) e, n)

wrap-eq-ok :
    {W A : Type 0} (msg : String) (r : Result A) (w : W) {a : A} {w' : W}
    → ◌≡◌ {A = Result A × W} (wrap_err msg r, w) (ok a, w')
    → ◌≡◌ {A = Result A × W} (r, w) (ok a, w')
wrap-eq-ok msg (ok b) w h = h
wrap-eq-ok msg (err e) w h = cc (ap (λ x. x.0) h)

pub wrapped-eq-ok :
    {W A : Type 0} (msg : String) (m : Action W A) (w : W) {a : A} {w' : W}
    → wrapped msg m w ≡ (ok a, w')
    → m w ≡ (ok a, w')
wrapped-eq-ok msg m w h = wrap-eq-ok msg (m w).0 (m w).1 h

-- The same for a call that does not look at the world.
pub lift-eq-ok :
    {W A C : Type 0} (r : Result A) (next : A → Action W C) (w : W) {c : C} {w' : W}
    → (lift r >>= next) w ≡ (ok c, w')
    → (a : A) × (r ≡ ok a) × (next a w ≡ (ok c, w'))
lift-eq-ok r next w h = after-eq-ok r w next h

abbrev pub Succeeds : {W A : Type 0} → Action W A → W → Type 0
Succeeds {W} {A} m w = (a : A) × (w' : W) × (m w ≡ (ok a, w'))

pub >>=-ok :
    {W A C : Type 0} (m : Action W A) (next : A → Action W C) (w : W) {a : A} {w' : W}
    → m w ≡ (ok a, w')
    → (m >>= next) w ≡ next a w'
unfolding after
>>=-ok m next w e = ap (λ r. after r next) e

pub >>=-Succeeds :
    {W A C : Type 0} (m : Action W A) (next : A → Action W C) (w : W)
    → Succeeds m w
    → ((a : A) (w' : W) → m w ≡ (ok a, w') → Succeeds (next a) w')
    → Succeeds (m >>= next) w
>>=-Succeeds m next w (a, w', e) go =
    let (c, w'', e') = go a w' e in (c, w'', >>=-ok m next w e ∙ e')

-- What a call does to the world, whether it succeeds or not.
abbrev pub Keeps : {W A : Type 0} → (W → W → Type 0) → Action W A → Type 0
Keeps {W} R m = (w : W) → R w (m w).1

after-Keeps :
    {W A C : Type 0} (R : W → W → Type 0) (trans : (a b c : W) → R a b → R b c → R a c)
    (r : Result A) (next : A → Action W C) (w w' : W)
    → R w w'
    → ((a : A) → Keeps R (next a))
    → R w (after (r, w') next).1
unfolding after
after-Keeps R trans (ok a) next w w' h k = trans w w' (next a w').1 h (k a w')
after-Keeps R trans (err e) next w w' h k = h

pub >>=-Keeps :
    {W A C : Type 0} (R : W → W → Type 0) (trans : (a b c : W) → R a b → R b c → R a c)
    (m : Action W A) (next : A → Action W C)
    → Keeps R m
    → ((a : A) → Keeps R (next a))
    → Keeps R (m >>= next)
>>=-Keeps R trans m next h k w = after-Keeps R trans (m w).0 next w (m w).1 (h w) k
