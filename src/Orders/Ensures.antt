-- ===== src/Orders/Ensures.antt =====
-- Postconditions of a result: what holds of the value when no exception is raised.
use mathlib.Core.Path.{subst}
use quant_stuff.Prelude.{◌≡◌, refl, Bool, true, false}
use quant_stuff.Orders.Types.{Result, ok, err, Error, ◌>>=◌, raise_if}

pub data Ensures {A : Type 0} (P : A → Type 0) : Result A → Type 0 where
  returns : {a : A} → P a → Ensures P (ok a)
  raises : {e : Error} → Ensures P (err e)

module _ {A B : Type 0} {P : A → Type 0} {Q : B → Type 0} where
  pub Ensures-bind :
      {m : Result A} {g : A → Result B}
      → Ensures P m
      → ((a : A) → P a → Ensures Q (g a))
      → Ensures Q (m >>= g)
  Ensures-bind (returns p) k = k _ p
  Ensures-bind raises k = raises

abbrev At : {A : Type 0} → (A → Type 0) → Result A → Type 0
At P (ok a) = P a
At P (err e) = Unit

pub ensured : {A : Type 0} {P : A → Type 0} {r : Result A} (a : A) → Ensures P r → r ≡ ok a → P a
ensured {A} {P} a (returns p) e = subst (At P) e p
ensured {A} {P} a raises e = cc

pub Ensures-raise_if : (b : Bool) (e : Error) → Ensures (λ _. b ≡ false) (raise_if b e)
Ensures-raise_if true e = raises
Ensures-raise_if false e = returns refl

-- what a caller does not look into
pub anything : {A : Type 0} (r : Result A) → Ensures (λ _. Unit {0}) r
anything (ok a) = returns tt
anything (err e) = raises
