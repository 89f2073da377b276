-- ===== src/Action.antt =====
-- Methods of a mutable object that may raise: a function of the state that returns a result beside the
-- state it leaves, also when it raises.
use mathlib.Core.Path.{subst}
use quant_stuff.Prelude.{◌⊎◌, inl, inr, ◌≡◌, refl, Bool, true, false}
use quant_stuff.Orders.Types.{Result, ok, err, Error}

abbrev pub Action : Type 0 → Type 0 → Type 0
Action S A = S → Result A × S

module _ {S : Type 0} where
  abbrev pub pure : {A : Type 0} → A → Action S A
  pure a s = (ok a, s)

  abbrev pub raise : {A : Type 0} → Error → Action S A
  raise e s = (err e, s)

  abbrev pub get : Action S S
  get s = (ok s, s)

  abbrev pub modify : (S → S) → Action S (Unit {0})
  modify g s = (ok tt, g s)

  -- `if c: raise e`
  abbrev pub raise_when : Bool → Error → Action S (Unit {0})
  raise_when true e s = (err e, s)
  raise_when false e s = (ok tt, s)

  -- a check that does not look at the state
  abbrev pub check : {A : Type 0} → Result A → Action S A
  check r s = (r, s)

  abbrev pub continue_with : {A B : Type 0} → Result A × S → (A → Action S B) → Result B × S
  continue_with (ok a, s) k = k a s
  continue_with (err e, s) k = (err e, s)

infixl 5 ◌>>=◌ ◌>>◌
abbrev pub ◌>>=◌ : {S A B : Type 0} → Action S A → (A → Action S B) → Action S B
◌>>=◌ m k s = continue_with (m s) k

abbrev pub ◌>>◌ : {S B : Type 0} → Action S (Unit {0}) → Action S B → Action S B
m >> k = m >>= λ _. k

-- What holds of the value and the state when no exception is raised.
pub data Yields {S A : Type 0} (P : A → S → Type 0) : Result A × S → Type 0 where
  returns : {a : A} {s : S} → P a s → Yields P (ok a, s)
  raises : {e : Error} {s : S} → Yields P (err e, s)

module _ {S A B : Type 0} {P : A → S → Type 0} {Q : B → S → Type 0} where
  pub Yields-bind :
      {r : Result A × S} {k : A → Action S B}
      → Yields P r
      → ((a : A) (s : S) → P a s → Yields Q (k a s))
      → Yields Q (continue_with r k)
  Yields-bind (returns p) h = h _ _ p
  Yields-bind raises h = raises

module _ {S A : Type 0} {P Q : A → S → Type 0} where
  pub Yields-map : {r : Result A × S} → Yields P r → ((a : A) (s : S) → P a s → Q a s) → Yields Q r
  Yields-map (returns p) h = returns (h _ _ p)
  Yields-map raises h = raises

abbrev AtResult : {S A : Type 0} → (A → S → Type 0) → Result A × S → Type 0
AtResult P (ok a, s) = P a s
AtResult P (err e, s) = Unit

module _ {S A : Type 0} {P : A → S → Type 0} where
  pub yields : (r : Result A × S) → ((a : A) (s : S) → r ≡ (ok a, s) → P a s) → Yields P r
  yields (ok a, s) h = returns (h a s refl)
  yields (err e, s) h = raises

  pub yielded : {r : Result A × S} (a : A) (s : S) → Yields P r → r ≡ (ok a, s) → P a s
  yielded a s (returns p) e = subst (AtResult P) e p
  yielded a s raises e = cc

-- what a caller does not look into
pub anything : {S A : Type 0} (r : Result A × S) → Yields (λ _ _. Unit {0}) r
anything (ok a, s) = returns tt
anything (err e, s) = raises

-- what holds of the state however the call ends
pub always : {S A : Type 0} {P : S → Type 0} (r : Result A × S) → P r.1 → Yields (λ _ s. P s) r
always (ok a, s) p = returns p
always (err e, s) p = raises

-- a check that passes leaves the state alone
pub checked :
    {S A : Type 0} (r : Result A) (s : S) → Yields (λ a s'. (s' ≡ s) × (r ≡ ok a)) (check r s)
checked (ok a) s = returns (refl, refl)
checked (err e) s = raises

-- what holds of the state at the end of the first call and, if it returns, at the end of the second
pub ends :
    {S A B : Type 0} (P : S → Type 0) (r : Result A × S) (k : A → Action S B)
    → P r.1
    → ((a : A) → r ≡ (ok a, r.1) → P (k a r.1).1)
    → P (continue_with r k).1
ends P (ok a, s) k p h = h a refl
ends P (err e, s) k p h = p

pub Result-cases :
    {A : Type 0} (r : Result A) → ((e : Error) × (r ≡ err e)) ⊎ ((a : A) × (r ≡ ok a))
Result-cases (ok a) = inr (a, refl)
Result-cases (err e) = inl (e, refl)
