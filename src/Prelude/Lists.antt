-- ===== src/Prelude/Lists.antt =====
-- Lists measured by native numbers, and predicates on every item of a list.
use Prim.Native.Nat.{ℕ, zero, suc, ◌+◌}
use mathlib.Core.Path.{◌≡◌, refl, subst}
use mathlib.Core.Option.{Option, none, some, some-injective}
use mathlib.Core.Option as Option
use mathlib.Core.Bool.{Bool, true, false}
use mathlib.Core.Logic.{◌⊎◌, inl, inr}
use mathlib.Core.List.{List, [], ◌∷◌, ◌++◌, cons≢nil}
use native.Mathlib.Omega.{arith}
use quant_stuff.Prelude.Tests.{if◌then◌else◌, ◌==◌, Bool-cases}

module _ {ℓ} {A : Type ℓ} where
  abbrev pub length : List A → ℕ
  length [] = 0
  length (x ∷ xs) = suc (length xs)

  pub length-append : (xs ys : List A) → length (xs ++ ys) ≡ length xs + length ys
  length-append [] ys = omega arith
  length-append (x ∷ xs) ys = omega (arith, length-append xs ys)

  -- `[x for x in xs if p(x)]`
  abbrev pub keep : (A → Bool) → List A → List A
  keep p [] = []
  keep p (x ∷ xs) = let rest = keep p xs in if p x then x ∷ rest else rest

  abbrev pub All {κ} : (A → Type κ) → List A → Type κ
  All P [] = Unit
  All P (x ∷ xs) = P x × All P xs

  pub All-map {κ μ} :
      (P : A → Type κ) (Q : A → Type μ)
      → ((x : A) → P x → Q x)
      → (xs : List A) → All P xs
      → All Q xs
  All-map P Q h [] p = tt
  All-map P Q h (x ∷ xs) p = (h x (p.0), All-map P Q h xs (p.1))

  pub All-append {κ} : (P : A → Type κ) (xs ys : List A) → All P xs → All P ys → All P (xs ++ ys)
  All-append P [] ys p q = q
  All-append P (x ∷ xs) ys p q = (p.0, All-append P xs ys p.1 q)

module _ {ℓ} {A : Type ℓ} where
  -- the item at a place
  abbrev pub item : ℕ → List A → Option A
  item n [] = none
  item zero (x ∷ xs) = some x
  item (suc n) (x ∷ xs) = item n xs

  -- the list with the item at a place changed
  abbrev pub change : ℕ → (A → A) → List A → List A
  change n g [] = []
  change zero g (x ∷ xs) = g x ∷ xs
  change (suc n) g (x ∷ xs) = x ∷ change n g xs

  pub item-change :
      (m n : ℕ) (g : A → A) (xs : List A)
      → item m (change n g xs) ≡ (if m == n then Option.map g (item m xs) else item m xs)
  item-change m n g [] = ground arith
  item-change zero zero g (x ∷ xs) = refl
  item-change zero (suc n) g (x ∷ xs) = ground arith
  item-change (suc m) zero g (x ∷ xs) = ground arith
  item-change (suc m) (suc n) g (x ∷ xs) = ground (arith, item-change m n g xs)

  pub item-changed :
      (n : ℕ) (x : A) (g : A → A) (xs : List A)
      → item n xs ≡ some x
      → item n (change n g xs) ≡ some (g x)
  item-changed n x g xs e = ground (arith, item-change n n g xs)

  pub item-unchanged :
      (m n : ℕ) (g : A → A) (xs : List A) → (m == n) ≡ false → item m (change n g xs) ≡ item m xs
  item-unchanged m n g xs h = rw h at (item-change m n g xs)

  pub All-item {κ} :
      (P : A → Type κ) (n : ℕ) (x : A) (xs : List A) → All P xs → item n xs ≡ some x → P x
  All-item P n x [] h e = cc
  All-item P zero x (y ∷ xs) h e = subst P (some-injective y x e) (h.0)
  All-item P (suc n) x (y ∷ xs) h e = All-item P n x xs (h.1) e

  pub All-of_item {κ} :
      (P : A → Type κ) (xs : List A) → ((n : ℕ) (x : A) → item n xs ≡ some x → P x) → All P xs
  All-of_item P [] h = tt
  All-of_item P (x ∷ xs) h = (h 0 x refl, All-of_item P xs λ n y e. h (suc n) y e)

  pub All-change {κ} :
      (P : A → Type κ) (n : ℕ) (g : A → A) (xs : List A)
      → All P xs
      → ((x : A) → item n xs ≡ some x → P x → P (g x))
      → All P (change n g xs)
  All-change P n g [] h k = tt
  All-change P zero g (x ∷ xs) h k = (k x refl (h.0), h.1)
  All-change P (suc n) g (x ∷ xs) h k = (h.0, All-change P n g xs (h.1) k)

  pub All-keep {κ} : (P : A → Type κ) (p : A → Bool) (xs : List A) → All P xs → All P (keep p xs)
  All-keep P p [] h = tt
  All-keep P p (x ∷ xs) h = elim (Bool-cases (p x)) [
    | inl e ↦ rw e (h.0, All-keep P p xs (h.1))
    | inr e ↦ rw e (All-keep P p xs (h.1))
  ]

  pub keep-All : (p : A → Bool) (xs : List A) → All (λ x. p x ≡ true) (keep p xs)
  keep-All p [] = tt
  keep-All p (x ∷ xs) = elim (Bool-cases (p x)) [
    | inl e ↦ rw e (e, keep-All p xs)
    | inr e ↦ rw e (keep-All p xs)
  ]

  pub keep_none : (p : A → Bool) (xs : List A) → keep p xs ≡ [] → All (λ x. p x ≡ false) xs
  keep_none p [] h = tt
  keep_none p (x ∷ xs) h = elim (Bool-cases (p x)) [
    | inl e ↦ absurd (cons≢nil (rw e at h))
    | inr e ↦ (e, keep_none p xs (rw e at h))
  ]

pub List-cases {ℓ} :
    {A : Type ℓ} (xs : List A) → (xs ≡ []) ⊎ ((x : A) × (rest : List A) × (xs ≡ x ∷ rest))
List-cases [] = inl refl
List-cases (x ∷ xs) = inr (x, xs, refl)
