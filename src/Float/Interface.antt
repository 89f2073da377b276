-- ===== src/Float/Interface.antt =====
-- The operations of `float` that the code calls, and the rules of IEEE 754 that it relies on.
use quant_stuff.Prelude.{ℕ, ◌≡◌, ◌⊎◌, Bool, true, not, ◌&&◌, Option, some, ℤ, pos, if◌then◌else◌}

pub record Float (F : Type 0) : Type 0 where
  -- `a <= b`, false if either is NaN
  pub le : F → F → Bool
  pub add : F → F → F
  pub sub : F → F → F
  pub mul : F → F → F
  -- `a / b`, which the code takes at no `b` that is nought
  pub div : F → F → F
  -- `a // b`, likewise
  pub floor_div : F → F → F
  -- `math.isfinite`
  pub is_finite : F → Bool
  -- `round(x, n)`
  pub round : F → ℕ → F
  -- `float(n)`, where `none` is OverflowError
  pub of_int : ℤ → Option F
  -- `int(x)` of an `x` that is not negative, where `none` is OverflowError
  pub truncate : F → Option ℕ
  -- the literal m * 10 ^ -e
  pub lit : ℕ → ℕ → F

module _ {F : Type 0} ⦃f : Float F⦄ where
  -- `a < b`: the order is total away from NaN, and a test with NaN is false
  abbrev pub lt : F → F → Bool
  lt a b = f.le a b && not (f.le b a)

  -- `min(a, b)` and `max(a, b)` keep `a` unless `b` is strictly better
  abbrev pub fmin : F → F → F
  fmin a b = if lt b a then b else a

  abbrev pub fmax : F → F → F
  fmax a b = if lt a b then b else a

  abbrev pub nought : F
  nought = f.lit 0 0

  -- `abs(x)`
  abbrev pub absolute : F → F
  absolute x = if lt x nought then f.sub nought x else x

infix 4 ◌≼◌
abbrev pub ◌≼◌ : {F : Type 0} ⦃f : Float F⦄ → F → F → Type 0
◌≼◌ ⦃f⦄ x y = f.le x y ≡ true

-- a finite value that is not negative, and one that is positive
abbrev pub IsNonneg : {F : Type 0} ⦃f : Float F⦄ → F → Type 0
IsNonneg ⦃f⦄ x = (f.is_finite x ≡ true) × (nought ≼ x)

abbrev pub IsPositive : {F : Type 0} ⦃f : Float F⦄ → F → Type 0
IsPositive ⦃f⦄ x = (f.is_finite x ≡ true) × (lt nought x ≡ true)

-- Rules of IEEE 754. NaN is the value that is not `<=` itself. A rounded result lies on the same side
-- of a float as the exact one, which gives the rules on `add`, `sub` and `mul`.
pub record IsOrdered (F : Type 0) ⦃f : Float F⦄ : Type 0 where
  pub le_finite : (x : F) → f.is_finite x ≡ true → x ≼ x
  pub refl_of_le : (x y : F) → x ≼ y → (x ≼ x) × (y ≼ y)
  pub le_trans : (x y z : F) → x ≼ y → y ≼ z → x ≼ z
  pub le_total : (x y : F) → x ≼ x → y ≼ y → (x ≼ y) ⊎ (y ≼ x)
  pub lit_finite : (m e : ℕ) → f.is_finite (f.lit m e) ≡ true
  pub nought-le-lit : (m e : ℕ) → nought ≼ f.lit m e
  pub add_nonneg : (x y : F) → nought ≼ x → nought ≼ y → nought ≼ f.add x y
  pub sub_nonneg :
      (x y : F) → f.is_finite x ≡ true → f.is_finite y ≡ true → y ≼ x → nought ≼ f.sub x y
  pub mul_nonneg :
      (x y : F)
      → f.is_finite x ≡ true
      → f.is_finite y ≡ true
      → nought ≼ x
      → nought ≼ y
      → nought ≼ f.mul x y
  pub sub_nonpos :
      (x y : F) → f.is_finite x ≡ true → f.is_finite y ≡ true → x ≼ y → f.sub x y ≼ nought
  pub mul_positive :
      (x y : F) → f.is_finite x ≡ true → lt nought x ≡ true → nought ≼ y → nought ≼ f.mul x y
  pub mul_nought : (x : F) → f.is_finite x ≡ true → f.mul nought x ≼ nought
  pub sub-le : (x y : F) → f.is_finite x ≡ true → nought ≼ y → f.sub x y ≼ x
  pub le-add : (x y : F) → f.is_finite x ≡ true → nought ≼ y → x ≼ f.add x y
  pub le_add_nonneg : (x y : F) → nought ≼ x → nought ≼ y → x ≼ f.add x y
  pub sub_le-sub : (x y z : F) → f.is_finite x ≡ true → y ≼ z → f.sub x z ≼ f.sub x y
  pub one_mul : (x : F) → f.mul (f.lit 1 0) x ≡ x
  pub minus_one_mul :
      (x : F) → lt nought x ≡ true → f.mul (f.sub nought (f.lit 1 0)) x ≡ f.sub nought x
  pub negate_finite : (x : F) → f.is_finite x ≡ true → f.is_finite (f.sub nought x) ≡ true
  pub mul_nonpos :
      (x y : F) → f.is_finite x ≡ true → lt x nought ≡ true → y ≼ nought → nought ≼ f.mul x y
  pub finite_between : (x y : F) → nought ≼ x → x ≼ y → f.is_finite y ≡ true → f.is_finite x ≡ true
  pub sub_self : (x : F) → f.is_finite x ≡ true → f.sub x x ≡ nought
  pub negative-lt : (x : F) → lt nought x ≡ true → lt (f.sub nought x) nought ≡ true
  pub of_int_nonneg : (n : ℕ) (x : F) → f.of_int (pos n) ≡ some x → nought ≼ x
