-- ===== src/Float/Order.antt =====
-- The order of floats away from NaN, from the rules of IEEE 754.
use quant_stuff.Prelude.{◌≡◌, true, false, arith}
use quant_stuff.Float.Interface.{
  Float, IsOrdered, lt, fmin, fmax, nought, ◌≼◌, IsPositive, IsNonneg,
}

module _ {F : Type 0} ⦃f : Float F⦄ (laws : IsOrdered F) where
  open laws use {le_finite, refl_of_le, le_trans, le_total, lit_finite}

  pub nought-IsNonneg : IsNonneg {F = F} nought
  nought-IsNonneg = (lit_finite 0 0, le_finite _ (lit_finite 0 0))

  -- The tests of the validators, turned round.
  pub lt_of_not-le :
      (x y : F) → f.is_finite x ≡ true → f.is_finite y ≡ true → f.le x y ≡ false → lt y x ≡ true
  lt_of_not-le x y hx hy h = ground (arith, le_total x y (le_finite x hx) (le_finite y hy))

  pub le_of_not-lt :
      (x y : F) → f.is_finite x ≡ true → f.is_finite y ≡ true → lt x y ≡ false → y ≼ x
  le_of_not-lt x y hx hy h = ground (arith, le_total x y (le_finite x hx) (le_finite y hy))

  pub IsPositive-of_not-le : (x : F) → f.is_finite x ≡ true → f.le x nought ≡ false → IsPositive x
  IsPositive-of_not-le x hx h = (hx, lt_of_not-le x nought hx (lit_finite 0 0) h)

  pub nonneg_of_not-lt : (x : F) → f.is_finite x ≡ true → lt x nought ≡ false → IsNonneg x
  nonneg_of_not-lt x hx h = (hx, le_of_not-lt x nought hx (lit_finite 0 0) h)

  pub nonneg_of_positive : (x : F) → IsPositive x → IsNonneg x
  nonneg_of_positive x h = (h.0, ground arith)

  pub le-fmax : (x y : F) → x ≼ x → x ≼ fmax x y
  le-fmax x y h = ground arith

  pub fmin-le_left : (x y : F) → f.is_finite x ≡ true → fmin x y ≼ x
  fmin-le_left x y h = ground (arith, le_finite x h)

  pub le-fmax_left : (x y : F) → f.is_finite x ≡ true → x ≼ fmax x y
  le-fmax_left x y h = ground (arith, le_finite x h)

  pub fmin-le_right : (x y : F) → f.is_finite x ≡ true → f.is_finite y ≡ true → fmin x y ≼ y
  fmin-le_right x y h k = ground (arith, le_finite y k, le_of_not-lt y x k h)

  pub fmax-le : (x y z : F) → x ≼ z → y ≼ z → fmax x y ≼ z
  fmax-le x y z h k = ground arith

  pub le-fmin : (x y z : F) → z ≼ x → z ≼ y → z ≼ fmin x y
  le-fmin x y z h k = ground arith
