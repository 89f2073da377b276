-- ===== src/Float/Decimals.antt =====
-- Numbers that meet the interface, for the tests: decimals with eight digits after the point and NaN.
-- A product is rounded towards zero, and so is `round`.
use quant_stuff.Prelude.{
  ℕ, ◌+◌, ◌-◌, ◌*◌, ◌/◌, ◌^◌, ◌≡◌, Bool, true, false, Option, none, some, ℤ, pos, negsuc, leb,
  if◌then◌else◌, arith,
}
use mathlib.Core.Path.{subst}
use mathlib.Core.Option.{some-injective}
use quant_stuff.Float.Interface.{Float, IsOrdered}

pub data Fixed : Type 0 where
  nan : Fixed
  num : ℤ → Fixed

abbrev le_ℤ : ℤ → ℤ → Bool
le_ℤ (pos a) (pos b) = leb a b
le_ℤ (pos a) (negsuc b) = false
le_ℤ (negsuc a) (pos b) = true
le_ℤ (negsuc a) (negsuc b) = leb b a

-- a - b
abbrev diff : ℕ → ℕ → ℤ
diff a b = if leb b a then pos (a - b) else negsuc (b - a - 1)

abbrev add_ℤ : ℤ → ℤ → ℤ
add_ℤ (pos a) (pos b) = pos (a + b)
add_ℤ (pos a) (negsuc b) = diff a (b + 1)
add_ℤ (negsuc a) (pos b) = diff b (a + 1)
add_ℤ (negsuc a) (negsuc b) = negsuc (a + b + 1)

abbrev sub_ℤ : ℤ → ℤ → ℤ
sub_ℤ (pos a) (pos b) = diff a b
sub_ℤ (pos a) (negsuc b) = pos (a + b + 1)
sub_ℤ (negsuc a) (pos b) = negsuc (a + b)
sub_ℤ (negsuc a) (negsuc b) = diff b a

abbrev scale : ℕ
scale = 10 ^ 8

abbrev mul_ℤ : ℤ → ℤ → ℤ
mul_ℤ (pos a) (pos b) = pos (a * b / scale)
mul_ℤ (pos a) (negsuc b) = diff 0 (a * (b + 1) / scale)
mul_ℤ (negsuc a) (pos b) = diff 0 ((a + 1) * b / scale)
mul_ℤ (negsuc a) (negsuc b) = pos ((a + 1) * (b + 1) / scale)

-- The quotient towards zero; that by nought is not used.
abbrev div_ℤ : ℤ → ℤ → ℤ
div_ℤ (pos a) (pos b) = pos (a * scale / b)
div_ℤ (pos a) (negsuc b) = diff 0 (a * scale / (b + 1))
div_ℤ (negsuc a) (pos b) = diff 0 ((a + 1) * scale / b)
div_ℤ (negsuc a) (negsuc b) = pos ((a + 1) * scale / (b + 1))

-- drops the digits below `unit`
abbrev trim : ℕ → ℤ → ℤ
trim unit (pos a) = pos (a / unit * unit)
trim unit (negsuc a) = diff 0 ((a + 1) / unit * unit)

abbrev on_numbers : (ℤ → ℤ → ℤ) → Fixed → Fixed → Fixed
on_numbers g (num a) (num b) = num (g a b)
on_numbers g _ _ = nan

-- The floor of the quotient of two numbers that are not negative; others are not used.
abbrev floor_div_ℤ : ℤ → ℤ → ℤ
floor_div_ℤ (pos a) (pos b) = pos (a / b * scale)
floor_div_ℤ _ _ = pos 0

abbrev le_fixed : Fixed → Fixed → Bool
le_fixed (num a) (num b) = le_ℤ a b
le_fixed _ _ = false

abbrev is_number : Fixed → Bool
is_number nan = false
is_number (num _) = true

abbrev round_fixed : Fixed → ℕ → Fixed
round_fixed nan n = nan
round_fixed (num a) n = num (trim (10 ^ (8 - n)) a)

abbrev scale_ℤ : ℤ → ℤ
scale_ℤ (pos n) = pos (n * scale)
scale_ℤ (negsuc n) = diff 0 ((n + 1) * scale)

abbrev truncate_fixed : Fixed → Option ℕ
truncate_fixed (num (pos n)) = some (n / scale)
truncate_fixed _ = none

instance abbrev pub fixed_float : Float Fixed
fixed_float = record {
  le = le_fixed;
  add = on_numbers add_ℤ;
  sub = on_numbers sub_ℤ;
  mul = on_numbers mul_ℤ;
  div = on_numbers div_ℤ;
  floor_div = on_numbers floor_div_ℤ;
  is_finite = is_number;
  round = round_fixed;
  of_int = λ n. some (num (scale_ℤ n));
  truncate = truncate_fixed;
  lit = λ m e. num (pos (m * scale / 10 ^ e));
}

-- The decimal `n` followed by eight digits `d`.
abbrev pub decimal : ℕ → ℕ → Fixed
decimal n d = num (pos (n * scale + d))

le_refl_fixed : (x : Fixed) → is_number x ≡ true → le_fixed x x ≡ true
le_refl_fixed x h = ground arith

pub Fixed-IsOrdered : IsOrdered Fixed
Fixed-IsOrdered = record {
  le_finite = ground arith;
  refl_of_le = ground arith;
  le_trans = ground arith;
  le_total = ground arith;
  lit_finite = ground arith;
  nought-le-lit = ground arith;
  add_nonneg = ground arith;
  sub_nonneg = ground arith;
  mul_nonneg = ground arith;
  sub_nonpos = ground arith;
  mul_positive = ground arith;
  mul_nought = ground arith;
  sub-le = ground arith;
  le-add = ground arith;
  le_add_nonneg = ground arith;
  sub_le-sub = ground arith;
  one_mul = ground arith;
  minus_one_mul = ground arith;
  negate_finite = ground arith;
  mul_nonpos = ground arith;
  finite_between = ground arith;
  sub_self = ground arith;
  of_int_nonneg =
      λ n x e. subst (λ y. le_fixed (num (pos 0)) y ≡ true) (some-injective _ x e) (ground arith);
  negative-lt = ground arith;
}
