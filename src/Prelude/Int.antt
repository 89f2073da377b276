-- ===== src/Prelude/Int.antt =====
-- Python's `int`, as far as the code inspects one: its sign.
use Prim.Native.Nat.{ℕ}
use mathlib.Core.Option.{Option, none, some}

-- `negsuc n` is -(n + 1).
pub data ℤ : Type 0 where
  pos : ℕ → ℤ
  negsuc : ℕ → ℤ

-- the value of an integer that is not negative
abbrev pub nonneg? : ℤ → Option ℕ
nonneg? (pos n) = some n
nonneg? (negsuc n) = none
