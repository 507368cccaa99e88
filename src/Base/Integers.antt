-- ===== src/Base/Integers.antt =====
-- Python's `int` as two numbers with a sign, over the native numbers.
use Prim.Native.Nat.{ℕ, zero, suc, ◌-◌}
use mathlib.Core.Bool.{Bool, false}
use device_cli_tool.Base.Booleans.{ltb, ◌==◌, if◌then◌else◌}

-- `negsuc n` is `-(n + 1)`.
pub data ℤ : Type 0 where
  pos negsuc : ℕ → ℤ

abbrev pub int_eq : ℤ → ℤ → Bool
int_eq (pos m) (pos n) = m == n
int_eq (pos m) (negsuc n) = false
int_eq (negsuc m) (pos n) = false
int_eq (negsuc m) (negsuc n) = m == n

-- `n < i`
abbrev pub is_above : ℕ → ℤ → Bool
is_above n (pos i) = ltb n i
is_above n (negsuc i) = false

abbrev pub negated : ℕ → ℤ
negated zero = pos 0
negated (suc n) = negsuc n

-- `m - n`
abbrev pub difference : ℕ → ℕ → ℤ
difference m n = if ltb m n then negated (n - m) else pos (m - n)
