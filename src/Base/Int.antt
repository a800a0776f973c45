-- ===== src/Base/Int.antt =====
-- Python's `int` where a value may be negative.
use Prim.Native.Nat.{ℕ}
use mathlib.Core.Bool.{Bool, true, false}

-- `negsuc n` is -(n + 1).
pub data ℤ : Type 0 where
  pos : ℕ → ℤ
  negsuc : ℕ → ℤ

-- `i <= 0`
abbrev pub not_positive : ℤ → Bool
not_positive (pos ℕ.zero) = true
not_positive (pos (ℕ.suc n)) = false
not_positive (negsuc n) = true

-- `i < 0`
abbrev pub is_negative : ℤ → Bool
is_negative (pos n) = false
is_negative (negsuc n) = true
