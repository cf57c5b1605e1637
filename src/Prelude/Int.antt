-- ===== src/Prelude/Int.antt =====
-- Python's integers over the native numbers.
use Prim.Native.Nat.{ℕ, suc}
use mathlib.Core.Bool.{Bool, true, false}

-- `negsuc n` is -(n + 1).
pub data ℤ : Type 0 where
  pos : ℕ → ℤ
  negsuc : ℕ → ℤ

-- `0 < i`
abbrev pub is_positive : ℤ → Bool
is_positive (pos (suc _)) = true
is_positive _ = false
