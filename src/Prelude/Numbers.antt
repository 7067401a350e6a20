-- ===== src/Prelude/Numbers.antt =====
-- Signed integers over the native numbers: a BigInt of the source, or a number that is an integer.
use Prim.Native.Nat.{ℕ, zero, suc}

-- `negsuc n` is -(n + 1).
pub data ℤ : Type 0 where
  pos : ℕ → ℤ
  negsuc : ℕ → ℤ

-- `-n`
abbrev pub minus : ℕ → ℤ
minus zero = pos 0
minus (suc n) = negsuc n
