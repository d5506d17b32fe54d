-- ===== src/Prelude/Int.antt =====
-- Signed integers over the native numbers.
use Prim.Native.Nat.{ℕ}

-- `negsuc n` is -(n + 1).
pub data ℤ : Type 0 where
  pos : ℕ → ℤ
  negsuc : ℕ → ℤ

-- The magnitude of an integer, less one for a negative integer: below `2 ^ k` exactly if the
-- integer lies in the range of `k + 1` bits in two's complement.
abbrev pub bound : ℤ → ℕ
bound (pos n) = n
bound (negsuc n) = n
