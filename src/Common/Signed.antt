-- ===== src/Common/Signed.antt =====
-- Array indices that may fall below zero. `negsuc n` is -(n + 1).
use Prim.Native.Nat.{ℕ, zero, suc}

pub data ℤ : Type 0 where
  pos : ℕ → ℤ
  negsuc : ℕ → ℤ

-- `i - 1` at an index.
abbrev pub before : ℕ → ℤ
before zero = negsuc 0
before (suc i) = pos i
