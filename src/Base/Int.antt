-- ===== src/Base/Int.antt =====
-- Python's integers of either sign, where the program reads one from JSON.
use Prim.Native.Nat.{ℕ}

-- `negsuc n` is -(n + 1).
pub data ℤ : Type 0 where
  pos : ℕ → ℤ
  negsuc : ℕ → ℤ
