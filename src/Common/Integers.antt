-- ===== src/Common/Integers.antt =====
-- Python's `int`, where the source tests the sign of one.
use Prim.Native.Nat.{ℕ}

pub data ℤ : Type 0 where
  pos : ℕ → ℤ
  negsuc : ℕ → ℤ
