-- ===== src/Base/Int.antt =====
-- Python's `int`, where a negative argument is possible.
use Prim.Native.Nat.{ℕ}

-- `negsuc n` is -(n + 1).
pub data ℤ : Type 0 where
  pos : ℕ → ℤ
  negsuc : ℕ → ℤ
