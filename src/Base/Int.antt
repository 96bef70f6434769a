-- ===== src/Base/Int.antt =====
-- Go's signed `int`, as the library's ℤ over the native numbers: `negsuc n` is -(n + 1).
use Prim.Native.Nat.{ℕ}

pub data ℤ : Type 0 where
  pos : ℕ → ℤ
  negsuc : ℕ → ℤ
