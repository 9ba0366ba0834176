-- ===== src/Prelude/Integers.antt =====
-- Go's signed integers, with no bound.
use Prim.Native.Nat.{ℕ}

pub data ℤ : Type 0 where
  pos : ℕ → ℤ
  -- `negsuc n` is `-(n + 1)`.
  negsuc : ℕ → ℤ
