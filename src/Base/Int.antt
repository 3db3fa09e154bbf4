-- ===== src/Base/Int.antt =====
-- C's `int` as a mathematical integer; code that could leave its 32 bits says so where it computes.
use Prim.Native.Nat.{ℕ, ◌^◌}

-- `negsuc n` is -(n + 1).
pub data ℤ : Type 0 where
  pos : ℕ → ℤ
  negsuc : ℕ → ℤ

-- The first number past the largest `int`.
abbrev pub int_end : ℕ
int_end = 2 ^ 31
