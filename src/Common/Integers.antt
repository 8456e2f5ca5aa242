-- ===== src/Common/Integers.antt =====
-- Integers over the native numbers, for a difference that may be negative.
use Prim.Native.Nat.{ℕ, ◌-◌}
use cc_be_chat_test.Common.Tests.{leb, if◌then◌else◌}

-- `negsuc n` is -(n + 1).
pub data ℤ : Type 0 where
  pos : ℕ → ℤ
  negsuc : ℕ → ℤ

abbrev pub difference : ℕ → ℕ → ℤ
difference m n = if leb n m then pos (m - n) else negsuc (n - m - 1)
