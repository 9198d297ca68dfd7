-- ===== src/Base/Int.antt =====
-- Signed integers, as the machine integers of a width read them.
use Prim.Native.Nat.{ℕ, ◌-◌, ◌^◌}
use evtx.Base.Tests.{ltb, if◌then◌else◌}

-- `negsuc n` is -(n + 1).
pub data ℤ : Type 0 where
  pos : ℕ → ℤ
  negsuc : ℕ → ℤ

-- The number whose two's complement over `w` bits is the pattern `n`.
unfoldable pub of_bits : ℕ → ℕ → ℤ
of_bits w n = if ltb n (2 ^ (w - 1)) then pos n else negsuc (2 ^ w - 1 - n)
