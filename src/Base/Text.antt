-- ===== src/Base/Text.antt =====
-- `std::fmt` of integers: decimal and hexadecimal digits.
use Prim.Native.Nat.{ℕ, zero, suc, ◌+◌, ◌/◌, ◌%◌}
use mathlib.Core.Bool.{true, false}
use mathlib.Core.List.{[], ◌∷◌}
use evtx.Base.Tests.{ltb, ◌==◌, if◌then◌else◌, Str}
use evtx.Base.Int.{ℤ, pos, negsuc}

abbrev pub digit_char : ℕ → ℕ
digit_char d = if ltb d 10 then b'0' + d else b'a' + (d % 10)

-- The digits of `n` in front of `rest`, the lowest last. `suc n` rounds are enough.
unfoldable pub digits : ℕ → ℕ → ℕ → Str → Str
digits zero base n rest = rest
digits (suc fuel) base n rest = elim (n / base == 0) [
  | true ↦ digit_char (n % base) ∷ rest
  | false ↦ digits fuel base (n / base) (digit_char (n % base) ∷ rest)
]

-- `{}` of an unsigned number.
unfoldable pub decimal : ℕ → Str
unfolding digits
decimal n = digits (suc n) 10 n []

-- `{:x}` of an unsigned number.
unfoldable pub hex : ℕ → Str
unfolding digits
hex n = digits (suc n) 16 n []

-- `{}` of a signed number.
unfoldable pub signed_decimal : ℤ → Str
unfolding decimal
signed_decimal (pos n) = decimal n
signed_decimal (negsuc n) = b'-' ∷ decimal (suc n)
