-- ===== src/Base/Utf8.antt =====
-- `String::from_utf8`: the well-formed byte sequences of the Unicode standard, and their characters.
use Prim.Native.Nat.{ℕ, zero, suc, ◌+◌, ◌-◌, ◌*◌}
use mathlib.Core.Path.{◌≡◌, refl}
use mathlib.Core.Bool.{◌&&◌}
use mathlib.Core.List.{List, [], ◌∷◌}
use mathlib.Core.Option
use mathlib.Core.Option.{Option, none, some}
use evtx.Base.Tests.{ltb, leb, ◌==◌, if◌then◌else◌, Str}

-- At the start of a character, or inside one: the bytes that are missing, the range of the next one, and
-- the bits so far.
pub data Utf8 : Type 0 where
  start : Utf8
  inside : ℕ → ℕ → ℕ → ℕ → Utf8

-- A lead byte that is not ASCII. The range excludes what is too long, the surrogates, and what lies behind
-- the last character.
abbrev pub lead : ℕ → Option Utf8
lead b =
    if ltb b 0xC2
    then none
    else if ltb b 0xE0
    then some (inside 1 0x80 0xBF (b - 0xC0))
    else if b == 0xE0
    then some (inside 2 0xA0 0xBF 0)
    else if b == 0xED
    then some (inside 2 0x80 0x9F 0xD)
    else if ltb b 0xF0
    then some (inside 2 0x80 0xBF (b - 0xE0))
    else if b == 0xF0
    then some (inside 3 0x90 0xBF 0)
    else if ltb b 0xF4
    then some (inside 3 0x80 0xBF (b - 0xF0))
    else if b == 0xF4
    then some (inside 3 0x80 0x8F 4)
    else none

-- The character that a byte ends, if it ends one, and what comes next.
abbrev pub within : Option Utf8 → Option (Option ℕ × Utf8)
within none = none
within (some st) = some (none, st)

abbrev pub continued : ℕ → ℕ → Option ℕ × Utf8
continued zero bits = (some bits, start)
continued (suc missing) bits = (none, inside (suc missing) 0x80 0xBF bits)

abbrev pub utf8_step : Utf8 → ℕ → Option (Option ℕ × Utf8)
utf8_step start b = if ltb b 0x80 then some (some b, start) else within (lead b)
utf8_step (inside missing lo hi bits) b =
    if leb lo b && leb b hi then some (continued (missing - 1) (bits * 64 + (b - 0x80))) else none

abbrev pub emitted : Option (Option ℕ × Utf8) → (Utf8 → Option Str) → Option Str
emitted none more = none
emitted (some (none, st)) more = more st
emitted (some (some c, st)) more = Option.map (λ s. c ∷ s) (more st)

unfoldable pub decode_utf8 : Utf8 → List ℕ → Option Str
decode_utf8 start [] = some []
decode_utf8 (inside missing lo hi bits) [] = none
decode_utf8 st (b ∷ bs) = emitted (utf8_step st b) (λ next. decode_utf8 next bs)

unfoldable pub from_utf8 : List ℕ → Option Str
unfolding decode_utf8
from_utf8 bytes = decode_utf8 start bytes

-- "aé€😀", a surrogate, an overlong form, and a character that is cut.
from_utf8_good :
    from_utf8 (0x61 ∷ 0xC3 ∷ 0xA9 ∷ 0xE2 ∷ 0x82 ∷ 0xAC ∷ 0xF0 ∷ 0x9F ∷ 0x98 ∷ 0x80 ∷ [])
    ≡ some (0x61 ∷ 0xE9 ∷ 0x20AC ∷ 0x1F600 ∷ [])
unfolding from_utf8
from_utf8_good = refl

from_utf8_bad :
    (from_utf8 (0xED ∷ 0xA0 ∷ 0x80 ∷ []) ≡ none)
    × (from_utf8 (0xC0 ∷ 0x80 ∷ []) ≡ none)
    × (from_utf8 (0xE2 ∷ 0x82 ∷ []) ≡ none)
unfolding from_utf8
from_utf8_bad = (refl, refl, refl)
