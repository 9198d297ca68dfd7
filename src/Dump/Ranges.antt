-- ===== src/Dump/Ranges.antt =====
-- `Ranges` of src/bin/evtx_dump.rs: the ranges of record ids that `--events` takes.
pub mod Accepted
pub mod RoundTrip
use evtx.Base.{
  ℕ, ◌+◌, ◌-◌, ◌*◌, ◌^◌, ◌≡◌, refl, List, [], ◌∷◌, ◌++◌, Bool, true, false, not, ◌&&◌, ◌||◌, Option,
  none, some, Str, chars, length, get_elem?, ltb, leb, ◌==◌, if◌then◌else◌,
}
use evtx.Base.Result.{Result, ok, err, panic, ◌>>=◌, ◌>>◌, map_err}

-- A `usize` of 64 bits.
abbrev pub usize_mod : ℕ
usize_mod = 2 ^ 64

abbrev pub is_digit : ℕ → Bool
is_digit c = leb b'0' c && leb c b'9'

-- The digits behind `n`; `none` is another character, or an overflow.
unfoldable pub parse_digits : Str → ℕ → Option ℕ
parse_digits [] n = some n
parse_digits (c ∷ s) n =
    let m = n * 10 + (c - b'0') in
    let rest = parse_digits s m in if is_digit c && ltb m usize_mod then rest else none

-- `parse::<usize>`: a plus sign may stand in front of digits.
unfoldable pub parse_usize : Str → Option ℕ
unfolding parse_digits
parse_usize [] = none
parse_usize (c ∷ []) = if c == b'+' then none else parse_digits (c ∷ []) 0
parse_usize (c ∷ d ∷ s) = parse_digits (if c == b'+' then d ∷ s else c ∷ d ∷ s) 0

abbrev pub cons_first : ℕ → List Str → List Str
cons_first c [] = (c ∷ []) ∷ []
cons_first c (part ∷ parts) = (c ∷ part) ∷ parts

-- `str::split` at a character.
unfoldable pub split : ℕ → Str → List Str
split separator [] = [] ∷ []
split separator (c ∷ s) =
    let parts = split separator s in if c == separator then [] ∷ parts else cons_first c parts

-- `str::contains` of a character.
unfoldable pub contains_char : ℕ → Str → Bool
contains_char separator [] = false
contains_char separator (c ∷ s) = c == separator || contains_char separator s

-- The messages of `from_str`, with the range that they name.
pub data RangesError : Type 0 where
  not_a_positive_number : Str → RangesError
  not_a_number_or_range : Str → RangesError
  not_start_stop : Str → RangesError

-- `RangeInclusive<usize>`: start and end.
abbrev pub RangeInclusive : Type 0
RangeInclusive = ℕ × ℕ

abbrev pub is_none {ℓ} : {A : Type ℓ} → Option A → Bool
is_none none = true
is_none (some a) = false

abbrev pub unwrap {ℓ} : {A : Type ℓ} → Option A → Result RangesError A
unwrap none = panic
unwrap (some a) = ok a

-- Both are there and are numbers.
abbrev pub verify : Str → Option Str → Option Str → Result RangesError (Unit {0})
verify range (some rstart) (some rstop) =
    if is_none (parse_usize rstart) || is_none (parse_usize rstop)
    then err (not_a_positive_number range)
    else ok tt
verify range none rstop = err (not_a_positive_number range)
verify range (some rstart) none = err (not_a_positive_number range)

-- A part with a dash. The third test cannot fail behind the first; the `unwrap`s are panics.
unfoldable pub start_stop : Str → List Str → Result RangesError RangeInclusive
unfolding parse_usize
start_stop range numbers = do
  verify range (get_elem? numbers 0) (get_elem? numbers 1)
  if not (length numbers == 2) then err (not_a_number_or_range range) else ok tt
  if is_none (get_elem? numbers 0) || is_none (get_elem? numbers 1)
      then err (not_start_stop range)
      else ok tt
  rstart ← unwrap (get_elem? numbers 0)
  start ← unwrap (parse_usize rstart)
  rstop ← unwrap (get_elem? numbers 1)
  stop ← unwrap (parse_usize rstop)
  ok (start, stop)

abbrev pub single : Str → Option ℕ → Result RangesError RangeInclusive
single range (some r) = ok (r, r)
single range none = err (not_a_positive_number range)

unfoldable pub range_of : Str → Result RangesError RangeInclusive
unfolding start_stop parse_usize split contains_char
range_of range =
    if contains_char b'-' range
    then start_stop range (split b'-' range)
    else single range (parse_usize range)

-- `for range in s.split(',')`, up to the first error.
unfoldable pub all_ranges : List Str → Result RangesError (List RangeInclusive)
unfolding range_of
all_ranges [] = ok []
all_ranges (range ∷ ranges) = do r ← range_of range; res ← all_ranges ranges; ok (r ∷ res)

unfoldable pub from_str : Str → Result RangesError (List RangeInclusive)
unfolding all_ranges split
from_str s = all_ranges (split b',' s)

-- `Ranges::contains`
unfoldable pub contains : List RangeInclusive → ℕ → Bool
contains [] number = false
contains ((start, stop) ∷ ranges) number =
    (leb start number && leb number stop) || contains ranges number

-- The validators of the options.
unfoldable pub matches_ranges : Str → Result RangesError (Unit {0})
unfolding from_str
matches_ranges value = from_str value >>= λ ranges. ok tt

unfoldable pub is_a_non_negative_number : Str → Bool
unfolding parse_usize
is_a_non_negative_number value = not (is_none (parse_usize value))

-- `test_ranges`
test_ranges :
    (matches_ranges (chars "1-2,3,4-5,6-7,8-9") ≡ ok tt)
    × (matches_ranges (chars "1") ≡ ok tt)
    × (matches_ranges (chars "1-") ≡ err (not_a_positive_number (chars "1-")))
    × (matches_ranges (chars "-2") ≡ err (not_a_positive_number (chars "-2")))
    × (matches_ranges (chars "1-2-3") ≡ err (not_a_number_or_range (chars "1-2-3")))
    × (from_str (chars "+7,9-8") ≡ ok ((7, 7) ∷ (9, 8) ∷ []))
unfolding matches_ranges from_str
test_ranges = (refl, refl, refl, refl, refl, refl)
