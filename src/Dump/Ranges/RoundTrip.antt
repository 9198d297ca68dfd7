-- ===== src/Dump/Ranges/RoundTrip.antt =====
-- What is written in the form that `--events` documents is read back by `Ranges::from_str`.
use evtx.Base.{
  ℕ, zero, suc, ◌/◌, ◌%◌, ◌<◌, ◌≡◌, refl, sym, ap, ◌∙◌, List, [], ◌∷◌, ◌++◌, true, false, some, Str,
  map, ◌==◌, ==→eq, All, All-append, arith, Bool-cases, inl, inr,
}
use evtx.Base.Text.{digit_char, digits, decimal}
use evtx.Base.Result.{ok}
use evtx.Convert.Text.{join}
use evtx.Dump.Ranges.{
  usize_mod, is_digit, parse_digits, parse_usize, split, contains_char, RangeInclusive, start_stop,
  range_of, all_ranges, from_str,
}

abbrev IsDigit : ℕ → Type 0
IsDigit c = is_digit c ≡ true

abbrev NotNil : Str → Type 0
NotNil [] = ⊥
NotNil (c ∷ s) = Unit

module _ (fuel n : ℕ) (rest : Str) where
  digits_end : (n / 10 == 0) ≡ true → digits (suc fuel) 10 n rest ≡ digit_char (n % 10) ∷ rest
  unfolding digits
  digits_end e = rw (e, digits) refl

  digits_step :
      (n / 10 == 0) ≡ false
      → digits (suc fuel) 10 n rest ≡ digits fuel 10 (n / 10) (digit_char (n % 10) ∷ rest)
  unfolding digits
  digits_step e = rw (e, digits) refl

digits-IsDigit : (fuel n : ℕ) (rest : Str) → All IsDigit rest → All IsDigit (digits fuel 10 n rest)
unfolding digits
digits-IsDigit zero n rest h = h
digits-IsDigit (suc fuel) n rest h = elim (Bool-cases (n / 10 == 0)) [
  | inl e ↦ rw (digits_end fuel n rest e) (ground arith, h)
  | inr e ↦
      rw (digits_step fuel n rest e)
        (digits-IsDigit fuel (n / 10) (digit_char (n % 10) ∷ rest) (ground arith, h))
]

digits-NotNil : (fuel n : ℕ) (rest : Str) → NotNil rest → NotNil (digits fuel 10 n rest)
unfolding digits
digits-NotNil zero n rest h = h
digits-NotNil (suc fuel) n rest h = elim (Bool-cases (n / 10 == 0)) [
  | inl e ↦ rw (digits_end fuel n rest e) tt
  | inr e ↦
      rw (digits_step fuel n rest e) (digits-NotNil fuel (n / 10) (digit_char (n % 10) ∷ rest) tt)
]

decimal-IsDigit : (n : ℕ) → All IsDigit (decimal n)
unfolding decimal
decimal-IsDigit n = digits-IsDigit (suc n) n [] tt

decimal-NotNil : (n : ℕ) → NotNil (decimal n)
unfolding decimal digits
decimal-NotNil n = elim (Bool-cases (n / 10 == 0)) [
  | inl e ↦ rw (digits_end n n [] e) tt
  | inr e ↦ rw (digits_step n n [] e) (digits-NotNil n (n / 10) (digit_char (n % 10) ∷ []) tt)
]

-- The last digit, behind the number of those before it.
parse_digits-last :
    (n : ℕ) (rest : Str)
    → n < usize_mod
    → parse_digits (digit_char (n % 10) ∷ rest) (n / 10) ≡ parse_digits rest n
unfolding parse_digits
parse_digits-last n rest h = ground arith

parse_digits-digits :
    (fuel n : ℕ) (rest : Str)
    → n < fuel
    → n < usize_mod
    → parse_digits (digits fuel 10 n rest) 0 ≡ parse_digits rest n
unfolding digits
parse_digits-digits zero n rest h k = absurd (omega arith)
parse_digits-digits (suc fuel) n rest h k = elim (Bool-cases (n / 10 == 0)) [
  | inl e ↦
      let z : n / 10 ≡ 0 = ==→eq (n / 10) 0 e in
      rw (digits_end fuel n rest e)
        (ap (λ m. parse_digits (digit_char (n % 10) ∷ rest) m) (sym z) ∙ parse_digits-last n rest k)
  | inr e ↦
      let z : 0 < n / 10 = ground arith in
      rw (digits_step fuel n rest e) (
        parse_digits-digits fuel (n / 10) (digit_char (n % 10) ∷ rest) (omega arith) (omega arith)
        ∙ parse_digits-last n rest k)
]

not_plus : (c : ℕ) → is_digit c ≡ true → (c == b'+') ≡ false
not_plus c h = ground arith

parse_usize-digits : (s : Str) → NotNil s → All IsDigit s → parse_usize s ≡ parse_digits s 0
unfolding parse_usize
parse_usize-digits [] h k = absurd h
parse_usize-digits (c ∷ []) h k = rw (not_plus c k.0) refl
parse_usize-digits (c ∷ d ∷ s) h k = rw (not_plus c k.0) refl

parse_usize-decimal : (n : ℕ) → n < usize_mod → parse_usize (decimal n) ≡ some n
unfolding decimal parse_digits
parse_usize-decimal n h =
    parse_usize-digits (decimal n) (decimal-NotNil n) (decimal-IsDigit n)
    ∙ parse_digits-digits (suc n) n [] (omega arith) h

-- A text without the separator.
abbrev Without : ℕ → Str → Type 0
Without separator s = All (λ c. (c == separator) ≡ false) s

digits-Without :
    (separator : ℕ) (s : Str) → is_digit separator ≡ false → All IsDigit s → Without separator s
digits-Without separator [] h k = tt
digits-Without separator (c ∷ s) h k = (ground arith, digits-Without separator s h k.1)

split_whole : (separator : ℕ) (s : Str) → Without separator s → split separator s ≡ s ∷ []
unfolding split
split_whole separator [] h = refl
split_whole separator (c ∷ s) h = rw (h.0, split_whole separator s h.1) refl

split_first :
    (separator : ℕ) (s t : Str)
    → Without separator s
    → split separator (s ++ (separator ∷ t)) ≡ s ∷ split separator t
unfolding split
split_first separator [] t h = ground arith
split_first separator (c ∷ s) t h = rw (h.0, split_first separator s t h.1) refl

contains_char_none :
    (separator : ℕ) (s : Str) → Without separator s → contains_char separator s ≡ false
unfolding contains_char
contains_char_none separator [] h = refl
contains_char_none separator (c ∷ s) h = rw (h.0) (contains_char_none separator s h.1)

contains_char_some :
    (separator : ℕ) (s t : Str)
    → Without separator s
    → contains_char separator (s ++ (separator ∷ t)) ≡ true
unfolding contains_char
contains_char_some separator [] t h = ground arith
contains_char_some separator (c ∷ s) t h = rw (h.0) (contains_char_some separator s t h.1)

-- A range as the help of `--events` writes it: a number, or two with a dash.
pub data WrittenRange : Type 0 where
  one : ℕ → WrittenRange
  from_to : ℕ → ℕ → WrittenRange

abbrev pub written : WrittenRange → Str
written (one n) = decimal n
written (from_to start stop) = decimal start ++ (b'-' ∷ decimal stop)

abbrev pub meant : WrittenRange → RangeInclusive
meant (one n) = (n, n)
meant (from_to start stop) = (start, stop)

abbrev pub Fits : WrittenRange → Type 0
Fits (one n) = n < usize_mod
Fits (from_to start stop) = (start < usize_mod) × (stop < usize_mod)

decimal-Without : (separator n : ℕ) → is_digit separator ≡ false → Without separator (decimal n)
decimal-Without separator n h = digits-Without separator (decimal n) h (decimal-IsDigit n)

start_stop-decimal :
    (range : Str) (start stop : ℕ)
    → start < usize_mod
    → stop < usize_mod
    → start_stop range (decimal start ∷ decimal stop ∷ []) ≡ ok (start, stop)
unfolding start_stop
start_stop-decimal range start stop h k =
    rw (parse_usize-decimal start h, parse_usize-decimal stop k) refl

range_of-written : (w : WrittenRange) → Fits w → range_of (written w) ≡ ok (meant w)
unfolding range_of
range_of-written (one n) h =
    rw (contains_char_none b'-' (decimal n) (decimal-Without b'-' n refl), parse_usize-decimal n h)
      refl
range_of-written (from_to start stop) h =
    let apart : split b'-' (written (from_to start stop)) ≡ decimal start ∷ decimal stop ∷ [] =
      split_first b'-' (decimal start) (decimal stop) (decimal-Without b'-' start refl)
      ∙ ap (λ parts. decimal start ∷ parts)
          (split_whole b'-' (decimal stop) (decimal-Without b'-' stop refl)) in
    rw
      (
        contains_char_some b'-' (decimal start) (decimal stop) (decimal-Without b'-' start refl),
        apart,
      )
      (start_stop-decimal (written (from_to start stop)) start stop h.0 h.1)

written-Without : (w : WrittenRange) → Without b',' (written w)
written-Without (one n) = decimal-Without b',' n refl
written-Without (from_to start stop) =
    All-append (λ c. (c == b',') ≡ false) (decimal start) (b'-' ∷ decimal stop)
      (decimal-Without b',' start refl) (refl, decimal-Without b',' stop refl)

split-join :
    (w : WrittenRange) (ws : List WrittenRange)
    → split b',' (join (map written (w ∷ ws))) ≡ map written (w ∷ ws)
unfolding join
split-join w [] = split_whole b',' (written w) (written-Without w)
split-join w (v ∷ ws) =
    split_first b',' (written w) (join (map written (v ∷ ws))) (written-Without w)
    ∙ ap (λ parts. written w ∷ parts) (split-join v ws)

all_ranges-written :
    (ws : List WrittenRange) → All Fits ws → all_ranges (map written ws) ≡ ok (map meant ws)
unfolding all_ranges
all_ranges-written [] h = refl
all_ranges-written (w ∷ ws) h = rw (range_of-written w h.0, all_ranges-written ws h.1) refl

-- Numbers and pairs of numbers with a dash, one at least, that fit a `usize` and are joined by commas, are
-- read as the ranges that they mean: a number as the range of itself, two as start and end.
pub from_str-written :
    (w : WrittenRange) (ws : List WrittenRange)
    → All Fits (w ∷ ws)
    → from_str (join (map written (w ∷ ws))) ≡ ok (map meant (w ∷ ws))
unfolding from_str
from_str-written w ws h = rw (split-join w ws) (all_ranges-written (w ∷ ws) h)
