-- ===== src/Utils/Hexdump/Columns.antt =====
-- The columns of a line of `hexdump`, src/utils/hexdump.rs.
use evtx.Base.{
  ℕ, zero, suc, ◌+◌, ◌-◌, ◌*◌, ◌/◌, ◌%◌, ◌^◌, ◌≤◌, ◌<◌, ◌≡◌, refl, ap, subst, ◌∙◌, ◌⊎◌, inl, inr,
  List, [], ◌∷◌, ◌++◌, false, ◌||◌, some, Str, length, length-append, append_assoc, get_elem?,
  replicate, ltb, ◌==◌, ==→eq, if◌then◌else◌, All, arith, Bool-cases,
}
use evtx.Base.Text.{digit_char, digits, decimal, hex}
use evtx.Base.Result.{ok}
use evtx.Utils.Hexdump.{
  zero_filled, octal, from_be, word_at, print_word, print_words, word_size, print_ascii, words_of,
  aligned, print_line, number_of_bytes,
}

abbrev pow : ℕ → ℕ → ℕ
pow base zero = 1
pow base (suc w) = base * pow base w

-- A number takes at most as many digits as its bound has.
module _ (base : ℕ) (divides : (n p : ℕ) → n < base * p → n / base < p) where
  length-digits :
      (fuel n w : ℕ) (rest : Str)
      → n < pow base (suc w)
      → length (digits fuel base n rest) ≤ suc w + length rest
  unfolding digits
  length-digits zero n w rest h = omega arith
  length-digits (suc fuel) n zero rest h = elim (Bool-cases (n / base == 0)) [
    | inl e ↦ rw (e, digits) (omega arith)
    | inr e ↦ let z : n / base < 1 = divides n 1 h in absurd (ground arith)
  ]
  length-digits (suc fuel) n (suc w) rest h = elim (Bool-cases (n / base == 0)) [
    | inl e ↦ rw (e, digits) (omega arith)
    | inr e ↦
        rw (e, digits)
          (omega (
            arith,
            length-digits fuel (n / base) w (digit_char (n % base) ∷ rest)
                (divides n (pow base (suc w)) h),
          ))
  ]

length-octal : (n w : ℕ) → n < pow 8 (suc w) → length (octal n) ≤ suc w
unfolding octal
length-octal n w h = omega (arith, length-digits 8 (λ m p k. omega arith) (suc n) n w [] h)

length-hex : (n w : ℕ) → n < pow 16 (suc w) → length (hex n) ≤ suc w
unfolding hex
length-hex n w h = omega (arith, length-digits 16 (λ m p k. omega arith) (suc n) n w [] h)

length-decimal : (n w : ℕ) → n < pow 10 (suc w) → length (decimal n) ≤ suc w
unfolding decimal
length-decimal n w h = omega (arith, length-digits 10 (λ m p k. omega arith) (suc n) n w [] h)

length-replicate : (n c : ℕ) → length (replicate n c) ≡ n
length-replicate zero c = refl
length-replicate (suc n) c = ap (λ k. suc k) (length-replicate n c)

length-zero_filled : (w : ℕ) (s : Str) → length s ≤ w → length (zero_filled w s) ≡ w
length-zero_filled w s h =
    omega
      (arith, length-append (replicate (w - length s) b'0') s, length-replicate (w - length s) b'0')

length-print_ascii : (line : List ℕ) → length (print_ascii line) ≡ length line
unfolding print_ascii
length-print_ascii [] = refl
length-print_ascii (c ∷ line) = ap (λ k. suc k) (length-print_ascii line)

-- The words that a display has.
abbrev pub word_mod : ℕ → ℕ
word_mod bytes = if bytes == 1 then 256 else 65536

length-octal_filled :
    (w word : ℕ) → word < pow 8 (suc w) → length (zero_filled (suc w) (octal word)) ≡ suc w
length-octal_filled w word h = length-zero_filled (suc w) (octal word) (length-octal word w h)

length-hex_filled :
    (w word : ℕ) → word < pow 16 (suc w) → length (zero_filled (suc w) (hex word)) ≡ suc w
length-hex_filled w word h = length-zero_filled (suc w) (hex word) (length-hex word w h)

length-decimal_filled :
    (w word : ℕ) → word < pow 10 (suc w) → length (zero_filled (suc w) (decimal word)) ≡ suc w
length-decimal_filled w word h = length-zero_filled (suc w) (decimal word) (length-decimal word w h)

length-print_word :
    (display word : ℕ)
    → (display == b'c') ≡ false
    → word < word_mod (number_of_bytes display)
    → length (print_word display word) ≡ word_size display
unfolding print_word word_size number_of_bytes
length-print_word display word h k = ground (
  arith,
  length-octal_filled 2 word,
  length-hex_filled 1 word,
  length-hex_filled 3 word,
  length-octal_filled 5 word,
  length-decimal_filled 4 word,
  length-append (zero_filled 6 (octal word)) (b' ' ∷ []),
  length-append (zero_filled 5 (decimal word)) (b' ' ∷ []),
)

abbrev pub IsByte : ℕ → Type 0
IsByte b = b < 256

get_elem?-IsByte :
    (line : List ℕ) (i : ℕ)
    → i < length line
    → All IsByte line
    → (v : ℕ) × (get_elem? line i ≡ some v) × IsByte v
get_elem?-IsByte [] i h k = absurd (omega arith)
get_elem?-IsByte (b ∷ line) zero h k = (b, refl, k.0)
get_elem?-IsByte (b ∷ line) (suc i) h k = get_elem?-IsByte line i (omega arith) k.1

-- The word is there, and has its width.
abbrev pub HasWord : List ℕ → ℕ → ℕ → Type 0
HasWord line bytes b = (word : ℕ) × (word_at line bytes b ≡ ok word) × (word < word_mod bytes)

byte-HasWord : (line : List ℕ) (b : ℕ) → b < length line → All IsByte line → HasWord line 1 b
unfolding word_at
byte-HasWord line b h k = let (v, e, lt) = get_elem?-IsByte line b h k in (v, rw e refl, lt)

pair-HasWord : (line : List ℕ) (b : ℕ) → b < words_of line 2 → All IsByte line → HasWord line 2 b
unfolding word_at
pair-HasWord line b h k = elim (Bool-cases (length line == 2 * b + 1)) [
  | inl last ↦
      let z : length line ≡ 2 * b + 1 = ==→eq (length line) (2 * b + 1) last in
      let (v, e, lt) = get_elem?-IsByte line (2 * b) (omega arith) k in
      (from_be (v * 256 % 65536), rw (last, e) refl, omega arith)
  | inr full ↦
      let z : 2 * b + 1 < length line = ground arith in
      let (v, e, lt) = get_elem?-IsByte line (2 * b) (omega arith) k in
      let (w, g, lt') = get_elem?-IsByte line (2 * b + 1) z k in
      (from_be ((v * 256 % 65536 + w) % 65536), rw (full, e, g) refl, omega arith)
]

number_of_bytes_cases :
    (display : ℕ) → (number_of_bytes display ≡ 1) ⊎ (number_of_bytes display ≡ 2)
unfolding number_of_bytes
number_of_bytes_cases display =
    elim (Bool-cases (display == b'b' || (display == b'c' || display == b'C'))) [
      | inl e ↦ inl (rw e refl)
      | inr e ↦ inr (rw e refl)
    ]

pub word_at-HasWord :
    (display : ℕ) (line : List ℕ) (b : ℕ)
    → b < words_of line (number_of_bytes display)
    → All IsByte line
    → HasWord line (number_of_bytes display) b
word_at-HasWord display line b h k = elim (number_of_bytes_cases display) [
  | inl e ↦ rw e (
      byte-HasWord line b
        (let g : b < words_of line 1 = subst (λ n. b < words_of line n) e h in ground arith) k)
  | inr e ↦ rw e (pair-HasWord line b (subst (λ n. b < words_of line n) e h) k)
]

-- As many words, each in its width.
length-print_words :
    (display : ℕ) (line : List ℕ) (left b : ℕ)
    → (display == b'c') ≡ false
    → b + left ≤ words_of line (number_of_bytes display)
    → All IsByte line
    → (s : Str) × (print_words line display (number_of_bytes display) left b ≡ ok s)
      × (length s ≡ left * word_size display)
unfolding print_words
length-print_words display line zero b h k bytes = ([], refl, omega arith)
length-print_words display line (suc left) b h k bytes =
    let (word, e, lt) = word_at-HasWord display line b (omega arith) bytes in
    let (s, g, l) = length-print_words display line left (b + 1) h (omega arith) bytes in
    (
      print_word display word ++ s,
      rw (e, g) refl,
      length-append (print_word display word) s
          ∙ (ap (λ n. n + length s) (length-print_word display word h lt)
              ∙ ap (λ n. word_size display + n) l)
          ∙ grind arith,
    )

-- The words and the blanks make a whole line.
length-aligned :
    (display : ℕ) (line : List ℕ)
    → 0 < length line
    → length line ≤ 16
    → words_of line (number_of_bytes display) * word_size display
        + length (aligned line display (number_of_bytes display))
      ≡ 16 / number_of_bytes display * word_size display
length-aligned display line h k = elim (number_of_bytes_cases display) [
  | inl e ↦ rw e (blanks display line 1 (words_of line 1) (ground arith))
  | inr e ↦ rw e (blanks display line 2 (words_of line 2) (ground arith))
]
  where
    blanks :
        (display : ℕ) (line : List ℕ) (bytes words : ℕ)
        → words + (if ltb 0 (length line % 16) then (16 - length line) / bytes else 0) ≡ 16 / bytes
        → words * word_size display + length (aligned line display bytes)
          ≡ 16 / bytes * word_size display
    blanks display line bytes words e = elim (Bool-cases (ltb 0 (length line % 16))) [
      | inl g ↦
          let k : ℕ = (16 - length line) / bytes in
          let z : words + k ≡ 16 / bytes = rw g at e in
          rw (g, length-replicate (word_size display * k) b' ') (grind arith)
      | inr g ↦ let z : words ≡ 16 / bytes = ground arith in rw (g, z) (omega arith)
    ]

-- On a line of 1 to 16 bytes, in every display but 'c' and at an address of 32 bits, nothing panics, and the
-- text of the bytes begins at the same column whatever the bytes and their number: behind the line
-- break, eight digits, the colon, 16 bytes of words in the width of the display, and two blanks.
pub print_line-column :
    (line : List ℕ) (address display : ℕ)
    → (display == b'c') ≡ false
    → 0 < length line
    → length line ≤ 16
    → All IsByte line
    → address < 2 ^ 32
    → (start : Str) × (print_line line address display (number_of_bytes display)
        ≡ ok (start ++ print_ascii line))
      × (length start ≡ 12 + 16 / number_of_bytes display * word_size display)
unfolding print_line
print_line-column line address display h some_byte short bytes small =
    let size : ℕ = number_of_bytes display in
    let (words, e, l) =
      length-print_words display line (words_of line size) 0 h (omega arith) bytes in
    let blank : Str = aligned line display size in
    let digit8 : Str = zero_filled 8 (hex address) in
    let start : Str = (10 ∷ digit8) ++ ((b':' ∷ words) ++ (blank ++ (b' ' ∷ b' ' ∷ []))) in
    (
      start,
      rw (e, h) (simp append_assoc),
      omega (
        arith,
        length-append (10 ∷ digit8) ((b':' ∷ words) ++ (blank ++ (b' ' ∷ b' ' ∷ []))),
        length-append (b':' ∷ words) (blank ++ (b' ' ∷ b' ' ∷ [])),
        length-append blank (b' ' ∷ b' ' ∷ []),
        length-hex_filled 7 address small,
        l,
        length-aligned display line some_byte short,
      ),
    )
