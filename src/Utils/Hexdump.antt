-- ===== src/Utils/Hexdump.antt =====
-- src/utils/hexdump.rs. Writing to a `String` does not fail; an index out of range is a panic. The machine is
-- little-endian.
pub mod Columns
pub mod Total
use evtx.Base.{
  ℕ, zero, suc, ◌+◌, ◌-◌, ◌*◌, ◌/◌, ◌%◌, ◌≡◌, refl, List, [], ◌∷◌, ◌++◌, Bool, true, false, ◌||◌,
  ◌&&◌, Option, none, some, Str, chars, length, take, drop, get_elem?, replicate, min, ltb, leb,
  ◌==◌, if◌then◌else◌,
}
use evtx.Base.Text.{digits, decimal, hex}
use evtx.Base.Int.{ℤ, pos, negsuc}
use evtx.Base.Result.{Result, ok, err, panic, stuck, ◌>>=◌, map_err}
use evtx.Cursor.{Cursor, IoError, seek_ahead, seek_back}

-- `std::fmt::Error`, or an error of the stream.
pub data DumpError : Type 0 where
  io : IoError → DumpError

-- Zeros in front, up to the width.
abbrev pub zero_filled : ℕ → Str → Str
zero_filled width s = replicate (width - length s) b'0' ++ s

-- `{:o}`
unfoldable pub octal : ℕ → Str
unfolding digits
octal n = digits (suc n) 8 n []

-- `char::is_control` of a byte as a character.
abbrev pub is_control : ℕ → Bool
is_control c = ltb c 0x20 || (leb 0x7F c && leb c 0x9F)

-- `u16::from_be`: the bytes are swapped.
abbrev pub from_be : ℕ → ℕ
from_be word = word % 256 * 256 + word / 256

abbrev pub unwrap_index : Option ℕ → Result DumpError ℕ
unwrap_index none = panic
unwrap_index (some v) = ok v

unfoldable pub word_at : List ℕ → ℕ → ℕ → Result DumpError ℕ
word_at line bytes b =
    if bytes == 1
    then unwrap_index (get_elem? line b)
    else if length line == bytes * b + 1
    then (do v ← unwrap_index (get_elem? line (bytes * b)); ok (from_be (v * 256 % 65536)))
    else (do
      v ← unwrap_index (get_elem? line (bytes * b))
      w ← unwrap_index (get_elem? line (bytes * b + 1))
      ok (from_be ((v * 256 % 65536 + w) % 65536)))

-- One word; a character is padded on its right.
unfoldable pub print_word : ℕ → ℕ → Str
print_word display word =
    if display == b'b'
    then b' ' ∷ zero_filled 3 (octal word)
    else if display == b'c'
    then (if is_control (word % 256) then b' ' ∷ [] else b' ' ∷ (word % 256) ∷ b' ' ∷ b' ' ∷ [])
    else if display == b'C'
    then b' ' ∷ zero_filled 2 (hex word)
    else if display == b'x'
    then b' ' ∷ zero_filled 4 (hex word)
    else if display == b'o'
    then b' ' ∷ (zero_filled 6 (octal word) ++ (b' ' ∷ []))
    else if display == b'd'
    then b' ' ∷ b' ' ∷ (zero_filled 5 (decimal word) ++ (b' ' ∷ []))
    else b' ' ∷ zero_filled 4 (hex word)

-- `for b in 0..words`, from `b` on.
unfoldable pub print_words : List ℕ → ℕ → ℕ → ℕ → ℕ → Result DumpError Str
unfolding word_at print_word
print_words line display bytes zero b = ok []
print_words line display bytes (suc left) b = do
  word ← word_at line bytes b
  rest ← print_words line display bytes left (b + 1)
  ok (print_word display word ++ rest)

unfoldable pub word_size : ℕ → ℕ
word_size display =
    if display == b'b' || display == b'c'
    then 4
    else if display == b'C'
    then 3
    else if display == b'x'
    then 5
    else if display == b'o' || display == b'd'
    then 8
    else 5

-- Control characters are dots.
unfoldable pub print_ascii : List ℕ → Str
print_ascii [] = []
print_ascii (c ∷ line) = (if is_control c then b'.' else c) ∷ print_ascii line

abbrev pub words_of : List ℕ → ℕ → ℕ
words_of line bytes =
    if length line % bytes == 0 then length line / bytes else length line / bytes + 1

abbrev pub aligned : List ℕ → ℕ → ℕ → Str
aligned line display bytes =
    if ltb 0 (length line % 16)
    then replicate (word_size display * ((16 - length line) / bytes)) b' '
    else []

-- A line of which the words are printed.
abbrev pub line_with : List ℕ → ℕ → ℕ → ℕ → Str → Str
line_with line address display bytes words =
    let start : Str = (10 ∷ zero_filled 8 (hex address)) ++ ((b':' ∷ []) ++ words) in
    start
    ++ (if display == b'c'
        then []
        else aligned line display bytes ++ (b' ' ∷ b' ' ∷ print_ascii line))

unfoldable pub print_line : List ℕ → ℕ → ℕ → ℕ → Result DumpError Str
unfolding print_words print_ascii
print_line line address display bytes = do
  words ← print_words line display bytes (words_of line bytes) 0
  ok (line_with line address display bytes words)

unfoldable pub number_of_bytes : ℕ → ℕ
number_of_bytes display = if display == b'b' || (display == b'c' || display == b'C') then 1 else 2

-- `while address <= data.len()`
unfoldable pub hexdump_rounds : ℕ → List ℕ → ℕ → ℕ → ℕ → Result DumpError Str
hexdump_rounds zero bytes offset display address = stuck
hexdump_rounds (suc fuel) bytes offset display address =
    let rest = hexdump_rounds fuel bytes offset display (address + 16) in
    if leb address (length bytes)
    then (do
      line ←
          print_line (take (min (address + 16) (length bytes) - address) (drop address bytes))
            (address + offset) display (number_of_bytes display)
      more ← rest
      ok (line ++ more))
    else ok []

-- A round prints 16 bytes, so the bytes bound the rounds.
unfoldable pub hexdump : List ℕ → ℕ → ℕ → Result DumpError Str
unfolding hexdump_rounds
hexdump bytes offset display = hexdump_rounds (length bytes / 16 + 2) bytes offset display 0

-- `SeekFrom::Current(lookbehind)`
abbrev pub seek_current : ℤ → Cursor → Result IoError (Unit {0} × Cursor)
seek_current (pos n) c = seek_ahead n c
seek_current (negsuc n) c = seek_back (suc n) c

-- One `read` into 100 zeros: what the stream has, up to 100 bytes.
abbrev pub read_hundred : Cursor → List ℕ × Cursor
read_hundred c =
    let amount : List ℕ = take 100 (drop c.position c.data_ref) in
    (
      amount ++ replicate (100 - length amount) 0,
      record c { position = c.position + length amount },
    )

abbrev pub first_byte : List ℕ → Result DumpError ℕ
first_byte [] = panic
first_byte (b ∷ bs) = ok b

-- The value at the front, and the dump between lines.
abbrev pub dump_text : ℕ → Str → Str
dump_text first dump =
    chars "\n\n---------------------------------------------------------------------------\n"
    ++ (chars "Current Value "
        ++ (zero_filled 2 (hex first)
            ++ (chars "\n              --\n"
                ++ (dump
                    ++ chars
                        "\n----------------------------------------------------------------------------\n"))))

unfoldable pub dump_stream : ℤ → Cursor → Result DumpError (Str × Cursor)
unfolding hexdump
dump_stream lookbehind cursor = do
  (u, ahead) ← map_err io (seek_current lookbehind cursor)
  let (bytes, behind) = read_hundred ahead
  first ← first_byte bytes
  dump ← hexdump bytes 0 b'C'
  ok (dump_text first dump, behind)

dump_nothing : hexdump [] 0 b'C' ≡ ok (chars "\n00000000:  ")
unfolding hexdump print_line hex number_of_bytes
dump_nothing = refl

dump_hi :
    hexdump (0x48 ∷ 0x69 ∷ 0 ∷ []) 16 b'x'
    ≡ ok (chars "\n00000010: 6948 0000                                Hi.")
unfolding hexdump print_line hex print_words word_at print_word number_of_bytes word_size
dump_hi = refl
