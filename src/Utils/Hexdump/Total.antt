-- ===== src/Utils/Hexdump/Total.antt =====
-- `hexdump` of src/utils/hexdump.rs ends without a panic.
use evtx.Base.{
  ℕ, zero, suc, ◌+◌, ◌-◌, ◌*◌, ◌/◌, ◌≤◌, ◌<◌, ◌≡◌, refl, List, [], ◌∷◌, ◌++◌, Str, length, take,
  drop, min, leb, leb→le, All, arith, Bool-cases, inl, inr,
}
use evtx.Base.Result.{ok}
use evtx.Utils.Hexdump.{
  print_words, print_word, print_line, words_of, number_of_bytes, hexdump_rounds, hexdump,
  line_with,
}
use evtx.Utils.Hexdump.Columns.{IsByte, word_at-HasWord}

pub All-take : (n : ℕ) (bytes : List ℕ) → All IsByte bytes → All IsByte (take n bytes)
All-take zero bytes h = tt
All-take (suc n) [] h = tt
All-take (suc n) (b ∷ bytes) h = (h.0, All-take n bytes h.1)

pub All-drop : (n : ℕ) (bytes : List ℕ) → All IsByte bytes → All IsByte (drop n bytes)
All-drop zero bytes h = h
All-drop (suc n) [] h = tt
All-drop (suc n) (b ∷ bytes) h = All-drop n bytes h.1

print_words-ok :
    (display : ℕ) (line : List ℕ) (left b : ℕ)
    → b + left ≤ words_of line (number_of_bytes display)
    → All IsByte line
    → (s : Str) × (print_words line display (number_of_bytes display) left b ≡ ok s)
unfolding print_words
print_words-ok display line zero b k bytes = ([], refl)
print_words-ok display line (suc left) b k bytes =
    let (word, e, lt) = word_at-HasWord display line b (omega arith) bytes in
    let (s, g) = print_words-ok display line left (b + 1) (omega arith) bytes in
    (print_word display word ++ s, rw (e, g) refl)

print_line-ok :
    (line : List ℕ) (address display : ℕ)
    → All IsByte line
    → (s : Str) × (print_line line address display (number_of_bytes display) ≡ ok s)
unfolding print_line
print_line-ok line address display bytes =
    let (words, e) =
      print_words-ok display line (words_of line (number_of_bytes display)) 0 (omega arith) bytes in
    (line_with line address display (number_of_bytes display) words, rw e refl)

hexdump_rounds-ok :
    (fuel : ℕ) (bytes : List ℕ) (offset display address : ℕ)
    → All IsByte bytes
    → address ≤ length bytes + 16
    → length bytes + 16 < address + 16 * fuel
    → (s : Str) × (hexdump_rounds fuel bytes offset display address ≡ ok s)
unfolding hexdump_rounds
hexdump_rounds-ok zero bytes offset display address h below enough = absurd (omega arith)
hexdump_rounds-ok (suc fuel) bytes offset display address h below enough =
    elim (Bool-cases (leb address (length bytes))) [
      | inl e ↦
          let z : address ≤ length bytes = leb→le address (length bytes) e in
          let n : ℕ = min (address + 16) (length bytes) - address in
          let (line, g) =
            print_line-ok (take n (drop address bytes)) (address + offset) display
              (All-take n (drop address bytes) (All-drop address bytes h)) in
          let (rest, k) =
            hexdump_rounds-ok fuel bytes offset display (address + 16) h (omega arith)
              (omega arith) in
          (line ++ rest, rw (e, g, k) refl)
      | inr e ↦ ([], rw e refl)
    ]

-- Whatever the bytes, the offset and the display, `hexdump` ends and gives a text: no index is out of range.
pub hexdump-ok :
    (bytes : List ℕ) (offset display : ℕ)
    → All IsByte bytes
    → (s : Str) × (hexdump bytes offset display ≡ ok s)
unfolding hexdump
hexdump-ok bytes offset display h =
    hexdump_rounds-ok (length bytes / 16 + 2) bytes offset display 0 h (omega arith) (omega arith)
