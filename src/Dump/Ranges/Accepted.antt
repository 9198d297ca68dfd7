-- ===== src/Dump/Ranges/Accepted.antt =====
-- What `Ranges::from_str` of src/bin/evtx_dump.rs accepts.
use evtx.Base.{
  ℕ, suc, ◌+◌, ◌-◌, ◌*◌, ◌<◌, ◌≡◌, refl, ap, List, [], ◌∷◌, false, ◌||◌, Option, none, some, Str,
  length, ◌==◌, if◌then◌else◌, All, arith, Bool-cases, inl, inr,
}
use evtx.Base.Result.{Result, ok, err, panic, stuck, ◌>>=◌}
use evtx.Dump.Ranges.{
  usize_mod, parse_digits, parse_usize, split, contains_char, RangeInclusive, is_none, start_stop,
  single, range_of, all_ranges, from_str,
}

-- No panic, and a value of the kind.
abbrev pub Gives {ℓ} : {E : Type 0} {A : Type ℓ} → (A → Type 0) → Result E A → Type 0
Gives P (ok a) = P a
Gives P (err e) = Unit
Gives P panic = ⊥
Gives P stuck = ⊥

parse_digits-lt : (s : Str) (n r : ℕ) → n < usize_mod → parse_digits s n ≡ some r → r < usize_mod
unfolding parse_digits
parse_digits-lt [] n r h e = ground arith
parse_digits-lt (c ∷ s) n r h e = ground (arith, parse_digits-lt s (n * 10 + (c - b'0')) r)

parse_usize-lt : (s : Str) (r : ℕ) → parse_usize s ≡ some r → r < usize_mod
unfolding parse_usize
parse_usize-lt [] r e = absurd cc
parse_usize-lt (c ∷ []) r e = ground (arith, parse_digits-lt (c ∷ []) 0 r)
parse_usize-lt (c ∷ d ∷ s) r e =
    parse_digits-lt (if c == b'+' then d ∷ s else c ∷ d ∷ s) 0 r (omega arith) e

-- Bounds of a `usize`.
abbrev pub IsUsize : RangeInclusive → Type 0
IsUsize (start, stop) = (start < usize_mod) × (stop < usize_mod)

Gives-bind {ℓ κ} :
    {E : Type 0} {A : Type ℓ} {B : Type κ} (P : A → Type 0) (Q : B → Type 0) (r : Result E A)
    (f : A → Result E B)
    → Gives P r
    → ((a : A) → P a → Gives Q (f a))
    → Gives Q (r >>= f)
Gives-bind P Q (ok a) f h k = k a h
Gives-bind P Q (err e) f h k = tt
Gives-bind P Q panic f h k = h
Gives-bind P Q stuck f h k = h

two-Gives :
    (range a b : Str) (p q : Option ℕ)
    → parse_usize a ≡ p
    → parse_usize b ≡ q
    → Gives IsUsize (start_stop range (a ∷ b ∷ []))
unfolding start_stop
two-Gives range a b none q e g = rw e tt
two-Gives range a b (some m) none e g = rw (e, g) tt
two-Gives range a b (some m) (some n) e g = rw (e, g) (parse_usize-lt a m e, parse_usize-lt b n g)

more_than_two : (n : ℕ) → (suc (suc (suc n)) == 2) ≡ false
more_than_two n = ground arith

more-Gives :
    (range a b c : Str) (more : List Str) → Gives IsUsize (start_stop range (a ∷ b ∷ c ∷ more))
unfolding start_stop
more-Gives range a b c more =
    elim (Bool-cases (is_none (parse_usize a) || is_none (parse_usize b))) [
      | inl e ↦ rw e tt
      | inr e ↦ rw (e, more_than_two (length more)) tt
    ]

start_stop-Gives : (range : Str) (numbers : List Str) → Gives IsUsize (start_stop range numbers)
unfolding start_stop
start_stop-Gives range [] = tt
start_stop-Gives range (a ∷ []) = tt
start_stop-Gives range (a ∷ b ∷ []) = two-Gives range a b (parse_usize a) (parse_usize b) refl refl
start_stop-Gives range (a ∷ b ∷ c ∷ more) = more-Gives range a b c more

single-Gives : (range : Str) (o : Option ℕ) → parse_usize range ≡ o → Gives IsUsize (single range o)
single-Gives range none e = tt
single-Gives range (some r) e = (parse_usize-lt range r e, parse_usize-lt range r e)

range_of-Gives : (range : Str) → Gives IsUsize (range_of range)
unfolding range_of
range_of-Gives range = elim (Bool-cases (contains_char b'-' range)) [
  | inl e ↦ rw e (start_stop-Gives range (split b'-' range))
  | inr e ↦ rw e (single-Gives range (parse_usize range) refl)
]

abbrev Accepted : List Str → List RangeInclusive → Type 0
Accepted parts ranges = (length ranges ≡ length parts) × All IsUsize ranges

all_ranges-Gives : (parts : List Str) → Gives (Accepted parts) (all_ranges parts)
unfolding all_ranges
all_ranges-Gives [] = (refl, tt)
all_ranges-Gives (part ∷ parts) =
    Gives-bind IsUsize (Accepted (part ∷ parts)) (range_of part)
      (λ r. all_ranges parts >>= λ res. ok (r ∷ res)) (range_of-Gives part)
      λ r h.
        Gives-bind (Accepted parts) (Accepted (part ∷ parts)) (all_ranges parts)
          (λ res. ok (r ∷ res)) (all_ranges-Gives parts) λ res k. (ap (λ n. suc n) k.0, (h, k.1))

-- Whatever the text, `from_str` does not panic: it gives an error, or a range for each part between commas,
-- whose bounds fit a `usize`.
pub from_str-Gives :
    (s : Str)
    → Gives (λ ranges. (length ranges ≡ length (split b',' s)) × All IsUsize ranges) (from_str s)
unfolding from_str
from_str-Gives s = all_ranges-Gives (split b',' s)
