-- ===== src/Base/Decimal.antt =====
-- Reading a decimal back.
use Prim.Native.Nat.{ℕ, zero, suc, ◌+◌, ◌*◌, ◌-◌, ◌/◌, ◌%◌, ◌<◌}
use mathlib.Core.Path.{◌≡◌, ap, ◌∙◌}
use mathlib.Core.Logic.{inl, inr}
use mathlib.Core.List.{[], ◌∷◌}
use native.Mathlib.Omega.{arith}
use evtx.Base.Tests.{Str, ◌==◌, ==→eq, Bool-cases}
use evtx.Base.Text.{digits, digit_char, decimal}

-- The number that digits of base ten stand for, after those of `n`.
abbrev pub number : ℕ → Str → ℕ
number n [] = n
number n (c ∷ s) = number (n * 10 + (c - b'0')) s

number-digit : (n d : ℕ) (s : Str) → d < 10 → number n (digit_char d ∷ s) ≡ number (n * 10 + d) s
number-digit n d s h =
    let e : digit_char d - b'0' ≡ d = ground arith in ap (λ k. number (n * 10 + k) s) e

number-digits :
    (fuel n : ℕ) (rest : Str) → n < fuel → number 0 (digits fuel 10 n rest) ≡ number n rest
unfolding digits
number-digits zero n rest h = absurd (omega arith)
number-digits (suc fuel) n rest h = elim (Bool-cases (n / 10 == 0)) [
  | inl e ↦
      let z : n / 10 ≡ 0 = ==→eq (n / 10) 0 e in
      let g : 0 * 10 + n % 10 ≡ n = omega arith in
      rw (e, number) (number-digit 0 (n % 10) rest (omega arith) ∙ ap (λ k. number k rest) g)
  | inr e ↦
      let z : 0 < n / 10 = ground arith in
      let g : n / 10 * 10 + n % 10 ≡ n = omega arith in
      rw (e, number)
        (number-digits fuel (n / 10) (digit_char (n % 10) ∷ rest) (omega arith)
          ∙ (number-digit (n / 10) (n % 10) rest (omega arith) ∙ ap (λ k. number k rest) g))
]

pub number-decimal : (n : ℕ) → number 0 (decimal n) ≡ n
unfolding decimal
number-decimal n = number-digits (suc n) n [] (omega arith)
