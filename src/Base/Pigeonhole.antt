-- ===== src/Base/Pigeonhole.antt =====
-- A list that has a whole range of numbers is as long as the range.
use Prim.Native.Nat.{ℕ, zero, suc, ◌+◌, ◌<◌, ◌≤◌}
use mathlib.Core.Path.{◌≡◌, refl}
use mathlib.Core.Logic.{◌⊎◌, inl, inr, ◌≢◌}
use mathlib.Core.List.{List, [], ◌∷◌}
use native.Mathlib.Omega.{arith}
use evtx.Base.Lists.{length}

abbrev pub Has : ℕ → List ℕ → Type 0
Has i [] = ⊥
Has i (n ∷ ns) = (n ≡ i) ⊎ Has i ns

erase :
    (i : ℕ) (ns : List ℕ)
    → Has i ns
    → (ms : List ℕ) × (suc (length ms) ≡ length ns) × ((k : ℕ) → k ≢ i → Has k ns → Has k ms)
erase i [] h = absurd h
erase i (n ∷ ns) (inl e) =
    (ns, refl, λ k d h. elim h [ inl g ↦ absurd (d (omega arith)) | inr g ↦ g ])
erase i (n ∷ ns) (inr h) =
    let (ms, l, keep) = erase i ns h in
    (n ∷ ms, omega arith, λ k d g. elim g [ inl e ↦ inl e | inr e ↦ inr (keep k d e) ])

pub range-length :
    (a n : ℕ) (ns : List ℕ) → ((i : ℕ) → a ≤ i → i < a + n → Has i ns) → n ≤ length ns
range-length a zero ns h = omega arith
range-length a (suc n) ns h =
    let (ms, l, keep) = erase (a + n) ns (h (a + n) (omega arith) (omega arith)) in
    let r : n ≤ length ms =
      range-length a n ms λ i p q. keep i (λ e. absurd (omega arith)) (h i p (omega arith)) in
    omega arith
