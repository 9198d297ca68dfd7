-- ===== src/Utils/Strings/RoundTrip.antt =====
-- A text that is stored as UTF-16 is what `read_utf16_by_size` of src/utils/binxml_utils.rs reads.
use evtx.Base.{
  ℕ, zero, suc, ◌+◌, ◌-◌, ◌*◌, ◌/◌, ◌%◌, ◌≤◌, ◌<◌, ◌≡◌, ◌⊎◌, inl, inr, refl, ap, subst, List, [],
  ◌∷◌, ◌++◌, true, false, none, some, Str, drop, length, All, leb, ltb, ltb→le, Bool-cases,
  if◌then◌else◌, arith, append_assoc, append-nil,
}
use evtx.Base.Result.{ok}
use evtx.Crates.{Crates}
use evtx.Cursor.{Cursor, read_exact}
use evtx.Macros.{read_uint}
use evtx.Utils.Strings.{
  is_high_surrogate, is_low_surrogate, decode_units, take_until_nul, strip_nul, read_chars,
  read_utf16_buffer, decode_buffer, read_utf16_string, read_utf16_by_size,
}

-- A character other than nul: no surrogate, and not past the last code point.
abbrev pub IsChar : ℕ → Type 0
IsChar c = (0 < c) × ((c < 0xD800) ⊎ ((0xE000 ≤ c) × (c < 0x110000)))

-- The UTF-16 units of a text, by the definition of the encoding.
abbrev pub encode : Str → List ℕ
encode [] = []
encode (c ∷ s) =
    let rest = encode s in
    if ltb c 0x10000
    then c ∷ rest
    else (0xD800 + (c - 0x10000) / 0x400) ∷ (0xDC00 + (c - 0x10000) % 0x400) ∷ rest

-- The bytes of units, the low one first.
abbrev pub le_bytes : List ℕ → List ℕ
le_bytes [] = []
le_bytes (u ∷ us) = u % 256 ∷ u / 256 ∷ le_bytes us

no_high : (c : ℕ) → (c < 0xD800) ⊎ (0xE000 ≤ c) → is_high_surrogate c ≡ false
no_high c (inl h) = ground arith
no_high c (inr h) = ground arith

no_low : (c : ℕ) → (c < 0xD800) ⊎ (0xE000 ≤ c) → is_low_surrogate c ≡ false
no_low c (inl h) = ground arith
no_low c (inr h) = ground arith

high : (q : ℕ) → q < 0x400 → is_high_surrogate (0xD800 + q) ≡ true
high q h = ground arith

low : (q : ℕ) → q < 0x400 → is_low_surrogate (0xDC00 + q) ≡ true
low q h = ground arith

abbrev outside :
    (c : ℕ) → (c < 0xD800) ⊎ ((0xE000 ≤ c) × (c < 0x110000)) → (c < 0xD800) ⊎ (0xE000 ≤ c)
outside c (inl h) = inl h
outside c (inr h) = inr h.0

below_end : (c : ℕ) → (c < 0xD800) ⊎ ((0xE000 ≤ c) × (c < 0x110000)) → c < 0x110000
below_end c (inl h) = omega arith
below_end c (inr h) = h.1

decode-encode : (s : Str) → All IsChar s → decode_units none (encode s) ≡ some s
unfolding decode_units
decode-encode [] h = refl
decode-encode (c ∷ s) h = elim (Bool-cases (ltb c 0x10000)) [
  | inl e ↦
      let o : (c < 0xD800) ⊎ (0xE000 ≤ c) = outside c h.0.1 in
      rw (e, no_high c o, no_low c o, decode-encode s h.1) refl
  | inr e ↦
      let l : c < 0x110000 = below_end c h.0.1 in
      let b : 0x10000 ≤ c = ltb→le c 0x10000 e in
      let q : (c - 0x10000) / 0x400 < 0x400 = omega arith in
      let r : (c - 0x10000) % 0x400 < 0x400 = omega arith in
      let z : 0x10000
            + (0xD800 + (c - 0x10000) / 0x400 - 0xD800) * 0x400
            + (0xDC00 + (c - 0x10000) % 0x400 - 0xDC00)
          ≡ c =
        omega arith in
      rw (e, high ((c - 0x10000) / 0x400) q, low ((c - 0x10000) % 0x400) r, decode-encode s h.1, z)
        refl
]

take_nonzero :
    (u : ℕ) (us : List ℕ) → 0 < u → take_until_nul us ≡ us → take_until_nul (u ∷ us) ≡ u ∷ us
unfolding take_until_nul
take_nonzero u us p h = ground arith

no_nul : (s : Str) → All IsChar s → take_until_nul (encode s) ≡ encode s
unfolding take_until_nul
no_nul [] h = refl
no_nul (c ∷ s) h = elim (Bool-cases (ltb c 0x10000)) [
  | inl e ↦ rw e (take_nonzero c (encode s) h.0.0 (no_nul s h.1))
  | inr e ↦ rw e (
      take_nonzero (0xD800 + (c - 0x10000) / 0x400) ((0xDC00 + (c - 0x10000) % 0x400) ∷ encode s)
        (omega arith)
        (take_nonzero (0xDC00 + (c - 0x10000) % 0x400) (encode s) (omega arith) (no_nul s h.1)))
]

strip_nul-same : (s : Str) → All IsChar s → strip_nul s ≡ s
unfolding strip_nul
strip_nul-same [] h = refl
strip_nul-same (c ∷ []) h = let p : 0 < c = h.0.0 in ground arith
strip_nul-same (c ∷ e ∷ s) h = ap (λ t. c ∷ t) (strip_nul-same (e ∷ s) h.1)

module _ ⦃x : Crates⦄ where
  two_bytes : (u : ℕ) → x.from_le (u % 256 ∷ u / 256 ∷ []) ≡ u
  two_bytes u =
      let a : x.from_le (u % 256 ∷ u / 256 ∷ []) ≡ u % 256 + 256 * x.from_le (u / 256 ∷ []) =
        x.from_le-cons (u % 256) (u / 256 ∷ []) in
      let b : x.from_le (u / 256 ∷ []) ≡ u / 256 + 256 * x.from_le [] =
        x.from_le-cons (u / 256) [] in
      omega (arith, x.from_le-nil)

  -- The bytes at the cursor begin with these.
  abbrev pub IsAt : Cursor → List ℕ → List ℕ → Type 0
  IsAt c bytes rest = drop c.position c.data_ref ≡ bytes ++ rest

  drop-length : (n : ℕ) (d bs : List ℕ) (b : ℕ) → drop n d ≡ b ∷ bs → length d ≡ n + suc (length bs)
  drop-length zero d bs b h = omega (arith, ap length h)
  drop-length (suc n) [] bs b h = absurd cc
  drop-length (suc n) (e ∷ d) bs b h = omega (arith, drop-length n d bs b h)

  pub drop-two : (n : ℕ) (d bs : List ℕ) (a b : ℕ) → drop n d ≡ a ∷ b ∷ bs → drop (n + 2) d ≡ bs
  drop-two zero d bs a b h = rw h refl
  drop-two (suc n) [] bs a b h = absurd cc
  drop-two (suc n) (e ∷ d) bs a b h =
      let z : suc (n + 2) ≡ suc n + 2 = omega arith in
      subst (λ k. drop k (e ∷ d) ≡ bs) z (drop-two n d bs a b h)

  pub read_unit :
      (u : ℕ) (bytes : List ℕ) (c : Cursor)
      → drop c.position c.data_ref ≡ u % 256 ∷ u / 256 ∷ bytes
      → read_uint 2 c ≡ ok (u, record c { position = c.position + 2 })
  unfolding read_uint read_exact
  read_unit u bytes c h =
      let l : length c.data_ref ≡ c.position + suc (length (u / 256 ∷ bytes)) =
        drop-length c.position c.data_ref (u / 256 ∷ bytes) (u % 256) h in
      let g : leb 2 (length c.data_ref - c.position) ≡ true = ground arith in
      rw (g, h, two_bytes u) refl

  read_chars-units :
      (us buffer rest : List ℕ) (c : Cursor)
      → drop c.position c.data_ref ≡ le_bytes us ++ rest
      → read_chars (length us) buffer c
        ≡ ok (buffer ++ us, record c { position = c.position + 2 * length us })
  unfolding read_chars
  read_chars-units [] buffer rest c h =
      let z : c.position ≡ c.position + 2 * 0 = omega arith in
      let e : c ≡ record c { position = c.position + 2 * 0 } =
        ap (λ p. record c { position = p }) z in
      rw (append-nil buffer) (ap (λ k. ok (buffer, k)) e)
  read_chars-units (u ∷ us) buffer rest c h =
      let d : drop (c.position + 2) c.data_ref ≡ le_bytes us ++ rest =
        drop-two c.position c.data_ref (le_bytes us ++ rest) (u % 256) (u / 256) h in
      let z : c.position + 2 + 2 * length us ≡ c.position + 2 * suc (length us) = omega arith in
      rw
        (
          read_unit u (le_bytes us ++ rest) c h,
          read_chars-units us (buffer ++ (u ∷ [])) rest (record c { position = c.position + 2 }) d,
          append_assoc buffer (u ∷ []) us,
          z,
        )
        refl

  decode_buffer-encode :
      (s : Str) (c : Cursor) → All IsChar s → decode_buffer (encode s) c ≡ ok (s, c)
  unfolding decode_buffer
  decode_buffer-encode s c h = rw (no_nul s h, decode-encode s h) refl

  string-encode :
      (s : Str) (rest : List ℕ) (c : Cursor)
      → All IsChar s
      → drop c.position c.data_ref ≡ le_bytes (encode s) ++ rest
      → read_utf16_string (some (length (encode s))) c
        ≡ ok (s, record c { position = c.position + 2 * length (encode s) })
  unfolding read_utf16_string read_utf16_buffer
  string-encode s rest c h d =
      rw
        (
          read_chars-units (encode s) [] rest c d,
          decode_buffer-encode s (record c { position = c.position + 2 * length (encode s) }) h,
        )
        refl

  sized :
      (n : ℕ) (s : Str) (c c' : Cursor)
      → 0 < n
      → All IsChar s
      → read_utf16_string (some (n / 2)) c ≡ ok (s, c')
      → read_utf16_by_size n c ≡ ok (some s, c')
  unfolding read_utf16_by_size
  sized zero s c c' p h e = absurd (omega arith)
  sized (suc n) s c c' p h e = rw (e, strip_nul-same s h) refl

-- Where the bytes at the cursor are the UTF-16 of a text without nuls or surrogates, and the text is not empty,
-- a read of as many bytes gives the text, and leaves the cursor behind its bytes.
pub read_utf16_by_size-encode :
    ⦃x : Crates⦄ (s : Str) (rest : List ℕ) (c : Cursor)
    → All IsChar s
    → 0 < length (encode s)
    → drop c.position c.data_ref ≡ le_bytes (encode s) ++ rest
    → read_utf16_by_size (2 * length (encode s)) c
      ≡ ok (some s, record c { position = c.position + 2 * length (encode s) })
read_utf16_by_size-encode s rest c h p d =
    let z : length (encode s) ≡ 2 * length (encode s) / 2 = omega arith in
    sized (2 * length (encode s)) s c (record c { position = c.position + 2 * length (encode s) })
      (omega arith) h
      (subst
        (λ k.
          read_utf16_string (some k) c
          ≡ ok (s, record c { position = c.position + 2 * length (encode s) }))
        z (string-encode s rest c h d))
