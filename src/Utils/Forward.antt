-- ===== src/Utils/Forward.antt =====
-- The readers of src/utils end, and only move forward.
use evtx.Base.{
  ℕ, zero, suc, ◌+◌, ◌-◌, ◌*◌, ◌/◌, ◌%◌, ◌^◌, ◌≤◌, ◌<◌, ◌≡◌, ◌≢◌, ap, List, [], ◌∷◌, ◌++◌, length,
  ◌==◌, arith, Bool, true, false, Bool-cases, inl, inr, none, some, String,
}
use evtx.Base.Result.{ok, stuck}
use evtx.Crates.{Crates}
use evtx.Cursor.{Cursor, read_exact}
use evtx.Cursor.Walks.{
  Walks, Walks-weaken, Walks-pure, Walks-bind, Walks-context, Walks-if, continue-ends, >>=-eq-ok,
  Walks-read_exact,
}
use evtx.Error.{failed_to_read_token}
use evtx.Macros.{read_uint}
use evtx.Macros.Forward.{read_rules, Walks-io_uint, read_uint_inside}
use evtx.Utils.Strings.{
  read_chars, read_chars_until_nul, read_utf16_buffer, decode_buffer, read_utf16_string,
  read_utf16_by_size, read_len_prefixed_utf16_string, read_null_terminated_utf16_string,
  decode_ansi, read_ansi_encoded_string, try_read_len_prefixed, try_read_len_prefixed_nul,
  try_read_null_terminated,
}
use evtx.Utils.Time.{SystemTime, to_datetime, read_systemtime}

module _ ⦃x : Crates⦄ (d : List ℕ) where
  Walks-read_chars : (p n : ℕ) (buffer : List ℕ) → Walks d p 0 (read_chars n buffer)
  unfolding read_chars
  Walks-read_chars p zero buffer = Walks-pure d p buffer
  Walks-read_chars p (suc n) buffer =
      Walks-bind d p 0 _ _ (Walks-weaken d p _ (Walks-io_uint d p 1))
        λ u. Walks-read_chars (p + 0) n (buffer ++ (u ∷ []))

  Walks-decode_buffer : (p : ℕ) (buffer : List ℕ) → Walks d p 0 (decode_buffer buffer)
  unfolding decode_buffer
  Walks-decode_buffer p buffer = record {
    ends = λ c e b h. ground arith;
    at = λ c a c' e b h. (ground arith, ground arith);
  }

  Walks-decode_ansi :
      (p : ℕ) (codec : x.Codec) (bytes : List ℕ) → Walks d p 0 (decode_ansi codec bytes)
  unfolding decode_ansi
  Walks-decode_ansi p codec bytes = record {
    ends = λ c e b h. ground arith;
    at = λ c a c' e b h. (ground arith, ground arith);
  }

  Walks-utf16_sized : (p n : ℕ) → Walks d p 0 (read_utf16_string (some n))
  unfolding read_utf16_string read_utf16_buffer
  Walks-utf16_sized p n =
      Walks-bind d p 0 _ _ (Walks-read_chars p n []) λ buffer. Walks-decode_buffer _ buffer

  pub Walks-by_size : (p n : ℕ) → Walks d p 0 (read_utf16_by_size n)
  unfolding read_utf16_by_size
  Walks-by_size p zero = Walks-pure d p none
  Walks-by_size p (suc n) =
      Walks-bind d p 0 _ _ (Walks-utf16_sized p (suc n / 2)) λ s. Walks-pure d _ _

  Walks-len_prefixed : (p : ℕ) (nul : Bool) → Walks d p 1 (read_len_prefixed_utf16_string nul)
  unfolding read_len_prefixed_utf16_string
  Walks-len_prefixed p nul = Walks-bind d p 1 _ _ (Walks-io_uint d p 1) λ n.
      Walks-bind d _ 0 _ _ (Walks-by_size _ (n * 2 % 2 ^ 16)) λ s.
        Walks-if d _ 0 nul _ _
          (Walks-bind d _ 0 _ _ (Walks-weaken d _ _ (Walks-io_uint d _ 1)) λ u. Walks-pure d _ s)
          (Walks-pure d _ s)

  pub Walks-ansi : (p n : ℕ) (codec : x.Codec) → Walks d p 0 (read_ansi_encoded_string n codec)
  unfolding read_ansi_encoded_string
  Walks-ansi p zero codec = Walks-pure d p none
  Walks-ansi p (suc n) codec =
      Walks-bind d p 0 _ _ (Walks-context d p 0 _ _ exact) λ bytes. Walks-decode_ansi _ codec bytes
    where
      exact : Walks d p 0 (read_exact (suc n))
      exact = record {
        ends = (Walks-read_exact d p (suc n)).ends;
        at = λ c a c' e b h.
            let q : (c'.data_ref ≡ d) × (p + suc n ≤ c'.position) =
              (Walks-read_exact d p (suc n)).at c a c' e b h in
            (q.0, omega arith);
      }

  pub Walks-try_len_prefixed : (p : ℕ) (name : String) → Walks d p 1 (try_read_len_prefixed name)
  unfolding try_read_len_prefixed
  Walks-try_len_prefixed p name = Walks-context d p 1 _ _ (Walks-len_prefixed p false)

  pub Walks-try_len_prefixed_nul :
      (p : ℕ) (name : String) → Walks d p 1 (try_read_len_prefixed_nul name)
  unfolding try_read_len_prefixed_nul
  Walks-try_len_prefixed_nul p name = Walks-context d p 1 _ _ (Walks-len_prefixed p true)

  Walks-to_datetime : (p : ℕ) (t : SystemTime) → Walks d p 0 (to_datetime t)
  unfolding to_datetime
  Walks-to_datetime p t = record {
    ends = λ c e b h. ground arith;
    at = λ c a c' e b h. (ground arith, ground arith);
  }

  pub Walks-systime : (p : ℕ) → Walks d p 1 read_systemtime
  unfolding read_systemtime
  Walks-systime p = search (read_rules, Walks-to_datetime) depth 20

module _ ⦃x : Crates⦄ (d : List ℕ) where
  record UntilNulEnds (fuel : ℕ) (buffer : List ℕ) (c : Cursor) : Type 0 where
    ends : read_chars_until_nul fuel buffer c ≢ stuck
    at :
        (us : List ℕ) (c' : Cursor)
        → read_chars_until_nul fuel buffer c ≡ ok (us, c')
        → (c'.data_ref ≡ d) × (suc c.position ≤ c'.position)

  until_nul-ends :
      (fuel : ℕ) (buffer : List ℕ) (c : Cursor)
      → c.data_ref ≡ d
      → 0 < fuel
      → length d < c.position + fuel
      → UntilNulEnds fuel buffer c
  unfolding read_chars_until_nul
  until_nul-ends zero buffer c e f far = absurd (omega arith)
  until_nul-ends (suc fuel) buffer c e f far =
      let step : (u : ℕ) (c₁ : Cursor)
          → read_uint 2 c ≡ ok (u, c₁)
          → (c₁.data_ref ≡ d) × (c.position + 1 ≤ c₁.position) =
        λ u c₁ g. (Walks-io_uint d c.position 1).at c u c₁ e (omega arith) g in
      let next : (u : ℕ) (c₁ : Cursor)
          → read_uint 2 c ≡ ok (u, c₁)
          → UntilNulEnds fuel (buffer ++ (u ∷ [])) c₁ =
        λ u c₁ g.
          let q : (c₁.data_ref ≡ d) × (c.position + 1 ≤ c₁.position) = step u c₁ g in
          let inside : c.position < length d = read_uint_inside d c.position 1 c (u, c₁) e g in
          until_nul-ends fuel (buffer ++ (u ∷ [])) c₁ q.0 (omega arith) (omega arith) in
      record {
        ends =
            continue-ends (read_uint 2 c) _ ((Walks-io_uint d c.position 1).ends c e (omega arith))
              λ u c₁ g. elim (Bool-cases (u == 0)) [
                | inl z ↦ rw z (λ h. cc)
                | inr z ↦ rw z ((next u c₁ g).ends)
              ];
        at = λ us c' h.
            let (u, c₁, g, g₂) = >>=-eq-ok (read_uint 2) _ us c c' h in
            elim (Bool-cases (u == 0)) [
              | inl z ↦
                  let h' : ok (buffer, c₁) ≡ ok (us, c') = rw z at g₂ in
                  let q : (c₁.data_ref ≡ d) × (c.position + 1 ≤ c₁.position) = step u c₁ g in
                  (ground arith, ground arith)
              | inr z ↦
                  let q : (c₁.data_ref ≡ d) × (c.position + 1 ≤ c₁.position) = step u c₁ g in
                  let r : (c'.data_ref ≡ d) × (suc c₁.position ≤ c'.position) =
                    (next u c₁ g).at us c' (rw z at g₂) in
                  (r.0, omega arith)
            ];
      }

  Walks-until_nul : (p : ℕ) → Walks d p 1 (read_utf16_buffer none)
  unfolding read_utf16_buffer
  Walks-until_nul p = record {
    ends = λ c e b. (loop c e).ends;
    at = λ c us c' e b h.
        let q : (c'.data_ref ≡ d) × (suc c.position ≤ c'.position) = (loop c e).at us c' h in
        (q.0, omega arith);
  }
    where
      loop :
          (c : Cursor) → c.data_ref ≡ d → UntilNulEnds (suc (length c.data_ref - c.position)) [] c
      loop c e =
          until_nul-ends (suc (length c.data_ref - c.position)) [] c e (omega arith)
            (let l : length c.data_ref ≡ length d = ap length e in omega arith)

  pub Walks-null_terminated : (p : ℕ) → Walks d p 1 try_read_null_terminated
  unfolding try_read_null_terminated read_null_terminated_utf16_string read_utf16_string
  Walks-null_terminated p =
      Walks-context d p 1 (λ e. failed_to_read_token "null_terminated_utf_16_str" "<Unknown>")
        (read_utf16_string none)
        (Walks-bind d p 1 _ _ (Walks-until_nul p) λ buffer. Walks-decode_buffer d _ buffer)
