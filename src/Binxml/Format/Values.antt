-- ===== src/Binxml/Format/Values.antt =====
-- Texts and values are read as they are written.
use evtx.Base.{
  ℕ, ◌+◌, ◌*◌, ◌%◌, ◌^◌, ◌<◌, ◌≡◌, refl, sym, ap, subst, ◌∙◌, List, [], ◌∷◌, ◌++◌, true, false,
  Option, none, some, Str, String, chars, drop, Bool-cases, inl, inr, length, ltb, ◌==◌,
  if◌then◌else◌, arith, All,
}
use mathlib.Core.Option.{get_or}
use evtx.Base.Int.{of_bits}
use evtx.Base.Text.{hex}
use evtx.Base.Result.{ok}
use evtx.Crates.{Crates}
use evtx.Cursor.{◌>>=◌, pure, with_context, Reader}
use evtx.Cursor.Reads.{Reads, Reads-pure, Reads-bind, Reads-context, Reads-uint, le, capacity}
use evtx.Error.{failed_to_read_token}
use evtx.Macros.{
  Read, read_uint, try_read_u8, try_read_u16, try_read_u32, try_read_u64, capture_context,
  try_read_signed, try_read_i8, try_read_i16, try_read_i32, try_read_i64, try_read_f32,
  try_read_f64, try_read_bool, try_read_hex32, try_read_hex64,
}
use evtx.Model.ValueType.{BinXmlValueType}
use evtx.Model.ValueType
use evtx.Model.Deserialized.{BinXmlValue}
use evtx.Utils.Strings.{read_utf16_by_size, read_len_prefixed_utf16_string, try_read_len_prefixed}
use evtx.Utils.Strings.RoundTrip.{IsChar, encode, le_bytes, read_utf16_by_size-encode}
use evtx.Binxml.Value.{
  Fragment, as_value, value_type_of, deserialize_value_type, from_binxml_stream,
}
use evtx.Binxml.Format.{
  WrittenValue, null, string, int8, uint8, int16, uint16, int32, uint32, int64, uint64, real32,
  real64, bool, hex32, hex64, value_bytes, value_meant, ValueFits, TextFits, text_bytes,
}
use evtx.Binxml.Format.Names.{Reads-u8, Reads-u16, Reads-u32, Reads-u64, length-le_bytes}

encode_pos : (c : ℕ) (s : Str) → 0 < length (encode (c ∷ s))
encode_pos c s = elim (Bool-cases (ltb c 0x10000)) [
  | inl e ↦ rw e (omega arith)
  | inr e ↦ rw e (omega arith)
]

module _ ⦃x : Crates⦄ where
  -- The text, where the string readers give none for an empty one.
  abbrev pub text_option : Str → Option Str
  text_option [] = none
  text_option (c ∷ s) = some (c ∷ s)

  pub Reads-by_size :
      (p : ℕ) (s : Str)
      → All IsChar s
      → Reads p (read_utf16_by_size (2 * length (encode s))) (le_bytes (encode s)) (text_option s)
  unfolding read_utf16_by_size
  Reads-by_size p [] h = Reads-pure p none
  Reads-by_size p (c ∷ s) h = record {
    at = λ rest cur e d.
        let bs : List ℕ = le_bytes (encode (c ∷ s)) in
        let there : drop cur.position cur.data_ref ≡ bs ++ rest =
          subst (λ n. drop n cur.data_ref ≡ bs ++ rest) (sym e) d in
        let z : cur.position + 2 * length (encode (c ∷ s)) ≡ p + length bs =
          omega (arith, length-le_bytes (encode (c ∷ s))) in
        read_utf16_by_size-encode (c ∷ s) rest cur h (encode_pos c s) there
        ∙ ap (λ n. ok (some (c ∷ s), record cur { position = n })) z;
  }

  pub text_or-nil : (s : Str) → get_or (text_option s) [] ≡ s
  text_or-nil [] = refl
  text_or-nil (c ∷ s) = refl

  Reads-then_pure :
      {E A : Type 0} (p : ℕ) (m : Reader E A) (bs : List ℕ) (a : A)
      → Reads p m bs a
      → Reads p (m >>= λ t. pure t) bs a
  Reads-then_pure p m bs a r = record { at = λ rest c e d. rw (r.at rest c e d) refl }

  pub Reads-text :
      (p : ℕ) (name : String) (s : Str)
      → TextFits s
      → Reads p (try_read_len_prefixed name) (text_bytes s) (text_option s)
  unfolding try_read_len_prefixed read_len_prefixed_utf16_string
  Reads-text p name s h =
      let n : ℕ = length (encode s) in
      let z : 2 * n ≡ n * 2 % 2 ^ 16 = omega arith in
      Reads-context p (λ e. failed_to_read_token "len_prefixed_utf_16_str" name)
        (read_len_prefixed_utf16_string false) (text_bytes s) (text_option s)
        (Reads-bind p (read_uint 2) (λ k. read_utf16_by_size (k * 2 % 2 ^ 16) >>= λ t. pure t)
          (le 2 n) (le_bytes (encode s)) n (text_option s) (Reads-uint p 2 n (omega arith))
          (subst
            (λ k.
              Reads (p + 2) (read_utf16_by_size k >>= λ t. pure t) (le_bytes (encode s))
                (text_option s))
            z
            (Reads-then_pure (p + 2) (read_utf16_by_size (2 * n)) (le_bytes (encode s))
              (text_option s) (Reads-by_size (p + 2) s h.0))))

  pub Reads-as_value :
      {A : Type 0} (p : ℕ) (f : A → BinXmlValue) (m : Read A) (bs : List ℕ) (a : A)
      → Reads p m bs a
      → Reads p (as_value f m) bs (f a)
  unfolding as_value
  Reads-as_value p f m bs a r = record { at = λ rest c e d. rw (r.at rest c e d) refl }

  -- A number under a function.
  pub Reads-number :
      {A : Type 0} (p n v : ℕ) (t : String) (f : ℕ → A)
      → v < capacity n
      → Reads p
          (with_context (capture_context t "<Unknown>") (read_uint n) >>= λ u. pure (f u))
          (le n v)
          (f v)
  Reads-number p n v t f h = record {
    at = λ rest c e d.
        rw
          ((Reads-context p (capture_context t "<Unknown>") (read_uint n) (le n v) v
              (Reads-uint p n v h)).at
            rest c e d)
          refl;
  }

  pub Reads-bits :
      (p n v : ℕ) (t : String)
      → v < capacity n
      → Reads p (with_context (capture_context t "<Unknown>") (read_uint n)) (le n v) v
  Reads-bits p n v t h =
      Reads-context p (capture_context t "<Unknown>") (read_uint n) (le n v) v (Reads-uint p n v h)

  module _ (fragment : Fragment) (codec : x.Codec) where
    -- The type, and then the value.
    Reads-typed :
        (p token : ℕ) (value_type : BinXmlValueType) (bs : List ℕ) (v : BinXmlValue)
        → token < capacity 1
        → ValueType.from_u8 token ≡ some value_type
        → Reads (p + 1) (deserialize_value_type fragment codec value_type none) bs v
        → Reads p (from_binxml_stream fragment codec none) (le 1 token ++ bs) v
    unfolding from_binxml_stream value_type_of
    Reads-typed p token value_type bs v h e r =
        Reads-bind p (try_read_u8 "<Unknown>")
          (λ t. value_type_of t >>= λ ty. deserialize_value_type fragment codec ty none)
          (le 1 token) bs token v (Reads-u8 p "<Unknown>" token h)
          (record { at = λ rest c q d. rw (e, value_type_of) (r.at rest c q d) })

    -- The same where the value is a reader's under a constructor.
    Reads-under :
        {A : Type 0} (p token : ℕ) (value_type : BinXmlValueType) (f : A → BinXmlValue) (m : Read A)
        (bs : List ℕ) (a : A)
        → token < capacity 1
        → ValueType.from_u8 token ≡ some value_type
        → deserialize_value_type fragment codec value_type none ≡ as_value f m
        → Reads (p + 1) m bs a
        → Reads p (from_binxml_stream fragment codec none) (le 1 token ++ bs) (f a)
    Reads-under p token value_type f m bs a h e g r =
        Reads-typed p token value_type bs (f a) h e
          (subst (λ k. Reads (p + 1) k bs (f a)) (sym g) (Reads-as_value (p + 1) f m bs a r))

    pub Reads-value :
        (p : ℕ) (v : WrittenValue)
        → ValueFits v
        → Reads p (from_binxml_stream fragment codec none) (value_bytes v) (value_meant v)
    unfolding deserialize_value_type try_read_signed try_read_i8 try_read_i16 try_read_i32
        try_read_i64 try_read_f32 try_read_f64 try_read_bool try_read_hex32 try_read_hex64
        ValueType.from_u8
    Reads-value p null h =
        Reads-typed p 0x00 BinXmlValueType.null_type [] BinXmlValue.null_type (omega arith) refl
          (Reads-pure (p + 1) BinXmlValue.null_type)
    Reads-value p (string s) h =
        subst
          (λ t.
            Reads p (from_binxml_stream fragment codec none) (value_bytes (string s))
              (BinXmlValue.string_type t))
          (text_or-nil s)
          (Reads-under p 0x01 BinXmlValueType.string_type
            (λ t. BinXmlValue.string_type (get_or t [])) (try_read_len_prefixed "<string_value>")
            (text_bytes s) (text_option s) (omega arith) refl refl
            (Reads-text (p + 1) "<string_value>" s h))
    Reads-value p (int8 n) h =
        Reads-under p 3 BinXmlValueType.int8_type BinXmlValue.int8_type try_read_i8 (le 1 n)
          (of_bits 8 n) (omega arith) refl refl (Reads-number (p + 1) 1 n "i8" (of_bits 8) h)
    Reads-value p (uint8 n) h =
        Reads-under p 4 BinXmlValueType.uint8_type BinXmlValue.uint8_type (try_read_u8 "<Unknown>")
          (le 1 n) n (omega arith) refl refl (Reads-u8 (p + 1) "<Unknown>" n h)
    Reads-value p (int16 n) h =
        Reads-under p 5 BinXmlValueType.int16_type BinXmlValue.int16_type try_read_i16 (le 2 n)
          (of_bits 16 n) (omega arith) refl refl (Reads-number (p + 1) 2 n "i16" (of_bits 16) h)
    Reads-value p (uint16 n) h =
        Reads-under p 6 BinXmlValueType.uint16_type BinXmlValue.uint16_type
          (try_read_u16 "<Unknown>") (le 2 n) n (omega arith) refl refl
          (Reads-u16 (p + 1) "<Unknown>" n h)
    Reads-value p (int32 n) h =
        Reads-under p 7 BinXmlValueType.int32_type BinXmlValue.int32_type try_read_i32 (le 4 n)
          (of_bits 32 n) (omega arith) refl refl (Reads-number (p + 1) 4 n "i32" (of_bits 32) h)
    Reads-value p (uint32 n) h =
        Reads-under p 8 BinXmlValueType.uint32_type BinXmlValue.uint32_type
          (try_read_u32 "<Unknown>") (le 4 n) n (omega arith) refl refl
          (Reads-u32 (p + 1) "<Unknown>" n h)
    Reads-value p (int64 n) h =
        Reads-under p 9 BinXmlValueType.int64_type BinXmlValue.int64_type try_read_i64 (le 8 n)
          (of_bits 64 n) (omega arith) refl refl (Reads-number (p + 1) 8 n "i64" (of_bits 64) h)
    Reads-value p (uint64 n) h =
        Reads-under p 10 BinXmlValueType.uint64_type BinXmlValue.uint64_type
          (try_read_u64 "<Unknown>") (le 8 n) n (omega arith) refl refl
          (Reads-u64 (p + 1) "<Unknown>" n h)
    Reads-value p (real32 n) h =
        Reads-under p 11 BinXmlValueType.real32_type BinXmlValue.real32_type try_read_f32 (le 4 n) n
          (omega arith) refl refl (Reads-bits (p + 1) 4 n "f32" h)
    Reads-value p (real64 n) h =
        Reads-under p 12 BinXmlValueType.real64_type BinXmlValue.real64_type try_read_f64 (le 8 n) n
          (omega arith) refl refl (Reads-bits (p + 1) 8 n "f64" h)
    Reads-value p (bool n) h =
        Reads-under p 13 BinXmlValueType.bool_type BinXmlValue.bool_type try_read_bool (le 4 n)
          (if n == 0 then false else true) (omega arith) refl refl
          (Reads-number (p + 1) 4 n "i32" (λ k. if k == 0 then false else true) h)
    Reads-value p (hex32 n) h =
        Reads-under p 20 BinXmlValueType.hex_int32_type BinXmlValue.hex_int32_type try_read_hex32
          (le 4 n) (chars "0x" ++ hex n) (omega arith) refl refl
          (Reads-number (p + 1) 4 n "i32" (λ k. chars "0x" ++ hex k) h)
    Reads-value p (hex64 n) h =
        Reads-under p 21 BinXmlValueType.hex_int64_type BinXmlValue.hex_int64_type try_read_hex64
          (le 8 n) (chars "0x" ++ hex n) (omega arith) refl refl
          (Reads-number (p + 1) 8 n "i64" (λ k. chars "0x" ++ hex k) h)
