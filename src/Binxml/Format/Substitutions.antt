-- ===== src/Binxml/Format/Substitutions.antt =====
-- The values of a template's substitutions are read as they are written.
use evtx.Base.{
  ℕ, ◌+◌, ◌*◌, ◌<◌, ◌≡◌, refl, sym, subst, List, [], ◌∷◌, ◌++◌, append_assoc, append-nil, map, true,
  false, Option, some, Str, chars, length, leb, ◌==◌, if◌then◌else◌, arith, All,
}
use mathlib.Core.Option.{get_or}
use evtx.Base.Int.{of_bits}
use evtx.Base.Text.{hex}
use evtx.Crates.{Crates}
use evtx.Cursor.{◌>>=◌, ◌>>◌, pure, with_context, tell}
use evtx.Cursor.Reads.{Reads, Reads-pure, Reads-bind, Reads-context, Reads-tell_bind, le, capacity}
use evtx.Error.{unexpected_io_error}
use evtx.Macros.{
  Read, try_read_u8, try_read_u16, try_read_u32, try_read_u64, try_seek, try_read_signed,
  try_read_i8, try_read_i16, try_read_i32, try_read_i64, try_read_f32, try_read_f64, try_read_bool,
  try_read_hex32, try_read_hex64,
}
use evtx.Model.ValueType.{BinXmlValueType}
use evtx.Model.Codes.{code}
use evtx.Model.Deserialized.{BinXmlValue, BinXmlDeserializedTokens, TemplateValueDescriptor}
use evtx.Utils.Strings.{read_utf16_by_size}
use evtx.Utils.Strings.RoundTrip.{IsChar, encode, le_bytes}
use evtx.Binxml.Value.{Fragment, value_type_of, deserialize_value_type}
use evtx.Binxml.Tokens.{
  read_value_descriptor, read_value_descriptors, is_null_type, seek_expected, read_substitution_at,
  read_substitution, read_substitutions,
}
use evtx.Binxml.Format.{
  WrittenValue, null, string, int8, uint8, int16, uint16, int32, uint32, int64, uint64, real32,
  real64, bool, hex32, hex64, value_meant, ValueFits, type_of, sized_bytes,
}
use evtx.Binxml.Format.Written.{descriptor_bytes, descriptors_bytes, values_bytes, values_meant}
use evtx.Binxml.Format.Names.{
  Reads-u8, Reads-u16, Reads-u32, Reads-u64, Reads-seek, length-le_bytes,
}
use evtx.Binxml.Format.Values.{
  text_option, text_or-nil, Reads-by_size, Reads-as_value, Reads-number, Reads-bits,
}
use evtx.Binxml.Format.Elements.{Reads-map}
use evtx.Binxml.Format.Tokens.{Reads-type_of}

module _ ⦃x : Crates⦄ where
  abbrev sized_text : ℕ → Read (Option Str)
  sized_text n = with_context (λ e. unexpected_io_error) (read_utf16_by_size n)

  Reads-sized_text :
      (p : ℕ) (s : Str)
      → All IsChar s
      → Reads p (sized_text (length (le_bytes (encode s)))) (le_bytes (encode s)) (text_option s)
  Reads-sized_text p s h =
      subst (λ n. Reads p (sized_text n) (le_bytes (encode s)) (text_option s))
        (sym (length-le_bytes (encode s)))
        (Reads-context p (λ e. unexpected_io_error) (read_utf16_by_size (2 * length (encode s)))
          (le_bytes (encode s)) (text_option s) (Reads-by_size p s h))

  abbrev pub descriptor_of : WrittenValue → TemplateValueDescriptor
  descriptor_of v = record { size = length (sized_bytes v); value_type = type_of v }

  sized_small : (v : WrittenValue) → ValueFits v → length (sized_bytes v) < capacity 2
  sized_small null h = omega arith
  sized_small (string s) h = omega (arith, length-le_bytes (encode s))
  sized_small (int8 n) h = omega arith
  sized_small (uint8 n) h = omega arith
  sized_small (int16 n) h = omega arith
  sized_small (uint16 n) h = omega arith
  sized_small (int32 n) h = omega arith
  sized_small (uint32 n) h = omega arith
  sized_small (int64 n) h = omega arith
  sized_small (uint64 n) h = omega arith
  sized_small (real32 n) h = omega arith
  sized_small (real64 n) h = omega arith
  sized_small (bool n) h = omega arith
  sized_small (hex32 n) h = omega arith
  sized_small (hex64 n) h = omega arith

  type_small : (v : WrittenValue) → code (type_of v) < capacity 1
  type_small null = omega arith
  type_small (string s) = omega arith
  type_small (int8 n) = omega arith
  type_small (uint8 n) = omega arith
  type_small (int16 n) = omega arith
  type_small (uint16 n) = omega arith
  type_small (int32 n) = omega arith
  type_small (uint32 n) = omega arith
  type_small (int64 n) = omega arith
  type_small (uint64 n) = omega arith
  type_small (real32 n) = omega arith
  type_small (real64 n) = omega arith
  type_small (bool n) = omega arith
  type_small (hex32 n) = omega arith
  type_small (hex64 n) = omega arith

  abbrev described : ℕ → BinXmlValueType → Read TemplateValueDescriptor
  described size value_type = do
    try_read_u8 "<Unknown>"
    pure (record { size = size; value_type = value_type })

  Reads-descriptor :
      (p : ℕ) (v : WrittenValue)
      → ValueFits v
      → Reads p read_value_descriptor (descriptor_bytes v) (descriptor_of v)
  unfolding read_value_descriptor
  Reads-descriptor p v h =
      let n : ℕ = length (sized_bytes v) in
      let e : TemplateValueDescriptor = descriptor_of v in
      let pad : Reads (p + 2 + 1 + 0) (described n (type_of v)) (le 1 0 ++ []) e =
        Reads-map (p + 2 + 1 + 0) (λ u. e) (try_read_u8 "<Unknown>") (le 1 0) 0
          (Reads-u8 (p + 2 + 1 + 0) "<Unknown>" 0 (omega arith)) in
      let typed : ℕ → ℕ → Read TemplateValueDescriptor =
        λ size b. value_type_of b >>= described size in
      Reads-bind p (try_read_u16 "<Unknown>") (λ size. try_read_u8 "<Unknown>" >>= typed size)
        (le 2 n) (le 1 (code (type_of v)) ++ (le 1 0 ++ [])) n e
        (Reads-u16 p "<Unknown>" n (sized_small v h))
        (Reads-bind (p + 2) (try_read_u8 "<Unknown>") (typed n) (le 1 (code (type_of v)))
          (le 1 0 ++ []) (code (type_of v)) e
          (Reads-u8 (p + 2) "<Unknown>" (code (type_of v)) (type_small v))
          (Reads-bind (p + 2 + 1) (value_type_of (code (type_of v))) (described n) [] (le 1 0 ++ [])
            (type_of v) e (Reads-type_of (p + 2 + 1) (type_of v) (type_small v)) pad))

  pub Reads-descriptors :
      (p : ℕ) (vs : List WrittenValue) (before : List TemplateValueDescriptor)
      → All ValueFits vs
      → Reads p
          (read_value_descriptors (length vs) before)
          (descriptors_bytes vs)
          (before ++ map descriptor_of vs)
  unfolding read_value_descriptors
  Reads-descriptors p [] before h =
      subst (λ l. Reads p (read_value_descriptors 0 before) [] l) (sym (append-nil before))
        (Reads-pure p before)
  Reads-descriptors p (v ∷ vs) before h =
      let d : TemplateValueDescriptor = descriptor_of v in
      let q : ℕ = p + length (descriptor_bytes v) in
      let more : List TemplateValueDescriptor → Read (List TemplateValueDescriptor) =
        read_value_descriptors (length vs) in
      let out : List TemplateValueDescriptor = before ++ (d ∷ map descriptor_of vs) in
      let rest : Reads q (more (before ++ (d ∷ []))) (descriptors_bytes vs) out =
        subst (λ l. Reads q (more (before ++ (d ∷ []))) (descriptors_bytes vs) l)
          (append_assoc before (d ∷ []) (map descriptor_of vs))
          (Reads-descriptors q vs (before ++ (d ∷ [])) h.1) in
      Reads-bind p read_value_descriptor (λ e. more (before ++ (e ∷ []))) (descriptor_bytes v)
        (descriptors_bytes vs) d out (Reads-descriptor p v h.0) rest

  module _ (fragment : Fragment) (codec : x.Codec) where
    pub Reads-sized :
        (p : ℕ) (v : WrittenValue)
        → ValueFits v
        → Reads p
            (deserialize_value_type fragment codec (type_of v) (some (length (sized_bytes v))))
            (sized_bytes v)
            (value_meant v)
    unfolding deserialize_value_type try_read_signed try_read_i8 try_read_i16 try_read_i32
        try_read_i64 try_read_f32 try_read_f64 try_read_bool try_read_hex32 try_read_hex64
    Reads-sized p null h = Reads-pure p BinXmlValue.null_type
    Reads-sized p (string s) h =
        let size : ℕ = length (le_bytes (encode s)) in
        subst
          (λ t.
            Reads p (deserialize_value_type fragment codec BinXmlValueType.string_type (some size))
              (le_bytes (encode s)) (BinXmlValue.string_type t))
          (text_or-nil s)
          (Reads-as_value p (λ t. BinXmlValue.string_type (get_or t [])) (sized_text size)
            (le_bytes (encode s)) (text_option s) (Reads-sized_text p s h.0))
    Reads-sized p (int8 n) h =
        Reads-as_value p BinXmlValue.int8_type try_read_i8 (le 1 n) (of_bits 8 n)
          (Reads-number p 1 n "i8" (of_bits 8) h)
    Reads-sized p (uint8 n) h =
        Reads-as_value p BinXmlValue.uint8_type (try_read_u8 "<Unknown>") (le 1 n) n
          (Reads-u8 p "<Unknown>" n h)
    Reads-sized p (int16 n) h =
        Reads-as_value p BinXmlValue.int16_type try_read_i16 (le 2 n) (of_bits 16 n)
          (Reads-number p 2 n "i16" (of_bits 16) h)
    Reads-sized p (uint16 n) h =
        Reads-as_value p BinXmlValue.uint16_type (try_read_u16 "<Unknown>") (le 2 n) n
          (Reads-u16 p "<Unknown>" n h)
    Reads-sized p (int32 n) h =
        Reads-as_value p BinXmlValue.int32_type try_read_i32 (le 4 n) (of_bits 32 n)
          (Reads-number p 4 n "i32" (of_bits 32) h)
    Reads-sized p (uint32 n) h =
        Reads-as_value p BinXmlValue.uint32_type (try_read_u32 "<Unknown>") (le 4 n) n
          (Reads-u32 p "<Unknown>" n h)
    Reads-sized p (int64 n) h =
        Reads-as_value p BinXmlValue.int64_type try_read_i64 (le 8 n) (of_bits 64 n)
          (Reads-number p 8 n "i64" (of_bits 64) h)
    Reads-sized p (uint64 n) h =
        Reads-as_value p BinXmlValue.uint64_type (try_read_u64 "<Unknown>") (le 8 n) n
          (Reads-u64 p "<Unknown>" n h)
    Reads-sized p (real32 n) h =
        Reads-as_value p BinXmlValue.real32_type try_read_f32 (le 4 n) n (Reads-bits p 4 n "f32" h)
    Reads-sized p (real64 n) h =
        Reads-as_value p BinXmlValue.real64_type try_read_f64 (le 8 n) n (Reads-bits p 8 n "f64" h)
    Reads-sized p (bool n) h =
        Reads-as_value p BinXmlValue.bool_type try_read_bool (le 4 n)
          (if n == 0 then false else true)
          (Reads-number p 4 n "i32" (λ k. if k == 0 then false else true) h)
    Reads-sized p (hex32 n) h =
        Reads-as_value p BinXmlValue.hex_int32_type try_read_hex32 (le 4 n) (chars "0x" ++ hex n)
          (Reads-number p 4 n "i32" (λ k. chars "0x" ++ hex k) h)
    Reads-sized p (hex64 n) h =
        Reads-as_value p BinXmlValue.hex_int64_type try_read_hex64 (le 8 n) (chars "0x" ++ hex n)
          (Reads-number p 8 n "i64" (λ k. chars "0x" ++ hex k) h)

    -- The seeks behind a value are to where the cursor is.
    Reads-null_seek :
        (p size : ℕ) (v : WrittenValue)
        → size ≡ length (sized_bytes v)
        → Reads p
            (if is_null_type (value_meant v)
              then (tell >>= λ position. try_seek (position + size))
              else pure tt)
            []
            tt
    unfolding is_null_type
    Reads-null_seek p size null h =
        Reads-tell_bind p (λ position. try_seek (position + size)) [] tt
          (Reads-seek p (p + size) [] (omega arith))
    Reads-null_seek p size (string s) h = Reads-pure p tt
    Reads-null_seek p size (int8 n) h = Reads-pure p tt
    Reads-null_seek p size (uint8 n) h = Reads-pure p tt
    Reads-null_seek p size (int16 n) h = Reads-pure p tt
    Reads-null_seek p size (uint16 n) h = Reads-pure p tt
    Reads-null_seek p size (int32 n) h = Reads-pure p tt
    Reads-null_seek p size (uint32 n) h = Reads-pure p tt
    Reads-null_seek p size (int64 n) h = Reads-pure p tt
    Reads-null_seek p size (uint64 n) h = Reads-pure p tt
    Reads-null_seek p size (real32 n) h = Reads-pure p tt
    Reads-null_seek p size (real64 n) h = Reads-pure p tt
    Reads-null_seek p size (bool n) h = Reads-pure p tt
    Reads-null_seek p size (hex32 n) h = Reads-pure p tt
    Reads-null_seek p size (hex64 n) h = Reads-pure p tt

    Reads-expected : (p expected : ℕ) → expected ≡ p → Reads p (seek_expected expected) [] tt
    unfolding seek_expected
    Reads-expected p expected h =
        let l : leb p expected ≡ true = ground arith in
        Reads-tell_bind p (λ current. if leb current expected then try_seek expected else pure tt)
          [] tt (rw l (Reads-seek p expected [] (omega arith)))

    Reads-substitution :
        (p : ℕ) (v : WrittenValue)
        → ValueFits v
        → Reads p
            (read_substitution fragment codec (descriptor_of v))
            (sized_bytes v)
            (value_meant v)
    unfolding read_substitution read_substitution_at
    Reads-substitution p v h =
        let bs : List ℕ = sized_bytes v in
        let q : ℕ = p + length bs in
        let w : BinXmlValue = value_meant v in
        let seek_null : BinXmlValue → Read (Unit {0}) = λ u.
          if is_null_type u
          then (tell >>= λ position. try_seek (position + length bs))
          else pure tt in
        let expected : BinXmlValue → Read BinXmlValue = λ u. seek_expected q >>= λ i. pure u in
        let last : Reads (q + 0) (expected w) [] w =
          Reads-bind (q + 0) (seek_expected q) (λ i. pure w) [] [] tt w
            (Reads-expected (q + 0) q (omega arith)) (Reads-pure (q + 0 + 0) w) in
        let behind : Reads q (seek_null w >>= λ i. expected w) [] w =
          Reads-bind q (seek_null w) (λ i. expected w) [] [] tt w
            (Reads-null_seek q (length bs) v refl) last in
        Reads-tell_bind p (read_substitution_at fragment codec (descriptor_of v)) bs w (
          subst (λ l. Reads p (read_substitution_at fragment codec (descriptor_of v) p) l w)
            (append-nil bs)
            (Reads-bind p (deserialize_value_type fragment codec (type_of v) (some (length bs)))
              (λ u. seek_null u >>= λ i. expected u) bs [] w w (Reads-sized p v h) behind))

    pub Reads-substitutions :
        (p : ℕ) (vs : List WrittenValue) (before : List BinXmlDeserializedTokens)
        → All ValueFits vs
        → Reads p
            (read_substitutions fragment codec (map descriptor_of vs) before)
            (values_bytes vs)
            (before ++ values_meant vs)
    unfolding read_substitutions
    Reads-substitutions p [] before h =
        subst (λ l. Reads p (read_substitutions fragment codec [] before) [] l)
          (sym (append-nil before)) (Reads-pure p before)
    Reads-substitutions p (v ∷ vs) before h =
        let w : BinXmlDeserializedTokens = BinXmlDeserializedTokens.value (value_meant v) in
        let q : ℕ = p + length (sized_bytes v) in
        let more : List BinXmlDeserializedTokens → Read (List BinXmlDeserializedTokens) =
          read_substitutions fragment codec (map descriptor_of vs) in
        let out : List BinXmlDeserializedTokens = before ++ (w ∷ values_meant vs) in
        let rest : Reads q (more (before ++ (w ∷ []))) (values_bytes vs) out =
          subst (λ l. Reads q (more (before ++ (w ∷ []))) (values_bytes vs) l)
            (append_assoc before (w ∷ []) (values_meant vs))
            (Reads-substitutions q vs (before ++ (w ∷ [])) h.1) in
        Reads-bind p (read_substitution fragment codec (descriptor_of v))
          (λ u. more (before ++ (BinXmlDeserializedTokens.value u ∷ []))) (sized_bytes v)
          (values_bytes vs) (value_meant v) out (Reads-substitution p v h.0) rest
