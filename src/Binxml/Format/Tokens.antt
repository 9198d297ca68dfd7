-- ===== src/Binxml/Format/Tokens.antt =====
-- What stands behind the byte of a token is read as it is written.
use evtx.Base.{ℕ, ◌+◌, ◌<◌, ◌≡◌, refl, sym, subst, List, [], ◌++◌, Bool, ◌&&◌, Option, some, Str}
use mathlib.Core.Option.{get_or}
use evtx.Crates.{Crates}
use evtx.Cursor.{◌>>=◌, pure}
use evtx.Cursor.Reads.{Reads, Reads-pure, Reads-bind, le, capacity}
use evtx.Macros.{Read, try_read_u8, try_read_u16}
use evtx.Model.ValueType
use evtx.Model.ValueType.{BinXmlValueType}
use evtx.Model.Codes.{code, from_u8_iff}
use evtx.Model.Raw
use evtx.Model.Raw.{BinXmlRawToken}
use evtx.Model.Deserialized.{
  BinXmlNameRef, BinXmlDeserializedTokens, TemplateSubstitutionDescriptor, BinXmlFragmentHeader,
}
use evtx.Utils.Strings.{try_read_len_prefixed}
use evtx.Binxml.Name.{read_name_ref}
use evtx.Binxml.Value.{Fragment, value_type_of}
use evtx.Binxml.Tokens.{
  read_fragment_header, read_processing_instruction_data, is_null_value_type,
  read_substitution_descriptor,
}
use evtx.Binxml.Deserializer.{as_token, raw_token_of, read_next_token, visit_token, read_token}
use evtx.Binxml.Format.{WrittenName, name_bytes, name_at, NameFits, TextFits, text_bytes}
use evtx.Binxml.Format.Names.{Reads-u8, Reads-u16, Reads-name}
use evtx.Binxml.Format.Values.{Reads-text, text_option, text_or-nil}
use evtx.Binxml.Format.Elements.{Reads-map, Reads-as_token}

module _ ⦃x : Crates⦄ where
  pub Reads-data :
      (p : ℕ) (s : Str) → TextFits s → Reads p read_processing_instruction_data (text_bytes s) s
  unfolding read_processing_instruction_data
  Reads-data p s h =
      subst (λ t. Reads p read_processing_instruction_data (text_bytes s) t) (text_or-nil s)
        (Reads-map p (λ t. get_or t []) (try_read_len_prefixed "pi_data") (text_bytes s)
          (text_option s) (Reads-text p "pi_data" s h))

  abbrev pub header_of : ℕ → ℕ → ℕ → BinXmlFragmentHeader
  header_of major minor flags = record {
    major_version = major;
    minor_version = minor;
    flags = flags;
  }

  pub Reads-header :
      (p major minor flags : ℕ)
      → major < capacity 1
      → minor < capacity 1
      → flags < capacity 1
      → Reads p read_fragment_header
          (le 1 major ++ (le 1 minor ++ (le 1 flags ++ [])))
          (header_of major minor flags)
  unfolding read_fragment_header
  Reads-header p major minor flags h k l =
      let flags_of : ℕ → ℕ → Read BinXmlFragmentHeader =
        λ a b. try_read_u8 "fragment_header_flags" >>= λ f. pure (header_of a b f) in
      let e : BinXmlFragmentHeader = header_of major minor flags in
      Reads-bind p (try_read_u8 "fragment_header_major_version")
        (λ a. try_read_u8 "fragment_header_minor_version" >>= flags_of a) (le 1 major)
        (le 1 minor ++ (le 1 flags ++ [])) major e
        (Reads-u8 p "fragment_header_major_version" major h)
        (Reads-bind (p + 1) (try_read_u8 "fragment_header_minor_version") (flags_of major)
          (le 1 minor) (le 1 flags ++ []) minor e
          (Reads-u8 (p + 1) "fragment_header_minor_version" minor k)
          (Reads-bind (p + 1 + 1) (try_read_u8 "fragment_header_flags")
            (λ f. pure (header_of major minor f)) (le 1 flags) [] flags e
            (Reads-u8 (p + 1 + 1) "fragment_header_flags" flags l) (Reads-pure (p + 1 + 1 + 1) e)))

  abbrev pub descriptor_of : Bool → ℕ → BinXmlValueType → TemplateSubstitutionDescriptor
  descriptor_of optional index value_type = record {
    substitution_index = index;
    value_type = value_type;
    ignore = optional && is_null_value_type value_type;
  }

  pub Reads-type_of :
      (p : ℕ) (value_type : BinXmlValueType)
      → code value_type < capacity 1
      → Reads p (value_type_of (code value_type)) [] value_type
  unfolding value_type_of
  Reads-type_of p value_type k =
      let e : ValueType.from_u8 (code value_type) ≡ some value_type =
        (from_u8_iff (code value_type) value_type k).1 refl in
      record { at = λ rest c q d. rw (e, value_type_of) ((Reads-pure p value_type).at rest c q d) }

  pub Reads-descriptor :
      (optional : Bool) (p index : ℕ) (value_type : BinXmlValueType)
      → index < capacity 2
      → code value_type < capacity 1
      → Reads p
          (read_substitution_descriptor optional)
          (le 2 index ++ (le 1 (code value_type) ++ []))
          (descriptor_of optional index value_type)
  unfolding read_substitution_descriptor
  Reads-descriptor optional p index value_type h k =
      let q : ℕ = p + 2 in
      let e : TemplateSubstitutionDescriptor = descriptor_of optional index value_type in
      let typed : ℕ → ℕ → Read TemplateSubstitutionDescriptor =
        λ i b. value_type_of b >>= λ t. pure (descriptor_of optional i t) in
      Reads-bind p (try_read_u16 "<Unknown>") (λ i. try_read_u8 "<Unknown>" >>= typed i)
        (le 2 index) (le 1 (code value_type) ++ []) index e (Reads-u16 p "<Unknown>" index h)
        (Reads-bind q (try_read_u8 "<Unknown>") (typed index) (le 1 (code value_type)) []
          (code value_type) e (Reads-u8 q "<Unknown>" (code value_type) k)
          (Reads-map (q + 1) (descriptor_of optional index) (value_type_of (code value_type)) []
            value_type (Reads-type_of (q + 1) value_type k)))

  -- The byte of a token, and then the token.
  module _ (fragment : Fragment) (chunk : Option (List ℕ)) (codec : x.Codec) where
    Reads-behind :
        (inside : Bool) (p byte : ℕ) (raw : BinXmlRawToken) (bs : List ℕ)
        (t : BinXmlDeserializedTokens)
        → byte < capacity 1
        → Raw.from_u8 byte ≡ some raw
        → Reads (p + 1) (visit_token fragment chunk codec inside raw) bs t
        → Reads p (read_token fragment chunk codec inside) (le 1 byte ++ bs) (raw, t)
    unfolding read_token read_next_token raw_token_of
    Reads-behind inside p byte raw bs t h e r =
        let raw_read : Read BinXmlRawToken = read_next_token in
        let first : Reads p raw_read (le 1 byte) raw = record {
          at = λ rest c z d.
              rw ((Reads-u8 p "<Unknown>" byte h).at rest c z d, e, raw_token_of) refl;
        } in
        Reads-bind p raw_read (λ k. visit_token fragment chunk codec inside k >>= λ u. pure (k, u))
          (le 1 byte) bs raw (raw, t) first
          (Reads-map (p + 1) (λ u. (raw, u)) (visit_token fragment chunk codec inside raw) bs t r)

    -- A token that is its byte.
    pub Reads-byte :
        (inside : Bool) (p byte : ℕ) (raw : BinXmlRawToken) (t : BinXmlDeserializedTokens)
        → byte < capacity 1
        → Raw.from_u8 byte ≡ some raw
        → visit_token fragment chunk codec inside raw ≡ pure t
        → Reads p (read_token fragment chunk codec inside) (le 1 byte ++ []) (raw, t)
    Reads-byte inside p byte raw t h e v =
        Reads-behind inside p byte raw [] t h e
          (subst (λ m. Reads (p + 1) m [] t) (sym v) (Reads-pure (p + 1) t))

    -- A token that is a thing under a constructor.
    pub Reads-under :
        {A : Type 0} (inside : Bool) (p byte : ℕ) (raw : BinXmlRawToken)
        (f : A → BinXmlDeserializedTokens) (m : Read A) (bs : List ℕ) (a : A)
        → byte < capacity 1
        → Raw.from_u8 byte ≡ some raw
        → visit_token fragment chunk codec inside raw ≡ as_token f m
        → Reads (p + 1) m bs a
        → Reads p (read_token fragment chunk codec inside) (le 1 byte ++ bs) (raw, f a)
    Reads-under inside p byte raw f m bs a h e v r =
        Reads-behind inside p byte raw bs (f a) h e
          (subst (λ k. Reads (p + 1) k bs (f a)) (sym v) (Reads-as_token (p + 1) f m bs a r))

    -- Names behind the bytes.
    pub Reads-named :
        {A : Type 0} (inside : Bool) (p byte : ℕ) (raw : BinXmlRawToken)
        (f : A → BinXmlDeserializedTokens) (m : Read A) (g : BinXmlNameRef → A) (name : WrittenName)
        → byte < capacity 1
        → Raw.from_u8 byte ≡ some raw
        → visit_token fragment chunk codec inside raw ≡ as_token f m
        → m ≡ (read_name_ref >>= λ n. pure (g n))
        → NameFits (p + 1) name
        → Reads p
            (read_token fragment chunk codec inside)
            (le 1 byte ++ name_bytes (p + 1) name)
            (raw, f (g (name_at (p + 1) name)))
    Reads-named inside p byte raw f m g name h e v w k =
        Reads-under inside p byte raw f m (name_bytes (p + 1) name) (g (name_at (p + 1) name)) h e v
          (subst (λ r. Reads (p + 1) r (name_bytes (p + 1) name) (g (name_at (p + 1) name))) (sym w)
            (Reads-map (p + 1) g read_name_ref (name_bytes (p + 1) name) (name_at (p + 1) name)
              (Reads-name (p + 1) name k)))
