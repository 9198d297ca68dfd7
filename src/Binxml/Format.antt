-- ===== src/Binxml/Format.antt =====
-- How names and values are written in the format, independent of the readers of src/binxml.
pub mod Written
pub mod Names
pub mod Values
pub mod Elements
pub mod Tokens
pub mod Substitutions
pub mod Templates
pub mod Token
pub mod Fragment
pub mod Loop
pub mod RoundTrip
use evtx.Base.{
  ℕ, ◌+◌, ◌*◌, ◌%◌, ◌^◌, ◌<◌, ◌≡◌, ◌==◌, List, [], ◌∷◌, ◌++◌, Bool, true, false, Option, none, some,
  Str, chars, length, All, if◌then◌else◌,
}
use evtx.Base.Int.{of_bits}
use evtx.Base.Text.{hex}
use evtx.Crates.{Crates}
use evtx.Macros.{try_read_guid}
use evtx.Cursor.Reads.{Reads, le, capacity}
use evtx.Model.ValueType.{BinXmlValueType}
use evtx.Model.Codes.{code}
use evtx.Model.Deserialized.{
  BinXmlNameRef, BinXmlValue, BinXmlDeserializedTokens, template_ref, to_vec,
}
use evtx.Binxml.Tokens.{is_null_value_type}
use evtx.Utils.Strings.RoundTrip.{IsChar, encode, le_bytes}

-- A name at an offset of the chunk, or at the place itself: its link, its hash and its UTF-16 units, with
-- a nul behind them.
pub data WrittenName : Type 0 where
  elsewhere : ℕ → WrittenName
  here : ℕ → ℕ → List ℕ → WrittenName

-- The bytes at a position.
abbrev pub name_bytes : ℕ → WrittenName → List ℕ
name_bytes p (elsewhere offset) = le 4 offset
name_bytes p (here next hash units) =
    le 4 (p + 4)
    ++ (le 4 next ++ (le 2 hash ++ (le 2 (length units) ++ (le_bytes units ++ le 2 0))))

abbrev pub name_at : ℕ → WrittenName → BinXmlNameRef
name_at p (elsewhere offset) = record { offset = offset }
name_at p (here next hash units) = record { offset = p + 4 }

abbrev pub NameFits : ℕ → WrittenName → Type 0
NameFits p (elsewhere offset) = (offset < capacity 4) × ((p + 4 == offset) ≡ false)
NameFits p (here next hash units) =
    (p + 4 < capacity 4) × (next < capacity 4) × (hash < capacity 2) × (length units < 32768)

-- A value with its type in front. Numbers are bit patterns.
pub data WrittenValue : Type 0 where
  null : WrittenValue
  string : Str → WrittenValue
  int8 uint8 int16 uint16 int32 uint32 int64 uint64 real32 real64 bool hex32 hex64 :
      ℕ → WrittenValue

abbrev pub text_bytes : Str → List ℕ
text_bytes s = le 2 (length (encode s)) ++ le_bytes (encode s)

abbrev pub value_bytes : WrittenValue → List ℕ
value_bytes null = le 1 0x00 ++ []
value_bytes (string s) = le 1 0x01 ++ text_bytes s
value_bytes (int8 n) = le 1 0x03 ++ le 1 n
value_bytes (uint8 n) = le 1 0x04 ++ le 1 n
value_bytes (int16 n) = le 1 0x05 ++ le 2 n
value_bytes (uint16 n) = le 1 0x06 ++ le 2 n
value_bytes (int32 n) = le 1 0x07 ++ le 4 n
value_bytes (uint32 n) = le 1 0x08 ++ le 4 n
value_bytes (int64 n) = le 1 0x09 ++ le 8 n
value_bytes (uint64 n) = le 1 0x0a ++ le 8 n
value_bytes (real32 n) = le 1 0x0b ++ le 4 n
value_bytes (real64 n) = le 1 0x0c ++ le 8 n
value_bytes (bool n) = le 1 0x0d ++ le 4 n
value_bytes (hex32 n) = le 1 0x14 ++ le 4 n
value_bytes (hex64 n) = le 1 0x15 ++ le 8 n

abbrev pub type_of : WrittenValue → BinXmlValueType
type_of null = BinXmlValueType.null_type
type_of (string s) = BinXmlValueType.string_type
type_of (int8 n) = BinXmlValueType.int8_type
type_of (uint8 n) = BinXmlValueType.uint8_type
type_of (int16 n) = BinXmlValueType.int16_type
type_of (uint16 n) = BinXmlValueType.uint16_type
type_of (int32 n) = BinXmlValueType.int32_type
type_of (uint32 n) = BinXmlValueType.uint32_type
type_of (int64 n) = BinXmlValueType.int64_type
type_of (uint64 n) = BinXmlValueType.uint64_type
type_of (real32 n) = BinXmlValueType.real32_type
type_of (real64 n) = BinXmlValueType.real64_type
type_of (bool n) = BinXmlValueType.bool_type
type_of (hex32 n) = BinXmlValueType.hex_int32_type
type_of (hex64 n) = BinXmlValueType.hex_int64_type

-- A value whose type and size stand elsewhere.
abbrev pub sized_bytes : WrittenValue → List ℕ
sized_bytes null = []
sized_bytes (string s) = le_bytes (encode s)
sized_bytes (int8 n) = le 1 n
sized_bytes (uint8 n) = le 1 n
sized_bytes (int16 n) = le 2 n
sized_bytes (uint16 n) = le 2 n
sized_bytes (int32 n) = le 4 n
sized_bytes (uint32 n) = le 4 n
sized_bytes (int64 n) = le 8 n
sized_bytes (uint64 n) = le 8 n
sized_bytes (real32 n) = le 4 n
sized_bytes (real64 n) = le 8 n
sized_bytes (bool n) = le 4 n
sized_bytes (hex32 n) = le 4 n
sized_bytes (hex64 n) = le 8 n

abbrev pub TextFits : Str → Type 0
TextFits s = All IsChar s × (length (encode s) < 32768)

abbrev pub ValueFits : WrittenValue → Type 0
ValueFits null = Unit
ValueFits (string s) = TextFits s
ValueFits (int8 n) = n < capacity 1
ValueFits (uint8 n) = n < capacity 1
ValueFits (int16 n) = n < capacity 2
ValueFits (uint16 n) = n < capacity 2
ValueFits (int32 n) = n < capacity 4
ValueFits (uint32 n) = n < capacity 4
ValueFits (real32 n) = n < capacity 4
ValueFits (bool n) = n < capacity 4
ValueFits (hex32 n) = n < capacity 4
ValueFits (int64 n) = n < capacity 8
ValueFits (uint64 n) = n < capacity 8
ValueFits (real64 n) = n < capacity 8
ValueFits (hex64 n) = n < capacity 8

module _ ⦃x : Crates⦄ where
  abbrev pub value_meant : WrittenValue → BinXmlValue
  value_meant null = BinXmlValue.null_type
  value_meant (string s) = BinXmlValue.string_type s
  value_meant (int8 n) = BinXmlValue.int8_type (of_bits 8 n)
  value_meant (uint8 n) = BinXmlValue.uint8_type n
  value_meant (int16 n) = BinXmlValue.int16_type (of_bits 16 n)
  value_meant (uint16 n) = BinXmlValue.uint16_type n
  value_meant (int32 n) = BinXmlValue.int32_type (of_bits 32 n)
  value_meant (uint32 n) = BinXmlValue.uint32_type n
  value_meant (int64 n) = BinXmlValue.int64_type (of_bits 64 n)
  value_meant (uint64 n) = BinXmlValue.uint64_type n
  value_meant (real32 n) = BinXmlValue.real32_type n
  value_meant (real64 n) = BinXmlValue.real64_type n
  value_meant (bool n) = BinXmlValue.bool_type (if n == 0 then false else true)
  value_meant (hex32 n) = BinXmlValue.hex_int32_type (chars "0x" ++ hex n)
  value_meant (hex64 n) = BinXmlValue.hex_int64_type (chars "0x" ++ hex n)
