-- ===== src/Binxml/Value.antt =====
-- `BinXmlValue::from_binxml_stream` and `deserialize_value_type` of src/binxml/value_variant.rs.
pub mod Forward
use evtx.Base.{
  ℕ, zero, suc, ◌+◌, ◌-◌, List, [], Bool, true, false, Option, none, some, Str, String, take, drop,
  length, leb, ◌==◌, if◌then◌else◌,
}
use mathlib.Core.Option.{get_or}
use evtx.Base.Int.{ℤ}
use evtx.Base.Result.{Result, ok, err, panic, stuck}
use evtx.Crates.{Crates}
use evtx.Cursor.{Cursor, Reader, IoError, ◌>>=◌, ◌>>◌, pure, fail, with_context, tell, read_exact}
use evtx.Error.{
  DeserializationError, unexpected_io_error, invalid_value_variant, unimplemented_value_variant,
}
use evtx.Macros.{
  Read, try_read_u8, try_read_u16, try_read_u32, try_read_u64, try_read_i8, try_read_i16,
  try_read_i32, try_read_i64, try_read_f32, try_read_f64, try_read_bool, try_read_guid,
  try_read_sid, try_read_filetime, try_read_hex32, try_read_hex64, try_read_sized_array,
}
use evtx.Model.ValueType
use evtx.Model.ValueType.{BinXmlValueType, debug_name}
use evtx.Model.Deserialized.{BinXmlValue, Tokens}
use evtx.Utils.Strings.{
  read_utf16_by_size, read_ansi_encoded_string, try_read_len_prefixed, try_read_null_terminated,
}
use evtx.Utils.Time.{read_systemtime}

module _ ⦃x : Crates⦄ where
  -- `BinXmlDeserializer::read_binxml_fragment` at a chunk and a codec: it takes the data size and
  -- `is_inside_substitution`.
  abbrev pub Fragment : Type 0
  Fragment = Option ℕ → Bool → Read Tokens

  -- A slice of the data, which panics out of range, and the seek over it.
  unfoldable pub read_slice : ℕ → Read (List ℕ)
  read_slice sz c =
      if leb (c.position + sz) (length c.data_ref)
      then ok (take sz (drop c.position c.data_ref), record c { position = c.position + sz })
      else panic

  -- A read value under its constructor.
  unfoldable pub as_value : {A : Type 0} → (A → BinXmlValue) → Read A → Read BinXmlValue
  as_value f m = do a ← m; pure (f a)

  unfoldable pub unimplemented_value : String → Option ℕ → Read BinXmlValue
  unimplemented_value name size = do
    offset ← tell
    fail (unimplemented_value_variant name size offset)

  unfoldable pub size_t_value : Option ℕ → Read BinXmlValue
  unfolding as_value unimplemented_value
  size_t_value none = unimplemented_value "SizeT" none
  size_t_value (some sz) =
      if sz == 4
      then as_value BinXmlValue.hex_int32_type try_read_hex32
      else if sz == 8
      then as_value BinXmlValue.hex_int64_type try_read_hex64
      else unimplemented_value "SizeT" (some sz)

  unfoldable pub deserialize_value_type :
      Fragment → x.Codec → BinXmlValueType → Option ℕ → Read BinXmlValue
  unfolding as_value unimplemented_value size_t_value read_slice
  deserialize_value_type fragment ansi_codec BinXmlValueType.null_type size =
      pure BinXmlValue.null_type
  deserialize_value_type fragment ansi_codec BinXmlValueType.string_type (some sz) =
      as_value (λ s. BinXmlValue.string_type (get_or s []))
        (with_context (λ e. unexpected_io_error) (read_utf16_by_size sz))
  deserialize_value_type fragment ansi_codec BinXmlValueType.string_type none =
      as_value (λ s. BinXmlValue.string_type (get_or s [])) (try_read_len_prefixed "<string_value>")
  deserialize_value_type fragment ansi_codec BinXmlValueType.ansi_string_type (some sz) =
      as_value (λ s. BinXmlValue.ansi_string_type (get_or s []))
        (read_ansi_encoded_string sz ansi_codec)
  deserialize_value_type fragment ansi_codec BinXmlValueType.ansi_string_type none =
      unimplemented_value "AnsiString" none
  deserialize_value_type fragment ansi_codec BinXmlValueType.int8_type size =
      as_value BinXmlValue.int8_type try_read_i8
  deserialize_value_type fragment ansi_codec BinXmlValueType.uint8_type size =
      as_value BinXmlValue.uint8_type (try_read_u8 "<Unknown>")
  deserialize_value_type fragment ansi_codec BinXmlValueType.int16_type size =
      as_value BinXmlValue.int16_type try_read_i16
  deserialize_value_type fragment ansi_codec BinXmlValueType.uint16_type size =
      as_value BinXmlValue.uint16_type (try_read_u16 "<Unknown>")
  deserialize_value_type fragment ansi_codec BinXmlValueType.int32_type size =
      as_value BinXmlValue.int32_type try_read_i32
  deserialize_value_type fragment ansi_codec BinXmlValueType.uint32_type size =
      as_value BinXmlValue.uint32_type (try_read_u32 "<Unknown>")
  deserialize_value_type fragment ansi_codec BinXmlValueType.int64_type size =
      as_value BinXmlValue.int64_type try_read_i64
  deserialize_value_type fragment ansi_codec BinXmlValueType.uint64_type size =
      as_value BinXmlValue.uint64_type (try_read_u64 "<Unknown>")
  deserialize_value_type fragment ansi_codec BinXmlValueType.real32_type size =
      as_value BinXmlValue.real32_type try_read_f32
  deserialize_value_type fragment ansi_codec BinXmlValueType.real64_type size =
      as_value BinXmlValue.real64_type try_read_f64
  deserialize_value_type fragment ansi_codec BinXmlValueType.bool_type size =
      as_value BinXmlValue.bool_type try_read_bool
  deserialize_value_type fragment ansi_codec BinXmlValueType.guid_type size =
      as_value BinXmlValue.guid_type (try_read_guid "<Unknown>")
  deserialize_value_type fragment ansi_codec BinXmlValueType.size_t_type size = size_t_value size
  deserialize_value_type fragment ansi_codec BinXmlValueType.file_time_type size =
      as_value BinXmlValue.file_time_type try_read_filetime
  deserialize_value_type fragment ansi_codec BinXmlValueType.sys_time_type size =
      as_value BinXmlValue.sys_time_type read_systemtime
  deserialize_value_type fragment ansi_codec BinXmlValueType.sid_type size =
      as_value BinXmlValue.sid_type try_read_sid
  deserialize_value_type fragment ansi_codec BinXmlValueType.hex_int32_type size =
      as_value BinXmlValue.hex_int32_type try_read_hex32
  deserialize_value_type fragment ansi_codec BinXmlValueType.hex_int64_type size =
      as_value BinXmlValue.hex_int64_type try_read_hex64
  deserialize_value_type fragment ansi_codec BinXmlValueType.bin_xml_type size =
      as_value BinXmlValue.bin_xml_type (fragment size true)
  deserialize_value_type fragment ansi_codec BinXmlValueType.binary_type (some sz) =
      as_value BinXmlValue.binary_type (read_slice sz)
  deserialize_value_type fragment ansi_codec BinXmlValueType.string_array_type (some sz) =
      as_value BinXmlValue.string_array_type (try_read_sized_array try_read_null_terminated sz)
  deserialize_value_type fragment ansi_codec BinXmlValueType.int8_array_type (some sz) =
      as_value BinXmlValue.int8_array_type (try_read_sized_array try_read_i8 sz)
  deserialize_value_type fragment ansi_codec BinXmlValueType.uint8_array_type (some sz) =
      as_value BinXmlValue.uint8_array_type
        (with_context (λ e. unexpected_io_error) (read_exact sz))
  deserialize_value_type fragment ansi_codec BinXmlValueType.int16_array_type (some sz) =
      as_value BinXmlValue.int16_array_type (try_read_sized_array try_read_i16 sz)
  deserialize_value_type fragment ansi_codec BinXmlValueType.uint16_array_type (some sz) =
      as_value BinXmlValue.uint16_array_type (try_read_sized_array (try_read_u16 "<Unknown>") sz)
  deserialize_value_type fragment ansi_codec BinXmlValueType.int32_array_type (some sz) =
      as_value BinXmlValue.int32_array_type (try_read_sized_array try_read_i32 sz)
  deserialize_value_type fragment ansi_codec BinXmlValueType.uint32_array_type (some sz) =
      as_value BinXmlValue.uint32_array_type (try_read_sized_array (try_read_u32 "<Unknown>") sz)
  deserialize_value_type fragment ansi_codec BinXmlValueType.int64_array_type (some sz) =
      as_value BinXmlValue.int64_array_type (try_read_sized_array try_read_i64 sz)
  deserialize_value_type fragment ansi_codec BinXmlValueType.uint64_array_type (some sz) =
      as_value BinXmlValue.uint64_array_type (try_read_sized_array (try_read_u64 "<Unknown>") sz)
  deserialize_value_type fragment ansi_codec BinXmlValueType.real32_array_type (some sz) =
      as_value BinXmlValue.real32_array_type (try_read_sized_array try_read_f32 sz)
  deserialize_value_type fragment ansi_codec BinXmlValueType.real64_array_type (some sz) =
      as_value BinXmlValue.real64_array_type (try_read_sized_array try_read_f64 sz)
  deserialize_value_type fragment ansi_codec BinXmlValueType.bool_array_type (some sz) =
      as_value BinXmlValue.bool_array_type (try_read_sized_array try_read_bool sz)
  deserialize_value_type fragment ansi_codec BinXmlValueType.guid_array_type (some sz) =
      as_value BinXmlValue.guid_array_type (try_read_sized_array (try_read_guid "<Unknown>") sz)
  deserialize_value_type fragment ansi_codec BinXmlValueType.file_time_array_type (some sz) =
      as_value BinXmlValue.file_time_array_type (try_read_sized_array try_read_filetime sz)
  deserialize_value_type fragment ansi_codec BinXmlValueType.sys_time_array_type (some sz) =
      as_value BinXmlValue.sys_time_array_type (try_read_sized_array read_systemtime sz)
  deserialize_value_type fragment ansi_codec BinXmlValueType.sid_array_type (some sz) =
      as_value BinXmlValue.sid_array_type (try_read_sized_array try_read_sid sz)
  deserialize_value_type fragment ansi_codec BinXmlValueType.hex_int32_array_type (some sz) =
      as_value BinXmlValue.hex_int32_array_type (try_read_sized_array try_read_hex32 sz)
  deserialize_value_type fragment ansi_codec BinXmlValueType.hex_int64_array_type (some sz) =
      as_value BinXmlValue.hex_int64_array_type (try_read_sized_array try_read_hex64 sz)
  deserialize_value_type fragment ansi_codec value_type size =
      unimplemented_value (debug_name value_type) size

  -- A byte that is no value type is an error at the offset behind it.
  unfoldable pub value_type_of : ℕ → Read BinXmlValueType
  value_type_of value_type_token c = elim (ValueType.from_u8 value_type_token) [
    | none ↦ err (invalid_value_variant value_type_token c.position)
    | some value_type ↦ ok (value_type, c)
  ]

  unfoldable pub from_binxml_stream : Fragment → x.Codec → Option ℕ → Read BinXmlValue
  unfolding value_type_of deserialize_value_type
  from_binxml_stream fragment ansi_codec size = do
    value_type_token ← try_read_u8 "<Unknown>"
    value_type ← value_type_of value_type_token
    deserialize_value_type fragment ansi_codec value_type size
