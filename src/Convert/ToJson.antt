-- ===== src/Convert/ToJson.antt =====
-- `From<BinXmlValue> for serde_json::Value` of src/binxml/value_variant.rs, of a value and of a
-- reference to one, which agree.
use evtx.Base.{ℕ, List, Str, Bool, map}
use evtx.Base.Int.{ℤ}
use evtx.Base.Result.{Result, ok, panic}
use evtx.Crates.{Crates}
use evtx.Error.{SerializationError}
use evtx.Formats.{Formats}
use evtx.Model.Deserialized.{BinXmlValue}
use evtx.Serde.{SerdeJson, View}
use evtx.Convert.Text.{upper_hex}

module _ ⦃x : Crates⦄ ⦃j : SerdeJson⦄ where
  abbrev pub json_null : j.Value
  json_null = j.of_view View.null

  abbrev pub json_string : Str → j.Value
  json_string s = j.of_view (View.string s)

  abbrev pub json_bool : Bool → j.Value
  json_bool b = j.of_view (View.bool b)

  abbrev pub json_uint : ℕ → j.Value
  json_uint n = j.of_view (View.number (j.of_uint n))

  abbrev pub json_int : ℤ → j.Value
  json_int n = j.of_view (View.number (j.of_int n))

  -- `json!` of a vector.
  abbrev pub json_array : {A : Type 0} → (A → j.Value) → List A → j.Value
  json_array to_value ns = j.of_view (View.array (map to_value ns))

module _ ⦃x : Crates⦄ ⦃f : Formats⦄ ⦃j : SerdeJson⦄ where
  unfoldable pub to_json : BinXmlValue → Result SerializationError j.Value
  unfolding upper_hex
  to_json BinXmlValue.null_type = ok json_null
  to_json (BinXmlValue.string_type s) = ok (json_string s)
  to_json (BinXmlValue.ansi_string_type s) = ok (json_string s)
  to_json (BinXmlValue.int8_type num) = ok (json_int num)
  to_json (BinXmlValue.uint8_type num) = ok (json_uint num)
  to_json (BinXmlValue.int16_type num) = ok (json_int num)
  to_json (BinXmlValue.uint16_type num) = ok (json_uint num)
  to_json (BinXmlValue.int32_type num) = ok (json_int num)
  to_json (BinXmlValue.uint32_type num) = ok (json_uint num)
  to_json (BinXmlValue.int64_type num) = ok (json_int num)
  to_json (BinXmlValue.uint64_type num) = ok (json_uint num)
  to_json (BinXmlValue.real32_type num) = ok (j.json_f32 num)
  to_json (BinXmlValue.real64_type num) = ok (j.json_f64 num)
  to_json (BinXmlValue.bool_type flag) = ok (json_bool flag)
  to_json (BinXmlValue.binary_type bytes) = ok (json_string (upper_hex bytes))
  to_json (BinXmlValue.guid_type guid) = ok (json_string (f.guid_to_string guid))
  to_json (BinXmlValue.file_time_type tm) = ok (json_string (f.format_datetime tm))
  to_json (BinXmlValue.sys_time_type tm) = ok (json_string (f.format_datetime tm))
  to_json (BinXmlValue.sid_type sid) = ok (json_string (f.sid_to_string sid))
  to_json (BinXmlValue.hex_int32_type hex_string) = ok (json_string hex_string)
  to_json (BinXmlValue.hex_int64_type hex_string) = ok (json_string hex_string)
  to_json (BinXmlValue.string_array_type ns) = ok (json_array json_string ns)
  to_json (BinXmlValue.int8_array_type ns) = ok (json_array json_int ns)
  to_json (BinXmlValue.uint8_array_type ns) = ok (json_array json_uint ns)
  to_json (BinXmlValue.int16_array_type ns) = ok (json_array json_int ns)
  to_json (BinXmlValue.uint16_array_type ns) = ok (json_array json_uint ns)
  to_json (BinXmlValue.int32_array_type ns) = ok (json_array json_int ns)
  to_json (BinXmlValue.uint32_array_type ns) = ok (json_array json_uint ns)
  to_json (BinXmlValue.int64_array_type ns) = ok (json_array json_int ns)
  to_json (BinXmlValue.uint64_array_type ns) = ok (json_array json_uint ns)
  to_json (BinXmlValue.real32_array_type ns) = ok (json_array j.json_f32 ns)
  to_json (BinXmlValue.real64_array_type ns) = ok (json_array j.json_f64 ns)
  to_json (BinXmlValue.bool_array_type ns) = ok (json_array json_bool ns)
  to_json (BinXmlValue.guid_array_type ns) =
      ok (json_array (λ guid. json_string (f.guid_to_string guid)) ns)
  to_json (BinXmlValue.file_time_array_type ns) = ok (json_array j.json_datetime ns)
  to_json (BinXmlValue.sys_time_array_type ns) = ok (json_array j.json_datetime ns)
  to_json (BinXmlValue.sid_array_type ns) =
      ok (json_array (λ sid. json_string (f.sid_to_string sid)) ns)
  to_json (BinXmlValue.hex_int32_array_type ns) = ok (json_array json_string ns)
  to_json (BinXmlValue.hex_int64_array_type ns) = ok (json_array json_string ns)
  to_json v = panic
