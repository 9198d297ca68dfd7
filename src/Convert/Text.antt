-- ===== src/Convert/Text.antt =====
-- `BinXmlValue::as_cow_str` of src/binxml/value_variant.rs.
use evtx.Base.{
  ℕ, ◌/◌, ◌%◌, ◌+◌, List, [], ◌∷◌, ◌++◌, Bool, true, false, Str, chars, map, ltb, if◌then◌else◌,
}
use evtx.Base.Text.{decimal, signed_decimal}
use evtx.Base.Result.{Result, ok, panic}
use evtx.Crates.{Crates}
use evtx.Error.{SerializationError}
use evtx.Formats.{Formats}
use evtx.Model.Deserialized.{BinXmlValue}

-- `join(",")`
unfoldable pub join : List Str → Str
join [] = []
join (s ∷ []) = s
join (s ∷ t ∷ ts) = s ++ (b',' ∷ join (t ∷ ts))

-- `to_delimited_list`
unfoldable pub to_delimited_list : {A : Type 0} → (A → Str) → List A → Str
unfolding join
to_delimited_list to_string ns = join (map to_string ns)

abbrev upper_digit : ℕ → ℕ
upper_digit d = if ltb d 10 then b'0' + d else b'A' + (d % 10)

-- `{:02X}` of each byte.
unfoldable pub upper_hex : List ℕ → Str
upper_hex [] = []
upper_hex (b ∷ bs) = upper_digit (b / 16) ∷ upper_digit (b % 16) ∷ upper_hex bs

unfoldable pub bool_to_string : Bool → Str
bool_to_string true = chars "true"
bool_to_string false = chars "false"

module _ ⦃x : Crates⦄ ⦃f : Formats⦄ where
  -- The variants that `expand_templates` should have removed, and those that are not
  -- implemented, panic.
  unfoldable pub as_cow_str : BinXmlValue → Result SerializationError Str
  unfolding upper_hex bool_to_string to_delimited_list join
  as_cow_str BinXmlValue.null_type = ok []
  as_cow_str (BinXmlValue.string_type s) = ok s
  as_cow_str (BinXmlValue.ansi_string_type s) = ok s
  as_cow_str (BinXmlValue.int8_type num) = ok (signed_decimal num)
  as_cow_str (BinXmlValue.uint8_type num) = ok (decimal num)
  as_cow_str (BinXmlValue.int16_type num) = ok (signed_decimal num)
  as_cow_str (BinXmlValue.uint16_type num) = ok (decimal num)
  as_cow_str (BinXmlValue.int32_type num) = ok (signed_decimal num)
  as_cow_str (BinXmlValue.uint32_type num) = ok (decimal num)
  as_cow_str (BinXmlValue.int64_type num) = ok (signed_decimal num)
  as_cow_str (BinXmlValue.uint64_type num) = ok (decimal num)
  as_cow_str (BinXmlValue.real32_type num) = ok (f.f32_to_string num)
  as_cow_str (BinXmlValue.real64_type num) = ok (f.f64_to_string num)
  as_cow_str (BinXmlValue.bool_type flag) = ok (bool_to_string flag)
  as_cow_str (BinXmlValue.binary_type bytes) = ok (upper_hex bytes)
  as_cow_str (BinXmlValue.guid_type guid) = ok (f.guid_to_string guid)
  as_cow_str (BinXmlValue.size_t_type sz) = ok (decimal sz)
  as_cow_str (BinXmlValue.file_time_type tm) = ok (f.format_datetime tm)
  as_cow_str (BinXmlValue.sys_time_type tm) = ok (f.format_datetime tm)
  as_cow_str (BinXmlValue.sid_type sid) = ok (f.sid_to_string sid)
  as_cow_str (BinXmlValue.hex_int32_type hex_string) = ok hex_string
  as_cow_str (BinXmlValue.hex_int64_type hex_string) = ok hex_string
  as_cow_str (BinXmlValue.string_array_type s) = ok (join s)
  as_cow_str (BinXmlValue.int8_array_type ns) = ok (to_delimited_list signed_decimal ns)
  as_cow_str (BinXmlValue.uint8_array_type ns) = ok (to_delimited_list decimal ns)
  as_cow_str (BinXmlValue.int16_array_type ns) = ok (to_delimited_list signed_decimal ns)
  as_cow_str (BinXmlValue.uint16_array_type ns) = ok (to_delimited_list decimal ns)
  as_cow_str (BinXmlValue.int32_array_type ns) = ok (to_delimited_list signed_decimal ns)
  as_cow_str (BinXmlValue.uint32_array_type ns) = ok (to_delimited_list decimal ns)
  as_cow_str (BinXmlValue.int64_array_type ns) = ok (to_delimited_list signed_decimal ns)
  as_cow_str (BinXmlValue.uint64_array_type ns) = ok (to_delimited_list decimal ns)
  as_cow_str (BinXmlValue.real32_array_type ns) = ok (to_delimited_list f.f32_to_string ns)
  as_cow_str (BinXmlValue.real64_array_type ns) = ok (to_delimited_list f.f64_to_string ns)
  as_cow_str (BinXmlValue.bool_array_type ns) = ok (to_delimited_list bool_to_string ns)
  as_cow_str (BinXmlValue.guid_array_type ns) = ok (to_delimited_list f.guid_to_string ns)
  as_cow_str (BinXmlValue.file_time_array_type ns) = ok (to_delimited_list f.datetime_to_string ns)
  as_cow_str (BinXmlValue.sys_time_array_type ns) = ok (to_delimited_list f.datetime_to_string ns)
  as_cow_str (BinXmlValue.sid_array_type ns) = ok (to_delimited_list f.sid_to_string ns)
  as_cow_str (BinXmlValue.hex_int32_array_type hex_strings) = ok (join hex_strings)
  as_cow_str (BinXmlValue.hex_int64_array_type hex_strings) = ok (join hex_strings)
  as_cow_str v = panic
