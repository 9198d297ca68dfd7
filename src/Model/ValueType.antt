-- ===== src/Model/ValueType.antt =====
-- The type bytes of values, from src/binxml/value_variant.rs.
use evtx.Base.{ℕ, String, Option, none, some, ◌==◌, if◌then◌else◌}

pub data BinXmlValueType : Type 0 where
  null_type string_type ansi_string_type int8_type uint8_type int16_type : BinXmlValueType
  uint16_type int32_type uint32_type int64_type uint64_type real32_type : BinXmlValueType
  real64_type bool_type binary_type guid_type size_t_type file_time_type : BinXmlValueType
  sys_time_type sid_type hex_int32_type hex_int64_type evt_handle : BinXmlValueType
  bin_xml_type evt_xml_type string_array_type ansi_string_array_type : BinXmlValueType
  int8_array_type uint8_array_type int16_array_type uint16_array_type : BinXmlValueType
  int32_array_type uint32_array_type int64_array_type uint64_array_type : BinXmlValueType
  real32_array_type real64_array_type bool_array_type binary_array_type : BinXmlValueType
  guid_array_type size_t_array_type file_time_array_type : BinXmlValueType
  sys_time_array_type sid_array_type hex_int32_array_type : BinXmlValueType
  hex_int64_array_type evt_handle_array bin_xml_array_type : BinXmlValueType
  evt_xml_array_type : BinXmlValueType

unfoldable pub from_u8 : ℕ → Option BinXmlValueType
from_u8 byte =
    if byte == 0x00
    then some null_type
    else if byte == 0x01
    then some string_type
    else if byte == 0x02
    then some ansi_string_type
    else if byte == 0x03
    then some int8_type
    else if byte == 0x04
    then some uint8_type
    else if byte == 0x05
    then some int16_type
    else if byte == 0x06
    then some uint16_type
    else if byte == 0x07
    then some int32_type
    else if byte == 0x08
    then some uint32_type
    else if byte == 0x09
    then some int64_type
    else if byte == 0x0a
    then some uint64_type
    else if byte == 0x0b
    then some real32_type
    else if byte == 0x0c
    then some real64_type
    else if byte == 0x0d
    then some bool_type
    else if byte == 0x0e
    then some binary_type
    else if byte == 0x0f
    then some guid_type
    else if byte == 0x10
    then some size_t_type
    else if byte == 0x11
    then some file_time_type
    else if byte == 0x12
    then some sys_time_type
    else if byte == 0x13
    then some sid_type
    else if byte == 0x14
    then some hex_int32_type
    else if byte == 0x15
    then some hex_int64_type
    else if byte == 0x20
    then some evt_handle
    else if byte == 0x21
    then some bin_xml_type
    else if byte == 0x23
    then some evt_xml_type
    else if byte == 0x81
    then some string_array_type
    else if byte == 0x82
    then some ansi_string_array_type
    else if byte == 0x83
    then some int8_array_type
    else if byte == 0x84
    then some uint8_array_type
    else if byte == 0x85
    then some int16_array_type
    else if byte == 0x86
    then some uint16_array_type
    else if byte == 0x87
    then some int32_array_type
    else if byte == 0x88
    then some uint32_array_type
    else if byte == 0x89
    then some int64_array_type
    else if byte == 0x8a
    then some uint64_array_type
    else if byte == 0x8b
    then some real32_array_type
    else if byte == 0x8c
    then some real64_array_type
    else if byte == 0x8d
    then some bool_array_type
    else if byte == 0x8e
    then some binary_array_type
    else if byte == 0x8f
    then some guid_array_type
    else if byte == 0x90
    then some size_t_array_type
    else if byte == 0x91
    then some file_time_array_type
    else if byte == 0x92
    then some sys_time_array_type
    else if byte == 0x93
    then some sid_array_type
    else if byte == 0x94
    then some hex_int32_array_type
    else if byte == 0x95
    then some hex_int64_array_type
    else none

-- `format!("{:?}", value_type)`: the derived `Debug`.
unfoldable pub debug_name : BinXmlValueType → String
debug_name null_type = "NullType"
debug_name string_type = "StringType"
debug_name ansi_string_type = "AnsiStringType"
debug_name int8_type = "Int8Type"
debug_name uint8_type = "UInt8Type"
debug_name int16_type = "Int16Type"
debug_name uint16_type = "UInt16Type"
debug_name int32_type = "Int32Type"
debug_name uint32_type = "UInt32Type"
debug_name int64_type = "Int64Type"
debug_name uint64_type = "UInt64Type"
debug_name real32_type = "Real32Type"
debug_name real64_type = "Real64Type"
debug_name bool_type = "BoolType"
debug_name binary_type = "BinaryType"
debug_name guid_type = "GuidType"
debug_name size_t_type = "SizeTType"
debug_name file_time_type = "FileTimeType"
debug_name sys_time_type = "SysTimeType"
debug_name sid_type = "SidType"
debug_name hex_int32_type = "HexInt32Type"
debug_name hex_int64_type = "HexInt64Type"
debug_name evt_handle = "EvtHandle"
debug_name bin_xml_type = "BinXmlType"
debug_name evt_xml_type = "EvtXmlType"
debug_name string_array_type = "StringArrayType"
debug_name ansi_string_array_type = "AnsiStringArrayType"
debug_name int8_array_type = "Int8ArrayType"
debug_name uint8_array_type = "UInt8ArrayType"
debug_name int16_array_type = "Int16ArrayType"
debug_name uint16_array_type = "UInt16ArrayType"
debug_name int32_array_type = "Int32ArrayType"
debug_name uint32_array_type = "UInt32ArrayType"
debug_name int64_array_type = "Int64ArrayType"
debug_name uint64_array_type = "UInt64ArrayType"
debug_name real32_array_type = "Real32ArrayType"
debug_name real64_array_type = "Real64ArrayType"
debug_name bool_array_type = "BoolArrayType"
debug_name binary_array_type = "BinaryArrayType"
debug_name guid_array_type = "GuidArrayType"
debug_name size_t_array_type = "SizeTArrayType"
debug_name file_time_array_type = "FileTimeArrayType"
debug_name sys_time_array_type = "SysTimeArrayType"
debug_name sid_array_type = "SidArrayType"
debug_name hex_int32_array_type = "HexInt32ArrayType"
debug_name hex_int64_array_type = "HexInt64ArrayType"
debug_name evt_handle_array = "EvtHandleArray"
debug_name bin_xml_array_type = "BinXmlArrayType"
debug_name evt_xml_array_type = "EvtXmlArrayType"
