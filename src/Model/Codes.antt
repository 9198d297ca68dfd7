-- ===== src/Model/Codes.antt =====
-- The bytes of the value types: each type has one byte, and an array has that of its items with the flag 0x80.
use evtx.Base.{ℕ, ◌+◌, ◌≡◌, ◌<◌, ◌↔◌, subst, refl, Option, none, some, arith}
use evtx.Model.ValueType.{BinXmlValueType, from_u8}

-- The byte that is written for a type in the format; the types without one stand past the bytes.
abbrev pub code : BinXmlValueType → ℕ
code BinXmlValueType.null_type = 0x00
code BinXmlValueType.string_type = 0x01
code BinXmlValueType.ansi_string_type = 0x02
code BinXmlValueType.int8_type = 0x03
code BinXmlValueType.uint8_type = 0x04
code BinXmlValueType.int16_type = 0x05
code BinXmlValueType.uint16_type = 0x06
code BinXmlValueType.int32_type = 0x07
code BinXmlValueType.uint32_type = 0x08
code BinXmlValueType.int64_type = 0x09
code BinXmlValueType.uint64_type = 0x0a
code BinXmlValueType.real32_type = 0x0b
code BinXmlValueType.real64_type = 0x0c
code BinXmlValueType.bool_type = 0x0d
code BinXmlValueType.binary_type = 0x0e
code BinXmlValueType.guid_type = 0x0f
code BinXmlValueType.size_t_type = 0x10
code BinXmlValueType.file_time_type = 0x11
code BinXmlValueType.sys_time_type = 0x12
code BinXmlValueType.sid_type = 0x13
code BinXmlValueType.hex_int32_type = 0x14
code BinXmlValueType.hex_int64_type = 0x15
code BinXmlValueType.evt_handle = 0x20
code BinXmlValueType.bin_xml_type = 0x21
code BinXmlValueType.evt_xml_type = 0x23
code BinXmlValueType.string_array_type = 0x81
code BinXmlValueType.ansi_string_array_type = 0x82
code BinXmlValueType.int8_array_type = 0x83
code BinXmlValueType.uint8_array_type = 0x84
code BinXmlValueType.int16_array_type = 0x85
code BinXmlValueType.uint16_array_type = 0x86
code BinXmlValueType.int32_array_type = 0x87
code BinXmlValueType.uint32_array_type = 0x88
code BinXmlValueType.int64_array_type = 0x89
code BinXmlValueType.uint64_array_type = 0x8a
code BinXmlValueType.real32_array_type = 0x8b
code BinXmlValueType.real64_array_type = 0x8c
code BinXmlValueType.bool_array_type = 0x8d
code BinXmlValueType.binary_array_type = 0x8e
code BinXmlValueType.guid_array_type = 0x8f
code BinXmlValueType.size_t_array_type = 0x90
code BinXmlValueType.file_time_array_type = 0x91
code BinXmlValueType.sys_time_array_type = 0x92
code BinXmlValueType.sid_array_type = 0x93
code BinXmlValueType.hex_int32_array_type = 0x94
code BinXmlValueType.hex_int64_array_type = 0x95
code BinXmlValueType.evt_handle_array = 256
code BinXmlValueType.bin_xml_array_type = 257
code BinXmlValueType.evt_xml_array_type = 258

-- A type of items, and the type of arrays of them.
abbrev pub array_of : BinXmlValueType → Option BinXmlValueType
array_of BinXmlValueType.string_type = some BinXmlValueType.string_array_type
array_of BinXmlValueType.ansi_string_type = some BinXmlValueType.ansi_string_array_type
array_of BinXmlValueType.int8_type = some BinXmlValueType.int8_array_type
array_of BinXmlValueType.uint8_type = some BinXmlValueType.uint8_array_type
array_of BinXmlValueType.int16_type = some BinXmlValueType.int16_array_type
array_of BinXmlValueType.uint16_type = some BinXmlValueType.uint16_array_type
array_of BinXmlValueType.int32_type = some BinXmlValueType.int32_array_type
array_of BinXmlValueType.uint32_type = some BinXmlValueType.uint32_array_type
array_of BinXmlValueType.int64_type = some BinXmlValueType.int64_array_type
array_of BinXmlValueType.uint64_type = some BinXmlValueType.uint64_array_type
array_of BinXmlValueType.real32_type = some BinXmlValueType.real32_array_type
array_of BinXmlValueType.real64_type = some BinXmlValueType.real64_array_type
array_of BinXmlValueType.bool_type = some BinXmlValueType.bool_array_type
array_of BinXmlValueType.binary_type = some BinXmlValueType.binary_array_type
array_of BinXmlValueType.guid_type = some BinXmlValueType.guid_array_type
array_of BinXmlValueType.size_t_type = some BinXmlValueType.size_t_array_type
array_of BinXmlValueType.file_time_type = some BinXmlValueType.file_time_array_type
array_of BinXmlValueType.sys_time_type = some BinXmlValueType.sys_time_array_type
array_of BinXmlValueType.sid_type = some BinXmlValueType.sid_array_type
array_of BinXmlValueType.hex_int32_type = some BinXmlValueType.hex_int32_array_type
array_of BinXmlValueType.hex_int64_type = some BinXmlValueType.hex_int64_array_type
array_of t = none

-- A byte that is read as a type is the byte of the type.
code-from_u8 : (byte : ℕ) (t : BinXmlValueType) → from_u8 byte ≡ some t → code t ≡ byte
unfolding from_u8
code-from_u8 byte t h = ground arith

from_u8-code : (t : BinXmlValueType) → code t < 256 → from_u8 (code t) ≡ some t
unfolding from_u8
from_u8-code BinXmlValueType.null_type h = refl
from_u8-code BinXmlValueType.string_type h = refl
from_u8-code BinXmlValueType.ansi_string_type h = refl
from_u8-code BinXmlValueType.int8_type h = refl
from_u8-code BinXmlValueType.uint8_type h = refl
from_u8-code BinXmlValueType.int16_type h = refl
from_u8-code BinXmlValueType.uint16_type h = refl
from_u8-code BinXmlValueType.int32_type h = refl
from_u8-code BinXmlValueType.uint32_type h = refl
from_u8-code BinXmlValueType.int64_type h = refl
from_u8-code BinXmlValueType.uint64_type h = refl
from_u8-code BinXmlValueType.real32_type h = refl
from_u8-code BinXmlValueType.real64_type h = refl
from_u8-code BinXmlValueType.bool_type h = refl
from_u8-code BinXmlValueType.binary_type h = refl
from_u8-code BinXmlValueType.guid_type h = refl
from_u8-code BinXmlValueType.size_t_type h = refl
from_u8-code BinXmlValueType.file_time_type h = refl
from_u8-code BinXmlValueType.sys_time_type h = refl
from_u8-code BinXmlValueType.sid_type h = refl
from_u8-code BinXmlValueType.hex_int32_type h = refl
from_u8-code BinXmlValueType.hex_int64_type h = refl
from_u8-code BinXmlValueType.evt_handle h = refl
from_u8-code BinXmlValueType.bin_xml_type h = refl
from_u8-code BinXmlValueType.evt_xml_type h = refl
from_u8-code BinXmlValueType.string_array_type h = refl
from_u8-code BinXmlValueType.ansi_string_array_type h = refl
from_u8-code BinXmlValueType.int8_array_type h = refl
from_u8-code BinXmlValueType.uint8_array_type h = refl
from_u8-code BinXmlValueType.int16_array_type h = refl
from_u8-code BinXmlValueType.uint16_array_type h = refl
from_u8-code BinXmlValueType.int32_array_type h = refl
from_u8-code BinXmlValueType.uint32_array_type h = refl
from_u8-code BinXmlValueType.int64_array_type h = refl
from_u8-code BinXmlValueType.uint64_array_type h = refl
from_u8-code BinXmlValueType.real32_array_type h = refl
from_u8-code BinXmlValueType.real64_array_type h = refl
from_u8-code BinXmlValueType.bool_array_type h = refl
from_u8-code BinXmlValueType.binary_array_type h = refl
from_u8-code BinXmlValueType.guid_array_type h = refl
from_u8-code BinXmlValueType.size_t_array_type h = refl
from_u8-code BinXmlValueType.file_time_array_type h = refl
from_u8-code BinXmlValueType.sys_time_array_type h = refl
from_u8-code BinXmlValueType.sid_array_type h = refl
from_u8-code BinXmlValueType.hex_int32_array_type h = refl
from_u8-code BinXmlValueType.hex_int64_array_type h = refl
from_u8-code BinXmlValueType.evt_handle_array h = absurd (omega arith)
from_u8-code BinXmlValueType.bin_xml_array_type h = absurd (omega arith)
from_u8-code BinXmlValueType.evt_xml_array_type h = absurd (omega arith)

with_flag : (t a : BinXmlValueType) → array_of t ≡ some a → from_u8 (code t + 0x80) ≡ some a
unfolding from_u8
with_flag BinXmlValueType.string_type a h = h
with_flag BinXmlValueType.ansi_string_type a h = h
with_flag BinXmlValueType.int8_type a h = h
with_flag BinXmlValueType.uint8_type a h = h
with_flag BinXmlValueType.int16_type a h = h
with_flag BinXmlValueType.uint16_type a h = h
with_flag BinXmlValueType.int32_type a h = h
with_flag BinXmlValueType.uint32_type a h = h
with_flag BinXmlValueType.int64_type a h = h
with_flag BinXmlValueType.uint64_type a h = h
with_flag BinXmlValueType.real32_type a h = h
with_flag BinXmlValueType.real64_type a h = h
with_flag BinXmlValueType.bool_type a h = h
with_flag BinXmlValueType.binary_type a h = h
with_flag BinXmlValueType.guid_type a h = h
with_flag BinXmlValueType.size_t_type a h = h
with_flag BinXmlValueType.file_time_type a h = h
with_flag BinXmlValueType.sys_time_type a h = h
with_flag BinXmlValueType.sid_type a h = h
with_flag BinXmlValueType.hex_int32_type a h = h
with_flag BinXmlValueType.hex_int64_type a h = h
with_flag t a h = absurd cc

-- A byte is read as a value type exactly if it is the byte of the type.
pub from_u8_iff :
    (byte : ℕ) (t : BinXmlValueType) → byte < 256 → (from_u8 byte ≡ some t) ↔ (code t ≡ byte)
from_u8_iff byte t h =
    (code-from_u8 byte t, λ e. subst (λ b. from_u8 b ≡ some t) e (from_u8-code t (omega arith)))

-- The byte of a type with the flag 0x80 is read as the type of arrays of it.
pub from_u8_array :
    (byte : ℕ) (t a : BinXmlValueType)
    → from_u8 byte ≡ some t
    → array_of t ≡ some a
    → from_u8 (byte + 0x80) ≡ some a
from_u8_array byte t a h k =
    subst (λ b. from_u8 (b + 0x80) ≡ some a) (code-from_u8 byte t h) (with_flag t a k)
