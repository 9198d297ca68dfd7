-- ===== src/Tests/Reads.antt =====
-- The theorems on readers and tables at concrete inputs.
use evtx.Base.{
  ℕ, ◌+◌, ◌≡◌, ◌≢◌, ◌↔◌, refl, List, [], ◌∷◌, ◌++◌, false, length, chars, replicate, some, arith,
  inl, inr,
}
use evtx.Base.Tests.{str_eq}
use evtx.Base.Result.{ok, stuck}
use evtx.Cursor.{Cursor, read_exact, seek_ahead}
use evtx.Macros.{read_uint, try_read_u16, try_read_u32, try_read_u64}
use evtx.Model.ValueType
use evtx.Model.ValueType.{BinXmlValueType}
use evtx.Model.Codes.{code, from_u8_iff, from_u8_array}
use evtx.Utils.Strings.{read_utf16_by_size}
use evtx.Utils.Strings.RoundTrip.{read_utf16_by_size-encode}
use evtx.Binxml.Tokens.{read_open_start_element}
use evtx.Binxml.Tokens.Rounds.{read_open_start_element-ends}
use evtx.FileHeader
use evtx.FileHeader.{EvtxFileHeader}
use evtx.Parser.Chunks.{EvtxParser, from_read_seek, chunk_bytes}
use evtx.Parser.Count.{from_read_seek-length}
use evtx.Tests.Sample.{sample_crates}

from_u8_iff_example :
    (ValueType.from_u8 0x15 ≡ some BinXmlValueType.hex_int64_type)
    ↔ (code BinXmlValueType.hex_int64_type ≡ 0x15)
from_u8_iff_example = from_u8_iff 0x15 BinXmlValueType.hex_int64_type (omega arith)

is_hex : ValueType.from_u8 0x15 ≡ some BinXmlValueType.hex_int64_type
unfolding ValueType.from_u8
is_hex = refl

from_u8_array_example : ValueType.from_u8 (0x15 + 0x80) ≡ some BinXmlValueType.hex_int64_array_type
from_u8_array_example =
    from_u8_array 0x15 BinXmlValueType.hex_int64_type BinXmlValueType.hex_int64_array_type is_hex
      refl

-- A letter and a character of two units, behind a byte.
abbrev units_at : Cursor
units_at = record { data_ref = 9 ∷ 65 ∷ 0 ∷ 0x3D ∷ 0xD8 ∷ 0 ∷ 0xDE ∷ 7 ∷ []; position = 1 }

read_utf16_by_size-encode_example :
    read_utf16_by_size 6 units_at ≡ ok (some (65 ∷ 0x1F600 ∷ []), record units_at { position = 7 })
read_utf16_by_size-encode_example =
    read_utf16_by_size-encode (65 ∷ 0x1F600 ∷ []) (7 ∷ []) units_at
      ((omega arith, inl (omega arith)), ((omega arith, inr (omega arith, omega arith)), tt))
      (omega arith) refl

-- A data size that exceeds the chunk, so that the element is read again.
abbrev element_at : Cursor
element_at = record { data_ref = 1 ∷ 0 ∷ 0 ∷ 9 ∷ 9 ∷ 9 ∷ 9 ∷ 1 ∷ 0 ∷ 0 ∷ 0 ∷ []; position = 1 }

read_open_start_element-ends_example :
    read_open_start_element (some element_at.data_ref) false false element_at ≢ stuck
read_open_start_element-ends_example =
    read_open_start_element-ends (some element_at.data_ref) false false element_at

-- A file header and one chunk of zeros.
abbrev file_bytes : List ℕ
file_bytes =
    chars "ElfFile"
    ++ (replicate 25 0 ++ (128 ∷ 0 ∷ 0 ∷ 0 ∷ 1 ∷ 0 ∷ 3 ∷ 0 ∷ 0 ∷ 16 ∷ 1 ∷ 0 ∷ replicate 69588 0))

abbrev file_parser : EvtxParser
file_parser = record {
  contents = file_bytes;
  header = record {
    first_chunk_number = 0;
    last_chunk_number = 0;
    next_record_id = 0;
    header_size = 128;
    minor_version = 1;
    major_version = 3;
    header_block_size = 4096;
    chunk_count = 1;
    flags = 0;
    checksum = 0;
  };
  validate_checksums = false;
  calculated_chunk_count = 1;
}

parses : from_read_seek file_bytes ≡ ok file_parser
unfolding from_read_seek FileHeader.from_stream read_exact seek_ahead read_uint try_read_u16
    try_read_u32 try_read_u64 str_eq
parses = refl

from_read_seek-length_example : length (chunk_bytes file_bytes 0) ≡ 65536
from_read_seek-length_example =
    from_read_seek-length file_bytes file_parser 0 parses refl (omega arith)
