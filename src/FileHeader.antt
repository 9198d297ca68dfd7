-- ===== src/FileHeader.antt =====
-- src/evtx_file_header.rs. A stream is a cursor over its bytes, with which `Read::take` and
-- `read_exact` agree.
use evtx.Base.{ℕ, ◌-◌, List, chars, if◌then◌else◌, str_eq, ◌++◌, [], ◌∷◌}
use evtx.Crates.{Crates}
use evtx.Cursor.{◌>>=◌, ◌>>◌, pure, fail, with_context, read_exact, seek_ahead}
use evtx.Error.{unexpected_io_error, invalid_evtx_file_header_magic}
use evtx.Macros.{Read, try_read_u16, try_read_u32, try_read_u64}

pub record EvtxFileHeader : Type 0 where
  pub first_chunk_number : ℕ
  pub last_chunk_number : ℕ
  pub next_record_id : ℕ
  pub header_size : ℕ
  pub minor_version : ℕ
  pub major_version : ℕ
  pub header_block_size : ℕ
  pub chunk_count : ℕ
  pub flags : ℕ
  -- Checksum is of first 120 bytes of header
  pub checksum : ℕ

-- The flags DIRTY, FULL and NO_CRC32.
abbrev pub header_flags_all : ℕ
header_flags_all = 0x7

abbrev pub file_magic : List ℕ
file_magic = chars "ElfFile" ++ (0 ∷ [])

module _ ⦃x : Crates⦄ where
  unfoldable pub from_stream : Read EvtxFileHeader
  from_stream = do
    magic ← with_context (λ e. unexpected_io_error) (read_exact 8)
    (if str_eq magic file_magic then pure tt else fail (invalid_evtx_file_header_magic magic))
    oldest_chunk ← try_read_u64 "file_header_oldest_chunk"
    current_chunk_num ← try_read_u64 "file_header_current_chunk_num"
    next_record_num ← try_read_u64 "file_header_next_record_num"
    header_size ← try_read_u32 "file_header_header_size"
    minor_version ← try_read_u16 "file_header_minor_version"
    major_version ← try_read_u16 "file_header_major_version"
    header_block_size ← try_read_u16 "file_header_header_block_size"
    chunk_count ← try_read_u16 "file_header_chunk_count"
    with_context (λ e. unexpected_io_error) (seek_ahead 76)
    raw_flags ← try_read_u32 "file_header_flags"
    checksum ← try_read_u32 "file_header_checksum"
    with_context (λ e. unexpected_io_error) (seek_ahead (4096 - 128))
    pure (record {
      first_chunk_number = oldest_chunk;
      last_chunk_number = current_chunk_num;
      next_record_id = next_record_num;
      header_size = header_size;
      minor_version = minor_version;
      major_version = major_version;
      header_block_size = header_block_size;
      chunk_count = chunk_count;
      flags = x.from_bits_truncate header_flags_all raw_flags;
      checksum = checksum;
    })
