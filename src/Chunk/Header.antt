-- ===== src/Chunk/Header.antt =====
-- `EvtxChunkHeader` of src/evtx_chunk.rs.
use evtx.Base.{ℕ, zero, suc, List, [], ◌∷◌, ◌++◌, chars, str_eq, if◌then◌else◌}
use evtx.Crates.{Crates}
use evtx.Cursor.{Reader, IoError, ◌>>=◌, ◌>>◌, pure, fail, with_context, read_exact, seek_ahead}
use evtx.Error.{remove_me, invalid_evtx_chunk_magic}
use evtx.Macros.{Read, read_uint, try_read_u32, try_read_u64}

pub record EvtxChunkHeader : Type 0 where
  pub first_event_record_number : ℕ
  pub last_event_record_number : ℕ
  pub first_event_record_id : ℕ
  pub last_event_record_id : ℕ
  pub header_size : ℕ
  pub last_event_record_data_offset : ℕ
  pub free_space_offset : ℕ
  pub events_checksum : ℕ
  pub header_chunk_checksum : ℕ
  pub flags : ℕ
  pub strings_offsets : List ℕ
  pub template_offsets : List ℕ

-- The flags of `ChunkFlags`: DIRTY and NO_CRC32, and both.
abbrev pub no_crc32 : ℕ
no_crc32 = 0x4

abbrev pub chunk_flags_all : ℕ
chunk_flags_all = 0x5

abbrev pub chunk_magic : List ℕ
chunk_magic = chars "ElfChnk" ++ (0 ∷ [])

module _ ⦃x : Crates⦄ where
  -- byteorder's `read_u32_into` a buffer of `n` numbers.
  unfoldable pub read_u32_into : ℕ → List ℕ → Reader IoError (List ℕ)
  read_u32_into zero buffer = pure buffer
  read_u32_into (suc n) buffer = do u ← read_uint 4; read_u32_into n (buffer ++ (u ∷ []))

  -- `EvtxChunkHeader::from_reader`
  unfoldable pub from_reader : Read EvtxChunkHeader
  from_reader = do
    magic ← with_context remove_me (read_exact 8)
    (if str_eq magic chunk_magic then pure tt else fail (invalid_evtx_chunk_magic magic))
    first_event_record_number ← try_read_u64 "<Unknown>"
    last_event_record_number ← try_read_u64 "<Unknown>"
    first_event_record_id ← try_read_u64 "<Unknown>"
    last_event_record_id ← try_read_u64 "<Unknown>"
    header_size ← try_read_u32 "<Unknown>"
    last_event_record_data_offset ← try_read_u32 "<Unknown>"
    free_space_offset ← try_read_u32 "<Unknown>"
    events_checksum ← try_read_u32 "<Unknown>"
    with_context remove_me (seek_ahead 64)
    raw_flags ← try_read_u32 "<Unknown>"
    header_chunk_checksum ← try_read_u32 "<Unknown>"
    strings_offsets ← with_context remove_me (read_u32_into 64 [])
    template_offsets ← with_context remove_me (read_u32_into 32 [])
    pure (record {
      first_event_record_number = first_event_record_number;
      last_event_record_number = last_event_record_number;
      first_event_record_id = first_event_record_id;
      last_event_record_id = last_event_record_id;
      header_size = header_size;
      last_event_record_data_offset = last_event_record_data_offset;
      free_space_offset = free_space_offset;
      events_checksum = events_checksum;
      header_chunk_checksum = header_chunk_checksum;
      flags = x.from_bits_truncate chunk_flags_all raw_flags;
      strings_offsets = strings_offsets;
      template_offsets = template_offsets;
    })
