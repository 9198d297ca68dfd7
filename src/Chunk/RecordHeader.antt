-- ===== src/Chunk/RecordHeader.antt =====
-- `EvtxRecordHeader` of src/evtx_record.rs.
use evtx.Base.{ℕ, ◌+◌, ◌-◌, ◌%◌, ◌^◌, List, [], ◌∷◌, str_eq, if◌then◌else◌}
use evtx.Crates.{Crates}
use evtx.Cursor.{◌>>=◌, ◌>>◌, pure, fail, with_context, read_exact}
use evtx.Error.{remove_me, invalid_evtx_record_header_magic}
use evtx.Macros.{Read, try_read_u32, try_read_u64, try_read_filetime}

abbrev pub record_magic : List ℕ
record_magic = 0x2a ∷ 0x2a ∷ 0x00 ∷ 0x00 ∷ []

module _ ⦃x : Crates⦄ where
  pub record EvtxRecordHeader : Type 0 where
    pub data_size : ℕ
    pub event_record_id : ℕ
    pub timestamp : x.DateTime

  -- `EvtxRecordHeader::from_reader`
  unfoldable pub from_reader : Read EvtxRecordHeader
  from_reader = do
    magic ← with_context remove_me (read_exact 4)
    (if str_eq magic record_magic then pure tt else fail (invalid_evtx_record_header_magic magic))
    size ← try_read_u32 "<Unknown>"
    record_id ← try_read_u64 "<Unknown>"
    timestamp ← try_read_filetime
    pure (record { data_size = size; event_record_id = record_id; timestamp = timestamp })

  -- 24 for the record header and 4 for the copy of the size; the subtraction wraps.
  unfoldable pub record_data_size : EvtxRecordHeader → ℕ
  record_data_size header = (header.data_size + 2 ^ 32 - 24 - 4) % 2 ^ 32
