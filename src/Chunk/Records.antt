-- ===== src/Chunk/Records.antt =====
-- `IterChunkRecords` of src/evtx_chunk.rs.
use evtx.Base.{
  ℕ, ◌+◌, List, [], Bool, true, false, ◌||◌, Option, none, some, drop, length, leb, ltb, ◌==◌,
  if◌then◌else◌,
}
use evtx.Base.Result.{Result, ok, err, panic, stuck}
use evtx.Crates.{Crates}
use evtx.Cursor.{Cursor}
use evtx.Error.{DeserializationError, EvtxError, deserialization_error, failed_to_parse_record}
use evtx.Model.Deserialized.{BinXmlDeserializedTokens}
use evtx.Binxml.Deserializer.{iter_tokens, read_tokens, fragment_rounds, Drained}
use evtx.Chunk.Data.{EvtxChunk, chunk_header_size}
use evtx.Chunk.RecordHeader
use evtx.Chunk.RecordHeader.{EvtxRecordHeader, record_data_size}

pub record IterChunkRecords : Type 0 where
  pub offset_from_chunk_start : ℕ
  pub exhausted : Bool

-- `EvtxChunk::iter`
abbrev pub iter : IterChunkRecords
iter = record { offset_from_chunk_start = chunk_header_size; exhausted = false }

module _ ⦃x : Crates⦄ where
  -- The chunk and the settings of a record are those of the chunk that it is read from.
  pub record EvtxRecord : Type 0 where
    pub event_record_id : ℕ
    pub timestamp : x.DateTime
    pub tokens : List BinXmlDeserializedTokens

  -- What `next` leaves and yields: `none` is the end, and `err` an item that is an error.
  abbrev pub Next : Type 0
  Next = Result EvtxError (IterChunkRecords × Option (Result EvtxError EvtxRecord))

  -- The tokens of a record of `data_size` bytes, from `offset`.
  unfoldable pub record_tokens : EvtxChunk → ℕ → ℕ → Drained
  record_tokens chunk offset data_size =
      let fuel = length chunk.chunk_bytes + 2 in
      read_tokens (fragment_rounds fuel (some chunk.chunk_bytes) chunk.ansi_codec)
        (some chunk.chunk_bytes) chunk.ansi_codec fuel false []
        (iter_tokens (record { data_ref = chunk.chunk_bytes; position = offset }) (some data_size))

  -- The record that is read, or the error, and the offset behind it in both cases.
  unfoldable pub after_tokens : EvtxChunk → IterChunkRecords → EvtxRecordHeader → Drained → Next
  after_tokens chunk st header (ok (tokens, done)) = ok (
    record {
      offset_from_chunk_start = st.offset_from_chunk_start + header.data_size;
      exhausted =
          if chunk.header.last_event_record_id == header.event_record_id
          then true
          else st.exhausted;
    },
    some (
        ok (record {
          event_record_id = header.event_record_id;
          timestamp = header.timestamp;
          tokens = tokens;
        })),
  )
  after_tokens chunk st header (err e) = ok (
    record st { offset_from_chunk_start = st.offset_from_chunk_start + header.data_size },
    some (err (failed_to_parse_record header.event_record_id (deserialization_error e))),
  )
  after_tokens chunk st header panic = panic
  after_tokens chunk st header stuck = stuck

  -- An invalid record header exhausts the iterator.
  unfoldable pub after_header :
      EvtxChunk → IterChunkRecords → Result DeserializationError (EvtxRecordHeader × Cursor) → Next
  after_header chunk st (ok (header, cursor)) =
      after_tokens chunk st header (
        record_tokens chunk (st.offset_from_chunk_start + cursor.position)
          (record_data_size header))
  after_header chunk st (err e) =
      ok (record st { exhausted = true }, some (err (deserialization_error e)))
  after_header chunk st panic = panic
  after_header chunk st stuck = stuck

  -- `next`; the slice of the data panics where the offset lies past its end.
  unfoldable pub next : EvtxChunk → IterChunkRecords → Next
  next chunk st =
      if st.exhausted || leb chunk.header.free_space_offset st.offset_from_chunk_start
      then ok (st, none)
      else if ltb (length chunk.chunk_bytes) st.offset_from_chunk_start
      then panic
      else after_header chunk st (
          RecordHeader.from_reader
            (record { data_ref = drop st.offset_from_chunk_start chunk.chunk_bytes; position = 0 }))
