-- ===== src/Parser/Endless.antt =====
-- A record of size zero: the iterator of src/evtx_chunk.rs does not move past it.
use evtx.Base.{ℕ, zero, suc, ◌+◌, ◌≡◌, refl, false, some, drop, length, leb, ltb, arith}
use evtx.Base.Result.{Result, ok, err, stuck}
use evtx.Crates.{Crates}
use evtx.Cursor.{Cursor}
use evtx.Error.{EvtxError, DeserializationError, failed_to_parse_record, deserialization_error}
use evtx.Chunk.RecordHeader
use evtx.Chunk.RecordHeader.{EvtxRecordHeader, record_data_size}
use evtx.Chunk.Data.{EvtxChunk}
use evtx.Chunk.Records.{
  EvtxRecord, IterChunkRecords, record_tokens, after_tokens, after_header, next,
}
use evtx.Parser.Serialized.{Item, collect_records}

module _ ⦃x : Crates⦄ {U : Type 0} (f : Result EvtxError EvtxRecord → Item U)
    (chunk : EvtxChunk) where
  -- An iterator that yields an item and is where it was yields it for ever.
  repeats :
      (st : IterChunkRecords) (item : Result EvtxError EvtxRecord) (fuel : ℕ)
      → next chunk st ≡ ok (st, some item)
      → collect_records f fuel chunk st ≡ stuck
  unfolding collect_records
  repeats st item zero h = refl
  repeats st item (suc fuel) h = rw (h, repeats st item fuel h)

  next-zero_size :
      (st : IterChunkRecords) (header : EvtxRecordHeader) (c : Cursor) (e : DeserializationError)
      → st.exhausted ≡ false
      → leb chunk.header.free_space_offset st.offset_from_chunk_start ≡ false
      → ltb (length chunk.chunk_bytes) st.offset_from_chunk_start ≡ false
      → RecordHeader.from_reader
          (record { data_ref = drop st.offset_from_chunk_start chunk.chunk_bytes; position = 0 })
        ≡ ok (header, c)
      → header.data_size ≡ 0
      → record_tokens chunk (st.offset_from_chunk_start + c.position) (record_data_size header)
        ≡ err e
      → next chunk st
        ≡ ok (
          st,
          some (err (failed_to_parse_record header.event_record_id (deserialization_error e))),
        )
  unfolding next after_header after_tokens
  next-zero_size st header c e live free inside read zero_size failed =
      let s : st.offset_from_chunk_start + header.data_size ≡ st.offset_from_chunk_start =
        omega arith in
      rw (live, free, inside, read, failed, s) refl

-- Where the iterator is at a record of size 0 whose tokens cannot be read, it yields the same error for
-- ever: no fuel is enough to collect the records of the chunk.
pub collect_records-zero_size :
    ⦃x : Crates⦄ {U : Type 0} (f : Result EvtxError EvtxRecord → Item U) (fuel : ℕ)
    (chunk : EvtxChunk) (st : IterChunkRecords) (header : EvtxRecordHeader) (c : Cursor)
    (e : DeserializationError)
    → st.exhausted ≡ false
    → leb chunk.header.free_space_offset st.offset_from_chunk_start ≡ false
    → ltb (length chunk.chunk_bytes) st.offset_from_chunk_start ≡ false
    → RecordHeader.from_reader
        (record { data_ref = drop st.offset_from_chunk_start chunk.chunk_bytes; position = 0 })
      ≡ ok (header, c)
    → header.data_size ≡ 0
    → record_tokens chunk (st.offset_from_chunk_start + c.position) (record_data_size header)
      ≡ err e
    → collect_records f fuel chunk st ≡ stuck
collect_records-zero_size f fuel chunk st header c e live free inside read zero_size failed =
    repeats f chunk st
      (err (failed_to_parse_record header.event_record_id (deserialization_error e))) fuel
      (next-zero_size f chunk st header c e live free inside read zero_size failed)
