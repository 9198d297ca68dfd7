-- ===== src/Parser/Serialized.antt =====
-- `serialized_records` of src/evtx_parser.rs and what it takes the records with: the chunks come in
-- batches, the records of a batch come in order, and an error of a chunk stands in their place. The
-- threads of a batch share nothing, so their order is that of the chunks. A chunk may yield an error
-- for ever, and the fuel bounds the records of a chunk and the batches.
use evtx.Base.{ℕ, zero, suc, List, [], ◌∷◌, ◌++◌, Bool, Option, none, some, ltb, if◌then◌else◌}
use evtx.Base.Result.{Result, ok, err, panic, stuck, ◌>>=◌}
use evtx.Crates.{Crates}
use evtx.Error.{EvtxError, ChunkError, failed_to_parse_chunk}
use evtx.Formats.{Formats}
use evtx.Serde.{SerdeJson}
use evtx.Chunk.Data.{EvtxChunk, EvtxChunkData, new_chunk}
use evtx.Chunk.Records.{EvtxRecord, IterChunkRecords, Next, iter, next}
use evtx.Record.{SerializedEvtxRecord, into_json_value}
use evtx.Parser.Chunks.{EvtxParser, next_chunk}

module _ ⦃x : Crates⦄ where
  abbrev pub Item : Type 0 → Type 0
  Item U = Result EvtxError U

  abbrev pub Items : Type 0 → Type 0
  Items U = Result EvtxError (List (Item U))

module _ ⦃x : Crates⦄ {U : Type 0} where
  -- Items in front of the others.
  abbrev pub and_then : List (Item U) → Items U → Items U
  and_then items more = more >>= λ rest. ok (items ++ rest)

  -- What `map` makes of the next record, and the records behind it.
  abbrev pub yielded :
      (Result EvtxError EvtxRecord → Item U) → (IterChunkRecords → Items U) → Next → Items U
  yielded f more (ok (st, none)) = ok []
  yielded f more (ok (st, some r)) = and_then (f r ∷ []) (more st)
  yielded f more (err e) = err e
  yielded f more panic = panic
  yielded f more stuck = stuck

  -- `chunk_records.iter().map(f).collect()`
  unfoldable pub collect_records :
      (Result EvtxError EvtxRecord → Item U) → ℕ → EvtxChunk → IterChunkRecords → Items U
  collect_records f zero chunk st = stuck
  collect_records f (suc fuel) chunk st = yielded f (collect_records f fuel chunk) (next chunk st)

  module _ (f : EvtxChunk → Result EvtxError EvtxRecord → Item U) (fuel : ℕ)
      (ansi_codec : x.Codec) where
    -- An error of `parse` carries the place of the chunk in its batch.
    abbrev pub parsed : ℕ → Result ChunkError EvtxChunk → Items U
    parsed i (ok chunk) = collect_records (f chunk) fuel chunk iter
    parsed i (err e) = ok (err (failed_to_parse_chunk i e) ∷ [])
    parsed i panic = panic
    parsed i stuck = stuck

    abbrev pub chunk_items : ℕ → Result EvtxError EvtxChunkData → Items U
    chunk_items i (ok chunk) = parsed i (new_chunk chunk.bytes chunk.header ansi_codec)
    chunk_items i (err e) = ok (err e ∷ [])
    chunk_items i panic = panic
    chunk_items i stuck = stuck

    -- The records of a batch, from its chunk `i` on.
    unfoldable pub batch_items : ℕ → List (Result EvtxError EvtxChunkData) → Items U
    batch_items i [] = ok []
    batch_items i (chunk ∷ chunks) =
        chunk_items i chunk >>= λ items. and_then items (batch_items (suc i) chunks)

module _ ⦃x : Crates⦄ where
  abbrev pub push_some :
      Option (Result EvtxError EvtxChunkData)
      → ℕ × List (Result EvtxError EvtxChunkData)
      → ℕ × List (Result EvtxError EvtxChunkData)
  push_some none rest = rest
  push_some (some chunk) (current, chunks) = (current, chunk ∷ chunks)

  -- `n` calls of the iterator over the chunks, which is asked again behind its end.
  unfoldable pub take_chunks : ℕ → EvtxParser → ℕ → ℕ × List (Result EvtxError EvtxChunkData)
  take_chunks zero parser current = (current, [])
  take_chunks (suc n) parser current =
      let item = next_chunk parser current in push_some item.1 (take_chunks n parser item.0)

  abbrev pub after_batch :
      {U : Type 0}
      → (List (Result EvtxError EvtxChunkData) → Items U)
      → (ℕ → Items U)
      → ℕ × List (Result EvtxError EvtxChunkData)
      → Items U
  after_batch items more (current, []) = ok []
  after_batch items more (current, chunk ∷ chunks) =
      items (chunk ∷ chunks) >>= λ batch. and_then batch (more current)

  -- `serialized_records` from a chunk number on; `max(num_threads, 1)` chunks make a batch.
  unfoldable pub serialized_records :
      {U : Type 0}
      → (EvtxChunk → Result EvtxError EvtxRecord → Result EvtxError U)
      → ℕ
      → x.Codec
      → ℕ
      → ℕ
      → EvtxParser
      → ℕ
      → Items U
  serialized_records f records_fuel ansi_codec num_threads zero parser current = stuck
  serialized_records f records_fuel ansi_codec num_threads (suc fuel) parser current =
      after_batch (batch_items f records_fuel ansi_codec 0)
        (serialized_records f records_fuel ansi_codec num_threads fuel parser)
        (take_chunks (if ltb num_threads 1 then 1 else num_threads) parser current)

module _ ⦃x : Crates⦄ ⦃f : Formats⦄ ⦃j : SerdeJson⦄ where
  -- `record.and_then(|record| record.into_json_value())`
  unfoldable pub json_value_of :
      ℕ
      → Bool
      → EvtxChunk
      → Result EvtxError EvtxRecord
      → Result EvtxError (SerializedEvtxRecord j.Value)
  json_value_of fuel separate chunk r = r >>= λ record'. into_json_value fuel record' chunk separate

  unfoldable pub records_json_value :
      ℕ → x.Codec → ℕ → Bool → ℕ → EvtxParser → Items (SerializedEvtxRecord j.Value)
  records_json_value fuel ansi_codec num_threads separate batches parser =
      serialized_records (json_value_of fuel separate) fuel ansi_codec num_threads batches parser 0
