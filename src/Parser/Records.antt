-- ===== src/Parser/Records.antt =====
-- The rest of `EvtxParser` and its iterators, src/evtx_parser.rs: buffers, the configuration, chunks,
-- records as XML and as JSON. Of the configuration the parser itself reads whether checksums are
-- validated; the iterators over records take the other settings from it.
use evtx.Base.{ℕ, List, Bool, Option, Str}
use evtx.Base.Result.{Result, ◌>>=◌}
use evtx.Crates.{Crates}
use evtx.Error.{EvtxError}
use evtx.Formats.{Formats}
use evtx.Serde.{SerdeJson, SerdePrint}
use evtx.QuickXml.{QuickXml}
use evtx.Chunk.Data.{EvtxChunk, EvtxChunkData}
use evtx.Chunk.Records.{EvtxRecord}
use evtx.Record.{SerializedEvtxRecord, into_json, into_xml}
use evtx.Parser.Chunks.{EvtxParser, from_read_seek, find_next_chunk, after_find}
use evtx.Parser.Settings.{ParserSettings}
use evtx.Parser.Serialized.{Items, serialized_records}

module _ ⦃x : Crates⦄ where
  -- A buffer is read like a file.
  unfoldable pub from_buffer : List ℕ → Result EvtxError EvtxParser
  from_buffer buffer = from_read_seek buffer

  unfoldable pub with_configuration : ParserSettings → EvtxParser → EvtxParser
  with_configuration configuration parser = record parser {
    validate_checksums = configuration.validate_checksums;
  }

  -- The iterator that owns its parser.
  pub record IntoIterChunks : Type 0 where
    pub parser : EvtxParser
    pub current_chunk_number : ℕ

  unfoldable pub into_chunks : EvtxParser → IntoIterChunks
  into_chunks parser = record { parser = parser; current_chunk_number = 0 }

  unfoldable pub next_into_chunk :
      IntoIterChunks → IntoIterChunks × Option (Result EvtxError EvtxChunkData)
  next_into_chunk chunks =
      let item =
        after_find chunks.current_chunk_number
          (find_next_chunk chunks.parser chunks.current_chunk_number) in
      (record chunks { current_chunk_number = item.0 }, item.1)

module _ ⦃x : Crates⦄ ⦃f : Formats⦄ ⦃q : QuickXml⦄ where
  -- `record.and_then(|record| record.into_xml())`
  unfoldable pub xml_of :
      ℕ
      → Bool
      → EvtxChunk
      → Result EvtxError EvtxRecord
      → Result EvtxError (SerializedEvtxRecord Str)
  xml_of fuel indent chunk r = r >>= λ record'. into_xml fuel record' chunk indent

  unfoldable pub records : ℕ → ParserSettings → ℕ → EvtxParser → Items (SerializedEvtxRecord Str)
  records fuel settings batches parser =
      serialized_records (xml_of fuel settings.indent) fuel settings.ansi_codec settings.num_threads
        batches parser 0

module _ ⦃x : Crates⦄ ⦃f : Formats⦄ ⦃j : SerdeJson⦄ ⦃p : SerdePrint⦄ where
  -- `record.and_then(|record| record.into_json())`
  unfoldable pub json_of :
      ℕ
      → ParserSettings
      → EvtxChunk
      → Result EvtxError EvtxRecord
      → Result EvtxError (SerializedEvtxRecord Str)
  json_of fuel settings chunk r = r >>= λ record'.
      into_json fuel record' chunk settings.separate_json_attributes settings.indent

  unfoldable pub records_json :
      ℕ → ParserSettings → ℕ → EvtxParser → Items (SerializedEvtxRecord Str)
  records_json fuel settings batches parser =
      serialized_records (json_of fuel settings) fuel settings.ansi_codec settings.num_threads
        batches parser 0
