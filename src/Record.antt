-- ===== src/Record.antt =====
-- `EvtxRecord` of src/evtx_record.rs: `into_output`, and what makes JSON and XML of a record.
pub mod Balanced
pub mod Written
use evtx.Base.{ℕ, Bool, Str, if◌then◌else◌}
use evtx.Base.Utf8.{from_utf8}
use evtx.Base.Result.{Result, ok, ◌>>=◌, map_err, ok_or}
use evtx.Crates.{Crates}
use evtx.Error.{
  EvtxError, failed_to_parse_record, serialization_error, json_error, record_contains_invalid_utf8,
}
use evtx.Formats.{Formats}
use evtx.Serde.{SerdeJson, SerdePrint}
use evtx.QuickXml.{QuickXml}
use evtx.XmlOutput.{xml_visitor, with_writer}
use evtx.Output.{BinXmlOutput}
use evtx.Assemble.Parse.{parse_tokens}
use evtx.Chunk.Data.{EvtxChunk}
use evtx.Chunk.Records.{EvtxRecord}
use evtx.Json.Insert.{new_output}
use evtx.Json.Visit.{json_visitor, into_value}

module _ ⦃x : Crates⦄ where
  pub record SerializedEvtxRecord (T : Type 0) : Type 0 where
    pub event_record_id : ℕ
    pub timestamp : x.DateTime
    pub payload : T

  -- An error is wrapped in the id of the record.
  unfoldable pub into_output :
      {S : Type 0} → ℕ → EvtxRecord → EvtxChunk → BinXmlOutput S → S → Result EvtxError S
  into_output fuel r chunk output_builder s =
      map_err (failed_to_parse_record r.event_record_id)
        (parse_tokens output_builder fuel r.tokens chunk s)

module _ ⦃x : Crates⦄ ⦃f : Formats⦄ ⦃j : SerdeJson⦄ where
  unfoldable pub into_json_value :
      ℕ → EvtxRecord → EvtxChunk → Bool → Result EvtxError (SerializedEvtxRecord j.Value)
  into_json_value fuel r chunk separate_json_attributes = do
    output ← into_output fuel r chunk json_visitor (new_output separate_json_attributes)
    v ← map_err serialization_error (into_value output)
    ok (record { event_record_id = r.event_record_id; timestamp = r.timestamp; payload = v })

module _ ⦃x : Crates⦄ ⦃f : Formats⦄ ⦃j : SerdeJson⦄ ⦃p : SerdePrint⦄ where
  -- The value as text, under `settings.should_indent()`.
  unfoldable pub into_json :
      ℕ → EvtxRecord → EvtxChunk → Bool → Bool → Result EvtxError (SerializedEvtxRecord Str)
  into_json fuel r chunk separate_json_attributes indent = do
    record_with_json_value ← into_json_value fuel r chunk separate_json_attributes
    text ← map_err serialization_error (
        ok_or
          (if indent
            then p.to_string_pretty record_with_json_value.payload
            else p.to_string record_with_json_value.payload)
          json_error)
    ok (record {
      event_record_id = record_with_json_value.event_record_id;
      timestamp = record_with_json_value.timestamp;
      payload = text;
    })

module _ ⦃x : Crates⦄ ⦃f : Formats⦄ ⦃q : QuickXml⦄ where
  unfoldable pub into_xml :
      ℕ → EvtxRecord → EvtxChunk → Bool → Result EvtxError (SerializedEvtxRecord Str)
  into_xml fuel r chunk indent = do
    writer ← into_output fuel r chunk xml_visitor (with_writer indent)
    text ←
        map_err serialization_error
          (ok_or (from_utf8 (q.into_inner writer)) record_contains_invalid_utf8)
    ok (record { event_record_id = r.event_record_id; timestamp = r.timestamp; payload = text })
