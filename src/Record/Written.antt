-- ===== src/Record/Written.antt =====
-- What a record that `into_xml` of src/evtx_record.rs has serialized is known to be.
use evtx.Base.{ℕ, ◌≡◌, ap, sym, ◌∙◌, Str, List, Bool, some}
use evtx.Base.Utf8.{from_utf8}
use evtx.Base.Result.{Result, ok, ◌>>=◌, >>=-ok, map_err, map_err-ok, ok_or}
use evtx.Crates.{Crates}
use evtx.Error.{
  EvtxError, failed_to_parse_record, serialization_error, record_contains_invalid_utf8,
}
use evtx.Formats.{Formats}
use evtx.Model.Deserialized.{BinXmlDeserializedTokens}
use evtx.Model.Xml.{XmlModel}
use evtx.Chunk.Data.{EvtxChunk}
use evtx.Chunk.Records.{EvtxRecord}
use evtx.Assemble.Expand.{expand_templates}
use evtx.Assemble.RecordModel.{create_record_model}
use evtx.Assemble.Parse.{parse_tokens}
use evtx.Assemble.Steps.{parse_tokens-ok}
use evtx.QuickXml.{QuickXml, write_all}
use evtx.XmlOutput.{xml_visitor, with_writer}
use evtx.XmlOutput.Events.{document_of, visit_record-wrote, ok_or-ok}
use evtx.Record.{SerializedEvtxRecord, into_output, into_xml}

module _ ⦃x : Crates⦄ ⦃f : Formats⦄ ⦃q : QuickXml⦄ where
  abbrev serialized_as : EvtxRecord → Str → SerializedEvtxRecord Str
  serialized_as r text = record {
    event_record_id = r.event_record_id;
    timestamp = r.timestamp;
    payload = text;
  }

  abbrev xml_text : q.Writer → Result EvtxError Str
  xml_text w =
      map_err serialization_error (ok_or (from_utf8 (q.into_inner w)) record_contains_invalid_utf8)

-- Where a record is serialized to XML, its tokens have been expanded and made a record model, the writer with
-- the indent of the settings has been given exactly the document of that model, and the text is what
-- the bytes of the writer stand for; the id and the time are those of the record.
pub into_xml-wrote :
    ⦃x : Crates⦄ ⦃f : Formats⦄ ⦃q : QuickXml⦄ (fuel : ℕ) (r : EvtxRecord) (chunk : EvtxChunk)
    (indent : Bool) (serialized : SerializedEvtxRecord Str)
    → into_xml fuel r chunk indent ≡ ok serialized
    → (expanded : List BinXmlDeserializedTokens) × (model : List XmlModel) × (writer : q.Writer)
      × (expand_templates fuel r.tokens chunk ≡ ok expanded)
      × (create_record_model expanded chunk ≡ ok model)
      × (write_all (document_of model) (with_writer indent) ≡ some writer)
      × (from_utf8 (q.into_inner writer) ≡ some serialized.payload)
      × (serialized.event_record_id ≡ r.event_record_id)
      × (serialized.timestamp ≡ r.timestamp)
unfolding into_xml into_output
into_xml-wrote ⦃q = q⦄ fuel r chunk indent serialized h =
    let (writer, e, k) =
      >>=-ok (into_output fuel r chunk xml_visitor (with_writer indent))
        (λ w. xml_text w >>= λ text. ok (serialized_as r text)) serialized h in
    let (text, g, l) = >>=-ok (xml_text writer) (λ text. ok (serialized_as r text)) serialized k in
    let parsed : parse_tokens xml_visitor fuel r.tokens chunk (with_writer indent) ≡ ok writer =
      map_err-ok (failed_to_parse_record r.event_record_id)
        (parse_tokens xml_visitor fuel r.tokens chunk (with_writer indent)) writer e in
    let (expanded, model, expands, made, visited) =
      parse_tokens-ok xml_visitor fuel r.tokens chunk (with_writer indent) writer parsed in
    let same : serialized_as r text ≡ serialized = cc in
    let decoded : from_utf8 (q.into_inner writer) ≡ some text =
      ok_or-ok (from_utf8 (q.into_inner writer)) record_contains_invalid_utf8 text (
        map_err-ok serialization_error
          (ok_or (from_utf8 (q.into_inner writer)) record_contains_invalid_utf8) text g) in
    (
      expanded,
      model,
      writer,
      expands,
      made,
      visit_record-wrote model (with_writer indent) writer visited,
      decoded ∙ ap (λ z. some z.payload) same,
      ap (λ z. z.event_record_id) (sym same),
      ap (λ z. z.timestamp) (sym same),
    )
