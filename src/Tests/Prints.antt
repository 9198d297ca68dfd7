-- ===== src/Tests/Prints.antt =====
-- What is printed of records: XML, at concrete inputs.
use evtx.Base.{◌≡◌, refl, List, [], ◌∷◌, Str, some, false, chars, replicate}
use evtx.Base.Utf8.{from_utf8}
use evtx.Base.Map.{get}
use evtx.Base.Result.{ok}
use evtx.Model.Deserialized.{BinXmlDeserializedTokens}
use evtx.Model.Xml.{XmlModel, XmlElement, open_element, close_element, set_name, finish}
use evtx.StringCache.{get_cached_string}
use evtx.Assemble.Expand.{expand_templates, expand_all, expand_token}
use evtx.Assemble.RecordModel.{
  create_record_model, model_loop, model_step, close_start, add_value, expand_string_ref,
}
use evtx.Assemble.Nesting.{open_elements}
use evtx.Assemble.Parse.{parse_tokens, visit_record, visit_models, visit_model, visit_close}
use evtx.Convert.Text.{as_cow_str}
use evtx.QuickXml.{Event, write_all}
use evtx.XmlOutput.{
  xml_visitor, with_writer, push_attributes, visit_start_of_stream, visit_end_of_stream,
  visit_open_start_element, visit_close_element, visit_characters,
}
use evtx.XmlOutput.Events.{document_of}
use evtx.XmlOutput.Nested.{open_tags, names, visit_record-nested}
use evtx.Record.{SerializedEvtxRecord, into_output, into_xml}
use evtx.Record.Written.{into_xml-wrote}
use evtx.Tests.Sample.{sample_crates}
use evtx.Tests.SampleJson.{sample_formats}
use evtx.Tests.SampleXml.{sample_xml}
use evtx.Tests.SampleChunk.{sample_chunk}
use evtx.Tests.Records.{event_tokens, event_record}

abbrev event_xml : SerializedEvtxRecord Str
event_xml = record {
  event_record_id = 7;
  timestamp = replicate 8 0;
  payload = chars "<?xml?><Event>a</Event>";
}

prints_xml : into_xml 2 event_record sample_chunk false ≡ ok event_xml
unfolding into_xml into_output parse_tokens expand_templates expand_all expand_token
    create_record_model model_loop model_step close_start add_value expand_string_ref
    get_cached_string get set_name finish visit_record visit_models visit_model visit_close
    visit_open_start_element visit_close_element visit_characters visit_start_of_stream
    visit_end_of_stream push_attributes with_writer as_cow_str from_utf8
prints_xml = refl

into_xml-wrote_example :
    (expanded : List BinXmlDeserializedTokens) × (model : List XmlModel) × (writer : Str)
    × (expand_templates 2 event_tokens sample_chunk ≡ ok expanded)
    × (create_record_model expanded sample_chunk ≡ ok model)
    × (write_all (document_of model) (with_writer false) ≡ some writer)
    × (from_utf8 writer ≡ some event_xml.payload)
    × (event_xml.event_record_id ≡ event_record.event_record_id)
    × (event_xml.timestamp ≡ event_record.timestamp)
into_xml-wrote_example = into_xml-wrote 2 event_record sample_chunk false event_xml prints_xml

abbrev event_element : XmlElement
event_element = record { name = record { str = chars "Event" }; attributes = [] }

abbrev event_model : List XmlModel
event_model = open_element event_element ∷ open_element event_element ∷ close_element ∷ []

visits_model : visit_record xml_visitor event_model [] ≡ ok (chars "<?xml?><Event><Event></Event>")
unfolding visit_record visit_models visit_model visit_close visit_open_start_element
    visit_close_element visit_start_of_stream visit_end_of_stream push_attributes
visits_model = refl

visit_record-nested_example :
    (events : List Event) × (elements : List XmlElement) × (write_all events []
      ≡ some (chars "<?xml?><Event><Event></Event>"))
    × (open_elements event_model [] ≡ some elements)
    × (open_tags events [] ≡ some (names elements))
visit_record-nested_example =
    visit_record-nested event_model [] (chars "<?xml?><Event><Event></Event>") visits_model
