-- ===== src/Tests/Records.antt =====
-- A whole record at a concrete input.
use evtx.Base.{some, ◌≡◌, refl, List, [], ◌∷◌, false, chars, replicate, All}
use evtx.Base.Tests.{str_eq}
use evtx.Base.Map.{get}
use evtx.Base.Result.{ok}
use evtx.Model.Deserialized.{BinXmlDeserializedTokens}
use evtx.Model.Xml.{set_name, finish}
use evtx.StringCache.{get_cached_string}
use evtx.Chunk.Records.{EvtxRecord}
use evtx.Assemble.Expand.{expand_templates, expand_all, expand_token}
use evtx.Assemble.Flat.{IsExpanded}
use evtx.Assemble.RecordModel.{
  create_record_model, model_loop, model_step, close_start, add_value, expand_string_ref,
}
use evtx.Assemble.Counts.{tags, token_tags}
use evtx.Assemble.Parse.{parse_tokens, visit_record, visit_models, visit_model, visit_close}
use evtx.Json.Path.{
  drop_last, get_key, ensure_child, put_key, update_at, create_path, update_object, update_current,
  update_parent,
}
use evtx.Json.Insert.{insert_node_without_attributes, insert_placeholder, is_null, is_empty_object}
use evtx.Json.Visit.{visit_open_start_element, visit_close_element, visit_characters, into_value}
use evtx.Convert.ToJson.{to_json}
use evtx.Convert.Text.{as_cow_str}
use evtx.Record.{SerializedEvtxRecord, into_output, into_json_value}
use evtx.Record.Balanced.{depth, into_json_value-balanced}
use evtx.Tests.Sample.{sample_crates}
use evtx.Tests.SampleJson.{Json, Entries, sample_json, sample_formats}
use evtx.Tests.SampleChunk.{sample_chunk, text}

-- <Event>a</Event>
abbrev pub event_tokens : List BinXmlDeserializedTokens
event_tokens =
    BinXmlDeserializedTokens.open_start_element
      (record { data_size = 0; name = record { offset = 10 } })
    ∷ BinXmlDeserializedTokens.close_start_element
    ∷ text (chars "a")
    ∷ BinXmlDeserializedTokens.close_element
    ∷ []

abbrev pub event_record : EvtxRecord
event_record = record { event_record_id = 7; timestamp = replicate 8 0; tokens = event_tokens }

abbrev event_json : SerializedEvtxRecord Json
event_json = record {
  event_record_id = 7;
  timestamp = replicate 8 0;
  payload =
      Json.object (Entries.entry (chars "Event") (Json.string (chars "a")) Entries.no_entries);
}

serializes : into_json_value 2 event_record sample_chunk false ≡ ok event_json
unfolding into_json_value into_output parse_tokens expand_templates expand_all expand_token
    create_record_model model_loop model_step close_start add_value expand_string_ref
    get_cached_string get set_name finish visit_record visit_models visit_model visit_close
    visit_open_start_element visit_close_element visit_characters into_value
    insert_node_without_attributes insert_placeholder drop_last get_key ensure_child put_key
    update_at create_path update_object update_current update_parent is_null is_empty_object to_json
    as_cow_str str_eq
serializes = refl

into_json_value-balanced_example :
    (expanded : List BinXmlDeserializedTokens) × (expand_templates 2 event_tokens sample_chunk
      ≡ ok expanded)
    × All IsExpanded expanded
    × (depth (tags token_tags expanded) 0 ≡ some 0)
    × (event_json.event_record_id ≡ event_record.event_record_id)
    × (event_json.timestamp ≡ event_record.timestamp)
into_json_value-balanced_example =
    into_json_value-balanced 2 event_record sample_chunk false event_json serializes
