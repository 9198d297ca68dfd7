-- ===== src/Json/Visit.antt =====
-- `BinXmlOutput for JsonOutput`, and `into_value`.
use evtx.Base.{
  List, [], ◌∷◌, ◌++◌, Bool, true, false, Option, none, some, Str, chars, str_eq, if◌then◌else◌,
}
use mathlib.Core.Option
use evtx.Base.Result.{Result, ok, err, ◌>>=◌}
use evtx.Crates.{Crates}
use evtx.Error.{SerializationError, json_structure_error, unimplemented}
use evtx.Formats.{Formats}
use evtx.Serde.{SerdeJson, View}
use evtx.Model.Deserialized.{BinXmlValue}
use evtx.Model.Xml.{XmlAttribute, XmlElement}
use evtx.Binxml.Name.{BinXmlName}
use evtx.Convert.Text.{as_cow_str}
use evtx.Convert.ToJson.{to_json, json_string}
use evtx.Output.{BinXmlOutput}
use evtx.Json.Path.{JsonResult, drop_last, update_current}
use evtx.Json.Insert.{
  JsonOutput, insert_node_without_attributes, insert_node_with_attributes, insert_data_node,
}

module _ ⦃x : Crates⦄ ⦃f : Formats⦄ ⦃j : SerdeJson⦄ where
  abbrev pub is_nil : List XmlAttribute → Bool
  is_nil [] = true
  is_nil (a ∷ rest) = false

  unfoldable pub visit_open_start_element :
      XmlElement → JsonOutput → Result SerializationError JsonOutput
  visit_open_start_element element out =
      let element_name = element.name.str in
      if str_eq element_name (chars "Data")
      then insert_data_node element out
      else if is_nil element.attributes
      then insert_node_without_attributes element_name out
      else insert_node_with_attributes element element_name out

  unfoldable pub visit_close_element :
      XmlElement → JsonOutput → Result SerializationError JsonOutput
  visit_close_element element out = ok (record out { stack = drop_last out.stack })

  abbrev text_key : Str
  text_key = chars "#text"

  abbrev pub unexpected : JsonResult
  unexpected = err (json_structure_error "expected current value to be a String or an Array")

  -- The "#text" of an object: a second text turns it into an array.
  abbrev pub add_text : j.Map → Option (View j.Value j.Map j.Number) → BinXmlValue → JsonResult
  add_text m none v = do w ← to_json v; ok (j.of_view (View.object (j.insert m text_key w)))
  add_text m (some View.null) v = do
    w ← to_json v
    ok (j.of_view (View.object (j.insert m text_key w)))
  add_text m (some (View.string perv_value)) v = do
    w ← to_json v
    ok (
        j.of_view (
          View.object (
            j.insert (j.remove m text_key) text_key
              (j.of_view (View.array (json_string perv_value ∷ w ∷ []))))))
  add_text m (some (View.array arr)) v = do
    w ← to_json v
    ok (j.of_view (View.object (j.insert m text_key (j.of_view (View.array (arr ++ (w ∷ [])))))))
  add_text m (some other) v = unexpected

  -- The match on the current value; with separate attributes a text beside children is discarded.
  abbrev pub add_characters :
      Bool → View j.Value j.Map j.Number → j.Value → BinXmlValue → JsonResult
  add_characters separate View.null current v = to_json v
  add_characters true (View.object m) current v = if j.is_empty m then to_json v else ok current
  add_characters false (View.object m) current v =
      add_text m (Option.map j.view (j.get m text_key)) v
  add_characters separate (View.string current_string) current v = do
    s ← as_cow_str v
    ok (json_string (current_string ++ s))
  add_characters separate (View.array arr) current v = do
    w ← to_json v
    ok (j.of_view (View.array (arr ++ (w ∷ []))))
  add_characters separate other current v = unexpected

  unfoldable pub visit_characters : BinXmlValue → JsonOutput → Result SerializationError JsonOutput
  visit_characters v out = do
    document ←
        update_current out.stack
          (λ current. add_characters out.separate_json_attributes (j.view current) current v)
          out.document
    ok (record out { document = document })

  abbrev pub visit_unescaped : Option Str → JsonOutput → Result SerializationError JsonOutput
  visit_unescaped (some escaped) out = visit_characters (BinXmlValue.string_type escaped) out
  visit_unescaped none out = err (json_structure_error "Unterminated XML Entity")

  -- The entity is terminated and unescaped, and goes on as text.
  unfoldable pub visit_entity_reference :
      BinXmlName → JsonOutput → Result SerializationError JsonOutput
  visit_entity_reference entity out =
      visit_unescaped (f.unescape (chars "&" ++ (entity.str ++ chars ";"))) out

  abbrev pub json_visitor : BinXmlOutput JsonOutput
  json_visitor = record {
    visit_end_of_stream = λ out. ok out;
    visit_open_start_element = visit_open_start_element;
    visit_close_element = visit_close_element;
    visit_characters = visit_characters;
    visit_entity_reference = visit_entity_reference;
    visit_processing_instruction = λ p out. err (unimplemented "visit_processing_instruction_data");
    visit_start_of_stream = λ out. ok out;
  }

  abbrev pub value_at_end : List Str → j.Value → JsonResult
  value_at_end [] document = ok document
  value_at_end (key ∷ stack) document =
      err (json_structure_error "Invalid stream, EOF reached before closing all attributes")

  unfoldable pub into_value : JsonOutput → JsonResult
  into_value out = value_at_end out.stack out.document
