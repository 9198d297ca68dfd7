-- ===== src/XmlOutput.antt =====
-- `XmlOutput` of src/xml_output.rs: each visit writes one event. The state is quick-xml's writer.
pub mod Events
pub mod Nested
use evtx.Base.{
  ℕ, ◌≡◌, List, [], ◌∷◌, ◌++◌, Bool, true, false, Option, none, some, Str, chars, length, ltb,
  if◌then◌else◌,
}
use evtx.Base.Result.{Result, ok, err, ◌>>=◌, ok_or}
use evtx.Crates.{Crates}
use evtx.Error.{SerializationError, xml_output_error, unimplemented}
use evtx.Formats.{Formats}
use evtx.Model.Deserialized.{BinXmlValue}
use evtx.Binxml.Name.{BinXmlName}
use evtx.Model.Xml.{XmlAttribute, XmlElement, BinXmlPi}
use evtx.Output.{BinXmlOutput}
use evtx.Convert.Text.{as_cow_str}
use evtx.QuickXml.{Event, BytesText, QuickXml}

module _ ⦃q : QuickXml⦄ where
  -- `with_writer` over an empty `Vec`, with `settings.should_indent()`.
  unfoldable pub with_writer : Bool → q.Writer
  with_writer should_indent = if should_indent then q.new_with_indent b' ' 2 else q.new

module _ ⦃x : Crates⦄ ⦃f : Formats⦄ where
  -- The attribute whose value is an empty text is left out.
  unfoldable pub push_attribute : XmlAttribute → Str → List (Str × Str) → List (Str × Str)
  push_attribute attr value_cow event_builder =
      if ltb 0 (length value_cow)
      then event_builder ++ ((attr.name.str, value_cow) ∷ [])
      else event_builder

  -- `for attr in element.attributes.iter()`
  unfoldable pub push_attributes :
      List XmlAttribute → List (Str × Str) → Result SerializationError (List (Str × Str))
  unfolding push_attribute
  push_attributes [] event_builder = ok event_builder
  push_attributes (attr ∷ attributes) event_builder = do
    value_cow ← as_cow_str attr.value
    push_attributes attributes (push_attribute attr value_cow event_builder)

module _ ⦃x : Crates⦄ ⦃f : Formats⦄ ⦃q : QuickXml⦄ where
  -- An error of the writer is a `SerializationError`.
  abbrev pub write_event : Event → q.Writer → Result SerializationError q.Writer
  write_event event writer = ok_or (q.write_event event writer) xml_output_error

  unfoldable pub visit_end_of_stream : q.Writer → Result SerializationError q.Writer
  visit_end_of_stream writer = write_event Event.eof writer

  unfoldable pub visit_open_start_element :
      XmlElement → q.Writer → Result SerializationError q.Writer
  visit_open_start_element element writer = do
    attributes ← push_attributes element.attributes []
    write_event (Event.start element.name.str attributes) writer

  unfoldable pub visit_close_element : XmlElement → q.Writer → Result SerializationError q.Writer
  visit_close_element element writer = write_event (Event.end element.name.str) writer

  unfoldable pub visit_characters : BinXmlValue → q.Writer → Result SerializationError q.Writer
  visit_characters v writer = do
    cow ← as_cow_str v
    write_event (Event.characters (BytesText.unescaped cow)) writer

  unfoldable pub visit_cdata_section : q.Writer → Result SerializationError q.Writer
  visit_cdata_section writer = err (unimplemented "visit_cdata_section")

  unfoldable pub visit_entity_reference : BinXmlName → q.Writer → Result SerializationError q.Writer
  visit_entity_reference entity writer =
      let xml_ref = chars "&" ++ (entity.str ++ chars ";") in
      write_event (Event.characters (BytesText.from_escaped xml_ref)) writer

  unfoldable pub visit_character_reference : Str → q.Writer → Result SerializationError q.Writer
  visit_character_reference char_ref writer = err (unimplemented "visit_character_reference")

  -- The name and the text with nothing between them.
  unfoldable pub visit_processing_instruction :
      BinXmlPi → q.Writer → Result SerializationError q.Writer
  visit_processing_instruction pi writer =
      write_event (Event.instruction (BytesText.unescaped (pi.name.str ++ pi.text))) writer

  unfoldable pub visit_start_of_stream : q.Writer → Result SerializationError q.Writer
  visit_start_of_stream writer =
      write_event (Event.decl (chars "1.0") (some (chars "utf-8")) none) writer

  abbrev pub xml_visitor : BinXmlOutput q.Writer
  xml_visitor = record {
    visit_end_of_stream = visit_end_of_stream;
    visit_open_start_element = visit_open_start_element;
    visit_close_element = visit_close_element;
    visit_characters = visit_characters;
    visit_entity_reference = visit_entity_reference;
    visit_processing_instruction = visit_processing_instruction;
    visit_start_of_stream = visit_start_of_stream;
  }
