-- ===== src/Tests/SampleChunk.antt =====
-- A small chunk with a template that holds an instance of itself, and the tokens of a small record.
use evtx.Base.{ℕ, List, [], ◌∷◌, Str, chars, false}
use evtx.Model.ValueType.{BinXmlValueType}
use evtx.Model.Deserialized.{
  BinXmlValue, BinXmlDeserializedTokens, BinXmlTemplateDefinition, template_ref, template_instance,
  value, substitution, end_of_stream, to_vec, bin_xml_type,
}
use evtx.Model.Xml.{XmlElement, XmlModel}
use evtx.FileHeader.{EvtxFileHeader}
use evtx.Chunk.Header.{EvtxChunkHeader}
use evtx.Chunk.Data.{EvtxChunk}
use evtx.Parser.Chunks.{EvtxParser}
use evtx.Tests.Sample.{sample_crates}

abbrev pub sample_header : EvtxChunkHeader
sample_header = record {
  first_event_record_number = 1;
  last_event_record_number = 1;
  first_event_record_id = 1;
  last_event_record_id = 1;
  header_size = 128;
  last_event_record_data_offset = 512;
  free_space_offset = 600;
  events_checksum = 0;
  header_chunk_checksum = 0;
  flags = 0;
  strings_offsets = [];
  template_offsets = [];
}

abbrev pub definition_of : List BinXmlDeserializedTokens → BinXmlTemplateDefinition
definition_of tokens = record {
  header = record { next_template_offset = 0; guid = []; data_size = 0 };
  tokens = to_vec tokens;
}

abbrev pub text : Str → BinXmlDeserializedTokens
text s = value (BinXmlValue.string_type s)

-- The instance of the template at the offset, with no values.
abbrev pub instance_at : ℕ → BinXmlDeserializedTokens
instance_at offset = template_instance (template_ref offset (to_vec []))

abbrev pub first_value : BinXmlDeserializedTokens
first_value =
    substitution
      (record { substitution_index = 0; value_type = BinXmlValueType.string_type; ignore = false })

-- The template at 600 is its first value, twice; that at 700 begins with itself.
abbrev pub self_definition : BinXmlTemplateDefinition
self_definition = definition_of (instance_at 700 ∷ end_of_stream ∷ [])

abbrev pub sample_chunk : EvtxChunk
sample_chunk = record {
  chunk_bytes = [];
  header = sample_header;
  string_cache = (10, record { str = chars "Event" }) ∷ (20, record { str = chars "Data" }) ∷ [];
  template_table =
      (600, definition_of (first_value ∷ first_value ∷ [])) ∷ (700, self_definition) ∷ [];
  ansi_codec = tt;
}

abbrev pub nested_tokens : List BinXmlDeserializedTokens
nested_tokens =
    value (
      bin_xml_type
        (to_vec (template_instance (template_ref 600 (to_vec (text (chars "a") ∷ []))) ∷ [])))
    ∷ text (chars "b")
    ∷ []

abbrev pub event : XmlElement
event = record { name = record { str = chars "Event" }; attributes = [] }

-- An element that holds a text, and is closed.
abbrev pub event_model : List XmlModel
event_model =
    XmlModel.open_element event
    ∷ XmlModel.value (BinXmlValue.string_type (chars "a"))
    ∷ XmlModel.close_element
    ∷ []

abbrev pub sample_file_header : EvtxFileHeader
sample_file_header = record {
  first_chunk_number = 0;
  last_chunk_number = 0;
  next_record_id = 1;
  header_size = 128;
  minor_version = 1;
  major_version = 3;
  header_block_size = 4096;
  chunk_count = 1;
  flags = 0;
  checksum = 0;
}

-- A file that ends before its first chunk.
abbrev pub short_file : EvtxParser
short_file = record {
  contents = 1 ∷ 2 ∷ 3 ∷ [];
  header = sample_file_header;
  validate_checksums = false;
  calculated_chunk_count = 2;
}
