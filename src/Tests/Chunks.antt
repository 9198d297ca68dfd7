-- ===== src/Tests/Chunks.antt =====
-- The theorems on chunks and caches at concrete inputs.
use evtx.Base.{arith, ℕ, ◌≡◌, refl, List, [], ◌∷◌, ◌++◌, true, false, chars, replicate, some, none}
use evtx.Base.Tests.{str_eq}
use evtx.Base.Map.{get, insert}
use evtx.Base.Result.{Result, ok, err, panic, stuck}
use evtx.Cursor.{Cursor, read_exact, seek_ahead, seek_start}
use evtx.Error.{EvtxError, failed_to_read_token}
use evtx.Macros.{
  read_uint, try_read_u8, try_read_u16, try_read_u32, try_read_u64, try_read_filetime, try_seek,
}
use evtx.Binxml.Name.{BinXmlNameLink, read_name, read_name_link}
use evtx.Utils.Strings.{
  decode_units, take_until_nul, strip_nul, read_chars, read_utf16_buffer, decode_buffer,
  read_utf16_string, read_len_prefixed_utf16_string, try_read_len_prefixed_nul,
}
use evtx.StringCache.{
  StringCache, populate, populate_buckets, populate_bucket, read_entry, get_cached_string,
}
use evtx.StringCache.Cycle.{populate_buckets_self}
use evtx.Assemble.Expand.{find_template, expand_templates}
use evtx.TemplateCache.{get_template}
use evtx.Model.Deserialized.{BinXmlTemplateDefinition, template_ref, to_vec}
use evtx.Assemble.Filled.{filled, expand_templates-filled}
use evtx.Assemble.Names.{expand_string_ref_empty}
use evtx.Buckets.{IsComplete}
use evtx.StringCache.Entries.{Entry, populate-IsSound}
use evtx.Chunk.Header
use evtx.Chunk.Header.{EvtxChunkHeader, read_u32_into, no_crc32}
use evtx.Chunk.Data.{
  EvtxChunkData, EvtxChunk, new_chunk_data, check_chunk, validate_checksum,
  validate_header_checksum, validate_data_checksum, slice,
}
use evtx.Chunk.Checksums.{AreValid, new_chunk_data-AreValid}
use evtx.Chunk.RecordHeader
use evtx.Chunk.RecordHeader.{EvtxRecordHeader, record_data_size}
use evtx.Chunk.Records.{EvtxRecord, IterChunkRecords, record_tokens}
use evtx.Binxml.Deserializer.{
  read_tokens, inner_next, is_finished, iter_tokens, read_token, read_next_token,
}
use evtx.Parser.Serialized.{Item, collect_records}
use evtx.Parser.Endless.{collect_records-zero_size}
use evtx.Model.Deserialized.{BinXmlDeserializedTokens, BinXmlValue}
use evtx.Model.Xml.{XmlModel, set_name, attribute_name, attribute_value, finish}
use evtx.Assemble.RecordModel.{
  create_record_model, model_loop, model_step, close_start, close_empty, add_attribute, add_value,
  expand_string_ref,
}
use evtx.Assemble.Counts.{
  count, opens, closes, starts_element, ends_element, create_record_model-count,
}
use evtx.Tests.Sample.{sample_crates}
use evtx.Tests.SampleChunk.{definition_of, first_value, text, sample_chunk}

-- A chunk without events, whose checksums are sums of its bytes.
abbrev chunk_bytes : List ℕ
chunk_bytes =
    chars "ElfChnk"
    ++ (replicate 41 0 ++ (0 ∷ 2 ∷ (replicate 74 0 ++ (0x9d ∷ 2 ∷ replicate 386 0))))

abbrev chunk : EvtxChunkData
chunk = record {
  header = record {
    first_event_record_number = 0;
    last_event_record_number = 0;
    first_event_record_id = 0;
    last_event_record_id = 0;
    header_size = 0;
    last_event_record_data_offset = 0;
    free_space_offset = 512;
    events_checksum = 0;
    header_chunk_checksum = 669;
    flags = 0;
    strings_offsets = replicate 64 0;
    template_offsets = replicate 32 0;
  };
  bytes = chunk_bytes;
}

reads_chunk : new_chunk_data chunk_bytes true ≡ ok chunk
unfolding new_chunk_data check_chunk validate_checksum validate_header_checksum
    validate_data_checksum slice Header.from_reader read_u32_into read_exact seek_ahead read_uint
    try_read_u32 try_read_u64 str_eq
reads_chunk = refl

new_chunk_data-AreValid_example : (chunk_bytes ≡ chunk_bytes) × AreValid chunk
new_chunk_data-AreValid_example = new_chunk_data-AreValid chunk_bytes chunk reads_chunk refl

-- The name "A" at offset 2, with no link.
abbrev name_bytes : List ℕ
name_bytes = 9 ∷ 9 ∷ 0 ∷ 0 ∷ 0 ∷ 0 ∷ 7 ∷ 7 ∷ 1 ∷ 0 ∷ 65 ∷ 0 ∷ 0 ∷ 0 ∷ []

abbrev name_cache : StringCache
name_cache = (2, record { str = chars "A" }) ∷ []

populates : populate name_bytes (0 ∷ 2 ∷ []) ≡ ok name_cache
unfolding populate populate_buckets populate_bucket read_entry read_name read_name_link insert
    try_seek seek_start read_exact read_uint try_read_u32 try_read_u16 try_read_len_prefixed_nul
    read_len_prefixed_utf16_string read_utf16_string read_utf16_buffer read_chars decode_buffer
    decode_units take_until_nul strip_nul
populates = refl

populate-IsSound_example : IsComplete name_bytes (Entry name_bytes) (0 ∷ 2 ∷ []) name_cache
populate-IsSound_example = populate-IsSound name_bytes (0 ∷ 2 ∷ []) name_cache populates

-- A record header of size 0, and nothing behind it.
abbrev record_bytes : List ℕ
record_bytes = 0x2a ∷ 0x2a ∷ 0 ∷ 0 ∷ 0 ∷ 0 ∷ 0 ∷ 0 ∷ 5 ∷ replicate 15 0

abbrev zero_size_chunk : EvtxChunk
zero_size_chunk = record sample_chunk { chunk_bytes = record_bytes }

abbrev at_record : IterChunkRecords
at_record = record { offset_from_chunk_start = 0; exhausted = false }

abbrev zero_size_header : EvtxRecordHeader
zero_size_header = record { data_size = 0; event_record_id = 5; timestamp = replicate 8 0 }

reads_header :
    RecordHeader.from_reader (record { data_ref = record_bytes; position = 0 })
    ≡ ok (zero_size_header, record { data_ref = record_bytes; position = 24 })
unfolding RecordHeader.from_reader read_exact read_uint try_read_u32 try_read_u64 try_read_filetime
    str_eq
reads_header = refl

no_tokens :
    record_tokens zero_size_chunk 24 (record_data_size zero_size_header)
    ≡ err (failed_to_read_token "u8" "<Unknown>")
unfolding record_tokens record_data_size read_tokens inner_next is_finished iter_tokens read_token
    read_next_token try_read_u8 read_uint read_exact
no_tokens = refl

abbrev id_of : Result EvtxError EvtxRecord → Item ℕ
id_of (ok r) = ok r.event_record_id
id_of (err e) = err e
id_of panic = panic
id_of stuck = stuck

collect_records-zero_size_example : collect_records id_of 7 zero_size_chunk at_record ≡ stuck
collect_records-zero_size_example =
    collect_records-zero_size id_of 7 zero_size_chunk at_record zero_size_header
      (record { data_ref = record_bytes; position = 24 }) (failed_to_read_token "u8" "<Unknown>")
      refl refl refl reads_header refl no_tokens

-- An empty element with an attribute, in an element.
abbrev element_tokens : List BinXmlDeserializedTokens
element_tokens =
    BinXmlDeserializedTokens.open_start_element
      (record { data_size = 0; name = record { offset = 10 } })
    ∷ BinXmlDeserializedTokens.close_start_element
    ∷ BinXmlDeserializedTokens.open_start_element
        (record { data_size = 0; name = record { offset = 20 } })
    ∷ BinXmlDeserializedTokens.attribute (record { name = record { offset = 10 } })
    ∷ BinXmlDeserializedTokens.value (BinXmlValue.string_type (chars "a"))
    ∷ BinXmlDeserializedTokens.close_empty_element
    ∷ BinXmlDeserializedTokens.close_element
    ∷ []

abbrev element_model : List XmlModel
element_model =
    XmlModel.open_element (record { name = record { str = chars "Event" }; attributes = [] })
    ∷ XmlModel.open_element (record {
      name = record { str = chars "Data" };
      attributes =
          record {
            name = record { str = chars "Event" };
            value = BinXmlValue.string_type (chars "a");
          }
          ∷ [];
    })
    ∷ XmlModel.close_element
    ∷ XmlModel.close_element
    ∷ []

models : create_record_model element_tokens sample_chunk ≡ ok element_model
unfolding create_record_model model_loop model_step close_start close_empty add_attribute add_value
    expand_string_ref get_cached_string get set_name attribute_name attribute_value finish
models = refl

create_record_model-count_example :
    (count opens element_model ≡ count starts_element element_tokens)
    × (count closes element_model ≡ count ends_element element_tokens)
create_record_model-count_example =
    create_record_model-count element_tokens sample_chunk element_model models

-- The name "A" at offset 2, that links to itself.
abbrev cycle_bytes : List ℕ
cycle_bytes = 9 ∷ 9 ∷ 2 ∷ 0 ∷ 0 ∷ 0 ∷ 7 ∷ 7 ∷ 1 ∷ 0 ∷ 65 ∷ 0 ∷ 0 ∷ 0 ∷ []

abbrev self_link : BinXmlNameLink
self_link = record { next_string = some 2; hash = 0x707 }

abbrev behind_entry : Cursor
behind_entry = record { data_ref = cycle_bytes; position = 14 }

reads_entry :
    read_entry (record { data_ref = cycle_bytes; position = 2 })
    ≡ ok ((2, self_link, record { str = chars "A" }), behind_entry)
unfolding read_entry read_name read_name_link read_exact read_uint try_read_u32 try_read_u16
    try_read_len_prefixed_nul read_len_prefixed_utf16_string read_utf16_string read_utf16_buffer
    read_chars decode_buffer decode_units take_until_nul strip_nul
reads_entry = refl

populate_buckets_self_example :
    populate_buckets 15 (2 ∷ []) [] (record { data_ref = cycle_bytes; position = 0 }) ≡ stuck
populate_buckets_self_example =
    populate_buckets_self cycle_bytes 2 2 self_link (record { str = chars "A" }) behind_entry
      (record { data_ref = cycle_bytes; position = 0 }) 15 [] [] reads_entry refl (omega arith) refl

-- The name "A" at offset 2 of a chunk, that its cache has not.
abbrev uncached_chunk : EvtxChunk
uncached_chunk = record sample_chunk { chunk_bytes = name_bytes }

misses : get_cached_string uncached_chunk.string_cache 2 ≡ none
unfolding get_cached_string get
misses = refl

expand_string_ref_empty_example :
    expand_string_ref (record { offset = 2 }) uncached_chunk ≡ ok (record { str = [] })
expand_string_ref_empty_example =
    expand_string_ref_empty (record { offset = 2 }) uncached_chunk
      (7 ∷ 7 ∷ 1 ∷ 0 ∷ 65 ∷ 0 ∷ 0 ∷ 0 ∷ []) misses refl

-- A definition that holds the same substitution twice: the second use gives a null.
abbrev twice : BinXmlTemplateDefinition
twice = definition_of (first_value ∷ first_value ∷ [])

found_twice : find_template sample_chunk 600 ≡ ok twice
unfolding find_template get_template get
found_twice = refl

fills_twice :
    filled (text (chars "a") ∷ []) [] (first_value ∷ first_value ∷ [])
    ≡ text (chars "a") ∷ BinXmlDeserializedTokens.value BinXmlValue.null_type ∷ []
unfolding filled
fills_twice = refl

expand_templates-filled_example :
    expand_templates 2
      (BinXmlDeserializedTokens.template_instance
          (template_ref 600 (to_vec (text (chars "a") ∷ [])))
        ∷ [])
      sample_chunk
    ≡ ok (filled (text (chars "a") ∷ []) [] (first_value ∷ first_value ∷ []))
expand_templates-filled_example =
    expand_templates-filled 0 sample_chunk 600 (to_vec (text (chars "a") ∷ [])) twice found_twice
      (tt, tt) (tt, (tt, tt))
