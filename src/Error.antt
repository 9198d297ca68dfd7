-- ===== src/Error.antt =====
-- src/err.rs: the error enums, without their messages. What an I/O error captures is in Error/Wrapped.
pub mod Wrapped
use evtx.Base.{ℕ, List, String, Option}
use evtx.Cursor.{IoError}
use evtx.Crates.{Crates}

module _ ⦃x : Crates⦄ where
  pub data DeserializationError : Type 0 where
    failed_to_read_token : String → String → DeserializationError
    unexpected_io_error : DeserializationError
    remove_me : IoError → DeserializationError
    failed_to_deserialize_template : x.Guid → DeserializationError → DeserializationError
    invalid_token : ℕ → ℕ → DeserializationError
    invalid_value_variant : ℕ → ℕ → DeserializationError
    invalid_date_time_error : DeserializationError
    invalid_evtx_record_header_magic : List ℕ → DeserializationError
    invalid_evtx_chunk_magic : List ℕ → DeserializationError
    invalid_evtx_file_header_magic : List ℕ → DeserializationError
    unimplemented_token : String → ℕ → DeserializationError
    unimplemented_value_variant : String → Option ℕ → ℕ → DeserializationError

  pub data SerializationError : Type 0 where
    xml_output_error : SerializationError
    json_structure_error : String → SerializationError
    json_error : SerializationError
    record_contains_invalid_utf8 : SerializationError
    unimplemented : String → SerializationError

  pub data ChunkError : Type 0 where
    incomplete_chunk : ChunkError
    failed_to_seek_to_chunk : IoError → ChunkError
    failed_to_parse_chunk_header : DeserializationError → ChunkError
    invalid_chunk_checksum : ℕ → ℕ → ChunkError
    failed_to_build_string_cache : DeserializationError → ChunkError
    failed_to_build_template_cache : DeserializationError → ChunkError

  pub data EvtxError : Type 0 where
    serialization_error : SerializationError → EvtxError
    deserialization_error : DeserializationError → EvtxError
    failed_to_parse_chunk : ℕ → ChunkError → EvtxError
    failed_to_parse_record : ℕ → EvtxError → EvtxError
    calculation_error : EvtxError
    io_error : IoError → EvtxError
    failed_to_create_record_model : String → EvtxError
