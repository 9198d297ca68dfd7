-- ===== src/Chunk/Data.antt =====
-- `EvtxChunkData` and `EvtxChunk` of src/evtx_chunk.rs. The settings of a chunk are its codec here.
use evtx.Base.{
  ℕ, ◌-◌, List, ◌++◌, Bool, true, false, ◌&&◌, take, drop, length, leb, ◌==◌, if◌then◌else◌,
}
use evtx.Base.Result.{Result, ok, err, panic, ◌>>=◌, map_err}
use evtx.Crates.{Crates}
use evtx.Error.{
  ChunkError, failed_to_parse_chunk_header, invalid_chunk_checksum, failed_to_build_string_cache,
}
use evtx.Chunk.Header.{EvtxChunkHeader, from_reader, no_crc32}
use evtx.StringCache
use evtx.StringCache.{StringCache, run}
use evtx.TemplateCache
use evtx.TemplateCache.{TemplateCache}

abbrev pub chunk_header_size : ℕ
chunk_header_size = 512

pub record EvtxChunkData : Type 0 where
  pub header : EvtxChunkHeader
  pub bytes : List ℕ

module _ ⦃x : Crates⦄ where
  -- `&data[start..end]`, which panics out of range.
  unfoldable pub slice : ℕ → ℕ → List ℕ → Result ChunkError (List ℕ)
  slice start stop d =
      if leb start stop && leb stop (length d)
      then ok (take (stop - start) (drop start d))
      else panic

  unfoldable pub validate_data_checksum : EvtxChunkData → Result ChunkError Bool
  validate_data_checksum chunk = if x.contains chunk.header.flags no_crc32 then ok true else (do
    events ← slice chunk_header_size chunk.header.free_space_offset chunk.bytes
    ok (x.crc32 events == chunk.header.events_checksum))

  -- The slices are taken before the flag is looked at.
  unfoldable pub validate_header_checksum : EvtxChunkData → Result ChunkError Bool
  validate_header_checksum chunk = do
    header_bytes_1 ← slice 0 120 chunk.bytes
    header_bytes_2 ← slice 128 512 chunk.bytes
    ok (
        if x.contains chunk.header.flags no_crc32
        then true
        else x.crc32 (header_bytes_1 ++ header_bytes_2) == chunk.header.header_chunk_checksum)

  -- `&&` does not look at the data where the header is wrong.
  unfoldable pub validate_checksum : EvtxChunkData → Result ChunkError Bool
  validate_checksum chunk = do
    header_valid ← validate_header_checksum chunk
    if header_valid then validate_data_checksum chunk else ok false

  unfoldable pub check_chunk : EvtxChunkData → Bool → Result ChunkError EvtxChunkData
  check_chunk chunk false = ok chunk
  check_chunk chunk true = do
    valid ← validate_checksum chunk
    if valid then ok chunk else err (invalid_chunk_checksum 0 0)

  -- `EvtxChunkData::new`
  unfoldable pub new_chunk_data : List ℕ → Bool → Result ChunkError EvtxChunkData
  new_chunk_data bytes validate = do
    header ← map_err failed_to_parse_chunk_header (run from_reader bytes)
    check_chunk (record { header = header; bytes = bytes }) validate

  pub record EvtxChunk : Type 0 where
    pub chunk_bytes : List ℕ
    pub header : EvtxChunkHeader
    pub string_cache : StringCache
    pub template_table : TemplateCache
    pub ansi_codec : x.Codec

  -- `EvtxChunk::new`
  unfoldable pub new_chunk : List ℕ → EvtxChunkHeader → x.Codec → Result ChunkError EvtxChunk
  new_chunk bytes header ansi_codec = do
    string_cache ←
        map_err failed_to_build_string_cache (StringCache.populate bytes header.strings_offsets)
    template_table ←
        map_err failed_to_parse_chunk_header
          (TemplateCache.populate bytes header.template_offsets ansi_codec)
    ok (record {
      chunk_bytes = bytes;
      header = header;
      string_cache = string_cache;
      template_table = template_table;
      ansi_codec = ansi_codec;
    })
