-- ===== src/Parser/Chunks.antt =====
-- The chunks of a file: `from_read_seek`, `allocate_chunk`, `find_next_chunk` and the iterators
-- over chunks. The file is its bytes, as in `from_buffer`: a seek to any `u64` and a read do not fail, and a
-- read past the end is short. A `usize` has 64 bits.
use evtx.Base.{
  ℕ, zero, suc, ◌+◌, ◌-◌, ◌*◌, ◌/◌, ◌%◌, ◌^◌, List, Bool, false, Option, none, some, take, drop,
  length, all_of, ltb, leb, ◌==◌, if◌then◌else◌,
}
use evtx.Base.Result.{Result, ok, err, panic, stuck, ◌>>=◌, map_err}
use evtx.Crates.{Crates}
use evtx.Error.{
  EvtxError, deserialization_error, calculation_error, failed_to_parse_chunk, incomplete_chunk,
}
use evtx.FileHeader.{EvtxFileHeader, from_stream}
use evtx.StringCache.{run}
use evtx.Chunk.Data.{EvtxChunkData, new_chunk_data}

abbrev pub evtx_chunk_size : ℕ
evtx_chunk_size = 65536

abbrev pub evtx_file_header_size : ℕ
evtx_file_header_size = 4096

-- The `u64` that holds chunk numbers.
abbrev pub max_u64 : ℕ
max_u64 = 2 ^ 64 - 1

pub record EvtxParser : Type 0 where
  pub contents : List ℕ
  pub header : EvtxFileHeader
  pub validate_checksums : Bool
  pub calculated_chunk_count : ℕ

module _ ⦃x : Crates⦄ where
  -- `from_read_seek`: the chunks are counted by the size of the stream.
  unfoldable pub from_read_seek : List ℕ → Result EvtxError EvtxParser
  from_read_seek contents = do
    evtx_header ← map_err deserialization_error (run from_stream contents)
    if ltb (length contents) evtx_header.header_block_size
        then err calculation_error
        else ok (record {
          contents = contents;
          header = evtx_header;
          validate_checksums = false;
          calculated_chunk_count =
              (length contents - evtx_header.header_block_size) / evtx_chunk_size;
        })

  -- The offset of a chunk, in a `usize`.
  abbrev pub chunk_offset : ℕ → ℕ
  chunk_offset chunk_number =
      (evtx_file_header_size + chunk_number * evtx_chunk_size % 2 ^ 64) % 2 ^ 64

  -- `take(EVTX_CHUNK_SIZE).read_to_end` from there.
  unfoldable pub chunk_bytes : List ℕ → ℕ → List ℕ
  chunk_bytes contents chunk_number =
      take evtx_chunk_size (drop (chunk_offset chunk_number) contents)

  -- `chunk_data.iter().all(|x| *x == 0)`
  unfoldable pub is_zeros : List ℕ → Bool
  is_zeros bytes = all_of (λ b. b == 0) bytes

  unfoldable pub allocate_chunk : List ℕ → ℕ → Bool → Result EvtxError (Option EvtxChunkData)
  allocate_chunk contents chunk_number validate_checksum =
      let chunk_data = chunk_bytes contents chunk_number in
      if length chunk_data == evtx_chunk_size
      then if is_zeros chunk_data
        then ok none
        else map_err (failed_to_parse_chunk chunk_number)
            (new_chunk_data chunk_data validate_checksum >>= λ chunk. ok (some chunk))
      else err (failed_to_parse_chunk chunk_number incomplete_chunk)

  -- What `find_next_chunk` gives: none at the end, or a chunk or an error with its number.
  pub data Found : Type 0 where
    end : Found
    found : Result EvtxError EvtxChunkData → ℕ → Found

  -- One round of the loop of `find_next_chunk`: what it returns, or the next number.
  abbrev pub after_allocate :
      EvtxParser → ℕ → Result EvtxError (Option EvtxChunkData) → Found → Found
  after_allocate parser chunk_number (err e) more =
      if leb parser.calculated_chunk_count chunk_number then end else found (err e) chunk_number
  after_allocate parser chunk_number (ok none) more = if chunk_number == max_u64 then end else more
  after_allocate parser chunk_number (ok (some chunk)) more = found (ok chunk) chunk_number
  after_allocate parser chunk_number panic more = found panic chunk_number
  after_allocate parser chunk_number stuck more = found stuck chunk_number

  -- The loop; a fuel of zero gives `stuck`.
  unfoldable pub find_chunk_rounds : ℕ → EvtxParser → ℕ → Found
  find_chunk_rounds zero parser chunk_number = found stuck chunk_number
  find_chunk_rounds (suc fuel) parser chunk_number =
      let more = find_chunk_rounds fuel parser (chunk_number + 1) in
      after_allocate parser chunk_number
        (allocate_chunk parser.contents chunk_number parser.validate_checksums) more

  -- An empty chunk lies in the file, so the chunks that fit it bound the rounds if its length fits a `u64`.
  unfoldable pub find_next_chunk : EvtxParser → ℕ → Found
  find_next_chunk parser chunk_number =
      find_chunk_rounds (length parser.contents / evtx_chunk_size + 2) parser chunk_number

  -- `IterChunks::next`: the current chunk number, and the item.
  abbrev pub after_find : ℕ → Found → ℕ × Option (Result EvtxError EvtxChunkData)
  after_find current end = (current, none)
  after_find current (found chunk chunk_number) =
      if chunk_number == max_u64 then (current, none) else (chunk_number + 1, some chunk)

  unfoldable pub next_chunk : EvtxParser → ℕ → ℕ × Option (Result EvtxError EvtxChunkData)
  next_chunk parser current = after_find current (find_next_chunk parser current)
