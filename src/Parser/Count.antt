-- ===== src/Parser/Count.antt =====
-- The chunk count of `from_read_seek` of src/evtx_parser.rs.
use evtx.Base.{
  ℕ, ◌-◌, ◌/◌, ◌≤◌, ◌<◌, ◌≡◌, refl, ap, List, false, length, ltb, ltb→le, Bool-cases, inl, inr,
  if◌then◌else◌, arith,
}
use evtx.Base.Result.{Result, ok, err, map_err, Ensures, Ensures-bind, Ensures-all, Ensures-ok}
use evtx.Crates.{Crates}
use evtx.Error.{EvtxError, deserialization_error, calculation_error}
use evtx.FileHeader.{EvtxFileHeader, from_stream}
use evtx.StringCache.{run}
use evtx.Parser.Chunks.{EvtxParser, evtx_chunk_size, from_read_seek, chunk_bytes}
use evtx.Parser.Search.{length-chunk_bytes}

module _ ⦃x : Crates⦄ where
  -- The parser holds the bytes, and counts the chunks behind the header block.
  abbrev Counted : List ℕ → EvtxParser → Type 0
  Counted contents parser =
      (parser.contents ≡ contents)
      × (parser.header.header_block_size ≤ length contents)
      × (parser.calculated_chunk_count
          ≡ (length contents - parser.header.header_block_size) / 65536)

  abbrev parser_of : List ℕ → EvtxFileHeader → Result EvtxError EvtxParser
  parser_of contents evtx_header =
      if ltb (length contents) evtx_header.header_block_size
      then err calculation_error
      else ok (record {
        contents = contents;
        header = evtx_header;
        validate_checksums = false;
        calculated_chunk_count =
            (length contents - evtx_header.header_block_size) / evtx_chunk_size;
      })

  parser_of-Counted :
      (contents : List ℕ) (h : EvtxFileHeader) → Ensures (Counted contents) (parser_of contents h)
  parser_of-Counted contents h = elim (Bool-cases (ltb (length contents) h.header_block_size)) [
    | inl e ↦ rw e tt
    | inr e ↦ rw e (refl, ltb→le (length contents) h.header_block_size e, refl)
  ]

-- Where a parser is made of a file, and its header block has 4096 bytes, every chunk below the chunk count has
-- its 65536 bytes in the file.
pub from_read_seek-length :
    ⦃x : Crates⦄ (contents : List ℕ) (parser : EvtxParser) (k : ℕ)
    → from_read_seek contents ≡ ok parser
    → parser.header.header_block_size ≡ 4096
    → k < parser.calculated_chunk_count
    → length (chunk_bytes parser.contents k) ≡ 65536
unfolding from_read_seek
from_read_seek-length contents parser k h block l =
    let z : Counted contents parser =
      Ensures-ok (Counted contents) (from_read_seek contents) parser
        (Ensures-bind (λ r. Unit {0}) (Counted contents)
          (map_err deserialization_error (run from_stream contents)) (parser_of contents)
          (Ensures-all (λ r. Unit {0}) (map_err deserialization_error (run from_stream contents))
            λ r. tt)
          λ header u. parser_of-Counted contents header)
        h in
    let e : length parser.contents ≡ length contents = ap length z.0 in
    omega (arith, length-chunk_bytes parser.contents k, z.1, z.2)
