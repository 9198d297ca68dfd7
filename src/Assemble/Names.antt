-- ===== src/Assemble/Names.antt =====
-- A name that the string cache has not, in `expand_string_ref` of src/binxml/assemble.rs.
use evtx.Base.{ℕ, ◌+◌, ◌≡◌, refl, List, [], ◌∷◌, none, drop}
use evtx.Base.Result.{ok}
use evtx.Crates.{Crates}
use evtx.Cursor.{Cursor}
use evtx.Utils.Strings.{
  read_utf16_by_size, read_len_prefixed_utf16_string, try_read_len_prefixed_nul,
}
use evtx.Utils.Strings.RoundTrip.{read_unit, drop-two}
use evtx.Binxml.Name.{read_name}
use evtx.Model.Deserialized.{BinXmlNameRef}
use evtx.Chunk.Data.{EvtxChunk}
use evtx.StringCache.{get_cached_string}
use evtx.Assemble.RecordModel.{expand_string_ref}

module _ ⦃x : Crates⦄ where
  empty_name :
      (rest : List ℕ) (c : Cursor)
      → drop c.position c.data_ref ≡ 0 ∷ 0 ∷ 0 ∷ 0 ∷ rest
      → read_name c ≡ ok (record { str = [] }, record c { position = c.position + 2 + 2 })
  unfolding read_name try_read_len_prefixed_nul read_len_prefixed_utf16_string read_utf16_by_size
  empty_name rest c h =
      let d : drop (c.position + 2) c.data_ref ≡ 0 ∷ 0 ∷ rest =
        drop-two c.position c.data_ref (0 ∷ 0 ∷ rest) 0 0 h in
      rw
        (
          read_unit 0 (0 ∷ 0 ∷ rest) c h,
          read_unit 0 rest (record c { position = c.position + 2 }) d,
        )
        refl

-- Where the string cache has no name at an offset, and the entry that stands there in the chunk is the last of
-- its bucket (the four bytes of its link are zeros), `expand_string_ref` gives the empty name, whatever
-- name the entry holds.
pub expand_string_ref_empty :
    ⦃x : Crates⦄ (string_ref : BinXmlNameRef) (chunk : EvtxChunk) (rest : List ℕ)
    → get_cached_string chunk.string_cache string_ref.offset ≡ none
    → drop string_ref.offset chunk.chunk_bytes ≡ 0 ∷ 0 ∷ 0 ∷ 0 ∷ rest
    → expand_string_ref string_ref chunk ≡ ok (record { str = [] })
unfolding expand_string_ref
expand_string_ref_empty string_ref chunk rest missed zeros =
    rw
      (
        missed,
        empty_name rest (record { data_ref = chunk.chunk_bytes; position = string_ref.offset })
            zeros,
      )
      refl
