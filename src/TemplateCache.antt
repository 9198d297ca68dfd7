-- ===== src/TemplateCache.antt =====
-- src/template_cache.rs
pub mod Entries
use evtx.Base.{
  ℕ, zero, suc, ◌%◌, ◌^◌, List, [], ◌∷◌, Option, none, length, ltb, ◌==◌, if◌then◌else◌,
}
use evtx.Base.Map.{get, insert}
use evtx.Base.Result.{Result, stuck}
use evtx.Crates.{Crates}
use evtx.Cursor.{◌>>=◌, ◌>>◌, continue, pure, tell}
use evtx.Error.{DeserializationError}
use evtx.Macros.{Read, try_seek}
use evtx.Model.Deserialized.{BinXmlTemplateDefinition}
use evtx.Binxml.Deserializer.{read_binxml_fragment}
use evtx.Binxml.Tokens.{read_template_definition}
use evtx.StringCache.{run}

module _ ⦃x : Crates⦄ where
  abbrev pub TemplateCache : Type 0
  TemplateCache = List (ℕ × BinXmlTemplateDefinition)

  -- A definition is read with no chunk.
  unfoldable pub read_cached_template : x.Codec → Read (ℕ × BinXmlTemplateDefinition)
  read_cached_template ansi_codec = do
    table_offset ← tell
    definition ← read_template_definition (read_binxml_fragment none ansi_codec)
    pure (table_offset % 2 ^ 32, definition)

  -- The `loop` over a bucket.
  unfoldable pub populate_bucket : x.Codec → ℕ → TemplateCache → Read TemplateCache
  populate_bucket ansi_codec zero cache c = stuck
  populate_bucket ansi_codec (suc fuel) cache c =
      continue (read_cached_template ansi_codec c) λ (table_offset, definition).
        let cache' = insert table_offset definition cache in
        let more : Read TemplateCache = (do
          try_seek definition.header.next_template_offset
          populate_bucket ansi_codec fuel cache') in
        if definition.header.next_template_offset == 0 then pure cache' else more

  unfoldable pub populate_buckets : x.Codec → ℕ → List ℕ → TemplateCache → Read TemplateCache
  populate_buckets ansi_codec fuel [] cache = pure cache
  populate_buckets ansi_codec fuel (offset ∷ offsets) cache =
      let rest = populate_buckets ansi_codec fuel offsets in
      if ltb 0 offset
      then (do try_seek offset; cache' ← populate_bucket ansi_codec fuel cache; rest cache')
      else rest cache

  unfoldable pub populate : List ℕ → List ℕ → x.Codec → Result DeserializationError TemplateCache
  populate d offsets ansi_codec = run (populate_buckets ansi_codec (suc (length d)) offsets []) d

  unfoldable pub get_template : TemplateCache → ℕ → Option BinXmlTemplateDefinition
  get_template cache offset = get cache offset
