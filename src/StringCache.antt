-- ===== src/StringCache.antt =====
-- src/string_cache.rs
pub mod Entries
pub mod Cycle
use evtx.Base.{
  ℕ, zero, suc, ◌%◌, ◌^◌, List, [], ◌∷◌, Option, none, some, length, ltb, if◌then◌else◌,
}
use evtx.Base.Map.{get, insert}
use evtx.Base.Result.{Result, ok, err, panic, stuck}
use evtx.Crates.{Crates}
use evtx.Cursor.{Cursor}
use evtx.Cursor.{◌>>=◌, ◌>>◌, continue, pure, tell}
use evtx.Error.{DeserializationError}
use evtx.Macros.{Read, try_seek}
use evtx.Binxml.Name.{BinXmlName, BinXmlNameLink, read_name_link, read_name}

abbrev pub StringCache : Type 0
StringCache = List (ℕ × BinXmlName)

abbrev pub value_of : {E A : Type 0} → Result E (A × Cursor) → Result E A
value_of (ok (a, c)) = ok a
value_of (err e) = err e
value_of panic = panic
value_of stuck = stuck

module _ ⦃x : Crates⦄ where
  -- The link and the name at the cursor, with the position that they are cached under.
  unfoldable pub read_entry : Read (ℕ × BinXmlNameLink × BinXmlName)
  read_entry = do
    string_position ← tell
    link ← read_name_link
    name ← read_name
    pure (string_position % 2 ^ 32, link, name)

  -- The next entry of the bucket, or its end.
  abbrev pub follow_link :
      (StringCache → Read StringCache) → StringCache → Option ℕ → Read StringCache
  follow_link more cache none = pure cache
  follow_link more cache (some offset) = do try_seek offset; more cache

  abbrev pub after_entry :
      (StringCache → Read StringCache)
      → StringCache
      → ℕ × BinXmlNameLink × BinXmlName
      → Read StringCache
  after_entry more cache (string_position, link, name) =
      follow_link more (insert string_position name cache) link.next_string

  -- The `loop` over a bucket.
  unfoldable pub populate_bucket : ℕ → StringCache → Read StringCache
  populate_bucket zero cache c = stuck
  populate_bucket (suc fuel) cache c =
      continue (read_entry c) (after_entry (populate_bucket fuel) cache)

  -- `for &offset in offsets.iter().filter(|&&offset| offset > 0)`
  unfoldable pub populate_buckets : ℕ → List ℕ → StringCache → Read StringCache
  populate_buckets fuel [] cache = pure cache
  populate_buckets fuel (offset ∷ offsets) cache =
      let rest = populate_buckets fuel offsets in
      if ltb 0 offset
      then (do try_seek offset; cache' ← populate_bucket fuel cache; rest cache')
      else rest cache

  -- The value of a reader that runs from the start of the data.
  abbrev pub run : {A : Type 0} → Read A → List ℕ → Result DeserializationError A
  run m d = value_of (m (record { data_ref = d; position = 0 }))

  -- A bucket that reads more entries than there are bytes has come to one of them twice.
  unfoldable pub populate : List ℕ → List ℕ → Result DeserializationError StringCache
  populate d offsets = run (populate_buckets (suc (length d)) offsets []) d

unfoldable pub get_cached_string : StringCache → ℕ → Option BinXmlName
get_cached_string cache offset = get cache offset
