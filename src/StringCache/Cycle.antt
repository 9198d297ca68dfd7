-- ===== src/StringCache/Cycle.antt =====
-- A bucket of src/string_cache.rs whose entry links itself.
use evtx.Base.{ℕ, zero, suc, ◌≡◌, ◌<◌, refl, List, ◌∷◌, true, some, ltb, arith}
use evtx.Base.Map.{insert}
use evtx.Base.Result.{ok, stuck}
use evtx.Crates.{Crates}
use evtx.Cursor.{Cursor, seek_start}
use evtx.Macros.{try_seek}
use evtx.Binxml.Name.{BinXmlName, BinXmlNameLink}
use evtx.StringCache.{StringCache, read_entry, populate_bucket, populate_buckets}
use evtx.StringCache.Entries.{at_position, Walks-entry}

module _ ⦃x : Crates⦄ (d : List ℕ) (p o : ℕ) (link : BinXmlNameLink) (name : BinXmlName)
    (c : Cursor) (read : read_entry (at_position d p) ≡ ok ((o, link, name), c))
    (self : link.next_string ≡ some p) where
  bucket_endless :
      (fuel : ℕ) (cache : StringCache) → populate_bucket fuel cache (at_position d p) ≡ stuck
  unfolding populate_bucket try_seek seek_start
  bucket_endless zero cache = refl
  bucket_endless (suc fuel) cache =
      let kept : c.data_ref ≡ d =
        ((Walks-entry d p).at (at_position d p) (o, link, name) c refl (omega arith) read).0 in
      rw (read, self, kept, bucket_endless fuel (insert o name cache)) refl

-- Where the first offset is not zero and the entry there links to that offset, no fuel is enough to build the
-- string cache, whatever the offsets behind it and the cache before it.
pub populate_buckets_self :
    ⦃x : Crates⦄ (d : List ℕ) (p o : ℕ) (link : BinXmlNameLink) (name : BinXmlName) (c c₀ : Cursor)
    (fuel : ℕ) (offsets : List ℕ) (cache : StringCache)
    → read_entry (at_position d p) ≡ ok ((o, link, name), c)
    → link.next_string ≡ some p
    → 0 < p
    → c₀.data_ref ≡ d
    → populate_buckets fuel (p ∷ offsets) cache c₀ ≡ stuck
unfolding populate_buckets try_seek seek_start
populate_buckets_self d p o link name c c₀ fuel offsets cache read self positive at_data =
    let t : ltb 0 p ≡ true = ground arith in
    rw (t, at_data, bucket_endless d p o link name c read self fuel cache) refl
