-- ===== src/StringCache/Entries.antt =====
-- What the string cache holds: the names that the chunk has at the cached offsets.
use evtx.Base.{
  ℕ, zero, suc, ◌%◌, ◌^◌, ◌≡◌, inl, inr, refl, ap, sym, List, [], ◌∷◌, Option, none, some, length,
  ltb, Bool-cases, arith,
}
use evtx.Base.Map.{get, insert}
use evtx.Base.Result.{Result, ok, err, panic, stuck, Ensures}
use evtx.Crates.{Crates}
use evtx.Cursor.{Cursor, ◌>>=◌, continue, pure, seek_start}
use evtx.Cursor.Walks.{>>=-eq-ok, Walks, Walks-weaken, Walks-pure, Walks-bind, Walks-tell_bind}
use evtx.Error.{DeserializationError}
use evtx.Macros.{Read, try_seek}
use evtx.Binxml.Name.{BinXmlName, BinXmlNameLink, read_name_link, read_name}
use evtx.Binxml.Name.Forward.{Walks-name_link, Walks-name}
use evtx.StringCache.{
  StringCache, read_entry, populate_bucket, populate_buckets, follow_link, after_entry, populate,
}
use evtx.Buckets.{
  IsSound, Filled, Filled-inserted, Fills, linked-Filled, Populates, none-Populated, next-Populated,
  skip-Populated, IsComplete, run-IsComplete,
}

module _ ⦃x : Crates⦄ (d : List ℕ) where
  abbrev pub at_position : ℕ → Cursor
  at_position p = record { data_ref = d; position = p }

  -- The data has an entry of the offset, with the name.
  abbrev pub Entry : ℕ → ℕ → BinXmlName → Type 0
  Entry p o name =
      (link : BinXmlNameLink) × (c' : Cursor) × (read_entry (at_position p)
        ≡ ok ((o, link, name), c'))

  -- The reader of an entry behind its link, for the position where the entry stands.
  abbrev after_link : ℕ → BinXmlNameLink → Read (ℕ × BinXmlNameLink × BinXmlName)
  after_link p link = do name ← read_name; pure (p % 2 ^ 32, link, name)

  abbrev from_position : ℕ → Read (ℕ × BinXmlNameLink × BinXmlName)
  from_position p = do link ← read_name_link; after_link p link

  pub Walks-entry : (p : ℕ) → Walks d p 0 read_entry
  unfolding read_entry
  Walks-entry p = Walks-tell_bind d p 0 from_position λ q h.
      Walks-bind d q 0 _ (after_link q) (Walks-weaken d q _ (Walks-name_link d q)) λ link.
        Walks-bind d _ 0 _ (λ name. pure (q % 2 ^ 32, link, name))
          (Walks-weaken d _ _ (Walks-name d _)) λ name. Walks-pure d _ (q % 2 ^ 32, link, name)

  entry_offset :
      (c c' : Cursor) (o : ℕ) (link : BinXmlNameLink) (name : BinXmlName)
      → read_entry c ≡ ok ((o, link, name), c')
      → o ≡ c.position % 2 ^ 32
  unfolding read_entry
  entry_offset c c' o link name e =
      let (l, c₁, g, h) = >>=-eq-ok read_name_link (after_link c.position) (o, link, name) c c' e in
      let (n, c₂, g', h') =
        >>=-eq-ok read_name (λ k. pure (c.position % 2 ^ 32, l, k)) (o, link, name) c₁ c' h in
      cc

  linked :
      (more : StringCache → Read StringCache)
      → Fills d Entry more
      → (before cache : StringCache) (p : ℕ) (next : Option ℕ) (c : Cursor)
      → Filled d Entry before p (cache, c)
      → Ensures (Filled d Entry before p) (follow_link more cache next c)
  unfolding try_seek seek_start
  linked more fills before cache p none c f = f
  linked more fills before cache p (some offset) c f =
      linked-Filled d Entry more fills before cache p c offset f

  after_entry-Filled :
      (more : StringCache → Read StringCache)
      → Fills d Entry more
      → (cache : StringCache) (c : Cursor)
        (r : Result DeserializationError ((ℕ × BinXmlNameLink × BinXmlName) × Cursor))
      → IsSound d Entry cache
      → c.data_ref ≡ d
      → read_entry c ≡ r
      → Ensures (Filled d Entry cache c.position) (continue r (after_entry more cache))
  after_entry-Filled more fills cache c (err e) s r h = tt
  after_entry-Filled more fills cache c panic s r h = tt
  after_entry-Filled more fills cache c stuck s r h = tt
  after_entry-Filled more fills cache c (ok ((o, link, name), c')) s r h =
      let kept : c'.data_ref ≡ d =
        ((Walks-entry c.position).at c (o, link, name) c' r (omega arith) h).0 in
      let at : at_position c.position ≡ c =
        ap (λ u. record { data_ref = u; position = c.position }) (sym r) in
      let e : Entry c.position o name = (link, c', rw at h) in
      linked more fills cache (insert o name cache) c.position link.next_string c' (
        Filled-inserted d Entry cache c.position o name c' s e kept
          (entry_offset c c' o link name h))

  bucket-Fills : (fuel : ℕ) → Fills d Entry (populate_bucket fuel)
  unfolding populate_bucket
  bucket-Fills zero cache c s r = tt
  bucket-Fills (suc fuel) cache c s r =
      after_entry-Filled (populate_bucket fuel) (bucket-Fills fuel) cache c (read_entry c) s r refl

  buckets-Populates :
      (fuel : ℕ) (offsets : List ℕ) → Populates d Entry offsets (populate_buckets fuel offsets)
  unfolding populate_buckets try_seek seek_start
  buckets-Populates fuel [] before c s r = none-Populated d Entry before c s r
  buckets-Populates fuel (offset ∷ offsets) before c s r = elim (Bool-cases (ltb 0 offset)) [
    | inl e ↦ rw e (
        next-Populated d Entry offset offsets before (populate_buckets fuel offsets)
          (buckets-Populates fuel offsets)
          (populate_bucket fuel before (record c { position = offset }))
          (bucket-Fills fuel before (record c { position = offset }) s r))
    | inr e ↦ rw e (
        skip-Populated d Entry offset offsets before (populate_buckets fuel offsets before c) e
          (buckets-Populates fuel offsets before c s r))
  ]

-- Where the string cache is built, every name in it is what the data holds at an entry of its offset, and
-- every offset of the header that is not zero has a name in it.
pub populate-IsSound :
    ⦃x : Crates⦄ (d offsets : List ℕ) (cache : StringCache)
    → populate d offsets ≡ ok cache
    → IsComplete d (Entry d) offsets cache
unfolding populate get
populate-IsSound d offsets cache h =
    run-IsComplete d (Entry d) offsets (populate_buckets (suc (length d)) offsets)
      (buckets-Populates d (suc (length d)) offsets) cache h
