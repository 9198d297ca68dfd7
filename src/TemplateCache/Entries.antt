-- ===== src/TemplateCache/Entries.antt =====
-- What the template cache holds: the definitions that the chunk has at the cached offsets.
use evtx.Base.{
  ℕ, zero, suc, ◌%◌, ◌^◌, ◌≤◌, ◌≡◌, ◌==◌, inl, inr, refl, ap, sym, ◌∙◌, List, [], ◌∷◌, Bool, none,
  Option, length, ltb, Bool-cases, if◌then◌else◌, arith,
}
use evtx.Base.Map.{insert}
use evtx.Base.Result.{Result, ok, err, panic, stuck, Ensures}
use evtx.Crates.{Crates}
use evtx.Cursor.{Cursor, ◌>>=◌, ◌>>◌, continue, pure, seek_start}
use evtx.Cursor.Walks.{Walks, Walks-weaken, Walks-pure, Walks-bind, Walks-tell_bind, >>=-eq-ok}
use evtx.Error.{DeserializationError}
use evtx.Macros.{Read, try_seek}
use evtx.Model.Deserialized.{BinXmlTemplateDefinition}
use evtx.Binxml.Value.{Fragment}
use evtx.Binxml.Tokens.{read_template_definition}
use evtx.Binxml.Tokens.Forward.{Walks-template_definition}
use evtx.Binxml.Deserializer.{read_binxml_fragment}
use evtx.Binxml.Deserializer.Ends.{fragment_ends}
use evtx.Buckets.{
  IsSound, Filled, Filled-inserted, Fills, linked-Filled, Populates, none-Populated, next-Populated,
  skip-Populated, IsComplete, run-IsComplete,
}
use evtx.StringCache.Entries.{at_position}
use evtx.TemplateCache.{
  TemplateCache, read_cached_template, populate_bucket, populate_buckets, populate,
}

module _ ⦃x : Crates⦄ (d : List ℕ) (codec : x.Codec) where
  -- The data has a definition of the offset.
  abbrev pub Entry : ℕ → ℕ → BinXmlTemplateDefinition → Type 0
  Entry p o definition =
      (c' : Cursor) × (read_cached_template codec (at_position d p) ≡ ok ((o, definition), c'))

  abbrev fragment : Fragment
  fragment = read_binxml_fragment none codec

  Walks-fragment :
      (q : ℕ) (size : Option ℕ) (inside : Bool) → 0 ≤ q → Walks d q 0 (fragment size inside)
  Walks-fragment q size inside h = record {
    ends = λ c e b. (fragment_ends codec size inside c).0;
    at = λ c a c' e b g.
        let z : (c'.data_ref ≡ c.data_ref) × (c.position ≤ c'.position) =
          (fragment_ends codec size inside c).1 a c' g in
        (z.0 ∙ e, omega arith);
  }

  -- The definition at a position, with its offset.
  abbrev after_position : ℕ → Read (ℕ × BinXmlTemplateDefinition)
  after_position p = do
    definition ← read_template_definition fragment
    pure (p % 2 ^ 32, definition)

  Walks-entry : (p : ℕ) → Walks d p 0 (read_cached_template codec)
  unfolding read_cached_template
  Walks-entry p = Walks-tell_bind d p 0 after_position λ q h.
      Walks-bind d q 0 _ (λ definition. pure (q % 2 ^ 32, definition))
        (Walks-weaken d q _
          (Walks-template_definition d 0 fragment Walks-fragment codec q (omega arith)))
        λ definition. Walks-pure d _ (q % 2 ^ 32, definition)

  entry_offset :
      (c c' : Cursor) (o : ℕ) (definition : BinXmlTemplateDefinition)
      → read_cached_template codec c ≡ ok ((o, definition), c')
      → o ≡ c.position % 2 ^ 32
  unfolding read_cached_template
  entry_offset c c' o definition e =
      let (t, c₁, g, h) =
        >>=-eq-ok (read_template_definition fragment) (λ k. pure (c.position % 2 ^ 32, k))
          (o, definition) c c' e in
      cc

  -- What the walk does behind a definition.
  abbrev after_entry :
      (TemplateCache → Read TemplateCache)
      → TemplateCache
      → ℕ × BinXmlTemplateDefinition
      → Read TemplateCache
  after_entry rest cache (table_offset, definition) =
      let cache' = insert table_offset definition cache in
      let more : Read TemplateCache = (do
        try_seek definition.header.next_template_offset
        rest cache') in
      if definition.header.next_template_offset == 0 then pure cache' else more

  linked :
      (more : TemplateCache → Read TemplateCache)
      → Fills d Entry more
      → (before cache : TemplateCache) (p next : ℕ) (c : Cursor)
      → Filled d Entry before p (cache, c)
      → Ensures
          (Filled d Entry before p)
          ((if next == 0 then pure cache else (try_seek next >> more cache)) c)
  unfolding try_seek seek_start
  linked more fills before cache p next c f = elim (Bool-cases (next == 0)) [
    | inl e ↦ rw e f
    | inr e ↦ rw e (linked-Filled d Entry more fills before cache p c next f)
  ]

  after_entry-Filled :
      (more : TemplateCache → Read TemplateCache)
      → Fills d Entry more
      → (cache : TemplateCache) (c : Cursor)
        (r : Result DeserializationError ((ℕ × BinXmlTemplateDefinition) × Cursor))
      → IsSound d Entry cache
      → c.data_ref ≡ d
      → read_cached_template codec c ≡ r
      → Ensures (Filled d Entry cache c.position) (continue r (after_entry more cache))
  after_entry-Filled more fills cache c (err e) s r h = tt
  after_entry-Filled more fills cache c panic s r h = tt
  after_entry-Filled more fills cache c stuck s r h = tt
  after_entry-Filled more fills cache c (ok ((o, definition), c')) s r h =
      let kept : c'.data_ref ≡ d =
        ((Walks-entry c.position).at c (o, definition) c' r (omega arith) h).0 in
      let at : at_position d c.position ≡ c =
        ap (λ u. record { data_ref = u; position = c.position }) (sym r) in
      let e : Entry c.position o definition = (c', rw at h) in
      linked more fills cache (insert o definition cache) c.position
        definition.header.next_template_offset c'
        (Filled-inserted d Entry cache c.position o definition c' s e kept
          (entry_offset c c' o definition h))

  bucket-Fills : (fuel : ℕ) → Fills d Entry (populate_bucket codec fuel)
  unfolding populate_bucket
  bucket-Fills zero cache c s r = tt
  bucket-Fills (suc fuel) cache c s r =
      after_entry-Filled (populate_bucket codec fuel) (bucket-Fills fuel) cache c
        (read_cached_template codec c) s r refl

  buckets-Populates :
      (fuel : ℕ) (offsets : List ℕ)
      → Populates d Entry offsets (populate_buckets codec fuel offsets)
  unfolding populate_buckets try_seek seek_start
  buckets-Populates fuel [] before c s r = none-Populated d Entry before c s r
  buckets-Populates fuel (offset ∷ offsets) before c s r = elim (Bool-cases (ltb 0 offset)) [
    | inl e ↦ rw e (
        next-Populated d Entry offset offsets before (populate_buckets codec fuel offsets)
          (buckets-Populates fuel offsets)
          (populate_bucket codec fuel before (record c { position = offset }))
          (bucket-Fills fuel before (record c { position = offset }) s r))
    | inr e ↦ rw e (
        skip-Populated d Entry offset offsets before (populate_buckets codec fuel offsets before c)
          e (buckets-Populates fuel offsets before c s r))
  ]

-- Where the template cache is built, every definition in it is what the data holds at a place of its offset, and
-- every offset of the header that is not zero has a definition in it.
pub populate-IsComplete :
    ⦃x : Crates⦄ (d offsets : List ℕ) (codec : x.Codec) (cache : TemplateCache)
    → populate d offsets codec ≡ ok cache
    → IsComplete d (Entry d codec) offsets cache
unfolding populate
populate-IsComplete d offsets codec cache h =
    run-IsComplete d (Entry d codec) offsets (populate_buckets codec (suc (length d)) offsets)
      (buckets-Populates d codec (suc (length d)) offsets) cache h
