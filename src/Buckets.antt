-- ===== src/Buckets.antt =====
-- What the walks of src/string_cache.rs and src/template_cache.rs over their buckets keep: the cache holds what the
-- data has at entries, it grows, and each bucket that has a first entry has it in the cache.
use evtx.Base.{
  ℕ, ◌%◌, ◌^◌, ◌⊎◌, ◌≡◌, inl, inr, subst, List, [], ◌∷◌, some, refl, ltb, ◌==◌, ==→eq, Bool-cases,
  All, arith, false,
}
use evtx.Base.Map.{get, insert, get-insert}
use evtx.Base.Result.{Result, ok, err, panic, stuck, Ensures, Ensures-weaken, Ensures-ok}
use evtx.StringCache.{value_of}
use evtx.Cursor.{Cursor, continue, Reader}

-- `Entry p o v`: the data has at the position the entry of the offset, with the value.
module _ {V : Type 0} (d : List ℕ) (Entry : ℕ → ℕ → V → Type 0) where
  abbrev Cache : Type 0
  Cache = List (ℕ × V)

  -- Every value of the cache is that of an entry of its offset.
  abbrev pub IsSound : Cache → Type 0
  IsSound cache = (o : ℕ) (v : V) → get cache o ≡ some v → (p : ℕ) × Entry p o v

  abbrev pub Holds : Cache → ℕ → Type 0
  Holds cache o = (v : V) × (get cache o ≡ some v)

  abbrev Grows : Cache → Cache → Type 0
  Grows before cache = (o : ℕ) → Holds before o → Holds cache o

  Holds-inserted : (cache : Cache) (o : ℕ) (v : V) → Holds (insert o v cache) o
  Holds-inserted cache o v = (v, ground (arith, get-insert o o v cache))

  Grows-inserted : (cache : Cache) (o : ℕ) (v : V) → Grows cache (insert o v cache)
  Grows-inserted cache o v k (old, e) = elim (Bool-cases (o == k)) [
    | inl h ↦ (v, ground (arith, get-insert o k v cache))
    | inr h ↦ (old, ground (arith, get-insert o k v cache))
  ]

  IsSound-inserted :
      (cache : Cache) (p o : ℕ) (v : V) → IsSound cache → Entry p o v → IsSound (insert o v cache)
  IsSound-inserted cache p o v s e k other h = elim (Bool-cases (o == k)) [
    | inl q ↦
        let g : some v ≡ some other = ground (arith, get-insert o k v cache) in
        let g' : v ≡ other = cc in
        let z : o ≡ k = ==→eq o k q in (p, subst (Entry p k) g' (subst (λ n. Entry p n v) z e))
    | inr q ↦ s k other (ground (arith, get-insert o k v cache))
  ]

  -- What a walk over a bucket leaves: the data, a sound cache that has grown, and the entry it began at.
  abbrev pub Filled : Cache → ℕ → Cache × Cursor → Type 0
  Filled before p (cache, c) =
      IsSound cache × (c.data_ref ≡ d) × Grows before cache × Holds cache (p % 2 ^ 32)

  pub Filled-inserted :
      (cache : Cache) (p o : ℕ) (v : V) (c : Cursor)
      → IsSound cache
      → Entry p o v
      → c.data_ref ≡ d
      → o ≡ p % 2 ^ 32
      → Filled cache p (insert o v cache, c)
  Filled-inserted cache p o v c s e r z = (
    IsSound-inserted cache p o v s e,
    r,
    Grows-inserted cache o v,
    subst (Holds (insert o v cache)) z (Holds-inserted cache o v),
  )

  -- What the walk over the offsets leaves: each offset that is not zero has its entry.
  abbrev pub Populated : Cache → List ℕ → Cache × Cursor → Type 0
  Populated before offsets (cache, c) =
      IsSound cache
      × (c.data_ref ≡ d)
      × Grows before cache
      × All (λ o. (o ≡ 0) ⊎ Holds cache (o % 2 ^ 32)) offsets

  pub none-Populated :
      (before : Cache) (c : Cursor)
      → IsSound before
      → c.data_ref ≡ d
      → Populated before [] (before, c)
  none-Populated before c s r = (s, r, (λ o h. h), tt)

  module _ {E : Type 0} where
    -- A walk from the cursor on that fills the cache from everywhere.
    abbrev pub Fills : (Cache → Reader E Cache) → Type 0
    Fills more =
        (cache : Cache) (c : Cursor)
        → IsSound cache
        → c.data_ref ≡ d
        → Ensures (Filled cache c.position) (more cache c)

    -- The walk goes on at the next entry.
    pub linked-Filled :
        (more : Cache → Reader E Cache)
        → Fills more
        → (before cache : Cache) (p : ℕ) (c : Cursor) (offset : ℕ) → Filled before p (cache, c)
        → Ensures (Filled before p) (more cache (record c { position = offset }))
    linked-Filled more fills before cache p c offset f =
        Ensures-weaken (Filled cache offset) (Filled before p)
          (more cache (record c { position = offset }))
          (fills cache (record c { position = offset }) f.0 f.1)
          λ q g. (g.0, g.1, (λ o h. g.2 o (f.2 o h)), g.2 (p % 2 ^ 32) f.3)

    abbrev pub Populates : List ℕ → (Cache → Reader E Cache) → Type 0
    Populates offsets more =
        (cache : Cache) (c : Cursor)
        → IsSound cache
        → c.data_ref ≡ d
        → Ensures (Populated cache offsets) (more cache c)

    -- A bucket that was walked over, and the others.
    pub next-Populated :
        (offset : ℕ) (offsets : List ℕ) (before : Cache) (more : Cache → Reader E Cache)
        → Populates offsets more
        → (r : Result E (Cache × Cursor)) → Ensures (Filled before offset) r
        → Ensures (Populated before (offset ∷ offsets)) (continue r more)
    next-Populated offset offsets before more fills (err e) f = tt
    next-Populated offset offsets before more fills panic f = tt
    next-Populated offset offsets before more fills stuck f = tt
    next-Populated offset offsets before more fills (ok (cache, c)) f =
        Ensures-weaken (Populated cache offsets) (Populated before (offset ∷ offsets))
          (more cache c) (fills cache c f.0 f.1)
          λ q g. (g.0, g.1, (λ o h. g.2 o (f.2 o h)), (inr (g.2 (offset % 2 ^ 32) f.3), g.3))

    -- A bucket that is empty.
    pub skip-Populated :
        (offset : ℕ) (offsets : List ℕ) (before : Cache) (r : Result E (Cache × Cursor))
        → ltb 0 offset ≡ false
        → Ensures (Populated before offsets) r
        → Ensures (Populated before (offset ∷ offsets)) r
    skip-Populated offset offsets before r e h =
        Ensures-weaken (Populated before offsets) (Populated before (offset ∷ offsets)) r h
          λ q g. (g.0, g.1, g.2, (inl (ground arith), g.3))

  -- The whole of the buckets, in terms of the cache alone.
  abbrev pub IsComplete : List ℕ → Cache → Type 0
  IsComplete offsets cache = IsSound cache × All (λ o. (o ≡ 0) ⊎ Holds cache (o % 2 ^ 32)) offsets

  module _ {E : Type 0} where
    emptied :
        (offsets : List ℕ) (r : Result E (Cache × Cursor))
        → Ensures (Populated [] offsets) r
        → Ensures (IsComplete offsets) (value_of r)
    emptied offsets (ok (cache, c)) h = (h.0, h.3)
    emptied offsets (err e) h = tt
    emptied offsets panic h = tt
    emptied offsets stuck h = tt

    -- What a run from the empty cache gives.
    pub run-IsComplete :
        (offsets : List ℕ) (fill : Cache → Reader E Cache)
        → Populates offsets fill
        → (cache : Cache) → value_of (fill [] (record { data_ref = d; position = 0 })) ≡ ok cache
        → IsComplete offsets cache
    unfolding get
    run-IsComplete offsets fill fills cache h =
        Ensures-ok (IsComplete offsets) (value_of (fill [] (record { data_ref = d; position = 0 })))
          cache
          (emptied offsets (fill [] (record { data_ref = d; position = 0 }))
            (fills [] (record { data_ref = d; position = 0 }) (λ o n e. absurd cc) refl))
          h
