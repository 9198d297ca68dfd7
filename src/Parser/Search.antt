-- ===== src/Parser/Search.antt =====
-- What `find_next_chunk` of src/evtx_parser.rs finds.
use evtx.Base.{
  ℕ, zero, suc, ◌+◌, ◌*◌, ◌/◌, ◌%◌, ◌^◌, ◌-◌, ◌≤◌, ◌<◌, min, ◌≡◌, ◌⊎◌, inl, inr, refl, List, [],
  ◌∷◌, Bool, Option, none, some, drop, length, length-take, leb, leb→le, leb→lt, ◌==◌, ==→eq,
  Bool-cases, arith, subst,
}
use native.Mathlib.Decide.{dec_lt}
use evtx.Base.Result.{Result, ok, err, panic, stuck, ◌>>=◌, Ends, Ends-bind, Ends-map_err}
use evtx.Crates.{Crates}
use evtx.Error.{EvtxError, failed_to_parse_chunk, incomplete_chunk}
use evtx.Chunk.Data.{EvtxChunkData, new_chunk_data}
use evtx.Chunk.Ends.{new_chunk_data-Ends}
use evtx.Parser.Chunks.{
  EvtxParser, evtx_chunk_size, chunk_offset, max_u64, chunk_bytes, is_zeros, allocate_chunk, Found,
  end, found, after_allocate, find_chunk_rounds, find_next_chunk,
}

length-drop : {A : Type 0} (n : ℕ) (xs : List A) → length (drop n xs) ≡ length xs - n
length-drop zero xs = omega arith
length-drop (suc n) [] = omega arith
length-drop (suc n) (x ∷ xs) = omega (arith, length-drop n xs)

module _ ⦃x : Crates⦄ where
  allocate_chunk-Ends :
      (contents : List ℕ) (n : ℕ) (validate : Bool) → Ends (allocate_chunk contents n validate)
  unfolding allocate_chunk
  allocate_chunk-Ends contents n validate =
      elim (Bool-cases (length (chunk_bytes contents n) == evtx_chunk_size)) [
        | inr e ↦ rw e tt
        | inl e ↦ elim (Bool-cases (is_zeros (chunk_bytes contents n))) [
          | inl z ↦ rw (e, z) tt
          | inr z ↦
              rw (e, z)
                (Ends-map_err (failed_to_parse_chunk n)
                  (new_chunk_data (chunk_bytes contents n) validate >>= λ chunk. ok (some chunk))
                  (Ends-bind (new_chunk_data (chunk_bytes contents n) validate)
                    (λ chunk. ok (some chunk))
                    (new_chunk_data-Ends (chunk_bytes contents n) validate) λ chunk. tt))
        ]
      ]

  -- The offset wraps as the number does at 2 ^ 48.
  chunk_offset-wraps : (n : ℕ) → chunk_offset n ≡ 4096 + n % 2 ^ 48 * 65536
  chunk_offset-wraps n = omega arith

  pub length-chunk_bytes :
      (contents : List ℕ) (n : ℕ)
      → length (chunk_bytes contents n) ≡ min 65536 (length contents - (4096 + n % 2 ^ 48 * 65536))
  unfolding chunk_bytes
  length-chunk_bytes contents n = omega (
    arith,
    length-take 65536 (drop (chunk_offset n) contents),
    length-drop (chunk_offset n) contents,
    chunk_offset-wraps n,
  )

  -- An empty chunk lies in the file.
  empty_inside :
      (contents : List ℕ) (n : ℕ) (validate : Bool)
      → allocate_chunk contents n validate ≡ ok none
      → n % 2 ^ 48 + 1 ≤ length contents / 65536
  unfolding allocate_chunk
  empty_inside contents n validate h =
      elim (Bool-cases (length (chunk_bytes contents n) == evtx_chunk_size)) [
        | inr e ↦
            let h' : err (failed_to_parse_chunk n incomplete_chunk) ≡ ok none = rw e at h in
            absurd cc
        | inl e ↦
            let g : length (chunk_bytes contents n) ≡ 65536 =
              ==→eq (length (chunk_bytes contents n)) evtx_chunk_size e in
            omega (arith, length-chunk_bytes contents n)
      ]

  -- The chunk of the number is all zeros.
  abbrev pub IsEmptyAt : EvtxParser → ℕ → Type 0
  IsEmptyAt parser k = allocate_chunk parser.contents k parser.validate_checksums ≡ ok none

  -- From `n` up to `m` every chunk is empty.
  abbrev pub AreEmpty : EvtxParser → ℕ → ℕ → Type 0
  AreEmpty parser n m = (n ≤ m) × ((k : ℕ) → n ≤ k → k < m → IsEmptyAt parser k)

  -- What is found at `m` is what the file has there; an error counts only below the chunk count.
  abbrev pub IsThere : EvtxParser → ℕ → Result EvtxError EvtxChunkData → Type 0
  IsThere parser m (ok chunk) =
      allocate_chunk parser.contents m parser.validate_checksums ≡ ok (some chunk)
  IsThere parser m (err e) =
      (allocate_chunk parser.contents m parser.validate_checksums ≡ err e)
      × (m < parser.calculated_chunk_count)
  IsThere parser m panic = allocate_chunk parser.contents m parser.validate_checksums ≡ panic
  IsThere parser m stuck = ⊥

  -- Nothing is found only behind the chunk count, or where the numbers end.
  abbrev pub IsPast : EvtxParser → ℕ → Type 0
  IsPast parser m =
      ((e : EvtxError) × (allocate_chunk parser.contents m parser.validate_checksums ≡ err e)
        × (parser.calculated_chunk_count ≤ m))
      ⊎ (m ≡ max_u64)

  abbrev pub IsFirst : EvtxParser → ℕ → Found → Type 0
  IsFirst parser n (found r m) = AreEmpty parser n m × IsThere parser m r
  IsFirst parser n end = (m : ℕ) × AreEmpty parser n m × IsPast parser m

  nothing_before : (parser : EvtxParser) (n : ℕ) → AreEmpty parser n n
  nothing_before parser n = (omega arith, λ k a b. absurd (omega arith))

  one_more_empty :
      (parser : EvtxParser) (n m : ℕ)
      → IsEmptyAt parser n
      → AreEmpty parser (n + 1) m
      → AreEmpty parser n m
  one_more_empty parser n m e h =
      let b : n + 1 ≤ m = h.0 in
      (
        omega arith,
        λ k a c. elim (dec_lt n k) [
          | yes l ↦ h.1 k (omega arith) c
          | no l ↦ let q : n ≡ k = omega arith in subst (IsEmptyAt parser) q e
        ],
      )

  earlier :
      (parser : EvtxParser) (n : ℕ) (r : Found)
      → IsEmptyAt parser n
      → IsFirst parser (n + 1) r
      → IsFirst parser n r
  earlier parser n (found r m) e h = (one_more_empty parser n m e h.0, h.1)
  earlier parser n end e h = (h.0, one_more_empty parser n h.0 e h.1, h.2)

  round-IsFirst :
      (parser : EvtxParser) (n : ℕ) (r : Result EvtxError (Option EvtxChunkData)) (more : Found)
      → allocate_chunk parser.contents n parser.validate_checksums ≡ r
      → Ends r
      → (IsEmptyAt parser n → IsFirst parser (n + 1) more)
      → IsFirst parser n (after_allocate parser n r more)
  round-IsFirst parser n (err e) more h f k =
      elim (Bool-cases (leb parser.calculated_chunk_count n)) [
        | inl l ↦
            rw l (n, nothing_before parser n, inl (e, h, leb→le parser.calculated_chunk_count n l))
        | inr l ↦ rw l (nothing_before parser n, (h, leb→lt parser.calculated_chunk_count n l))
      ]
  round-IsFirst parser n (ok none) more h f k = elim (Bool-cases (n == max_u64)) [
    | inl l ↦ rw l (n, nothing_before parser n, inr (==→eq n max_u64 l))
    | inr l ↦ rw l (earlier parser n more h (k h))
  ]
  round-IsFirst parser n (ok (some chunk)) more h f k = (nothing_before parser n, h)
  round-IsFirst parser n panic more h f k = (nothing_before parser n, h)
  round-IsFirst parser n stuck more h f k = absurd f

  rounds-IsFirst :
      (parser : EvtxParser) (fuel n : ℕ)
      → 0 < fuel
      → length parser.contents < 2 ^ 64
      → length parser.contents / 65536 + 2 ≤ fuel + n % 2 ^ 48
      → IsFirst parser n (find_chunk_rounds fuel parser n)
  unfolding find_chunk_rounds
  rounds-IsFirst parser zero n p l q = absurd (omega arith)
  rounds-IsFirst parser (suc fuel) n p l q =
      round-IsFirst parser n (allocate_chunk parser.contents n parser.validate_checksums)
        (find_chunk_rounds fuel parser (n + 1)) refl
        (allocate_chunk-Ends parser.contents n parser.validate_checksums)
        λ e.
          let i : n % 2 ^ 48 + 1 ≤ length parser.contents / 65536 =
            empty_inside parser.contents n parser.validate_checksums e in
          rounds-IsFirst parser fuel (n + 1) (omega arith) l (omega arith)

-- From every number on, in a file whose length fits a `u64`, `find_next_chunk` comes to an end, and gives the
-- first chunk that is not all zeros, or the error or panic of reading it, with its number. An error it
-- gives only below the chunk count of the parser. It gives nothing only where all chunks before one number
-- are zeros, and that number is the greatest `u64` or cannot be read and is not below the chunk count.
pub find_next_chunk-IsFirst :
    ⦃x : Crates⦄ (parser : EvtxParser) (n : ℕ)
    → length parser.contents < 2 ^ 64
    → IsFirst parser n (find_next_chunk parser n)
unfolding find_next_chunk
find_next_chunk-IsFirst parser n l =
    rounds-IsFirst parser (length parser.contents / evtx_chunk_size + 2) n (omega arith) l
      (omega arith)
