-- ===== src/Chunk/Ends.antt =====
-- Reading a chunk's header and checksums ends on every input.
use evtx.Base.{
  ℕ, zero, suc, ◌+◌, ◌≢◌, refl, List, [], ◌∷◌, ◌++◌, Bool, true, false, length, leb, arith,
  Bool-cases, inl, inr, str_eq, if◌then◌else◌, ◌&&◌,
}
use evtx.Base.Result.{Result, ok, err, panic, stuck, map_err, Ends, Ends-bind, Ends-map_err}
use evtx.Crates.{Crates}
use evtx.Cursor.{Cursor, ◌>>=◌, read_exact}
use evtx.Cursor.Walks.{
  Walks, Walks-weaken, Walks-pure, Walks-bind, Walks-context, Walks-if, Walks-fail,
  Walks-read_exact, Walks-seek_ahead,
}
use evtx.Error.{ChunkError, remove_me, invalid_chunk_checksum, failed_to_parse_chunk_header}
use evtx.Macros.{Read, try_read_u32, try_read_u64}
use evtx.Macros.Forward.{Walks-io_uint, Walks-u32, Walks-u64}
use evtx.StringCache.{run, value_of}
use evtx.Chunk.Header.{chunk_magic, read_u32_into, from_reader, no_crc32}
use evtx.Chunk.Data.{
  chunk_header_size, EvtxChunkData, slice, validate_data_checksum, validate_header_checksum,
  validate_checksum, check_chunk, new_chunk_data,
}

module _ ⦃x : Crates⦄ where
  abbrev bind_u64 : {B : Type 0} → (ℕ → Read B) → Read B
  bind_u64 f = do u ← try_read_u64 "<Unknown>"; f u

  abbrev bind_u32 : {B : Type 0} → (ℕ → Read B) → Read B
  bind_u32 f = do u ← try_read_u32 "<Unknown>"; f u

module _ ⦃x : Crates⦄ (d : List ℕ) where
  Walks-u32_into : (p n : ℕ) (buffer : List ℕ) → Walks d p 0 (read_u32_into n buffer)
  unfolding read_u32_into
  Walks-u32_into p zero buffer = Walks-pure d p buffer
  Walks-u32_into p (suc n) buffer =
      Walks-bind d p 0 _ _ (Walks-weaken d p _ (Walks-io_uint d p 3))
        λ u. Walks-u32_into (p + 0) n (buffer ++ (u ∷ []))

  Walks-bytes : (p n : ℕ) → Walks d p 0 (read_exact n)
  Walks-bytes p n =
      let w : Walks d p n (read_exact n) = Walks-read_exact d p n in
      record {
        ends = λ c e b. w.ends c e b;
        at = λ c a c' e b h. let (e₁, b₁) = w.at c a c' e b h in (e₁, omega arith);
      }

  after_u64 :
      {B : Type 0} (p : ℕ) (f : ℕ → Read B)
      → ((u : ℕ) → Walks d (p + 0) 0 (f u))
      → Walks d p 0 (bind_u64 f)
  after_u64 p f h = Walks-bind d p 0 _ _ (Walks-weaken d p _ (Walks-u64 d p "<Unknown>")) h

  after_u32 :
      {B : Type 0} (p : ℕ) (f : ℕ → Read B)
      → ((u : ℕ) → Walks d (p + 0) 0 (f u))
      → Walks d p 0 (bind_u32 f)
  after_u32 p f h = Walks-bind d p 0 _ _ (Walks-weaken d p _ (Walks-u32 d p "<Unknown>")) h

  Walks-chunk_header : (p : ℕ) → Walks d p 0 from_reader
  unfolding from_reader
  Walks-chunk_header p =
      Walks-bind d _ 0 _ _ (Walks-context d p 0 remove_me _ (Walks-bytes p 8)) λ magic.
        Walks-bind d _ 0 _ _
          (Walks-if d _ 0 (str_eq magic chunk_magic) _ _ (Walks-pure d _ tt) (Walks-fail d _ 0 _))
          λ u. after_u64 _ _ λ a. after_u64 _ _ λ b. after_u64 _ _ λ e. after_u64 _ _ λ g.
            after_u32 _ _ λ h. after_u32 _ _ λ i. after_u32 _ _ λ k. after_u32 _ _ λ l.
              Walks-bind d _ 0 _ _ (Walks-context d _ 0 remove_me _ (Walks-seek_ahead d _ 64)) λ u₁.
                after_u32 _ _ λ m. after_u32 _ _ λ n.
                  Walks-bind d _ 0 _ _ (Walks-context d _ 0 remove_me _ (Walks-u32_into _ 64 []))
                    λ o.
                      Walks-bind d _ 0 _ _
                        (Walks-context d _ 0 remove_me _ (Walks-u32_into _ 32 []))
                        λ q. Walks-pure d _ _

value_of-Ends :
    ⦃x : Crates⦄ {E A : Type 0} (r : Result E (A × Cursor)) → r ≢ stuck → Ends (value_of r)
value_of-Ends (ok (a, c)) h = tt
value_of-Ends (err e) h = tt
value_of-Ends panic h = tt
value_of-Ends stuck h = h refl

pub run-Ends : ⦃x : Crates⦄ {A : Type 0} (m : Read A) (d : List ℕ) → Walks d 0 0 m → Ends (run m d)
run-Ends m d w =
    value_of-Ends (m (record { data_ref = d; position = 0 }))
      (w.ends (record { data_ref = d; position = 0 }) refl (omega arith))

if_Ends : {E : Type 0} (b : Bool) (r : Result E Bool) → Ends r → Ends (if b then r else ok false)
if_Ends true r h = h
if_Ends false r h = tt

module _ ⦃x : Crates⦄ where
  slice-Ends : (start stop : ℕ) (d : List ℕ) → Ends (slice start stop d)
  unfolding slice
  slice-Ends start stop d = elim (Bool-cases (leb start stop && leb stop (length d))) [
    | inl e ↦ rw e tt
    | inr e ↦ rw e tt
  ]

  header_checksum-Ends : (chunk : EvtxChunkData) → Ends (validate_header_checksum chunk)
  unfolding validate_header_checksum
  header_checksum-Ends chunk =
      Ends-bind (slice 0 120 chunk.bytes) _ (slice-Ends 0 120 chunk.bytes)
        λ a. Ends-bind (slice 128 512 chunk.bytes) _ (slice-Ends 128 512 chunk.bytes) λ b. tt

  data_checksum-Ends : (chunk : EvtxChunkData) → Ends (validate_data_checksum chunk)
  unfolding validate_data_checksum
  data_checksum-Ends chunk = elim (Bool-cases (x.contains chunk.header.flags no_crc32)) [
    | inl e ↦ rw e tt
    | inr e ↦ rw e (
        Ends-bind (slice chunk_header_size chunk.header.free_space_offset chunk.bytes) _
          (slice-Ends chunk_header_size chunk.header.free_space_offset chunk.bytes) λ events. tt)
  ]

  checksum-Ends : (chunk : EvtxChunkData) → Ends (validate_checksum chunk)
  unfolding validate_checksum
  checksum-Ends chunk =
      Ends-bind (validate_header_checksum chunk) _ (header_checksum-Ends chunk)
        λ valid. if_Ends valid (validate_data_checksum chunk) (data_checksum-Ends chunk)

  checked_Ends :
      (chunk : EvtxChunkData) (valid : Bool)
      → Ends {E = ChunkError} (if valid then ok chunk else err (invalid_chunk_checksum 0 0))
  checked_Ends chunk true = tt
  checked_Ends chunk false = tt

  check_chunk-Ends : (chunk : EvtxChunkData) (validate : Bool) → Ends (check_chunk chunk validate)
  unfolding check_chunk
  check_chunk-Ends chunk false = tt
  check_chunk-Ends chunk true =
      Ends-bind (validate_checksum chunk) _ (checksum-Ends chunk) λ valid. checked_Ends chunk valid

  pub new_chunk_data-Ends :
      (bytes : List ℕ) (validate : Bool) → Ends (new_chunk_data bytes validate)
  unfolding new_chunk_data
  new_chunk_data-Ends bytes validate =
      Ends-bind (map_err failed_to_parse_chunk_header (run from_reader bytes)) _
        (Ends-map_err failed_to_parse_chunk_header (run from_reader bytes)
          (run-Ends from_reader bytes (Walks-chunk_header bytes 0)))
        λ header. check_chunk-Ends (record { header = header; bytes = bytes }) validate
