-- ===== src/Chunk/Checksums.antt =====
-- What a chunk that `EvtxChunkData::new` of src/evtx_chunk.rs has validated is known to satisfy.
use evtx.Base.{
  ℕ, ◌-◌, ◌≤◌, ◌≡◌, refl, List, ◌++◌, Bool, true, false, ◌&&◌, take, drop, length, leb, ◌==◌, ==→eq,
  Bool-cases, inl, inr, if◌then◌else◌, arith,
}
use evtx.Base.Result.{
  ok, err, ◌>>=◌, map_err, Ensures, Ensures-bind, Ensures-all, Ensures-ok, Ensures-weaken,
}
use evtx.Crates.{Crates}
use evtx.Error.{ChunkError, failed_to_parse_chunk_header, invalid_chunk_checksum}
use evtx.StringCache.{run}
use evtx.Chunk.Header.{from_reader, no_crc32}
use evtx.Chunk.Data.{
  EvtxChunkData, slice, validate_data_checksum, validate_header_checksum, validate_checksum,
  check_chunk, new_chunk_data,
}

module _ ⦃x : Crates⦄ where
  -- The checksums of the header are those of the bytes, and the events lie in the bytes.
  pub record AreValid (chunk : EvtxChunkData) : Type 0 where
    pub header_crc :
        x.crc32 (take 120 chunk.bytes ++ take 384 (drop 128 chunk.bytes))
        ≡ chunk.header.header_chunk_checksum
    pub events_crc :
        x.crc32 (take (chunk.header.free_space_offset - 512) (drop 512 chunk.bytes))
        ≡ chunk.header.events_checksum
    pub events_inside : chunk.header.free_space_offset ≤ length chunk.bytes

  abbrev IsSlice : ℕ → ℕ → List ℕ → List ℕ → Type 0
  IsSlice start stop d b = (b ≡ take (stop - start) (drop start d)) × (stop ≤ length d)

  slice-Ensures :
      (start stop : ℕ) (d : List ℕ) → Ensures (IsSlice start stop d) (slice start stop d)
  unfolding slice
  slice-Ensures start stop d = elim (Bool-cases (leb start stop && leb stop (length d))) [
    | inl e ↦ rw e (refl, ground arith)
    | inr e ↦ rw e tt
  ]

  abbrev HeaderCrc : EvtxChunkData → Bool → Type 0
  HeaderCrc chunk b =
      b ≡ true
      → x.crc32 (take 120 chunk.bytes ++ take 384 (drop 128 chunk.bytes))
        ≡ chunk.header.header_chunk_checksum

  abbrev header_test : EvtxChunkData → List ℕ → List ℕ → Bool
  header_test chunk a b =
      if x.contains chunk.header.flags no_crc32
      then true
      else x.crc32 (a ++ b) == chunk.header.header_chunk_checksum

  header-Ensures :
      (chunk : EvtxChunkData)
      → x.contains chunk.header.flags no_crc32 ≡ false
      → Ensures (HeaderCrc chunk) (validate_header_checksum chunk)
  unfolding validate_header_checksum
  header-Ensures chunk checked =
      Ensures-bind (IsSlice 0 120 chunk.bytes) (HeaderCrc chunk) (slice 0 120 chunk.bytes)
        (λ a. slice 128 512 chunk.bytes >>= λ b. ok (header_test chunk a b))
        (slice-Ensures 0 120 chunk.bytes)
        λ a ha.
          Ensures-bind (IsSlice 128 512 chunk.bytes) (HeaderCrc chunk) (slice 128 512 chunk.bytes)
            (λ b. ok (header_test chunk a b)) (slice-Ensures 128 512 chunk.bytes)
            λ b hb t.
              let t' : (x.crc32 (a ++ b) == chunk.header.header_chunk_checksum) ≡ true =
                rw checked at t in
              let z : x.crc32 (a ++ b) ≡ chunk.header.header_chunk_checksum =
                ==→eq (x.crc32 (a ++ b)) chunk.header.header_chunk_checksum t' in
              rw (ha.0, hb.0) at z

  abbrev EventsCrc : EvtxChunkData → Bool → Type 0
  EventsCrc chunk b =
      b ≡ true
      → (x.crc32 (take (chunk.header.free_space_offset - 512) (drop 512 chunk.bytes))
          ≡ chunk.header.events_checksum)
        × (chunk.header.free_space_offset ≤ length chunk.bytes)

  data-Ensures :
      (chunk : EvtxChunkData)
      → x.contains chunk.header.flags no_crc32 ≡ false
      → Ensures (EventsCrc chunk) (validate_data_checksum chunk)
  unfolding validate_data_checksum
  data-Ensures chunk checked = rw checked (
      Ensures-bind (IsSlice 512 chunk.header.free_space_offset chunk.bytes) (EventsCrc chunk)
        (slice 512 chunk.header.free_space_offset chunk.bytes)
        (λ events. ok (x.crc32 events == chunk.header.events_checksum))
        (slice-Ensures 512 chunk.header.free_space_offset chunk.bytes)
        λ events h t.
          let z : x.crc32 events ≡ chunk.header.events_checksum =
            ==→eq (x.crc32 events) chunk.header.events_checksum t in
          (rw (h.0) at z, h.1))

  abbrev BothCrc : EvtxChunkData → Bool → Type 0
  BothCrc chunk b = b ≡ true → AreValid chunk

  both :
      (chunk : EvtxChunkData) (header_valid : Bool)
      → x.contains chunk.header.flags no_crc32 ≡ false
      → HeaderCrc chunk header_valid
      → Ensures (BothCrc chunk) (if header_valid then validate_data_checksum chunk else ok false)
  both chunk false checked h = λ t. absurd cc
  both chunk true checked h =
      Ensures-weaken (EventsCrc chunk) (BothCrc chunk) (validate_data_checksum chunk)
        (data-Ensures chunk checked)
        λ b g t. record { header_crc = h refl; events_crc = (g t).0; events_inside = (g t).1 }

  checksum-Ensures :
      (chunk : EvtxChunkData)
      → x.contains chunk.header.flags no_crc32 ≡ false
      → Ensures (BothCrc chunk) (validate_checksum chunk)
  unfolding validate_checksum
  checksum-Ensures chunk checked =
      Ensures-bind (HeaderCrc chunk) (BothCrc chunk) (validate_header_checksum chunk)
        (λ header_valid. if header_valid then validate_data_checksum chunk else ok false)
        (header-Ensures chunk checked) λ b h. both chunk b checked h

  abbrev Checked : List ℕ → EvtxChunkData → Type 0
  Checked bytes chunk =
      (chunk.bytes ≡ bytes) × (x.contains chunk.header.flags no_crc32 ≡ false → AreValid chunk)

  accepted :
      (chunk : EvtxChunkData) (valid : Bool)
      → (x.contains chunk.header.flags no_crc32 ≡ false → BothCrc chunk valid)
      → Ensures {E = ChunkError}
          (Checked chunk.bytes)
          (if valid then ok chunk else err (invalid_chunk_checksum 0 0))
  accepted chunk true h = (refl, λ checked. h checked refl)
  accepted chunk false h = tt

  check_chunk-Ensures :
      (chunk : EvtxChunkData) → Ensures (Checked chunk.bytes) (check_chunk chunk true)
  unfolding check_chunk
  check_chunk-Ensures chunk = elim (Bool-cases (x.contains chunk.header.flags no_crc32)) [
    | inl e ↦
        Ensures-bind (λ b. Unit {0}) (Checked chunk.bytes) (validate_checksum chunk)
          (λ valid. if valid then ok chunk else err (invalid_chunk_checksum 0 0))
          (Ensures-all (λ b. Unit {0}) (validate_checksum chunk) λ b. tt)
          λ valid u. accepted chunk valid λ checked. absurd cc
    | inr e ↦
        Ensures-bind (BothCrc chunk) (Checked chunk.bytes) (validate_checksum chunk)
          (λ valid. if valid then ok chunk else err (invalid_chunk_checksum 0 0))
          (checksum-Ensures chunk e) λ valid h. accepted chunk valid λ checked. h
  ]

-- A chunk that is read with validation, and whose flags do not say NO_CRC32, keeps its bytes, and the stored
-- checksums are those of bytes 0 to 120 with 128 to 512 and of the events from 512 up to the free
-- space, which lies in the bytes.
pub new_chunk_data-AreValid :
    ⦃x : Crates⦄ (bytes : List ℕ) (chunk : EvtxChunkData)
    → new_chunk_data bytes true ≡ ok chunk
    → x.contains chunk.header.flags no_crc32 ≡ false
    → (chunk.bytes ≡ bytes) × AreValid chunk
unfolding new_chunk_data
new_chunk_data-AreValid ⦃x = x⦄ bytes chunk h checked =
    let z : (chunk.bytes ≡ bytes)
        × (x.contains chunk.header.flags no_crc32 ≡ false → AreValid chunk) =
      Ensures-ok (Checked bytes) (new_chunk_data bytes true) chunk
        (Ensures-bind (λ b. Unit {0}) (Checked bytes)
          (map_err failed_to_parse_chunk_header (run from_reader bytes))
          (λ header. check_chunk (record { header = header; bytes = bytes }) true)
          (Ensures-all (λ b. Unit {0})
            (map_err failed_to_parse_chunk_header (run from_reader bytes)) λ b. tt)
          λ header u. check_chunk-Ensures (record { header = header; bytes = bytes }))
        h in
    (z.0, z.1 checked)
