-- ===== src/Macros.antt =====
-- src/macros.rs: `try_read!`, `try_seek!` and `try_read_sized_array!`, one reader for each arm. An
-- error carries the name of the type and of the token; its hexdump is not modelled.
pub mod Forward
use evtx.Base.{
  ℕ, zero, suc, ◌+◌, ◌-◌, List, [], ◌∷◌, ◌++◌, Bool, true, false, Option, none, some, Str, String,
  chars, ltb, leb, ◌==◌, if◌then◌else◌,
}
use evtx.Base.Int.{ℤ, of_bits}
use evtx.Base.Text.{hex}
use evtx.Base.Result.{Result, ok, err, panic, stuck}
use evtx.Crates.{Crates}
use evtx.Cursor.{
  Cursor, Reader, IoError, ◌>>=◌, ◌>>◌, continue, pure, fail, with_context, tell, read_exact,
  seek_start,
}
use evtx.Error.{DeserializationError, failed_to_read_token, unexpected_io_error}

module _ ⦃x : Crates⦄ where
  abbrev pub Read : Type 0 → Type 0
  Read A = Reader DeserializationError A

  -- The four-argument `capture_context!`.
  abbrev pub capture_context : String → String → IoError → DeserializationError
  capture_context t token_name e = failed_to_read_token t token_name

  unfoldable pub try_seek : ℕ → Read Unit
  unfolding seek_start
  try_seek offset = with_context (λ e. unexpected_io_error) (seek_start offset)

  -- `read_u8`, and the other reads of byteorder for `n` bytes.
  unfoldable pub read_uint : ℕ → Reader IoError ℕ
  read_uint n = do bs ← read_exact n; pure (x.from_le bs)

  unfoldable pub try_read_u8 : String → Read ℕ
  try_read_u8 name = with_context (capture_context "u8" name) (read_uint 1)

  unfoldable pub try_read_u16 : String → Read ℕ
  try_read_u16 name = with_context (capture_context "u16" name) (read_uint 2)

  unfoldable pub try_read_u32 : String → Read ℕ
  try_read_u32 name = with_context (capture_context "u32" name) (read_uint 4)

  unfoldable pub try_read_u64 : String → Read ℕ
  try_read_u64 name = with_context (capture_context "u64" name) (read_uint 8)

  -- A signed read gives the number that the bit pattern stands for.
  unfoldable pub try_read_signed : String → ℕ → ℕ → Read ℤ
  try_read_signed t n w = do
    u ← with_context (capture_context t "<Unknown>") (read_uint n)
    pure (of_bits w u)

  unfoldable pub try_read_i8 : Read ℤ
  unfolding try_read_signed
  try_read_i8 = try_read_signed "i8" 1 8

  unfoldable pub try_read_i16 : Read ℤ
  unfolding try_read_signed
  try_read_i16 = try_read_signed "i16" 2 16

  unfoldable pub try_read_i32 : Read ℤ
  unfolding try_read_signed
  try_read_i32 = try_read_signed "i32" 4 32

  unfoldable pub try_read_i64 : Read ℤ
  unfolding try_read_signed
  try_read_i64 = try_read_signed "i64" 8 64

  -- A float is read as its bit pattern.
  unfoldable pub try_read_f32 : Read ℕ
  try_read_f32 = with_context (capture_context "f32" "<Unknown>") (read_uint 4)

  unfoldable pub try_read_f64 : Read ℕ
  try_read_f64 = with_context (capture_context "f64" "<Unknown>") (read_uint 8)

  -- An `i32`; any number but 0 and 1 is coerced to `true`.
  unfoldable pub try_read_bool : Read Bool
  try_read_bool = do
    number ← with_context (capture_context "i32" "<Unknown>") (read_uint 4)
    pure (if number == 0 then false else true)

  -- A reader of a crate, which fails with its own error.
  unfoldable pub from_reader :
      {A : Type 0} → (Cursor → Option (A × Cursor)) → String → String → Read A
  from_reader f t name c = elim (f c) [ none ↦ err (failed_to_read_token t name) | some r ↦ ok r ]

  unfoldable pub try_read_guid : String → Read x.Guid
  unfolding from_reader
  try_read_guid name = from_reader x.guid_from_reader "guid" name

  unfoldable pub try_read_sid : Read x.Sid
  unfolding from_reader
  try_read_sid = from_reader x.sid_from_reader "ntsid" "<Unknown>"

  unfoldable pub try_read_filetime : Read x.DateTime
  unfolding from_reader
  try_read_filetime = from_reader x.filetime_from_reader "filetime" "<Unknown>"

  -- `format!("0x{:x}", value)` of a signed number prints its bit pattern.
  unfoldable pub try_read_hex32 : Read Str
  try_read_hex32 = do
    value ← with_context (capture_context "i32" "<Unknown>") (read_uint 4)
    pure (chars "0x" ++ hex value)

  unfoldable pub try_read_hex64 : Read Str
  try_read_hex64 = do
    value ← with_context (capture_context "i64" "<Unknown>") (read_uint 8)
    pure (chars "0x" ++ hex value)

  -- The loop of `try_read_sized_array!`, which began at `start_pos`.
  unfoldable pub array_loop : {A : Type 0} → ℕ → Read A → ℕ → ℕ → List A → Read (List A)
  array_loop zero unit size start_pos array c = stuck
  array_loop {A} (suc fuel) unit size start_pos array c =
      let more : Result DeserializationError (List A × Cursor) =
        continue (unit c) (λ val. array_loop fuel unit size start_pos (array ++ (val ∷ []))) in
      if leb size (c.position - start_pos) then ok (array, c) else more

  -- Each round reads a byte at least, so `size + 1` rounds are enough.
  unfoldable pub try_read_sized_array : {A : Type 0} → Read A → ℕ → Read (List A)
  unfolding array_loop
  try_read_sized_array unit size c = array_loop (suc size) unit size c.position [] c
