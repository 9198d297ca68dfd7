-- ===== src/Crates.antt =====
-- The third-party crates that the parser calls, as the parameter of the modules that use them:
-- byteorder, winstructs, chrono, encoding, crc32fast and bitflags. Each field names the function of the
-- crate; the laws are what their documentation says and the parser relies on.
use evtx.Base.{ℕ, Bool, ◌+◌, ◌*◌, ◌<◌, List, [], ◌∷◌, Str, Option, some, ◌≡◌}
use evtx.Cursor.{Cursor}

pub record Crates : Type 1 where
  pub Guid : Type 0
  pub Sid : Type 0
  pub NaiveDate : Type 0
  pub DateTime : Type 0
  pub Codec : Type 0
  -- byteorder: `LittleEndian::read_u16`, `read_u32` and `read_u64` of the bytes of a number.
  pub from_le : List ℕ → ℕ
  pub from_le-nil : from_le [] ≡ 0
  pub from_le-cons : (b : ℕ) (bs : List ℕ) → from_le (b ∷ bs) ≡ b + 256 * from_le bs
  -- winstructs: `Guid::from_reader`, `Sid::from_reader`, and `WinTimestamp::from_reader` with
  -- `to_datetime`; `none` is an error. They read ahead, and leave the data as it is.
  pub guid_from_reader : Cursor → Option (Guid × Cursor)
  pub guid_ahead :
      (c : Cursor) (g : Guid) (c' : Cursor)
      → guid_from_reader c ≡ some (g, c')
      → (c'.data_ref ≡ c.data_ref) × (c.position < c'.position)
  pub sid_from_reader : Cursor → Option (Sid × Cursor)
  pub sid_ahead :
      (c : Cursor) (g : Sid) (c' : Cursor)
      → sid_from_reader c ≡ some (g, c')
      → (c'.data_ref ≡ c.data_ref) × (c.position < c'.position)
  pub filetime_from_reader : Cursor → Option (DateTime × Cursor)
  pub filetime_ahead :
      (c : Cursor) (g : DateTime) (c' : Cursor)
      → filetime_from_reader c ≡ some (g, c')
      → (c'.data_ref ≡ c.data_ref) × (c.position < c'.position)
  -- chrono: `NaiveDate::from_ymd_opt year month day`, and `and_hms_nano_opt hour min sec nano`
  -- with `DateTime::from_utc`.
  pub from_ymd_opt : ℕ → ℕ → ℕ → Option NaiveDate
  pub and_hms_nano_opt : NaiveDate → ℕ → ℕ → ℕ → ℕ → Option DateTime
  -- encoding: `decode` with `DecoderTrap::Strict`.
  pub decode : Codec → List ℕ → Option Str
  -- crc32fast: a `Hasher` that is updated with the bytes and finalized.
  pub crc32 : List ℕ → ℕ
  -- bitflags: `from_bits_truncate` at the mask of all flags of the type, and `contains`.
  pub from_bits_truncate : ℕ → ℕ → ℕ
  pub contains : ℕ → ℕ → Bool
