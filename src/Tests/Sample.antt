-- ===== src/Tests/Sample.antt =====
-- Stand-ins for the third-party crates: small functions that obey the laws of `Crates`.
use Prim.Native.Nat.{bit_and}
use evtx.Base.{
  ℕ, suc, ◌+◌, ◌*◌, ◌<◌, ◌≡◌, refl, List, [], ◌∷◌, Option, none, some, take, drop, length, leb,
  ◌==◌, if◌then◌else◌, arith,
}
use evtx.Crates.{Crates}
use evtx.Cursor.{Cursor}

-- `n + 1` bytes at the cursor, and the cursor behind them.
abbrev pub bytes_from_reader : ℕ → Cursor → Option (List ℕ × Cursor)
bytes_from_reader n c =
    if leb (c.position + suc n) (length c.data_ref)
    then some
        (take (suc n) (drop c.position c.data_ref), record c { position = c.position + suc n })
    else none

pub bytes_ahead :
    (n : ℕ) (c : Cursor) (g : List ℕ) (c' : Cursor)
    → bytes_from_reader n c ≡ some (g, c')
    → (c'.data_ref ≡ c.data_ref) × (c.position < c'.position)
bytes_ahead n c g c' h = (ground arith, ground arith)

abbrev pub little_endian : List ℕ → ℕ
little_endian [] = 0
little_endian (b ∷ bs) = b + 256 * little_endian bs

abbrev pub sum : List ℕ → ℕ
sum [] = 0
sum (b ∷ bs) = b + sum bs

instance abbrev pub sample_crates : Crates
sample_crates = record {
  Guid = List ℕ;
  Sid = List ℕ;
  NaiveDate = ℕ;
  DateTime = List ℕ;
  Codec = Unit;
  from_le = little_endian;
  from_le-nil = refl;
  from_le-cons = λ b bs. refl;
  guid_from_reader = bytes_from_reader 15;
  guid_ahead = bytes_ahead 15;
  sid_from_reader = bytes_from_reader 7;
  sid_ahead = bytes_ahead 7;
  filetime_from_reader = bytes_from_reader 7;
  filetime_ahead = bytes_ahead 7;
  from_ymd_opt = λ y m d. if leb m 12 then some (y + m + d) else none;
  and_hms_nano_opt = λ date h m s n. if leb h 23 then some (date ∷ h ∷ m ∷ s ∷ n ∷ []) else none;
  decode = λ codec bytes. some bytes;
  crc32 = sum;
  from_bits_truncate = λ mask bits. bit_and bits mask;
  contains = λ flags flag. bit_and flags flag == flag;
}
