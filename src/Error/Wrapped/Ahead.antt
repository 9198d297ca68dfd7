-- ===== src/Error/Wrapped/Ahead.antt =====
-- Which bytes the hexdump of an error shows, src/err.rs and src/utils/hexdump.rs.
use evtx.Base.{
  ℕ, zero, suc, ◌+◌, ◌-◌, ◌≤◌, ◌≡◌, refl, List, [], ◌∷◌, ◌++◌, Str, length, take, drop, replicate,
  All, All-append, arith,
}
use evtx.Base.Result.{ok}
use evtx.Cursor.{Cursor, IoError, seek_ahead}
use evtx.Utils.Hexdump.{hexdump, dump_stream, first_byte, dump_text}
use evtx.Utils.Hexdump.Columns.{IsByte}
use evtx.Utils.Hexdump.Total.{hexdump-ok, All-take, All-drop}
use evtx.Error.Wrapped.{WrappedIoError, capture_hexdump}

zeros-IsByte : (n : ℕ) → All IsByte (replicate n 0)
zeros-IsByte zero = tt
zeros-IsByte (suc n) = (omega arith, zeros-IsByte n)

-- A hundred bytes from a position on, zeros behind the end.
abbrev pub hundred_from : ℕ → List ℕ → List ℕ
hundred_from position bytes =
    let there : List ℕ = take 100 (drop position bytes) in there ++ replicate (100 - length there) 0

hundred-IsByte :
    (position : ℕ) (bytes : List ℕ) → All IsByte bytes → All IsByte (hundred_from position bytes)
hundred-IsByte position bytes h =
    All-append IsByte (take 100 (drop position bytes))
      (replicate (100 - length (take 100 (drop position bytes))) 0)
      (All-take 100 (drop position bytes) (All-drop position bytes h))
      (zeros-IsByte (100 - length (take 100 (drop position bytes))))

first_byte-ok :
    (there : List ℕ)
    → (first : ℕ) × (first_byte (there ++ replicate (100 - length there) 0) ≡ ok first)
first_byte-ok [] = (0, refl)
first_byte-ok (b ∷ there) = (b, refl)

abbrev pub captured : IoError → Cursor → ℕ → Str → WrappedIoError
captured error stream first dump = record {
  offset = stream.position;
  hexdump = dump_text first dump;
  message = [];
  source = error;
}

-- The capture of an error always succeeds, and its hexdump is one of a hundred bytes that begin a hundred
-- bytes behind the place of the error: whatever lies before them, the bytes that were being read
-- included, has no part in it. The stream is left behind these bytes.
pub capture_hexdump_ahead :
    (error : IoError) (stream : Cursor)
    → All IsByte stream.data_ref
    → (dump : Str) × (first : ℕ) × (behind : Cursor) × (hexdump
          (hundred_from (stream.position + 100) stream.data_ref)
          0
          b'C'
        ≡ ok dump)
      × (capture_hexdump error stream ≡ ok (captured error stream first dump, behind))
      × (stream.position + 100 ≤ behind.position)
unfolding capture_hexdump dump_stream seek_ahead
capture_hexdump_ahead error stream h =
    let start : ℕ = stream.position + 100 in
    let there : List ℕ = take 100 (drop start stream.data_ref) in
    let (dump, e) =
      hexdump-ok (hundred_from start stream.data_ref) 0 b'C'
        (hundred-IsByte start stream.data_ref h) in
    let (first, g) = first_byte-ok there in
    (dump, first, record stream { position = start + length there }, e, rw (g, e) refl, omega arith)
