-- ===== src/Error/Wrapped.antt =====
-- `WrappedIoError` of src/err.rs: what is captured of the stream where an error occurs. The stream is left
-- behind the bytes that were dumped.
pub mod Ahead
use evtx.Base.{ℕ, [], Str, chars}
use evtx.Base.Int.{ℤ, pos}
use evtx.Base.Result.{Result, ok, err, panic, stuck, ◌>>=◌}
use evtx.Cursor.{Cursor, IoError}
use evtx.Utils.Hexdump.{DumpError, dump_stream}

pub record WrappedIoError : Type 0 where
  pub offset : ℕ
  pub hexdump : Str
  pub message : Str
  pub source : IoError

abbrev pub default_lookbehind_len : ℤ
default_lookbehind_len = pos 100

-- `unwrap_or_else`
abbrev pub dumped_or_notice :
    Cursor → Result DumpError (Str × Cursor) → Result DumpError (Str × Cursor)
dumped_or_notice stream (ok dump) = ok dump
dumped_or_notice stream (err e) = ok (chars "<Error while capturing hexdump>", stream)
dumped_or_notice stream panic = panic
dumped_or_notice stream stuck = stuck

unfoldable pub io_error_with_message :
    IoError → Str → Cursor → Result DumpError (WrappedIoError × Cursor)
io_error_with_message error context stream = do
  (dump, behind) ← dumped_or_notice stream (dump_stream default_lookbehind_len stream)
  ok (
    record { offset = stream.position; hexdump = dump; message = context; source = error },
    behind,
  )

unfoldable pub capture_hexdump : IoError → Cursor → Result DumpError (WrappedIoError × Cursor)
capture_hexdump error stream = do
  (dump, behind) ← dumped_or_notice stream (dump_stream default_lookbehind_len stream)
  ok (record { offset = stream.position; hexdump = dump; message = []; source = error }, behind)
