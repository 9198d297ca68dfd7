-- ===== src/Binxml/Name.antt =====
-- src/binxml/name.rs
pub mod Forward
use evtx.Base.{ℕ, ◌+◌, ◌*◌, ◌%◌, ◌^◌, List, [], Option, none, some, Str, ltb, ◌==◌, if◌then◌else◌}
use mathlib.Core.Option.{get_or}
use evtx.Crates.{Crates}
use evtx.Cursor.{Cursor, Reader, ◌>>=◌, ◌>>◌, pure, with_context, tell}
use evtx.Error.{DeserializationError, remove_me}
use evtx.Macros.{Read, read_uint, try_read_u16, try_read_u32, try_seek}
use evtx.Model.Deserialized.{BinXmlNameRef}
use evtx.Utils.Strings.{try_read_len_prefixed_nul}

pub record BinXmlName : Type 0 where
  pub str : Str

pub record BinXmlNameLink : Type 0 where
  pub next_string : Option ℕ
  pub hash : ℕ

-- `BinXmlNameLink::data_size`
abbrev pub link_data_size : ℕ
link_data_size = 6

module _ ⦃x : Crates⦄ where
  -- `BinXmlNameLink::from_stream`
  unfoldable pub read_name_link : Read BinXmlNameLink
  read_name_link = do
    next_string ← try_read_u32 "<Unknown>"
    name_hash ← try_read_u16 "name_hash"
    pure (record {
      next_string = if ltb 0 next_string then some next_string else none;
      hash = name_hash;
    })

  -- Skips the string that stands in the stream; `len * 2` is taken over `u16`.
  unfoldable pub skip_string : ℕ → Read Unit
  unfolding read_name_link
  skip_string position_before_string = do
    read_name_link
    len ← with_context remove_me (read_uint 2)
    try_seek (position_before_string + (link_data_size + len * 2 % 2 ^ 16 + 4))

  -- `BinXmlNameRef::from_stream`
  unfoldable pub read_name_ref : Read BinXmlNameRef
  unfolding skip_string
  read_name_ref = do
    name_offset ← try_read_u32 "name_offset"
    position_before_string ← tell
    (if position_before_string == name_offset then skip_string position_before_string else pure tt)
    pure (record { offset = name_offset })

  -- `BinXmlName::from_stream`
  unfoldable pub read_name : Read BinXmlName
  read_name = do name ← try_read_len_prefixed_nul "name"; pure (record { str = get_or name [] })
