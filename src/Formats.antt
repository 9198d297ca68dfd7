-- ===== src/Formats.antt =====
-- How crates print what only they can build, as a parameter: winstructs' `to_string`, chrono's
-- `format(DATETIME_FORMAT)`, `to_string` of floats, and quick-xml's `unescape`.
use evtx.Base.{ℕ, Str, Option}
use evtx.Crates.{Crates}

pub record Formats ⦃x : Crates⦄ : Type 0 where
  pub guid_to_string : x.Guid → Str
  pub sid_to_string : x.Sid → Str
  pub format_datetime : x.DateTime → Str
  -- `to_string` of the `DateTime` itself, as the lists of times use it.
  pub datetime_to_string : x.DateTime → Str
  pub f32_to_string : ℕ → Str
  pub f64_to_string : ℕ → Str
  -- `BytesText::from_escaped(text).unescape()`
  pub unescape : Str → Option Str
