-- ===== src/Parser/Settings.antt =====
-- `ParserSettings` of src/evtx_parser.rs, with its builder. `WINDOWS_1252` and the number of
-- threads of rayon are arguments.
use evtx.Base.{ℕ, Bool, true, false, not, ◌&&◌, ◌==◌, Str, str_eq, if◌then◌else◌}
use evtx.Crates.{Crates}

module _ ⦃x : Crates⦄ where
  pub record ParserSettings : Type 0 where
    pub num_threads : ℕ
    pub validate_checksums : Bool
    pub separate_json_attributes : Bool
    pub indent : Bool
    pub ansi_codec : x.Codec

  -- `ParserSettings::default`
  abbrev pub default_settings : x.Codec → ParserSettings
  default_settings windows_1252 = record {
    num_threads = 0;
    validate_checksums = false;
    separate_json_attributes = false;
    indent = true;
    ansi_codec = windows_1252;
  }

  -- With the feature `multithreading`: 0 lets rayon decide.
  unfoldable pub num_threads : ℕ → ℕ → ParserSettings → ParserSettings
  num_threads current_num_threads n settings = record settings {
    num_threads = if n == 0 then current_num_threads else n;
  }

  -- Without it, one thread.
  unfoldable pub num_threads_single : ℕ → ParserSettings → ParserSettings
  num_threads_single n settings = record settings { num_threads = 1 }

  unfoldable pub ansi_codec : x.Codec → ParserSettings → ParserSettings
  ansi_codec codec settings = record settings { ansi_codec = codec }

  unfoldable pub validate_checksums : Bool → ParserSettings → ParserSettings
  validate_checksums b settings = record settings { validate_checksums = b }

  unfoldable pub separate_json_attributes : Bool → ParserSettings → ParserSettings
  separate_json_attributes b settings = record settings { separate_json_attributes = b }

  unfoldable pub indent : Bool → ParserSettings → ParserSettings
  indent b settings = record settings { indent = b }

  -- The getters.
  unfoldable pub get_ansi_codec : ParserSettings → x.Codec
  get_ansi_codec settings = settings.ansi_codec

  unfoldable pub should_separate_json_attributes : ParserSettings → Bool
  should_separate_json_attributes settings = settings.separate_json_attributes

  unfoldable pub should_indent : ParserSettings → Bool
  should_indent settings = settings.indent

  unfoldable pub should_validate_checksums : ParserSettings → Bool
  should_validate_checksums settings = settings.validate_checksums

  unfoldable pub get_num_threads : ParserSettings → ℕ
  get_num_threads settings = settings.num_threads

  abbrev bool_eq : Bool → Bool → Bool
  bool_eq true b = b
  bool_eq false b = not b

  -- `PartialEq`: codecs are compared by their names, which are those of the crate.
  unfoldable pub eq : (x.Codec → Str) → ParserSettings → ParserSettings → Bool
  eq name settings other =
      str_eq (name settings.ansi_codec) (name other.ansi_codec)
      && (settings.num_threads == other.num_threads
          && (bool_eq settings.validate_checksums other.validate_checksums
              && (bool_eq settings.separate_json_attributes other.separate_json_attributes
                  && bool_eq settings.indent other.indent)))
