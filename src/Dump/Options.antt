-- ===== src/Dump/Options.antt =====
-- `from_cli_matches` of src/bin/evtx_dump.rs: the options of the program from those that clap has parsed.
-- The output file is opened by Dump/Target; the messages about flags that are passed twice are left out.
pub mod Validated
pub mod JsonLines
use evtx.Base.{
  ℕ, zero, suc, ◌≡◌, refl, ap, List, [], ◌∷◌, Bool, true, false, not, ◌&&◌, ◌||◌, Option, none,
  some, Str, chars, str_eq, if◌then◌else◌, Bool-cases, inl, inr,
}
use evtx.Base.Result.{Result, ok, err, panic, ◌>>=◌}
use evtx.Crates.{Crates}
use evtx.Parser.Settings
use evtx.Parser.Settings.{ParserSettings, default_settings}
use evtx.Dump.Ranges.{
  RangesError, RangeInclusive, from_str, parse_usize, matches_ranges, is_a_non_negative_number,
}
use evtx.Dump.Print.{EvtxDump, EvtxOutputFormat, Level}

-- What `value_of`, `is_present` and `occurrences_of` give.
pub record ArgMatches : Type 0 where
  pub input : Option Str
  pub output_format : Option Str
  pub num_threads : Option Str
  pub event_ranges : Option Str
  pub ansi_codec : Option Str
  pub no_indent : Bool
  pub no_show_record_number : Bool
  pub separate_json_attributes : Bool
  pub validate_checksums : Bool
  pub stop_after_one_error : Bool
  pub verbose : ℕ

-- Text that is none of the three is read as "xml".
unfoldable pub format_of : Option Str → EvtxOutputFormat
format_of none = EvtxOutputFormat.xml
format_of (some fmt) =
    if str_eq fmt (chars "xml")
    then EvtxOutputFormat.xml
    else if str_eq fmt (chars "json") || str_eq fmt (chars "jsonl")
    then EvtxOutputFormat.json
    else EvtxOutputFormat.xml

-- A flag that "jsonl" sets too.
unfoldable pub or_jsonl : Bool → Option Str → Bool
or_jsonl false (some fmt) = str_eq fmt (chars "jsonl")
or_jsonl true (some fmt) = true
or_jsonl v none = v

-- `expect`: the error is a panic.
abbrev pub expected_number : Option ℕ → Result RangesError ℕ
expected_number (some n) = ok n
expected_number none = panic

unfoldable pub threads_given : Option Str → Result RangesError (Option ℕ)
threads_given none = ok none
threads_given (some value) = expected_number (parse_usize value) >>= λ n. ok (some n)

-- With the feature `multithreading`, or without.
unfoldable pub threads_of : Bool → Option ℕ → ℕ
threads_of true (some number) = number
threads_of true none = 0
threads_of false given = 1

abbrev pub expected_ranges :
    Result RangesError (List RangeInclusive) → Result RangesError (Option (List RangeInclusive))
expected_ranges (ok ranges) = ok (some ranges)
expected_ranges other = panic

unfoldable pub ranges_given : Option Str → Result RangesError (Option (List RangeInclusive))
ranges_given none = ok none
ranges_given (some s) = expected_ranges (from_str s)

-- `-v`, `-vv`, and more.
unfoldable pub verbosity_of : ℕ → Option Level
verbosity_of zero = none
verbosity_of (suc zero) = some Level.info
verbosity_of (suc (suc zero)) = some Level.debug
verbosity_of (suc (suc (suc n))) = some Level.trace

module _ ⦃x : Crates⦄ where
  -- `find(|c| c.name() == …)` over the encodings of the crate, with their names.
  unfoldable pub find_codec : List (Str × x.Codec) → Str → Result RangesError x.Codec
  find_codec [] name = panic
  find_codec ((n, codec) ∷ encodings) name =
      if str_eq n name then ok codec else find_codec encodings name

  abbrev pub expected_codec : List (Str × x.Codec) → Option Str → Result RangesError x.Codec
  expected_codec encodings (some name) = find_codec encodings name
  expected_codec encodings none = panic

  -- `ParserSettings::num_threads` of the build.
  abbrev pub set_threads : Bool → ℕ → ℕ → ParserSettings → ParserSettings
  set_threads true current_num_threads n settings =
      Settings.num_threads current_num_threads n settings
  set_threads false current_num_threads n settings = Settings.num_threads_single n settings

  abbrev pub expected_input : Option Str → Result RangesError Str
  expected_input (some path) = ok path
  expected_input none = panic

  -- `ParserSettings::new()` with its setters.
  abbrev pub settings_of : Bool → ℕ → x.Codec → ArgMatches → Option ℕ → x.Codec → ParserSettings
  settings_of multithreading current_num_threads windows_1252 matches given codec =
      Settings.ansi_codec codec (
        Settings.indent (not (or_jsonl matches.no_indent matches.output_format)) (
          Settings.separate_json_attributes matches.separate_json_attributes (
            Settings.validate_checksums matches.validate_checksums (
              set_threads multithreading current_num_threads (threads_of multithreading given)
                (default_settings windows_1252)))))

  abbrev pub dump_of : ArgMatches → ParserSettings → Option (List RangeInclusive) → EvtxDump
  dump_of matches settings event_ranges = record {
    parser_settings = settings;
    show_record_number = not (or_jsonl matches.no_show_record_number matches.output_format);
    output_format = format_of matches.output_format;
    verbosity_level = verbosity_of matches.verbose;
    stop_after_error = matches.stop_after_one_error;
    ranges = event_ranges;
  }

  -- `encodings`, the number of threads of rayon, and `WINDOWS_1252` are those of the crates.
  unfoldable pub from_cli_matches :
      List (Str × x.Codec) → Bool → ℕ → x.Codec → ArgMatches → Result RangesError (Str × EvtxDump)
  unfolding format_of or_jsonl threads_given threads_of ranges_given verbosity_of find_codec
  from_cli_matches encodings multithreading current_num_threads windows_1252 matches = do
    input ← expected_input matches.input
    given ← threads_given matches.num_threads
    event_ranges ← ranges_given matches.event_ranges
    codec ← expected_codec encodings matches.ansi_codec
    let settings = settings_of multithreading current_num_threads windows_1252 matches given codec
    ok (input, dump_of matches settings event_ranges)
