-- ===== src/Dump/Options/Validated.antt =====
-- The `expect`s of `from_cli_matches` of src/bin/evtx_dump.rs, behind the validators of clap.
use evtx.Base.{ℕ, ◌≡◌, refl, List, Bool, true, not, Option, none, some, Str}
use evtx.Base.Result.{Result, ok, err, panic, stuck, ◌>>=◌}
use evtx.Crates.{Crates}
use evtx.Dump.Ranges.{
  RangesError, RangeInclusive, from_str, parse_usize, matches_ranges, is_a_non_negative_number,
  is_none,
}
use evtx.Parser.Settings.{ParserSettings}
use evtx.Dump.Print.{EvtxDump}
use evtx.Dump.Options.{
  ArgMatches, threads_given, ranges_given, expected_number, expected_ranges, find_codec,
  from_cli_matches, settings_of, dump_of,
}

-- A value that is given has passed its validator.
abbrev pub Validated : (Str → Type 0) → Option Str → Type 0
Validated P none = Unit
Validated P (some value) = P value

number_valid : (o : Option ℕ) → not (is_none o) ≡ true → (n : ℕ) × (expected_number o ≡ ok n)
number_valid none h = absurd cc
number_valid (some n) h = (n, refl)

threads_valid :
    (given : Option Str)
    → Validated (λ value. is_a_non_negative_number value ≡ true) given
    → (threads : Option ℕ) × (threads_given given ≡ ok threads)
unfolding threads_given is_a_non_negative_number
threads_valid none h = (none, refl)
threads_valid (some value) h =
    let (n, e) = number_valid (parse_usize value) h in (some n, rw e refl)

abbrev pub passed : Result RangesError (Unit {0})
passed = ok tt

ranges_ok :
    (r : Result RangesError (List RangeInclusive))
    → (r >>= λ ranges. passed) ≡ passed
    → (ranges : Option (List RangeInclusive)) × (expected_ranges r ≡ ok ranges)
ranges_ok (ok ranges) h = (some ranges, refl)
ranges_ok (err e) h = absurd cc
ranges_ok panic h = absurd cc
ranges_ok stuck h = absurd cc

ranges_valid :
    (given : Option Str)
    → Validated (λ value. matches_ranges value ≡ passed) given
    → (ranges : Option (List RangeInclusive)) × (ranges_given given ≡ ok ranges)
unfolding ranges_given matches_ranges
ranges_valid none h = (none, refl)
ranges_valid (some value) h = ranges_ok (from_str value) h

-- Where the input is given, the number of threads and the ranges have passed their validators if they are
-- given, and the codec is one of the encodings, no `expect` of `from_cli_matches` fails: it gives the
-- input and the options of a dump.
pub from_cli_matches-Validated :
    ⦃x : Crates⦄ (encodings : List (Str × x.Codec)) (multithreading : Bool)
    (current_num_threads : ℕ) (windows_1252 codec : x.Codec) (matches : ArgMatches)
    (path name : Str)
    → matches.input ≡ some path
    → Validated (λ value. is_a_non_negative_number value ≡ true) matches.num_threads
    → Validated (λ value. matches_ranges value ≡ passed) matches.event_ranges
    → matches.ansi_codec ≡ some name
    → find_codec encodings name ≡ ok codec
    → (dump : EvtxDump) × (from_cli_matches encodings multithreading current_num_threads
          windows_1252 matches
        ≡ ok (path, dump))
unfolding from_cli_matches
from_cli_matches-Validated encodings multithreading current_num_threads windows_1252 codec matches
      path name given threads ranges named known =
    let (n, e) = threads_valid matches.num_threads threads in
    let (rs, g) = ranges_valid matches.event_ranges ranges in
    let settings : ParserSettings =
      settings_of multithreading current_num_threads windows_1252 matches n codec in
    (dump_of matches settings rs, rw (given, e, g, named, known) refl)
