-- ===== src/Dump/Options/JsonLines.antt =====
-- The format "jsonl" of src/bin/evtx_dump.rs against its documentation.
use evtx.Base.{ℕ, ◌≡◌, refl, List, Bool, true, false, some, Str, chars}
use evtx.Base.Tests.{str_eq}
use evtx.Crates.{Crates}
use evtx.Dump.Options.{ArgMatches, format_of, or_jsonl, from_cli_matches}

or_jsonl-jsonl : (b : Bool) → or_jsonl b (some (chars "jsonl")) ≡ true
unfolding or_jsonl str_eq
or_jsonl-jsonl true = refl
or_jsonl-jsonl false = refl

-- Whatever the other options, `-o jsonl` gives what `-o json` gives with `--no-indent` and
-- `--dont-show-record-number`.
pub from_cli_matches-jsonl :
    ⦃x : Crates⦄ (encodings : List (Str × x.Codec)) (multithreading : Bool)
    (current_num_threads : ℕ) (windows_1252 : x.Codec) (matches : ArgMatches)
    → from_cli_matches encodings multithreading current_num_threads windows_1252
        (record matches { output_format = some (chars "jsonl") })
      ≡ from_cli_matches encodings multithreading current_num_threads windows_1252 (record matches {
        output_format = some (chars "json");
        no_indent = true;
        no_show_record_number = true;
      })
unfolding from_cli_matches format_of or_jsonl str_eq
from_cli_matches-jsonl encodings multithreading current_num_threads windows_1252 matches =
    rw (or_jsonl-jsonl matches.no_indent, or_jsonl-jsonl matches.no_show_record_number) refl
