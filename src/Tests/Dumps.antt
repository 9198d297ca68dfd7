-- ===== src/Tests/Dumps.antt =====
-- The program evtx_dump and its parts at concrete inputs.
use evtx.Base.{
  ℕ, ◌≤◌, ◌≡◌, refl, List, [], ◌∷◌, ◌++◌, true, false, ◌&&◌, ◌⊎◌, inl, inr, some, none, Str, chars,
  replicate, All, map, length, arith,
}
use evtx.Base.Tests.{str_eq}
use evtx.Base.Result.{Result, ok, err}
use evtx.Cursor.{Cursor, IoError}
use evtx.Error.{EvtxError, calculation_error, failed_to_parse_chunk, incomplete_chunk}
use evtx.Convert.Text.{join}
use evtx.Record.{SerializedEvtxRecord}
use evtx.Chunk.Data.{EvtxChunk}
use evtx.Chunk.Records.{EvtxRecord}
use evtx.Parser.Chunks.{next_chunk, find_next_chunk, find_chunk_rounds, allocate_chunk, chunk_bytes}
use evtx.Parser.Serialized.{Item, serialized_records, take_chunks, batch_items}
use evtx.Parser.InOrder.{AllOrdered, serialized_records-in_order}
use evtx.Parser.Settings.{default_settings}
use evtx.Dump.Ranges.{split, from_str, matches_ranges, is_a_non_negative_number}
use evtx.Dump.Ranges.Accepted.{Gives, IsUsize, from_str-Gives}
use evtx.Dump.Ranges.RoundTrip.{WrittenRange, one, from_to, written, meant, from_str-written}
use evtx.Dump.Target.{FileSystem, create_output_file, create_output_file-asks}
use evtx.Dump.Print.{EvtxDump, EvtxOutputFormat, EvtxResult, Printed, dump_records}
use evtx.Dump.Selected.{expected, ended, has_error, dump_records-expected}
use evtx.Dump.Options.{ArgMatches, find_codec, from_cli_matches}
use evtx.Dump.Options.JsonLines.{from_cli_matches-jsonl}
use evtx.Dump.Options.Validated.{passed, from_cli_matches-Validated}
use evtx.Utils.Hexdump.{print_line, print_ascii, number_of_bytes, word_size, hexdump}
use evtx.Utils.Hexdump.Columns.{print_line-column}
use evtx.Error.Wrapped.{capture_hexdump}
use evtx.Error.Wrapped.Ahead.{hundred_from, captured, capture_hexdump_ahead}
use evtx.Tests.Sample.{sample_crates}
use evtx.Tests.SampleChunk.{short_file}

-- Both chunks of the file are cut, and come in one batch.
abbrev any_record : EvtxChunk → Result EvtxError EvtxRecord → Item ℕ
any_record chunk r = ok 1

abbrev cut_chunks : List (Item ℕ)
cut_chunks =
    err (failed_to_parse_chunk 0 incomplete_chunk)
    ∷ err (failed_to_parse_chunk 1 incomplete_chunk)
    ∷ []

gives_cut_chunks : serialized_records any_record 5 tt 2 3 short_file 0 ≡ ok cut_chunks
unfolding serialized_records take_chunks batch_items next_chunk find_next_chunk find_chunk_rounds
    allocate_chunk chunk_bytes
gives_cut_chunks = refl

serialized_records-in_order_example : AllOrdered any_record 5 tt short_file 0 cut_chunks
serialized_records-in_order_example =
    serialized_records-in_order any_record 5 tt 2 3 short_file 0 cut_chunks gives_cut_chunks

from_str-Gives_example :
    Gives
      (λ ranges. (length ranges ≡ length (split b',' (chars "1-2,x"))) × All IsUsize ranges)
      (from_str (chars "1-2,x"))
from_str-Gives_example = from_str-Gives (chars "1-2,x")

abbrev some_ranges : List WrittenRange
some_ranges = from_to 20 30 ∷ []

from_str-written_example :
    from_str (join (map written (one 7 ∷ some_ranges))) ≡ ok (map meant (one 7 ∷ some_ranges))
from_str-written_example = from_str-written (one 7) some_ranges (omega arith)

-- A file system of one file, "out", with a user who agrees once for each number.
abbrev sample_files : FileSystem
sample_files = record {
  State = ℕ;
  is_dir = λ path s. false;
  exists = λ path s. str_eq path (chars "out");
  parent = λ path. some (chars ".");
  create = λ path s. some s;
  create_dir_all = λ path s. some s;
  interact = λ s. (some true, s);
}

overwrites : create_output_file ⦃fs = sample_files⦄ (chars "out") true 3 ≡ ok 3
unfolding create_output_file str_eq
overwrites = refl

create_output_file-asks_example :
    (sample_files.is_dir (chars "out") 3 ≡ false)
    × ((before : ℕ) × (sample_files.create (chars "out") before ≡ some 3))
    × (((sample_files.exists (chars "out") 3 && true) ≡ false)
        ⊎ ((sample_files.interact 3).0 ≡ some true))
create_output_file-asks_example =
    create_output_file-asks ⦃fs = sample_files⦄ (chars "out") true 3 3 overwrites

abbrev record_of : ℕ → SerializedEvtxRecord Str
record_of n = record { event_record_id = n; timestamp = replicate 8 0; payload = chars "<x/>" }

abbrev sample_dump : EvtxDump
sample_dump = record {
  parser_settings = default_settings tt;
  show_record_number = true;
  output_format = EvtxOutputFormat.xml;
  verbosity_level = none;
  stop_after_error = true;
  ranges = some ((2, 3) ∷ []);
}

abbrev sample_results : List EvtxResult
sample_results =
    inr (record_of 1) ∷ inr (record_of 2) ∷ inl calculation_error ∷ inr (record_of 3) ∷ []

abbrev nothing_printed : Printed
nothing_printed = record { output = []; errors = [] }

dump_records-expected_example :
    dump_records sample_dump sample_results nothing_printed
    ≡ ended
        (sample_dump.stop_after_error && has_error sample_results)
        (expected sample_dump sample_results nothing_printed)
dump_records-expected_example = dump_records-expected sample_dump sample_results nothing_printed

abbrev sample_matches : ArgMatches
sample_matches = record {
  input = some (chars "a.evtx");
  output_format = some (chars "jsonl");
  num_threads = some (chars "0");
  event_ranges = some (chars "1-2");
  ansi_codec = some (chars "windows-1252");
  no_indent = false;
  no_show_record_number = false;
  separate_json_attributes = false;
  validate_checksums = true;
  stop_after_one_error = false;
  verbose = 2;
}

from_cli_matches-jsonl_example :
    from_cli_matches [] true 8 tt (record sample_matches { output_format = some (chars "jsonl") })
    ≡ from_cli_matches [] true 8 tt (record sample_matches {
      output_format = some (chars "json");
      no_indent = true;
      no_show_record_number = true;
    })
from_cli_matches-jsonl_example = from_cli_matches-jsonl [] true 8 tt sample_matches

abbrev encodings : List (Str × (Unit {0}))
encodings = (chars "ascii", tt) ∷ (chars "windows-1252", tt) ∷ []

threads_pass : is_a_non_negative_number (chars "0") ≡ true
unfolding is_a_non_negative_number
threads_pass = refl

ranges_pass : matches_ranges (chars "1-2") ≡ passed
unfolding matches_ranges
ranges_pass = refl

codec_found : find_codec encodings (chars "windows-1252") ≡ ok tt
unfolding find_codec str_eq
codec_found = refl

from_cli_matches-Validated_example :
    (dump : EvtxDump) × (from_cli_matches encodings true 8 tt sample_matches
      ≡ ok (chars "a.evtx", dump))
from_cli_matches-Validated_example =
    from_cli_matches-Validated encodings true 8 tt tt sample_matches (chars "a.evtx")
      (chars "windows-1252") refl threads_pass ranges_pass refl codec_found

abbrev hi : List ℕ
hi = 0x48 ∷ 0x69 ∷ 0 ∷ []

print_line-column_example :
    (start : Str) × (print_line hi 64 b'C' (number_of_bytes b'C') ≡ ok (start ++ print_ascii hi))
    × (length start ≡ 60)
unfolding number_of_bytes word_size
print_line-column_example =
    print_line-column hi 64 b'C' refl (omega arith) (omega arith) (omega arith) (omega arith)

abbrev at_error : Cursor
at_error = record { data_ref = 1 ∷ 2 ∷ 3 ∷ []; position = 1 }

capture_hexdump_ahead_example :
    (dump : Str) × (first : ℕ) × (behind : Cursor) × (hexdump
        (hundred_from 101 at_error.data_ref)
        0
        b'C'
      ≡ ok dump)
    × (capture_hexdump IoError.unexpected_eof at_error
        ≡ ok (captured IoError.unexpected_eof at_error first dump, behind))
    × (101 ≤ behind.position)
capture_hexdump_ahead_example = capture_hexdump_ahead IoError.unexpected_eof at_error (omega arith)
