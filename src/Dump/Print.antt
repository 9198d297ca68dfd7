-- ===== src/Dump/Print.antt =====
-- `dump_record` and `run` of src/bin/evtx_dump.rs. Writing the output does not fail. The records are
-- made before the first one is printed, where the source makes a batch at a time; a panic is then one of
-- the whole run.
use evtx.Base.{
  ℕ, ◌%◌, List, [], ◌∷◌, ◌++◌, Bool, true, Option, none, some, Str, chars, ◌⊎◌, inl, inr,
  if◌then◌else◌,
}
use evtx.Base.Text.{decimal}
use evtx.Base.Result.{Result, ok, err, panic, stuck, ◌>>=◌}
use evtx.Crates.{Crates}
use evtx.Error.{EvtxError}
use evtx.Formats.{Formats}
use evtx.Serde.{SerdeJson, SerdePrint}
use evtx.QuickXml.{QuickXml}
use evtx.Record.{SerializedEvtxRecord}
use evtx.Parser.Chunks.{EvtxParser, from_read_seek}
use evtx.Parser.Settings.{ParserSettings}
use evtx.Parser.Serialized.{Item, Items}
use evtx.Parser.Records.{with_configuration, records, records_json}
use evtx.Dump.Ranges.{RangeInclusive, contains, usize_mod}

pub data EvtxOutputFormat : Type 0 where
  json xml : EvtxOutputFormat

pub data Level : Type 0 where
  info debug trace : Level

module _ ⦃x : Crates⦄ where
  -- The input file and the output are arguments of `run`.
  pub record EvtxDump : Type 0 where
    pub parser_settings : ParserSettings
    pub show_record_number : Bool
    pub output_format : EvtxOutputFormat
    pub verbosity_level : Option Level
    pub stop_after_error : Bool
    pub ranges : Option (List RangeInclusive)

  -- What the program has written: the output, and the errors on stderr.
  pub record Printed : Type 0 where
    pub output : Str
    pub errors : List EvtxError

  -- The program goes on, or has exited with 1.
  pub data Outcome : Type 0 where
    running : Printed → Outcome
    exited : Printed → Outcome

  -- What an iterator gives of records: no panic among them.
  abbrev pub EvtxResult : Type 0
  EvtxResult = EvtxError ⊎ SerializedEvtxRecord Str

  -- `event_record_id as usize`
  abbrev pub in_ranges : Option (List RangeInclusive) → ℕ → Bool
  in_ranges (some ranges) event_record_id = contains ranges (event_record_id % usize_mod)
  in_ranges none event_record_id = true

  abbrev pub writeln : Str → Printed → Printed
  writeln line printed = record printed { output = printed.output ++ (line ++ (10 ∷ [])) }

  abbrev pub print_record : EvtxDump → SerializedEvtxRecord Str → Printed → Printed
  print_record dump r printed = writeln r.payload (
      if dump.show_record_number
      then writeln (chars "Record " ++ decimal r.event_record_id) printed
      else printed)

  unfoldable pub dump_record : EvtxDump → EvtxResult → Printed → Outcome
  dump_record dump (inr r) printed =
      running
        (if in_ranges dump.ranges r.event_record_id then print_record dump r printed else printed)
  dump_record dump (inl e) printed =
      let reported : Printed = record printed { errors = printed.errors ++ (e ∷ []) } in
      if dump.stop_after_error then exited reported else running reported

  abbrev pub and_dump : (Printed → Outcome) → Outcome → Outcome
  and_dump more (running printed) = more printed
  and_dump more (exited printed) = exited printed

  -- `for record in … { self.dump_record(record)? }`
  unfoldable pub dump_records : EvtxDump → List EvtxResult → Printed → Outcome
  unfolding dump_record
  dump_records dump [] printed = running printed
  dump_records dump (r ∷ rs) printed = and_dump (dump_records dump rs) (dump_record dump r printed)

  abbrev pub settled : Item (SerializedEvtxRecord Str) → Result EvtxError EvtxResult
  settled (ok r) = ok (inr r)
  settled (err e) = ok (inl e)
  settled panic = panic
  settled stuck = stuck

  unfoldable pub settle :
      List (Item (SerializedEvtxRecord Str)) → Result EvtxError (List EvtxResult)
  settle [] = ok []
  settle (item ∷ items) = do r ← settled item; rs ← settle items; ok (r ∷ rs)

module _ ⦃x : Crates⦄ ⦃f : Formats⦄ ⦃j : SerdeJson⦄ ⦃p : SerdePrint⦄ ⦃q : QuickXml⦄ where
  abbrev pub formatted :
      EvtxOutputFormat → ℕ → ParserSettings → ℕ → EvtxParser → Items (SerializedEvtxRecord Str)
  formatted xml fuel settings batches parser = records fuel settings batches parser
  formatted json fuel settings batches parser = records_json fuel settings batches parser

  -- `run` on the bytes of the input, from a state of the output; the fuel is that of the records.
  unfoldable pub run : ℕ → ℕ → EvtxDump → List ℕ → Printed → Result EvtxError Outcome
  unfolding dump_records settle
  run fuel batches dump input printed = do
    opened ← from_read_seek input
    let parser = with_configuration dump.parser_settings opened
    items ← formatted dump.output_format fuel dump.parser_settings batches parser
    results ← settle items
    ok (dump_records dump results printed)
