-- ===== src/Dump/Selected.antt =====
-- `dump_record` of src/bin/evtx_dump.rs over all records, against a description of what is selected.
use evtx.Base.{
  ◌≡◌, refl, ap, sym, ◌∙◌, Option, List, [], ◌∷◌, ◌++◌, append_assoc, append-nil, Bool, true, false,
  ◌&&◌, Str, chars, inl, inr, if◌then◌else◌, Bool-cases,
}
use evtx.Base.Text.{decimal}
use evtx.Crates.{Crates}
use evtx.Error.{EvtxError}
use evtx.Record.{SerializedEvtxRecord}
use evtx.Dump.Ranges.{RangeInclusive}
use evtx.Dump.Print.{
  EvtxDump, EvtxResult, Printed, Outcome, running, exited, in_ranges, print_record, dump_record,
  dump_records,
}

module _ ⦃x : Crates⦄ where
  -- The results that are come to: all, or those up to the first error.
  abbrev pub reached : Bool → List EvtxResult → List EvtxResult
  reached stop [] = []
  reached stop (inr r ∷ rs) = inr r ∷ reached stop rs
  reached true (inl e ∷ rs) = inl e ∷ []
  reached false (inl e ∷ rs) = inl e ∷ reached false rs

  -- The records among them whose id is asked for.
  abbrev pub selected :
      Option (List RangeInclusive) → List EvtxResult → List (SerializedEvtxRecord Str)
  selected ranges [] = []
  selected ranges (inl e ∷ rs) = selected ranges rs
  selected ranges (inr r ∷ rs) =
      if in_ranges ranges r.event_record_id then r ∷ selected ranges rs else selected ranges rs

  abbrev pub errors_of : List EvtxResult → List EvtxError
  errors_of [] = []
  errors_of (inl e ∷ rs) = e ∷ errors_of rs
  errors_of (inr r ∷ rs) = errors_of rs

  -- The lines of a record.
  abbrev pub lines : Bool → SerializedEvtxRecord Str → Str
  lines true r =
      (chars "Record " ++ (decimal r.event_record_id ++ (10 ∷ []))) ++ (r.payload ++ (10 ∷ []))
  lines false r = r.payload ++ (10 ∷ [])

  abbrev pub all_lines : Bool → List (SerializedEvtxRecord Str) → Str
  all_lines show [] = []
  all_lines show (r ∷ rs) = lines show r ++ all_lines show rs

  abbrev pub has_error : List EvtxResult → Bool
  has_error [] = false
  has_error (inl e ∷ rs) = true
  has_error (inr r ∷ rs) = has_error rs

  abbrev pub expected : EvtxDump → List EvtxResult → Printed → Printed
  expected dump rs printed = record {
    output =
        printed.output
        ++ all_lines dump.show_record_number
            (selected dump.ranges (reached dump.stop_after_error rs));
    errors = printed.errors ++ errors_of (reached dump.stop_after_error rs);
  }

  abbrev pub ended : Bool → Printed → Outcome
  ended true printed = exited printed
  ended false printed = running printed

module _ ⦃x : Crates⦄ where
  abbrev printed_as : Str → List EvtxError → Printed
  printed_as text es = record { output = text; errors = es }

  abbrev with_flags : EvtxDump → Bool → Bool → EvtxDump
  with_flags dump stop show = record dump { stop_after_error = stop; show_record_number = show }

  -- A record in front of others, printed.
  print_record-lines :
      (dump : EvtxDump) (show : Bool) (r : SerializedEvtxRecord Str) (printed : Printed)
      (rest : Str)
      → (print_record (with_flags dump dump.stop_after_error show) r printed).output ++ rest
        ≡ printed.output ++ (lines show r ++ rest)
  print_record-lines dump true r printed rest =
      let line : Str = chars "Record " ++ (decimal r.event_record_id ++ (10 ∷ [])) in
      let text : Str = r.payload ++ (10 ∷ []) in
      ap (λ t. t ++ rest) (append_assoc printed.output line text)
      ∙ append_assoc printed.output (line ++ text) rest
  print_record-lines dump false r printed rest =
      append_assoc printed.output (r.payload ++ (10 ∷ [])) rest

  print_record-errors :
      (dump : EvtxDump) (show : Bool) (r : SerializedEvtxRecord Str) (printed : Printed)
      → (print_record (with_flags dump dump.stop_after_error show) r printed).errors
        ≡ printed.errors
  print_record-errors dump true r printed = refl
  print_record-errors dump false r printed = refl

  both : (a b : Str) (es gs : List EvtxError) → a ≡ b → es ≡ gs → printed_as a es ≡ printed_as b gs
  both a b es gs h k = ap (λ t. printed_as t es) h ∙ ap (printed_as b) k

  record-expected :
      (dump : EvtxDump) (stop show : Bool) (r : SerializedEvtxRecord Str) (rs : List EvtxResult)
      (printed : Printed)
      → expected (with_flags dump stop show) rs (
          if in_ranges dump.ranges r.event_record_id
          then print_record (with_flags dump stop show) r printed
          else printed)
        ≡ expected (with_flags dump stop show) (inr r ∷ rs) printed
  record-expected dump stop show r rs printed =
      elim (Bool-cases (in_ranges dump.ranges r.event_record_id)) [
        | inl e ↦
            let rest : Str = all_lines show (selected dump.ranges (reached stop rs)) in
            let others : List EvtxError = errors_of (reached stop rs) in
            let written : Printed =
              print_record (with_flags dump dump.stop_after_error show) r printed in
            rw e (
              both (written.output ++ rest) (printed.output ++ (lines show r ++ rest))
                (written.errors ++ others) (printed.errors ++ others)
                (print_record-lines dump show r printed rest)
                (ap (λ es. es ++ others) (print_record-errors dump show r printed)))
        | inr e ↦ rw e refl
      ]

  flags-expected :
      (dump : EvtxDump) (stop show : Bool) (rs : List EvtxResult) (printed : Printed)
      → dump_records (with_flags dump stop show) rs printed
        ≡ ended (stop && has_error rs) (expected (with_flags dump stop show) rs printed)
  unfolding dump_records dump_record
  flags-expected dump true show [] printed = ap running (
      both printed.output (printed.output ++ []) printed.errors (printed.errors ++ [])
        (sym (append-nil printed.output)) (sym (append-nil printed.errors)))
  flags-expected dump false show [] printed = ap running (
      both printed.output (printed.output ++ []) printed.errors (printed.errors ++ [])
        (sym (append-nil printed.output)) (sym (append-nil printed.errors)))
  flags-expected dump stop show (inr r ∷ rs) printed =
      flags-expected dump stop show rs (
        if in_ranges dump.ranges r.event_record_id
        then print_record (with_flags dump stop show) r printed
        else printed)
      ∙ ap (ended (stop && has_error rs)) (record-expected dump stop show r rs printed)
  flags-expected dump true show (inl e ∷ rs) printed =
      ap (λ t. exited (printed_as t (printed.errors ++ (e ∷ [])))) (sym (append-nil printed.output))
  flags-expected dump false show (inl e ∷ rs) printed =
      flags-expected dump false show rs (record printed { errors = printed.errors ++ (e ∷ []) })
      ∙ ap
          (λ es. ended false (
            printed_as (printed.output ++ all_lines show (selected dump.ranges (reached false rs)))
              es))
          (append_assoc printed.errors (e ∷ []) (errors_of (reached false rs)))

-- Whatever the records and the options: the output gains the lines of the records whose id lies in a range, or
-- of all where no ranges are given, in their order, and stderr gains the errors; with
-- `stop_after_error` both end at the first error, and the program exits there.
pub dump_records-expected :
    ⦃x : Crates⦄ (dump : EvtxDump) (rs : List EvtxResult) (printed : Printed)
    → dump_records dump rs printed
      ≡ ended (dump.stop_after_error && has_error rs) (expected dump rs printed)
dump_records-expected dump rs printed =
    flags-expected dump dump.stop_after_error dump.show_record_number rs printed
