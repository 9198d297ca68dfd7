-- ===== src/QuickXml.antt =====
-- quick-xml's events and its `Writer`, as the parameter of the XML output. The content of an event is kept
-- as it was handed over, with whether it is escaped already; the writer escapes and indents.
use evtx.Base.{ℕ, List, [], ◌∷◌, Str, Option, none, some}

-- `BytesText::new` escapes its content, `from_escaped` does not.
pub data BytesText : Type 0 where
  unescaped : Str → BytesText
  from_escaped : Str → BytesText

-- The events that the output writes: `BytesDecl` with version, encoding and standalone, `BytesStart` with
-- its attributes, `BytesEnd`, `BytesText` as text or processing instruction, and the end.
pub data Event : Type 0 where
  decl : Str → Option Str → Option Str → Event
  start : Str → List (Str × Str) → Event
  end : Str → Event
  characters : BytesText → Event
  instruction : BytesText → Event
  eof : Event

pub record QuickXml : Type 1 where
  -- A `Writer` over a `Vec`, new with an empty one.
  pub Writer : Type 0
  pub new : Writer
  -- The character and the width of the indent.
  pub new_with_indent : ℕ → ℕ → Writer
  -- `none` is an error.
  pub write_event : Event → Writer → Option Writer
  pub into_inner : Writer → List ℕ

module _ ⦃q : QuickXml⦄ where
  abbrev pub and_write : (q.Writer → Option q.Writer) → Option q.Writer → Option q.Writer
  and_write more none = none
  and_write more (some w) = more w

  -- The events in their order.
  unfoldable pub write_all : List Event → q.Writer → Option q.Writer
  write_all [] w = some w
  write_all (e ∷ es) w = and_write (write_all es) (q.write_event e w)
