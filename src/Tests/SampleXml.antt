-- ===== src/Tests/SampleXml.antt =====
-- A stand-in for quick-xml's writer: it puts the events one behind the other, without escapes or indents.
use evtx.Base.{List, [], ◌∷◌, ◌++◌, Str, some, chars}
use evtx.QuickXml.{Event, BytesText, QuickXml}

abbrev content : BytesText → Str
content (BytesText.unescaped s) = s
content (BytesText.from_escaped s) = s

abbrev attributes : List (Str × Str) → Str
attributes [] = []
attributes ((name, v) ∷ more) =
    chars " " ++ (name ++ (chars "='" ++ (v ++ (chars "'" ++ attributes more))))

abbrev rendered : Event → Str
rendered (Event.decl version encoding standalone) = chars "<?xml?>"
rendered (Event.start name attrs) = chars "<" ++ (name ++ (attributes attrs ++ chars ">"))
rendered (Event.end name) = chars "</" ++ (name ++ chars ">")
rendered (Event.characters t) = content t
rendered (Event.instruction t) = chars "<?" ++ (content t ++ chars "?>")
rendered Event.eof = []

instance abbrev pub sample_xml : QuickXml
sample_xml = record {
  Writer = Str;
  new = [];
  new_with_indent = λ c n. [];
  write_event = λ e w. some (w ++ rendered e);
  into_inner = λ w. w;
}
