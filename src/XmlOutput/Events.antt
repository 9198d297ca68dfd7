-- ===== src/XmlOutput/Events.antt =====
-- The events of a record model, described without the walk, against what the XML output writes.
use evtx.Base.{
  ◌≡◌, refl, sym, List, [], ◌∷◌, ◌++◌, ap, ◌∙◌, Option, none, some, Str, chars, length, ltb,
  if◌then◌else◌, append_assoc, append-nil, Bool-cases, inl, inr,
}
use evtx.Base.Result.{Result, ok, err, panic, stuck, ◌>>=◌, >>=-ok, ok_or, map_err, map_err-ok}
use evtx.Crates.{Crates}
use evtx.Error.{SerializationError, EvtxError, serialization_error, xml_output_error}
use evtx.Formats.{Formats}
use evtx.Model.Deserialized.{BinXmlValue}
use evtx.Model.Xml.{
  XmlModel, XmlAttribute, XmlElement, open_element, close_element, pi, entity_ref, value,
  end_of_stream, start_of_stream,
}
use evtx.Convert.Text.{as_cow_str}
use evtx.Assemble.Parse.{visit_model, visit_models, visit_close, visit_record}
use evtx.QuickXml.{Event, BytesText, QuickXml, write_all, and_write}
use evtx.XmlOutput.{
  push_attribute, push_attributes, visit_open_start_element, visit_close_element, visit_characters,
  visit_entity_reference, visit_processing_instruction, visit_start_of_stream, visit_end_of_stream,
  xml_visitor, write_event,
}

module _ ⦃x : Crates⦄ where
  -- The text, where there is one.
  abbrev pub text_of : Result SerializationError Str → Str
  text_of (ok s) = s
  text_of other = []

  -- The elements that are open behind an item.
  abbrev pub inside : XmlModel → List XmlElement → List XmlElement
  inside (open_element e) elements = e ∷ elements
  inside close_element [] = []
  inside close_element (e ∷ elements) = elements
  inside m elements = elements

module _ ⦃x : Crates⦄ ⦃f : Formats⦄ where
  -- The attributes that have a text, in order.
  unfoldable pub attributes_of : List XmlAttribute → List (Str × Str)
  attributes_of [] = []
  attributes_of (a ∷ attributes) =
      let s = text_of (as_cow_str a.value) in
      if ltb 0 (length s)
      then (a.name.str, s) ∷ attributes_of attributes
      else attributes_of attributes

  -- What an item of the record model is written as, inside the elements that are open.
  abbrev pub event_of : XmlModel → List XmlElement → List Event
  event_of (open_element e) elements = Event.start e.name.str (attributes_of e.attributes) ∷ []
  event_of close_element [] = []
  event_of close_element (e ∷ elements) = Event.end e.name.str ∷ []
  event_of (value v) elements = Event.characters (BytesText.unescaped (text_of (as_cow_str v))) ∷ []
  event_of (pi p) elements = Event.instruction (BytesText.unescaped (p.name.str ++ p.text)) ∷ []
  event_of (entity_ref name) elements =
      Event.characters (BytesText.from_escaped (chars "&" ++ (name.str ++ chars ";"))) ∷ []
  event_of end_of_stream elements = []
  event_of start_of_stream elements = []

  unfoldable pub events_of : List XmlModel → List XmlElement → List Event
  events_of [] elements = []
  events_of (m ∷ ms) elements = event_of m elements ++ events_of ms (inside m elements)

  abbrev declaration : Event
  declaration = Event.decl (chars "1.0") (some (chars "utf-8")) none

  -- The declaration, the events of the model, and the end.
  unfoldable pub document_of : List XmlModel → List Event
  unfolding events_of
  document_of model = declaration ∷ (events_of model [] ++ (Event.eof ∷ []))

  push_step :
      (a : XmlAttribute) (attributes : List XmlAttribute) (s : Str) (builder : List (Str × Str))
      → as_cow_str a.value ≡ ok s
      → builder ++ attributes_of (a ∷ attributes)
        ≡ push_attribute a s builder ++ attributes_of attributes
  unfolding push_attribute attributes_of
  push_step a attributes s builder e = elim (Bool-cases (ltb 0 (length s))) [
    | inl g ↦
        rw (e, g) (sym (append_assoc builder ((a.name.str, s) ∷ []) (attributes_of attributes)))
    | inr g ↦ rw (e, g) refl
  ]

  push_attributes-attributes_of :
      (attributes : List XmlAttribute) (builder pushed : List (Str × Str))
      → push_attributes attributes builder ≡ ok pushed
      → builder ++ attributes_of attributes ≡ pushed
  unfolding push_attributes attributes_of
  push_attributes-attributes_of [] builder pushed h =
      let g : builder ≡ pushed = cc in append-nil builder ∙ g
  push_attributes-attributes_of (a ∷ attributes) builder pushed h =
      let (s, e, k) =
        >>=-ok (as_cow_str a.value) (λ t. push_attributes attributes (push_attribute a t builder))
          pushed h in
      push_step a attributes s builder e
      ∙ push_attributes-attributes_of attributes (push_attribute a s builder) pushed k

module _ ⦃x : Crates⦄ {A : Type 0} where
  pub ok_or-ok : (o : Option A) (e : SerializationError) (a : A) → ok_or o e ≡ ok a → o ≡ some a
  ok_or-ok none e a h = absurd cc
  ok_or-ok (some b) e a h = cc

module _ ⦃q : QuickXml⦄ where
  and_write-ok :
      (more : q.Writer → Option q.Writer) (o : Option q.Writer) (u : q.Writer)
      → and_write more o ≡ some u
      → (v : q.Writer) × (o ≡ some v) × (more v ≡ some u)
  and_write-ok more none u h = absurd cc
  and_write-ok more (some v) u h = (v, refl, h)

  write_all-append :
      (es gs : List Event) (w u : q.Writer)
      → write_all es w ≡ some u
      → write_all (es ++ gs) w ≡ write_all gs u
  unfolding write_all
  write_all-append [] gs w u h = let g : w ≡ u = cc in ap (write_all gs) g
  write_all-append (e ∷ es) gs w u h =
      let (v, g, k) = and_write-ok (write_all es) (q.write_event e w) u h in
      rw g (write_all-append es gs v u k)

module _ ⦃x : Crates⦄ ⦃f : Formats⦄ ⦃q : QuickXml⦄ where
  -- An event that was written, by itself.
  wrote : (e : Event) (w u : q.Writer) → write_event e w ≡ ok u → write_all (e ∷ []) w ≡ some u
  unfolding write_all
  wrote e w u h = rw (ok_or-ok (q.write_event e w) xml_output_error u h) refl

  -- What one visit adds to the walk.
  abbrev visiting :
      List XmlElement
      → Result SerializationError q.Writer
      → Result EvtxError (List XmlElement × q.Writer)
  visiting elements r = map_err serialization_error r >>= λ s. ok (elements, s)

  visiting-ok :
      (elements elements' : List XmlElement) (r : Result SerializationError q.Writer) (u : q.Writer)
      → visiting elements r ≡ ok (elements', u)
      → (r ≡ ok u) × (elements ≡ elements')
  visiting-ok elements elements' (ok s) u h = (cc, cc)
  visiting-ok elements elements' (err e) u h = absurd cc
  visiting-ok elements elements' panic u h = absurd cc
  visiting-ok elements elements' stuck u h = absurd cc

  open-wrote :
      (e : XmlElement) (w u : q.Writer)
      → visit_open_start_element e w ≡ ok u
      → write_all (Event.start e.name.str (attributes_of e.attributes) ∷ []) w ≡ some u
  unfolding visit_open_start_element
  open-wrote e w u h =
      let (pushed, g, k) =
        >>=-ok (push_attributes e.attributes [])
          (λ attributes. write_event (Event.start e.name.str attributes) w) u h in
      rw (push_attributes-attributes_of e.attributes [] pushed g)
        (wrote (Event.start e.name.str pushed) w u k)

  characters-wrote :
      (v : BinXmlValue) (w u : q.Writer)
      → visit_characters v w ≡ ok u
      → write_all (Event.characters (BytesText.unescaped (text_of (as_cow_str v))) ∷ []) w ≡ some u
  unfolding visit_characters
  characters-wrote v w u h =
      let (s, g, k) =
        >>=-ok (as_cow_str v) (λ t. write_event (Event.characters (BytesText.unescaped t)) w) u h in
      rw g (wrote (Event.characters (BytesText.unescaped s)) w u k)

  visit_model-wrote :
      (m : XmlModel) (elements elements' : List XmlElement) (w u : q.Writer)
      → visit_model xml_visitor m elements w ≡ ok (elements', u)
      → (write_all (event_of m elements) w ≡ some u) × (inside m elements ≡ elements')
  unfolding visit_model visit_close visit_close_element visit_entity_reference
      visit_processing_instruction write_all
  visit_model-wrote (open_element e) elements elements' w u h =
      let (g, k) = visiting-ok (e ∷ elements) elements' (visit_open_start_element e w) u h in
      (open-wrote e w u g, k)
  visit_model-wrote close_element [] elements' w u h = absurd cc
  visit_model-wrote close_element (e ∷ elements) elements' w u h =
      let (g, k) = visiting-ok elements elements' (visit_close_element e w) u h in
      (wrote (Event.end e.name.str) w u g, k)
  visit_model-wrote (value v) elements elements' w u h =
      let (g, k) = visiting-ok elements elements' (visit_characters v w) u h in
      (characters-wrote v w u g, k)
  visit_model-wrote (pi p) elements elements' w u h =
      let (g, k) = visiting-ok elements elements' (visit_processing_instruction p w) u h in
      (wrote (Event.instruction (BytesText.unescaped (p.name.str ++ p.text))) w u g, k)
  visit_model-wrote (entity_ref name) elements elements' w u h =
      let (g, k) = visiting-ok elements elements' (visit_entity_reference name w) u h in
      (
        wrote (Event.characters (BytesText.from_escaped (chars "&" ++ (name.str ++ chars ";")))) w u
            g,
        k,
      )
  visit_model-wrote end_of_stream elements elements' w u h = (cc, cc)
  visit_model-wrote start_of_stream elements elements' w u h = (cc, cc)

  pub visit_models-wrote :
      (ms : List XmlModel) (elements elements' : List XmlElement) (w u : q.Writer)
      → visit_models xml_visitor ms elements w ≡ ok (elements', u)
      → write_all (events_of ms elements) w ≡ some u
  unfolding visit_models events_of write_all
  visit_models-wrote [] elements elements' w u h = cc
  visit_models-wrote (m ∷ ms) elements elements' w u h =
      let ((between, v), g, k) =
        >>=-ok (visit_model xml_visitor m elements w) (λ p. visit_models xml_visitor ms p.0 p.1)
          (elements', u) h in
      let (wrote_one, e) = visit_model-wrote m elements between w v g in
      write_all-append (event_of m elements) (events_of ms (inside m elements)) w v wrote_one
      ∙ rw e (visit_models-wrote ms between elements' v u k)

module _ ⦃x : Crates⦄ ⦃f : Formats⦄ ⦃q : QuickXml⦄ where
  -- The end of a record, whatever elements are open.
  abbrev pub at_end : List XmlElement × q.Writer → Result EvtxError q.Writer
  at_end p = map_err serialization_error (visit_end_of_stream p.1)

-- Where the XML output has visited a record model from its start to its end, the writer has been given the
-- declaration, then the events of the model in its order, then the end, and nothing else: an element
-- opens with its name and those of its attributes, in order, whose text is not empty, it closes with
-- the name of the element that was opened last, and values, entities and instructions stand as text.
pub visit_record-wrote :
    ⦃x : Crates⦄ ⦃f : Formats⦄ ⦃q : QuickXml⦄ (model : List XmlModel) (w u : q.Writer)
    → visit_record xml_visitor model w ≡ ok u
    → write_all (document_of model) w ≡ some u
unfolding visit_record document_of visit_start_of_stream visit_end_of_stream write_all
visit_record-wrote model w u h =
    let (w₀, g, k) =
      >>=-ok (map_err serialization_error (visit_start_of_stream w))
        (λ s. visit_models xml_visitor model [] s >>= at_end) u h in
    let ((elements, w₁), visited, ended) =
      >>=-ok (visit_models xml_visitor model [] w₀) at_end u k in
    let first : write_all (declaration ∷ []) w ≡ some w₀ =
      wrote declaration w w₀ (map_err-ok serialization_error (visit_start_of_stream w) w₀ g) in
    let last : write_all (Event.eof ∷ []) w₁ ≡ some u =
      wrote Event.eof w₁ u (map_err-ok serialization_error (visit_end_of_stream w₁) u ended) in
    write_all-append (declaration ∷ []) (events_of model [] ++ (Event.eof ∷ [])) w w₀ first
    ∙ (write_all-append (events_of model []) (Event.eof ∷ []) w₀ w₁
          (visit_models-wrote model [] elements w₀ w₁ visited)
        ∙ last)
