-- ===== src/XmlOutput/Nested.antt =====
-- The tags of the events that a record model is written as, read like an XML reader does: each end tag has to
-- name the element that was started last.
use evtx.Base.{
  ◌≡◌, refl, ap, ◌∙◌, List, [], ◌∷◌, ◌++◌, Option, none, some, Str, str_eq, str_eq_refl,
  if◌then◌else◌,
}
use evtx.Crates.{Crates}
use evtx.Formats.{Formats}
use evtx.Model.Xml.{
  XmlModel, XmlElement, open_element, close_element, pi, entity_ref, value, end_of_stream,
  start_of_stream,
}
use evtx.Assemble.Nesting.{open_elements, elements_after, and_elements-some}
use evtx.Base.Result.{ok, ◌>>=◌, >>=-ok, map_err}
use evtx.Error.{serialization_error}
use evtx.Assemble.Nesting.{visit_models-open_elements}
use evtx.Assemble.Parse.{visit_record, visit_models}
use evtx.QuickXml.{Event, QuickXml, write_all}
use evtx.XmlOutput.{xml_visitor, visit_start_of_stream}
use evtx.XmlOutput.Events.{event_of, events_of, inside, document_of, at_end, visit_record-wrote}

-- The tags that are open behind an event; `none` where an end tag does not fit.
abbrev pub tags_after : Event → List Str → Option (List Str)
tags_after (Event.start name attributes) tags = some (name ∷ tags)
tags_after (Event.end name) [] = none
tags_after (Event.end name) (tag ∷ tags) = if str_eq name tag then some tags else none
tags_after e tags = some tags

abbrev and_tags : (List Str → Option (List Str)) → Option (List Str) → Option (List Str)
and_tags more none = none
and_tags more (some tags) = more tags

unfoldable pub open_tags : List Event → List Str → Option (List Str)
open_tags [] tags = some tags
open_tags (e ∷ es) tags = and_tags (open_tags es) (tags_after e tags)

module _ ⦃x : Crates⦄ ⦃f : Formats⦄ where
  abbrev pub names : List XmlElement → List Str
  names [] = []
  names (e ∷ elements) = e.name.str ∷ names elements

  -- One item, in front of other events.
  event_of-tags :
      (m : XmlModel) (elements after : List XmlElement) (es : List Event)
      → elements_after m elements ≡ some after
      → open_tags (event_of m elements ++ es) (names elements)
        ≡ open_tags es (names (inside m elements))
  unfolding open_tags
  event_of-tags (open_element e) elements after es h = refl
  event_of-tags close_element [] after es h = absurd cc
  event_of-tags close_element (e ∷ elements) after es h = rw (str_eq_refl e.name.str) refl
  event_of-tags (value v) elements after es h = refl
  event_of-tags (pi p) elements after es h = refl
  event_of-tags (entity_ref name) elements after es h = refl
  event_of-tags end_of_stream elements after es h = refl
  event_of-tags start_of_stream elements after es h = refl

  inside-elements_after :
      (m : XmlModel) (elements after : List XmlElement)
      → elements_after m elements ≡ some after
      → inside m elements ≡ after
  inside-elements_after (open_element e) elements after h = cc
  inside-elements_after close_element [] after h = absurd cc
  inside-elements_after close_element (e ∷ elements) after h = cc
  inside-elements_after (value v) elements after h = cc
  inside-elements_after (pi p) elements after h = cc
  inside-elements_after (entity_ref name) elements after h = cc
  inside-elements_after end_of_stream elements after h = cc
  inside-elements_after start_of_stream elements after h = cc

  pub events_of-tags :
      (model : List XmlModel) (elements after : List XmlElement)
      → open_elements model elements ≡ some after
      → open_tags (events_of model elements) (names elements) ≡ some (names after)
  unfolding open_tags events_of open_elements
  events_of-tags [] elements after h = let g : elements ≡ after = cc in ap (λ es. some (names es)) g
  events_of-tags (m ∷ ms) elements after h =
      let (between, e, k) =
        and_elements-some (open_elements ms) (elements_after m elements) after h in
      event_of-tags m elements between (events_of ms (inside m elements)) e
      ∙ rw (inside-elements_after m elements between e) (events_of-tags ms between after k)

and_tags-append :
    (es gs : List Event) (tags after : List Str)
    → open_tags es tags ≡ some after
    → open_tags (es ++ gs) tags ≡ open_tags gs after
unfolding open_tags
and_tags-append [] gs tags after h = let g : tags ≡ after = cc in ap (open_tags gs) g
and_tags-append (e ∷ es) gs tags after h =
    first e es gs after (tags_after e tags) (λ t. and_tags-append es gs t after) h
  where
    first :
        (e : Event) (es gs : List Event) (after : List Str) (o : Option (List Str))
        → ((t : List Str)
            → open_tags es t ≡ some after
            → open_tags (es ++ gs) t ≡ open_tags gs after)
        → and_tags (open_tags es) o ≡ some after
        → and_tags (open_tags (es ++ gs)) o ≡ open_tags gs after
    first e es gs after none ih h = absurd cc
    first e es gs after (some t) ih h = ih t h

module _ ⦃x : Crates⦄ ⦃f : Formats⦄ where
  document_of-tags :
      (model : List XmlModel) (after : List XmlElement)
      → open_elements model [] ≡ some after
      → open_tags (document_of model) [] ≡ some (names after)
  unfolding open_tags document_of
  document_of-tags model after h =
      and_tags-append (events_of model []) (Event.eof ∷ []) [] (names after)
        (events_of-tags model [] after h)

module _ ⦃x : Crates⦄ ⦃f : Formats⦄ ⦃q : QuickXml⦄ where
  visit_record-open_elements :
      (model : List XmlModel) (w u : q.Writer)
      → visit_record xml_visitor model w ≡ ok u
      → (elements : List XmlElement) × (open_elements model [] ≡ some elements)
  unfolding visit_record
  visit_record-open_elements model w u h =
      let (w₀, g, k) =
        >>=-ok (map_err serialization_error (visit_start_of_stream w))
          (λ s. visit_models xml_visitor model [] s >>= at_end) u h in
      let ((elements, w₁), visited, ended) =
        >>=-ok (visit_models xml_visitor model [] w₀) at_end u k in
      (elements, visit_models-open_elements xml_visitor model [] elements w₀ w₁ visited)

-- Where the XML output has visited a record model, the events that the writer was given are nested: each
-- end tag names the element that was started last, and the tags that no end tag closes are those of the
-- elements that the model leaves open, which the XML output does not refuse.
pub visit_record-nested :
    ⦃x : Crates⦄ ⦃f : Formats⦄ ⦃q : QuickXml⦄ (model : List XmlModel) (w u : q.Writer)
    → visit_record xml_visitor model w ≡ ok u
    → (events : List Event) × (elements : List XmlElement) × (write_all events w ≡ some u)
      × (open_elements model [] ≡ some elements)
      × (open_tags events [] ≡ some (names elements))
visit_record-nested model w u h =
    let (elements, e) = visit_record-open_elements model w u h in
    (
      document_of model,
      elements,
      visit_record-wrote model w u h,
      e,
      document_of-tags model elements e,
    )
