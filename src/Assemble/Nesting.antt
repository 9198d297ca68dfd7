-- ===== src/Assemble/Nesting.antt =====
-- The stack of `parse_tokens` of src/binxml/assemble.rs against the nesting of the record model, and
-- the interface by which an output shows that its state follows that nesting.
use evtx.Base.{◌≡◌, refl, List, [], ◌∷◌, Option, none, some}
use evtx.Base.Result.{
  Result, ok, ◌>>=◌, map_err, Ensures, Ensures-bind, Ensures-map_err, Ensures-all, Ensures-ok,
}
use evtx.Crates.{Crates}
use evtx.Error.{SerializationError, serialization_error}
use evtx.Model.Deserialized.{BinXmlValue}
use evtx.Binxml.Name.{BinXmlName}
use evtx.Model.Xml.{
  XmlModel, XmlElement, BinXmlPi, open_element, close_element, pi, entity_ref, value, end_of_stream,
  start_of_stream,
}
use evtx.Output.{BinXmlOutput}
use evtx.Assemble.Parse.{visit_model, visit_models, visit_close}

module _ ⦃x : Crates⦄ where
  -- The elements that are open behind an item of the record model, innermost first; `none` where
  -- none is there to be closed.
  abbrev pub elements_after : XmlModel → List XmlElement → Option (List XmlElement)
  elements_after (open_element e) elements = some (e ∷ elements)
  elements_after close_element [] = none
  elements_after close_element (e ∷ elements) = some elements
  elements_after m elements = some elements

  abbrev pub and_elements :
      (List XmlElement → Option (List XmlElement))
      → Option (List XmlElement)
      → Option (List XmlElement)
  and_elements more none = none
  and_elements more (some elements) = more elements

  -- The same of a part of the model.
  pub and_elements-some :
      (more : List XmlElement → Option (List XmlElement)) (o : Option (List XmlElement))
      (after : List XmlElement)
      → and_elements more o ≡ some after
      → (between : List XmlElement) × (o ≡ some between) × (more between ≡ some after)
  and_elements-some more none after h = absurd cc
  and_elements-some more (some between) after h = (between, refl, h)

  unfoldable pub open_elements : List XmlModel → List XmlElement → Option (List XmlElement)
  open_elements [] elements = some elements
  open_elements (m ∷ ms) elements = and_elements (open_elements ms) (elements_after m elements)

-- The state of the output stands in the relation to the open elements, through every visit.
pub record Tracks ⦃x : Crates⦄ {S : Type 0} (visitor : BinXmlOutput S)
    (I : List XmlElement → S → Type 0) : Type 0 where
  pub opens :
      (e : XmlElement) (elements : List XmlElement) (s : S)
      → I elements s
      → Ensures (I (e ∷ elements)) (visitor.visit_open_start_element e s)
  pub closes :
      (e : XmlElement) (elements : List XmlElement) (s : S)
      → I (e ∷ elements) s
      → Ensures (I elements) (visitor.visit_close_element e s)
  pub characters :
      (v : BinXmlValue) (elements : List XmlElement) (s : S)
      → I elements s
      → Ensures (I elements) (visitor.visit_characters v s)
  pub entities :
      (name : BinXmlName) (elements : List XmlElement) (s : S)
      → I elements s
      → Ensures (I elements) (visitor.visit_entity_reference name s)
  pub instructions :
      (p : BinXmlPi) (elements : List XmlElement) (s : S)
      → I elements s
      → Ensures (I elements) (visitor.visit_processing_instruction p s)

module _ ⦃x : Crates⦄ {S : Type 0} (visitor : BinXmlOutput S) (I : List XmlElement → S → Type 0)
    (tracks : Tracks visitor I) where
  -- The elements that are open, and the relation to the state.
  abbrev Follows : Option (List XmlElement) → List XmlElement × S → Type 0
  Follows after q = (after ≡ some q.0) × I q.0 q.1

  -- A visit of the output, under its error.
  visited :
      (elements : List XmlElement) (r : Result SerializationError S)
      → Ensures (I elements) r
      → Ensures (Follows (some elements)) (map_err serialization_error r >>= λ s. ok (elements, s))
  visited elements r h =
      Ensures-bind (I elements) (Follows (some elements)) (map_err serialization_error r) _
        (Ensures-map_err (I elements) serialization_error r h) λ s i. (refl, i)

  visit_model-Follows :
      (m : XmlModel) (elements : List XmlElement) (s : S)
      → I elements s
      → Ensures (Follows (elements_after m elements)) (visit_model visitor m elements s)
  unfolding visit_model visit_close
  visit_model-Follows (open_element e) elements s i =
      visited (e ∷ elements) (visitor.visit_open_start_element e s) (tracks.opens e elements s i)
  visit_model-Follows close_element [] s i = tt
  visit_model-Follows close_element (e ∷ elements) s i =
      visited elements (visitor.visit_close_element e s) (tracks.closes e elements s i)
  visit_model-Follows (value v) elements s i =
      visited elements (visitor.visit_characters v s) (tracks.characters v elements s i)
  visit_model-Follows (pi p) elements s i =
      visited elements (visitor.visit_processing_instruction p s)
        (tracks.instructions p elements s i)
  visit_model-Follows (entity_ref name) elements s i =
      visited elements (visitor.visit_entity_reference name s) (tracks.entities name elements s i)
  visit_model-Follows end_of_stream elements s i = (refl, i)
  visit_model-Follows start_of_stream elements s i = (refl, i)

  pub visit_models-Follows :
      (ms : List XmlModel) (elements : List XmlElement) (s : S)
      → I elements s
      → Ensures
          (λ q. (open_elements ms elements ≡ some q.0) × I q.0 q.1)
          (visit_models visitor ms elements s)
  unfolding visit_models open_elements
  visit_models-Follows [] elements s i = (refl, i)
  visit_models-Follows (m ∷ ms) elements s i =
      Ensures-bind (Follows (elements_after m elements))
        (λ q. (open_elements (m ∷ ms) elements ≡ some q.0) × I q.0 q.1)
        (visit_model visitor m elements s) _ (visit_model-Follows m elements s i)
        λ q f. rw (f.0) (visit_models-Follows ms q.0 q.1 f.1)

-- The stack of a walk that succeeds is what the model leaves open.
pub visit_models-open_elements :
    ⦃x : Crates⦄ {S : Type 0} (visitor : BinXmlOutput S) (ms : List XmlModel)
    (elements elements' : List XmlElement) (s s' : S)
    → visit_models visitor ms elements s ≡ ok (elements', s')
    → open_elements ms elements ≡ some elements'
visit_models-open_elements {S = S} visitor ms elements elements' s s' h =
    let all : (r : Result SerializationError S) → Ensures (λ a. Unit {0}) r =
      λ r. Ensures-all (λ a. Unit {0}) r λ a. tt in
    let tracks : Tracks visitor (λ es u. Unit {0}) = record {
      opens = λ e es u i. all (visitor.visit_open_start_element e u);
      closes = λ e es u i. all (visitor.visit_close_element e u);
      characters = λ v es u i. all (visitor.visit_characters v u);
      entities = λ n es u i. all (visitor.visit_entity_reference n u);
      instructions = λ p es u i. all (visitor.visit_processing_instruction p u);
    } in
    (Ensures-ok (λ q. (open_elements ms elements ≡ some q.0) × Unit {0})
      (visit_models visitor ms elements s) (elements', s')
      (visit_models-Follows visitor (λ es u. Unit {0}) tracks ms elements s tt) h).0
