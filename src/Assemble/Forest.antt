-- ===== src/Assemble/Forest.antt =====
-- The walk of `parse_tokens` of src/binxml/assemble.rs over a record model that is nested, against a walk over its
-- tree.
use evtx.Base.{◌≡◌, refl, ap, sym, ◌∙◌, List, [], ◌∷◌, ◌++◌, append_assoc, append-nil}
use evtx.Base.Result.{Result, ok, err, panic, stuck, ◌>>=◌, map_err}
use evtx.Crates.{Crates}
use evtx.Error.{EvtxError, SerializationError, serialization_error}
use evtx.Model.Deserialized.{BinXmlValue}
use evtx.Binxml.Name.{BinXmlName}
use evtx.Model.Xml.{
  XmlModel, XmlElement, BinXmlPi, open_element, close_element, pi, entity_ref, value, end_of_stream,
  start_of_stream,
}
use evtx.Output.{BinXmlOutput}
use evtx.Assemble.Parse.{Visit, visit_model, visit_models, visit_close}

module _ ⦃x : Crates⦄ where
  -- What stands beside each other: elements with what is inside of them, and items that hold nothing.
  pub data Forest : Type 0 where
    done : Forest
    element : XmlElement → Forest → Forest → Forest
    characters : BinXmlValue → Forest → Forest
    entity : BinXmlName → Forest → Forest
    instruction : BinXmlPi → Forest → Forest
    stream_start stream_end : Forest → Forest

  -- The record model of it.
  abbrev pub flatten : Forest → List XmlModel
  flatten done = []
  flatten (element e inside rest) =
      open_element e ∷ (flatten inside ++ (close_element ∷ flatten rest))
  flatten (characters v rest) = value v ∷ flatten rest
  flatten (entity name rest) = entity_ref name ∷ flatten rest
  flatten (instruction p rest) = pi p ∷ flatten rest
  flatten (stream_start rest) = start_of_stream ∷ flatten rest
  flatten (stream_end rest) = end_of_stream ∷ flatten rest

  module _ {S : Type 0} (visitor : BinXmlOutput S) where
    abbrev visited : Result SerializationError S → Result EvtxError S
    visited r = map_err serialization_error r

    -- The visits of the tree: an element is opened, what is inside is visited, and that element is closed.
    unfoldable pub visit_forest : Forest → S → Result EvtxError S
    visit_forest done s = ok s
    visit_forest (element e inside rest) s = do
      s₁ ← visited (visitor.visit_open_start_element e s)
      s₂ ← visit_forest inside s₁
      s₃ ← visited (visitor.visit_close_element e s₂)
      visit_forest rest s₃
    visit_forest (characters v rest) s = do
      s₁ ← visited (visitor.visit_characters v s)
      visit_forest rest s₁
    visit_forest (entity name rest) s = do
      s₁ ← visited (visitor.visit_entity_reference name s)
      visit_forest rest s₁
    visit_forest (instruction p rest) s = do
      s₁ ← visited (visitor.visit_processing_instruction p s)
      visit_forest rest s₁
    visit_forest (stream_start rest) s = visit_forest rest s
    visit_forest (stream_end rest) s = visit_forest rest s

    -- The walk goes on with a state.
    abbrev onward : List XmlModel → List XmlElement → S → Visit visitor
    onward models stack s = visit_models visitor models stack s

    abbrev keep : List XmlElement → S → Visit visitor
    keep stack s = ok (stack, s)

    leaf :
        (r : Result EvtxError S) (rest : List XmlModel) (stack : List XmlElement)
        (f : S → Result EvtxError S) (k : S → Visit visitor)
        → ((s : S) → onward rest stack s ≡ (f s >>= k))
        → ((r >>= keep stack) >>= λ q. onward rest q.0 q.1) ≡ ((r >>= f) >>= k)
    leaf (ok s) rest stack f k h = h s
    leaf (err e) rest stack f k h = refl
    leaf panic rest stack f k h = refl
    leaf stuck rest stack f k h = refl

    -- Two forests that are visited one behind the other.
    behind :
        (r : Result EvtxError S) (f : S → Result EvtxError S) (g k : S → Visit visitor)
        → ((s : S) → g s ≡ (f s >>= k))
        → (r >>= g) ≡ ((r >>= f) >>= k)
    behind (ok s) f g k h = h s
    behind (err e) f g k h = refl
    behind panic f g k h = refl
    behind stuck f g k h = refl

    pub visit_flatten :
        (forest : Forest) (more : List XmlModel) (stack : List XmlElement) (s : S)
        → onward (flatten forest ++ more) stack s ≡ (visit_forest forest s >>= onward more stack)
    unfolding visit_models visit_model visit_close visit_forest
    visit_flatten done more stack s = refl
    visit_flatten (element e inside rest) more stack s =
        let closing : S → Result EvtxError S =
          λ s₂. visited (visitor.visit_close_element e s₂) >>= visit_forest rest in
        let tail : List XmlModel = close_element ∷ (flatten rest ++ more) in
        let within : (s₁ : S)
            → onward ((flatten inside ++ (close_element ∷ flatten rest)) ++ more) (e ∷ stack) s₁
              ≡ ((visit_forest inside s₁ >>= closing) >>= onward more stack) =
          λ s₁.
            ap (λ ms. onward ms (e ∷ stack) s₁)
              (append_assoc (flatten inside) (close_element ∷ flatten rest) more)
            ∙ (visit_flatten inside tail (e ∷ stack) s₁
                ∙ behind (visit_forest inside s₁) closing (onward tail (e ∷ stack))
                    (onward more stack)
                    λ s₂.
                      leaf (visited (visitor.visit_close_element e s₂)) (flatten rest ++ more) stack
                        (visit_forest rest) (onward more stack) (visit_flatten rest more stack)) in
        leaf (visited (visitor.visit_open_start_element e s))
          ((flatten inside ++ (close_element ∷ flatten rest)) ++ more) (e ∷ stack)
          (λ s₁. visit_forest inside s₁ >>= closing) (onward more stack) within
    visit_flatten (characters v rest) more stack s =
        leaf (visited (visitor.visit_characters v s)) (flatten rest ++ more) stack
          (visit_forest rest) (onward more stack) (visit_flatten rest more stack)
    visit_flatten (entity name rest) more stack s =
        leaf (visited (visitor.visit_entity_reference name s)) (flatten rest ++ more) stack
          (visit_forest rest) (onward more stack) (visit_flatten rest more stack)
    visit_flatten (instruction p rest) more stack s =
        leaf (visited (visitor.visit_processing_instruction p s)) (flatten rest ++ more) stack
          (visit_forest rest) (onward more stack) (visit_flatten rest more stack)
    visit_flatten (stream_start rest) more stack s = visit_flatten rest more stack s
    visit_flatten (stream_end rest) more stack s = visit_flatten rest more stack s

-- The walk over the record model of a tree makes the visits of the tree, in order, whatever the output: each
-- element is closed with the element that was opened, behind what is inside of it. It ends with the open elements
-- that it began with, or with the first error or panic of a visit.
pub visit_models-flatten :
    ⦃x : Crates⦄ {S : Type 0} (visitor : BinXmlOutput S) (forest : Forest) (stack : List XmlElement)
    (s : S)
    → visit_models visitor (flatten forest) stack s
      ≡ (visit_forest visitor forest s >>= λ s'. ok (stack, s'))
unfolding visit_models
visit_models-flatten visitor forest stack s =
    ap (λ ms. visit_models visitor ms stack s) (sym (append-nil (flatten forest)))
    ∙ visit_flatten visitor forest [] stack s
