-- ===== src/Assemble/Parse.antt =====
-- `parse_tokens`: the record model is walked with a stack of open elements.
use evtx.Base.{ℕ, List, [], ◌∷◌}
use evtx.Base.Result.{Result, ok, err, ◌>>=◌, map_err}
use evtx.Crates.{Crates}
use evtx.Error.{EvtxError, failed_to_create_record_model, serialization_error}
use evtx.Model.Deserialized.{BinXmlDeserializedTokens}
use evtx.Model.Xml.{
  XmlModel, XmlElement, open_element, close_element, pi, entity_ref, value, end_of_stream,
  start_of_stream,
}
use evtx.Output.{BinXmlOutput}
use evtx.Assemble.Expand.{expand_templates}
use evtx.Assemble.RecordModel.{create_record_model}
use evtx.Chunk.Data.{EvtxChunk}

module _ ⦃x : Crates⦄ {S : Type 0} (visitor : BinXmlOutput S) where
  -- The open elements, innermost first, and the state of the visitor.
  abbrev pub Visit : Type 0
  Visit = Result EvtxError (List XmlElement × S)

  unfoldable pub visit_close : List XmlElement → S → Visit
  visit_close [] s =
      err (failed_to_create_record_model "Invalid parser state - expected stack to be non-empty")
  visit_close (element ∷ stack) s = do
    s' ← map_err serialization_error (visitor.visit_close_element element s)
    ok (stack, s')

  unfoldable pub visit_model : XmlModel → List XmlElement → S → Visit
  visit_model (open_element element) stack s = do
    s' ← map_err serialization_error (visitor.visit_open_start_element element s)
    ok (element ∷ stack, s')
  visit_model close_element stack s = visit_close stack s
  visit_model (value v) stack s = do
    s' ← map_err serialization_error (visitor.visit_characters v s)
    ok (stack, s')
  visit_model end_of_stream stack s = ok (stack, s)
  visit_model start_of_stream stack s = ok (stack, s)
  visit_model (pi p) stack s = do
    s' ← map_err serialization_error (visitor.visit_processing_instruction p s)
    ok (stack, s')
  visit_model (entity_ref entity) stack s = do
    s' ← map_err serialization_error (visitor.visit_entity_reference entity s)
    ok (stack, s')

  unfoldable pub visit_models : List XmlModel → List XmlElement → S → Visit
  visit_models [] stack s = ok (stack, s)
  visit_models (m ∷ ms) stack s = do (stack', s') ← visit_model m stack s; visit_models ms stack' s'

  -- What follows the record model; an element that is left open is no error.
  unfoldable pub visit_record : List XmlModel → S → Result EvtxError S
  visit_record record_model s = do
    s₀ ← map_err serialization_error (visitor.visit_start_of_stream s)
    (stack, s₁) ← visit_models record_model [] s₀
    map_err serialization_error (visitor.visit_end_of_stream s₁)

  unfoldable pub parse_tokens :
      ℕ → List BinXmlDeserializedTokens → EvtxChunk → S → Result EvtxError S
  parse_tokens fuel tokens chunk s = do
    expanded_tokens ← expand_templates fuel tokens chunk
    record_model ← create_record_model expanded_tokens chunk
    visit_record record_model s
