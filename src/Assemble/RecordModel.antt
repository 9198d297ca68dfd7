-- ===== src/Assemble/RecordModel.antt =====
-- `create_record_model` and `expand_string_ref`.
use evtx.Base.{List, [], ◌∷◌, ◌++◌, Option, none, some, Str}
use evtx.Base.Result.{Result, ok, err, ◌>>=◌, map_err}
use evtx.Crates.{Crates}
use evtx.Error.{EvtxError, failed_to_create_record_model, deserialization_error}
use evtx.Model.Deserialized.{
  BinXmlNameRef, BinXmlValue, BinXmlDeserializedTokens, fragment_header, template_instance,
  open_start_element, attribute_list, attribute, close_start_element, close_empty_element,
  close_element, value, cdata_section, char_ref, entity_ref, pi_target, pi_data, substitution,
  end_of_stream, start_of_stream,
}
use evtx.Model.Xml
use evtx.Model.Xml.{
  XmlModel, XmlElementBuilder, XmlPiBuilder, new_element, set_name, attribute_name, attribute_value,
  finish, new_pi, pi_name, finish_pi,
}
use evtx.Binxml.Name.{BinXmlName, read_name}
use evtx.Chunk.Data.{EvtxChunk}
use evtx.StringCache.{get_cached_string, value_of}

module _ ⦃x : Crates⦄ where
  abbrev pub cached_or_read :
      EvtxChunk → BinXmlNameRef → Option BinXmlName → Result EvtxError BinXmlName
  cached_or_read chunk string_ref (some s) = ok s
  cached_or_read chunk string_ref none =
      map_err deserialization_error (
        value_of
          (read_name (record { data_ref = chunk.chunk_bytes; position = string_ref.offset })))

  -- A string that the cache has not is read at the offset itself.
  unfoldable pub expand_string_ref : BinXmlNameRef → EvtxChunk → Result EvtxError BinXmlName
  expand_string_ref string_ref chunk =
      cached_or_read chunk string_ref (get_cached_string chunk.string_cache string_ref.offset)

  -- The variables of the loop.
  pub record ModelState : Type 0 where
    pub current_element : Option XmlElementBuilder
    pub current_pi : Option XmlPiBuilder
    pub model : List XmlModel

  abbrev pub Step : Type 0
  Step = Result EvtxError ModelState

  abbrev pub push : XmlModel → ModelState → ModelState
  push m st = record st { model = st.model ++ (m ∷ []) }

  -- `current_element.take()` and `finish` with an open element.
  unfoldable pub close_start : Option XmlElementBuilder → ModelState → Step
  close_start none st = err (failed_to_create_record_model "close start - Bad parser state")
  close_start (some builder) st = do
    element ← finish builder
    ok (push (XmlModel.open_element element) (record st { current_element = none }))

  unfoldable pub close_empty : Option XmlElementBuilder → ModelState → Step
  close_empty none st = err (failed_to_create_record_model "close empty - Bad parser state")
  close_empty (some builder) st = do
    element ← finish builder
    ok (
        push XmlModel.close_element
          (push (XmlModel.open_element element) (record st { current_element = none })))

  unfoldable pub add_pi_data : Option XmlPiBuilder → Str → ModelState → Step
  add_pi_data none text st =
      err (failed_to_create_record_model "PI Data without PI target - Bad parser state")
  add_pi_data (some builder) text st = do
    m ← finish_pi (Xml.pi_data text builder)
    ok (push m (record st { current_pi = none }))

  unfoldable pub add_attribute :
      Option XmlElementBuilder → BinXmlNameRef → EvtxChunk → ModelState → Step
  add_attribute none name chunk st =
      err (failed_to_create_record_model "attribute - Bad parser state")
  add_attribute (some builder) name chunk st = do
    s ← expand_string_ref name chunk
    ok (record st { current_element = some (attribute_name s builder) })

  unfoldable pub add_value : Option XmlElementBuilder → BinXmlValue → ModelState → Step
  add_value none BinXmlValue.evt_xml st =
      err (failed_to_create_record_model "Call `expand_templates` before calling this function")
  add_value none v st = ok (push (XmlModel.value v) st)
  add_value (some builder) v st = do
    builder' ← attribute_value v builder
    ok (record st { current_element = some builder' })

  -- The body of the loop.
  unfoldable pub model_step : EvtxChunk → BinXmlDeserializedTokens → ModelState → Step
  model_step chunk (fragment_header h) st = ok st
  model_step chunk (template_instance t) st =
      err (failed_to_create_record_model "Call `expand_templates` before calling this function")
  model_step chunk attribute_list st = ok st
  model_step chunk close_element st = ok (push XmlModel.close_element st)
  model_step chunk close_start_element st = close_start st.current_element st
  model_step chunk cdata_section st = err (failed_to_create_record_model "Unimplemented - CDATA")
  model_step chunk char_ref st =
      err (failed_to_create_record_model "Unimplemented - CharacterReference")
  model_step chunk (entity_ref entity) st = do
    s ← expand_string_ref entity.name chunk
    ok (push (XmlModel.entity_ref s) st)
  model_step chunk (pi_target target) st = do
    s ← expand_string_ref target.name chunk
    ok (record st { current_pi = some (pi_name s new_pi) })
  model_step chunk (pi_data text) st = add_pi_data st.current_pi text st
  model_step chunk (substitution descriptor) st =
      err (failed_to_create_record_model "Call `expand_templates` before calling this function")
  model_step chunk end_of_stream st = ok (push XmlModel.end_of_stream st)
  model_step chunk start_of_stream st = ok (push XmlModel.start_of_stream st)
  model_step chunk close_empty_element st = close_empty st.current_element st
  model_step chunk (attribute attr) st = add_attribute st.current_element attr.name chunk st
  model_step chunk (open_start_element elem) st = do
    s ← expand_string_ref elem.name chunk
    ok (record st { current_element = some (set_name s new_element) })
  model_step chunk (value v) st = add_value st.current_element v st

  unfoldable pub model_loop : EvtxChunk → List BinXmlDeserializedTokens → ModelState → Step
  model_loop chunk [] st = ok st
  model_loop chunk (token ∷ tokens) st = do
    st' ← model_step chunk token st
    model_loop chunk tokens st'

  unfoldable pub create_record_model :
      List BinXmlDeserializedTokens → EvtxChunk → Result EvtxError (List XmlModel)
  create_record_model tokens chunk = do
    st ← model_loop chunk tokens (record { current_element = none; current_pi = none; model = [] })
    ok st.model
