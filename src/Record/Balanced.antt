-- ===== src/Record/Balanced.antt =====
-- What a record that `into_json_value` of src/evtx_record.rs has serialized is known to satisfy.
use evtx.Base.{
  ℕ, zero, suc, ◌++◌, ◌∙◌, subst, true, false, Option, none, ◌≡◌, refl, ap, sym, Str, List, [], ◌∷◌,
  Bool, some, length, All,
}
use evtx.Base.Result.{Result, ok, ◌>>=◌, >>=-ok, map_err, map_err-ok}
use evtx.Crates.{Crates}
use evtx.Error.{EvtxError, failed_to_parse_record, serialization_error}
use evtx.Formats.{Formats}
use evtx.Serde.{SerdeJson}
use evtx.Model.Deserialized.{BinXmlDeserializedTokens}
use evtx.Model.Xml.{XmlModel, XmlElement, open_element, close_element}
use evtx.Chunk.Data.{EvtxChunk}
use evtx.Chunk.Records.{EvtxRecord}
use evtx.Assemble.Expand.{expand_templates}
use evtx.Assemble.Flat.{IsExpanded, expand_templates-IsExpanded}
use evtx.Assemble.RecordModel.{create_record_model}
use evtx.Assemble.Counts.{tags, model_tags, token_tags, create_record_model-tags}
use evtx.Assemble.Parse.{parse_tokens, visit_models, visit_record}
use evtx.Assemble.Nesting.{elements_after, open_elements, and_elements-some}
use evtx.Assemble.Steps.{parse_tokens-ok}
use evtx.Json.Insert.{JsonOutput, new_output}
use evtx.Json.Visit.{json_visitor, into_value, value_at_end}
use evtx.Json.Keys.{into_value_iff}
use evtx.Record.{SerializedEvtxRecord, into_output, into_json_value}

-- How many elements the tags leave open behind a number of open ones; `none` where one closes and none is open.
abbrev pub depth : List Bool → ℕ → Option ℕ
depth [] n = some n
depth (true ∷ bs) n = depth bs (suc n)
depth (false ∷ bs) zero = none
depth (false ∷ bs) (suc n) = depth bs n

module _ ⦃x : Crates⦄ where
  elements_after-depth :
      (m : XmlModel) (elements after : List XmlElement) (bs : List Bool)
      → elements_after m elements ≡ some after
      → depth (model_tags m ++ bs) (length elements) ≡ depth bs (length after)
  elements_after-depth (open_element e) elements after bs h =
      let g : e ∷ elements ≡ after = cc in ap (λ es. depth bs (length es)) g
  elements_after-depth close_element [] after bs h = absurd cc
  elements_after-depth close_element (e ∷ elements) after bs h =
      let g : elements ≡ after = cc in ap (λ es. depth bs (length es)) g
  elements_after-depth m elements after bs h =
      let g : elements ≡ after = cc in ap (λ es. depth bs (length es)) g

  -- The elements that are left open are the depth of the tags.
  open_elements-depth :
      (model : List XmlModel) (elements after : List XmlElement)
      → open_elements model elements ≡ some after
      → depth (tags model_tags model) (length elements) ≡ some (length after)
  unfolding open_elements
  open_elements-depth [] elements after h =
      let g : elements ≡ after = cc in ap (λ es. some (length es)) g
  open_elements-depth (m ∷ model) elements after h =
      let (between, e, k) =
        and_elements-some (open_elements model) (elements_after m elements) after h in
      elements_after-depth m elements between (tags model_tags model) e
      ∙ open_elements-depth model between after k

module _ ⦃x : Crates⦄ ⦃f : Formats⦄ ⦃j : SerdeJson⦄ where
  abbrev serialized_as : EvtxRecord → j.Value → SerializedEvtxRecord j.Value
  serialized_as r v = record {
    event_record_id = r.event_record_id;
    timestamp = r.timestamp;
    payload = v;
  }

  value_at_end-document :
      (keys : List Str) (document v : j.Value)
      → value_at_end keys document ≡ ok v
      → value_at_end keys document ≡ ok document
  value_at_end-document [] document v h = refl
  value_at_end-document (key ∷ keys) document v h = absurd cc

  into_value-document :
      (out : JsonOutput) (v : j.Value) → into_value out ≡ ok v → into_value out ≡ ok out.document
  unfolding into_value
  into_value-document out v h = value_at_end-document out.stack out.document v h

  -- `visit_end_of_stream` changes nothing.
  abbrev at_end : List XmlElement × JsonOutput → Result EvtxError JsonOutput
  at_end q = ok q.1

  -- The walk that an output without an error comes of.
  visit_record-ok :
      (model : List XmlModel) (s out : JsonOutput)
      → visit_record json_visitor model s ≡ ok out
      → (elements : List XmlElement) × (visit_models json_visitor model [] s ≡ ok (elements, out))
  unfolding visit_record
  visit_record-ok model s out h =
      let (q, e, k) = >>=-ok (visit_models json_visitor model [] s) at_end out h in
      let g : q.1 ≡ out = cc in (q.0, rw (← g) e)

  balanced :
      (separate : Bool) (expanded : List BinXmlDeserializedTokens) (model : List XmlModel)
      (chunk : EvtxChunk) (out : JsonOutput) (v : j.Value)
      → create_record_model expanded chunk ≡ ok model
      → visit_record json_visitor model (new_output separate) ≡ ok out
      → into_value out ≡ ok v
      → depth (tags token_tags expanded) 0 ≡ some 0
  balanced separate expanded model chunk out v made visited h =
      let (elements, walked) = visit_record-ok model (new_output separate) out visited in
      let nothing_open : open_elements model [] ≡ some [] =
        (into_value_iff separate model elements out walked).1 (into_value-document out v h) in
      let same : tags model_tags model ≡ tags token_tags expanded =
        create_record_model-tags expanded chunk model made in
      subst (λ bs. depth bs 0 ≡ some 0) same (open_elements-depth model [] [] nothing_open)

-- Where a record is serialized to JSON, its tokens have been expanded to tokens that hold no template and no
-- binary XML, and whose tags are nested: no element is closed where none is open, and none is left open, where an
-- element is open from the token that closes its start tag, and an empty element is opened and closed by one token.
-- The id and the time are those of the record.
pub into_json_value-balanced :
    ⦃x : Crates⦄ ⦃f : Formats⦄ ⦃j : SerdeJson⦄ (fuel : ℕ) (r : EvtxRecord) (chunk : EvtxChunk)
    (separate : Bool) (serialized : SerializedEvtxRecord j.Value)
    → into_json_value fuel r chunk separate ≡ ok serialized
    → (expanded : List BinXmlDeserializedTokens) × (expand_templates fuel r.tokens chunk
        ≡ ok expanded)
      × All IsExpanded expanded
      × (depth (tags token_tags expanded) 0 ≡ some 0)
      × (serialized.event_record_id ≡ r.event_record_id)
      × (serialized.timestamp ≡ r.timestamp)
unfolding into_json_value into_output
into_json_value-balanced ⦃j = j⦄ fuel r chunk separate serialized h =
    let (out, e, k) =
      >>=-ok (into_output fuel r chunk json_visitor (new_output separate))
        (λ o. map_err serialization_error (into_value o) >>= λ v. ok (serialized_as r v)) serialized
        h in
    let (v, g, l) =
      >>=-ok (map_err serialization_error (into_value out)) (λ v. ok (serialized_as r v)) serialized
        k in
    let parsed : parse_tokens json_visitor fuel r.tokens chunk (new_output separate) ≡ ok out =
      map_err-ok (failed_to_parse_record r.event_record_id)
        (parse_tokens json_visitor fuel r.tokens chunk (new_output separate)) out e in
    let (expanded, model, expands, made, visited) =
      parse_tokens-ok json_visitor fuel r.tokens chunk (new_output separate) out parsed in
    let value : into_value out ≡ ok v = map_err-ok serialization_error (into_value out) v g in
    let same : serialized_as r v ≡ serialized = cc in
    (
      expanded,
      expands,
      expand_templates-IsExpanded fuel r.tokens expanded chunk expands,
      balanced separate expanded model chunk out v made visited value,
      ap (λ z. z.event_record_id) (sym same),
      ap (λ z. z.timestamp) (sym same),
    )
