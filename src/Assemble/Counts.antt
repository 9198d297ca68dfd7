-- ===== src/Assemble/Counts.antt =====
-- The elements of the record model against the tokens that it is made from (`create_record_model` of
-- src/binxml/assemble.rs).
use evtx.Base.{
  ℕ, ◌+◌, ◌≡◌, refl, ap, sym, subst, ◌∙◌, append_assoc, append-nil, Bool, true, false, List, [],
  ◌∷◌, ◌++◌, Option, none, some, Str, arith,
}
use evtx.Base.Result.{
  Result, ok, ◌>>=◌, Ensures, Ensures-bind, Ensures-all, Ensures-ok, Ensures-weaken,
}
use evtx.Crates.{Crates}
use evtx.Error.{EvtxError}
use evtx.Model.Deserialized.{
  BinXmlValue, BinXmlNameRef, BinXmlDeserializedTokens, fragment_header, template_instance,
  open_start_element, attribute_list, attribute, close_start_element, close_empty_element,
  close_element, value, cdata_section, char_ref, entity_ref, pi_target, pi_data, substitution,
  end_of_stream, start_of_stream,
}
use evtx.Model.Xml.{
  XmlModel, XmlElementBuilder, XmlPiBuilder, finish, finish_pi, attribute_value, pi_of,
  attribute_name, pi_name, new_pi, set_name, new_element,
}
use evtx.Model.Xml
use evtx.Binxml.Name.{BinXmlName}
use evtx.Chunk.Data.{EvtxChunk}
use evtx.Assemble.RecordModel.{
  expand_string_ref, ModelState, Step, push, close_start, close_empty, add_pi_data, add_attribute,
  add_value, model_step, model_loop, create_record_model,
}

abbrev pub count {ℓ} : {A : Type ℓ} → (A → ℕ) → List A → ℕ
count p [] = 0
count p (a ∷ rest) = p a + count p rest

count-append :
    {A : Type 0} (p : A → ℕ) (xs ys : List A) → count p (xs ++ ys) ≡ count p xs + count p ys
count-append p [] ys = omega arith
count-append p (x ∷ xs) ys = omega (arith, count-append p xs ys)

-- The tags of a list of things.
abbrev pub tags {ℓ} : {A : Type ℓ} → (A → List Bool) → List A → List Bool
tags f [] = []
tags f (a ∷ rest) = f a ++ tags f rest

tags-append :
    {A : Type 0} (f : A → List Bool) (xs ys : List A) → tags f (xs ++ ys) ≡ tags f xs ++ tags f ys
tags-append f [] ys = refl
tags-append f (x ∷ xs) ys =
    ap (λ l. f x ++ l) (tags-append f xs ys) ∙ sym (append_assoc (f x) (tags f xs) (tags f ys))

module _ ⦃x : Crates⦄ where
  -- An item of the model opens or closes an element.
  abbrev pub opens : XmlModel → ℕ
  opens (XmlModel.open_element e) = 1
  opens m = 0

  abbrev pub closes : XmlModel → ℕ
  closes XmlModel.close_element = 1
  closes m = 0

  -- A token ends the start of an element, or the element.
  abbrev pub starts_element : BinXmlDeserializedTokens → ℕ
  starts_element close_start_element = 1
  starts_element close_empty_element = 1
  starts_element token = 0

  abbrev pub ends_element : BinXmlDeserializedTokens → ℕ
  ends_element close_element = 1
  ends_element close_empty_element = 1
  ends_element token = 0

  -- The tags of an item, `true` for one that opens and `false` for one that closes, and of a token.
  abbrev pub model_tags : XmlModel → List Bool
  model_tags (XmlModel.open_element e) = true ∷ []
  model_tags XmlModel.close_element = false ∷ []
  model_tags m = []

  abbrev pub token_tags : BinXmlDeserializedTokens → List Bool
  token_tags close_start_element = true ∷ []
  token_tags close_empty_element = true ∷ false ∷ []
  token_tags close_element = false ∷ []
  token_tags token = []

  -- The model of the state has those tags more.
  abbrev More : ModelState → List Bool → ModelState → Type 0
  More st bs st' = tags model_tags st'.model ≡ tags model_tags st.model ++ bs

  More-then :
      (st st₁ st₂ : ModelState) (bs bs' : List Bool)
      → More st bs st₁
      → More st₁ bs' st₂
      → More st (bs ++ bs') st₂
  More-then st st₁ st₂ bs bs' h k =
      k ∙ (ap (λ l. l ++ bs') h ∙ append_assoc (tags model_tags st.model) bs bs')

  pushed : (m : XmlModel) (st : ModelState) → More st (model_tags m) (push m st)
  pushed m st =
      tags-append model_tags st.model (m ∷ [])
      ∙ ap (λ l. tags model_tags st.model ++ l) (append-nil (model_tags m))

  same : (st st' : ModelState) → st'.model ≡ st.model → More st [] st'
  same st st' e = ap (tags model_tags) e ∙ sym (append-nil (tags model_tags st.model))

  -- A result of which any value gives that many more.
  any_More :
      {A : Type 0} (st : ModelState) (bs : List Bool) (r : Result EvtxError A) (f : A → Step)
      → ((a : A) → Ensures (More st bs) (f a))
      → Ensures (More st bs) (r >>= f)
  any_More st bs r f h =
      Ensures-bind (λ a. Unit {0}) (More st bs) r f (Ensures-all (λ a. Unit {0}) r λ a. tt)
        λ a u. h a

  close_start-More :
      (builder : Option XmlElementBuilder) (st : ModelState)
      → Ensures (More st (true ∷ [])) (close_start builder st)
  unfolding close_start
  close_start-More none st = tt
  close_start-More (some builder) st =
      any_More st (true ∷ []) (finish builder)
        (λ element.
          ok (push (XmlModel.open_element element) (record st { current_element = none })))
        λ element. pushed (XmlModel.open_element element) st

  close_empty-More :
      (builder : Option XmlElementBuilder) (st : ModelState)
      → Ensures (More st (true ∷ false ∷ [])) (close_empty builder st)
  unfolding close_empty
  close_empty-More none st = tt
  close_empty-More (some builder) st =
      any_More st (true ∷ false ∷ []) (finish builder)
        (λ element. ok (
          push XmlModel.close_element
            (push (XmlModel.open_element element) (record st { current_element = none }))))
        λ element.
          let opened : ModelState = push (XmlModel.open_element element) st in
          More-then st opened (push XmlModel.close_element opened) (true ∷ []) (false ∷ [])
            (pushed (XmlModel.open_element element) st) (pushed XmlModel.close_element opened)

  pi_of_plain :
      (name : Option BinXmlName) (text : Option Str)
      → Ensures (λ m. model_tags m ≡ []) (pi_of name text)
  pi_of_plain (some name) (some text) = refl
  pi_of_plain none text = tt
  pi_of_plain (some name) none = tt

  plain : (m : XmlModel) (st : ModelState) → model_tags m ≡ [] → More st [] (push m st)
  plain m st h = subst (λ bs. More st bs (push m st)) h (pushed m st)

  pi_data-More :
      (builder : Option XmlPiBuilder) (text : Str) (st : ModelState)
      → Ensures (More st []) (add_pi_data builder text st)
  unfolding add_pi_data finish_pi
  pi_data-More none text st = tt
  pi_data-More (some builder) text st =
      Ensures-bind (λ m. model_tags m ≡ []) (More st []) (finish_pi (Xml.pi_data text builder))
        (λ m. ok (push m (record st { current_pi = none })))
        (pi_of_plain (Xml.pi_data text builder).name (Xml.pi_data text builder).text)
        λ m h. plain m st h

  attribute-More :
      (builder : Option XmlElementBuilder) (name : BinXmlNameRef) (chunk : EvtxChunk)
      (st : ModelState)
      → Ensures (More st []) (add_attribute builder name chunk st)
  unfolding add_attribute
  attribute-More none name chunk st = tt
  attribute-More (some builder) name chunk st =
      any_More st [] (expand_string_ref name chunk)
        (λ s. ok (record st { current_element = some (attribute_name s builder) }))
        λ s. same st (record st { current_element = some (attribute_name s builder) }) refl

  value-More :
      (builder : Option XmlElementBuilder) (v : BinXmlValue) (st : ModelState)
      → Ensures (More st []) (add_value builder v st)
  unfolding add_value
  value-More none BinXmlValue.evt_xml st = tt
  value-More none v st = pushed (XmlModel.value v) st
  value-More (some builder) v st =
      any_More st [] (attribute_value v builder) (λ b. ok (record st { current_element = some b }))
        λ b. same st (record st { current_element = some b }) refl

  step-More :
      (chunk : EvtxChunk) (token : BinXmlDeserializedTokens) (st : ModelState)
      → Ensures (More st (token_tags token)) (model_step chunk token st)
  unfolding model_step
  step-More chunk (fragment_header h) st = same st st refl
  step-More chunk (template_instance t) st = tt
  step-More chunk attribute_list st = same st st refl
  step-More chunk close_element st = pushed XmlModel.close_element st
  step-More chunk close_start_element st = close_start-More st.current_element st
  step-More chunk cdata_section st = tt
  step-More chunk char_ref st = tt
  step-More chunk (entity_ref entity) st =
      any_More st [] (expand_string_ref entity.name chunk)
        (λ s. ok (push (XmlModel.entity_ref s) st)) λ s. pushed (XmlModel.entity_ref s) st
  step-More chunk (pi_target target) st =
      any_More st [] (expand_string_ref target.name chunk)
        (λ s. ok (record st { current_pi = some (pi_name s new_pi) }))
        λ s. same st (record st { current_pi = some (pi_name s new_pi) }) refl
  step-More chunk (pi_data text) st = pi_data-More st.current_pi text st
  step-More chunk (substitution descriptor) st = tt
  step-More chunk end_of_stream st = pushed XmlModel.end_of_stream st
  step-More chunk start_of_stream st = pushed XmlModel.start_of_stream st
  step-More chunk close_empty_element st = close_empty-More st.current_element st
  step-More chunk (attribute attr) st = attribute-More st.current_element attr.name chunk st
  step-More chunk (open_start_element elem) st =
      any_More st [] (expand_string_ref elem.name chunk)
        (λ s. ok (record st { current_element = some (set_name s new_element) }))
        λ s. same st (record st { current_element = some (set_name s new_element) }) refl
  step-More chunk (value v) st = value-More st.current_element v st

  loop-More :
      (chunk : EvtxChunk) (tokens : List BinXmlDeserializedTokens) (st : ModelState)
      → Ensures (More st (tags token_tags tokens)) (model_loop chunk tokens st)
  unfolding model_loop
  loop-More chunk [] st = same st st refl
  loop-More chunk (token ∷ tokens) st =
      Ensures-bind (More st (token_tags token)) (More st (tags token_tags (token ∷ tokens)))
        (model_step chunk token st) (model_loop chunk tokens) (step-More chunk token st)
        λ st₁ h.
          Ensures-weaken (More st₁ (tags token_tags tokens))
            (More st (tags token_tags (token ∷ tokens))) (model_loop chunk tokens st₁)
            (loop-More chunk tokens st₁)
            λ st₂ g. More-then st st₁ st₂ (token_tags token) (tags token_tags tokens) h g

  -- The counts of items and of tokens are those of their tags.
  abbrev up : Bool → ℕ
  up true = 1
  up false = 0

  abbrev down : Bool → ℕ
  down true = 0
  down false = 1

  model_tags-count :
      (m : XmlModel) → (opens m ≡ count up (model_tags m)) × (closes m ≡ count down (model_tags m))
  model_tags-count (XmlModel.open_element e) = (refl, refl)
  model_tags-count XmlModel.close_element = (refl, refl)
  model_tags-count m = (refl, refl)

  token_tags-count :
      (token : BinXmlDeserializedTokens)
      → (starts_element token ≡ count up (token_tags token))
        × (ends_element token ≡ count down (token_tags token))
  token_tags-count close_start_element = (refl, refl)
  token_tags-count close_empty_element = (refl, refl)
  token_tags-count close_element = (refl, refl)
  token_tags-count token = (refl, refl)

  tags-count :
      {A : Type 0} (f : A → List Bool) (p : A → ℕ) (q : Bool → ℕ) (xs : List A)
      → ((a : A) → p a ≡ count q (f a))
      → count p xs ≡ count q (tags f xs)
  tags-count f p q [] h = refl
  tags-count f p q (x ∷ xs) h =
      omega (arith, h x, count-append q (f x) (tags f xs), tags-count f p q xs h)

-- The tags of a record model are those of its tokens, in order.
pub create_record_model-tags :
    ⦃x : Crates⦄ (tokens : List BinXmlDeserializedTokens) (chunk : EvtxChunk)
    (model : List XmlModel)
    → create_record_model tokens chunk ≡ ok model
    → tags model_tags model ≡ tags token_tags tokens
unfolding create_record_model
create_record_model-tags tokens chunk model h =
    let start : ModelState = record { current_element = none; current_pi = none; model = [] } in
    Ensures-ok (λ m. tags model_tags m ≡ tags token_tags tokens) (create_record_model tokens chunk)
      model
      (Ensures-bind (More start (tags token_tags tokens))
        (λ m. tags model_tags m ≡ tags token_tags tokens) (model_loop chunk tokens start)
        (λ st. ok st.model) (loop-More chunk tokens start) λ st g. g)
      h

-- Where a record model is made of tokens, it opens as many elements as tokens end a start tag or an empty
-- element, and closes as many as tokens close an element or are an empty element.
pub create_record_model-count :
    ⦃x : Crates⦄ (tokens : List BinXmlDeserializedTokens) (chunk : EvtxChunk)
    (model : List XmlModel)
    → create_record_model tokens chunk ≡ ok model
    → (count opens model ≡ count starts_element tokens)
      × (count closes model ≡ count ends_element tokens)
create_record_model-count tokens chunk model h =
    let e : tags model_tags model ≡ tags token_tags tokens =
      create_record_model-tags tokens chunk model h in
    (
      tags-count model_tags opens up model (λ m. (model_tags-count m).0)
          ∙ (ap (count up) e
              ∙ sym (tags-count token_tags starts_element up tokens (λ t. (token_tags-count t).0))),
      tags-count model_tags closes down model (λ m. (model_tags-count m).1)
          ∙ (ap (count down) e
              ∙ sym (tags-count token_tags ends_element down tokens (λ t. (token_tags-count t).1))),
    )
