-- ===== src/Json/Keys.antt =====
-- The stack of keys of `JsonOutput` against the elements that are open.
use evtx.Base.{
  ℕ, suc, ◌-◌, ◌≡◌, refl, List, [], ◌∷◌, ◌++◌, ◌↔◌, Bool, Option, none, some, Str, length,
  length-append, chars, str_eq, arith, Bool-cases, inl, inr,
}
use evtx.Base.Result.{Result, ok, ◌>>=◌, Ensures, Ensures-bind, Ensures-all, Ensures-ok}
use evtx.Crates.{Crates}
use evtx.Error.{SerializationError}
use evtx.Formats.{Formats}
use evtx.Serde.{SerdeJson}
use evtx.Model.Deserialized.{BinXmlValue}
use evtx.Model.Xml.{XmlAttribute, XmlElement, XmlModel}
use evtx.Convert.Text.{as_cow_str}
use evtx.Json.Path.{JsonResult, drop_last, update_object, update_current, update_parent}
use evtx.Json.Insert.{
  JsonOutput, new_output, insert_node_without_attributes, insert_node_with_attributes,
  insert_data_node, insert_data, find_name, attribute_map, insert_placeholder, attributes_in,
}
use evtx.Json.Visit.{
  visit_open_start_element, visit_close_element, visit_characters, visit_entity_reference,
  visit_unescaped, add_characters, json_visitor, into_value, is_nil, value_at_end,
}
use evtx.Assemble.Parse.{visit_models}
use evtx.Assemble.Nesting.{Tracks, open_elements, visit_models-Follows}

length-drop_last : (keys : List Str) → length (drop_last keys) ≡ length keys - 1
unfolding drop_last
length-drop_last [] = omega arith
length-drop_last (s ∷ []) = omega arith
length-drop_last (s ∷ t ∷ ts) = omega (arith, length-drop_last (t ∷ ts))

module _ ⦃x : Crates⦄ ⦃f : Formats⦄ ⦃j : SerdeJson⦄ where
  -- As many keys as elements.
  abbrev pub Keyed : ℕ → JsonOutput → Type 0
  Keyed n out = length out.stack ≡ n

  -- A result that is the output with other keys.
  after_any :
      {A : Type 0} (n : ℕ) (r : Result SerializationError A)
      (k : A → Result SerializationError JsonOutput)
      → ((a : A) → Ensures (Keyed n) (k a))
      → Ensures (Keyed n) (r >>= k)
  after_any n r k h =
      Ensures-bind (λ a. Unit {0}) (Keyed n) r k (Ensures-all (λ a. Unit {0}) r λ a. tt) λ a u. h a

  length-push :
      (n : ℕ) (keys : List Str) (key : Str) → length keys ≡ n → length (keys ++ (key ∷ [])) ≡ suc n
  length-push n keys key h = omega (arith, length-append keys (key ∷ []))

  abbrev with_document : JsonOutput → Str → JsonResult → Result SerializationError JsonOutput
  with_document out name r = do
    document ← r
    ok (record out { document = document; stack = out.stack ++ (name ∷ []) })

  document-Keyed :
      (n : ℕ) (name : Str) (out : JsonOutput) (r : JsonResult)
      → Keyed n out
      → Ensures (Keyed (suc n)) (with_document out name r)
  document-Keyed n name out r h =
      after_any (suc n) r
        (λ document. ok (record out { document = document; stack = out.stack ++ (name ∷ []) }))
        λ document. length-push n out.stack name h

  without-Keyed :
      (n : ℕ) (name : Str) (out : JsonOutput)
      → Keyed n out
      → Ensures (Keyed (suc n)) (insert_node_without_attributes name out)
  unfolding insert_node_without_attributes
  without-Keyed n name out h =
      document-Keyed n name out
        (update_parent (out.stack ++ (name ∷ [])) (update_object (insert_placeholder name))
          out.document)
        h

  with-Keyed :
      (n : ℕ) (element : XmlElement) (name : Str) (out : JsonOutput)
      → Keyed n out
      → Ensures (Keyed (suc n)) (insert_node_with_attributes element name out)
  unfolding insert_node_with_attributes
  with-Keyed n element name out h =
      after_any (suc n) (attribute_map element.attributes j.new)
        (λ attributes. with_document out name (attributes_in element name out attributes))
        λ attributes. document-Keyed n name out (attributes_in element name out attributes) h

  data-Keyed :
      (n : ℕ) (name : Option XmlAttribute) (out : JsonOutput)
      → Keyed n out
      → Ensures (Keyed (suc n)) (insert_data name out)
  data-Keyed n (some name) out h =
      after_any (suc n) (as_cow_str name.value) (λ key. insert_node_without_attributes key out)
        λ key. without-Keyed n key out h
  data-Keyed n none out h = length-push n out.stack (chars "Data") h

  open-Keyed :
      (n : ℕ) (element : XmlElement) (out : JsonOutput)
      → Keyed n out
      → Ensures (Keyed (suc n)) (visit_open_start_element element out)
  unfolding visit_open_start_element insert_data_node
  open-Keyed n element out h = elim (Bool-cases (str_eq element.name.str (chars "Data"))) [
    | inl e ↦ rw e (data-Keyed n (find_name element.attributes) out h)
    | inr e ↦ elim (Bool-cases (is_nil element.attributes)) [
      | inl g ↦ rw (e, g) (without-Keyed n element.name.str out h)
      | inr g ↦ rw (e, g) (with-Keyed n element element.name.str out h)
    ]
  ]

  characters-Keyed :
      (n : ℕ) (v : BinXmlValue) (out : JsonOutput)
      → Keyed n out
      → Ensures (Keyed n) (visit_characters v out)
  unfolding visit_characters
  characters-Keyed n v out h =
      after_any n
        (update_current out.stack
          (λ current. add_characters out.separate_json_attributes (j.view current) current v)
          out.document)
        (λ document. ok (record out { document = document })) λ document. h

  unescaped-Keyed :
      (n : ℕ) (escaped : Option Str) (out : JsonOutput)
      → Keyed n out
      → Ensures (Keyed n) (visit_unescaped escaped out)
  unescaped-Keyed n (some escaped) out h =
      characters-Keyed n (BinXmlValue.string_type escaped) out h
  unescaped-Keyed n none out h = tt

  abbrev KeyedBy : List XmlElement → JsonOutput → Type 0
  KeyedBy elements out = Keyed (length elements) out

  json-Tracks : Tracks json_visitor KeyedBy
  unfolding visit_close_element visit_entity_reference
  json-Tracks = record {
    opens = λ e elements out h. open-Keyed (length elements) e out h;
    closes = λ e elements out h. omega (arith, length-drop_last out.stack);
    characters = λ v elements out h. characters-Keyed (length elements) v out h;
    entities = λ name elements out h.
        unescaped-Keyed (length elements) (f.unescape (chars "&" ++ (name.str ++ chars ";"))) out h;
    instructions = λ p elements out h. tt;
  }

  empty_iff :
      (keys : List Str) (elements : List XmlElement) (document : j.Value)
      → length keys ≡ length elements
      → (elements ≡ []) ↔ (value_at_end keys document ≡ ok document)
  empty_iff [] [] document h = (λ g. refl, λ g. refl)
  empty_iff [] (e ∷ elements) document h = absurd (omega arith)
  empty_iff (key ∷ keys) [] document h = absurd (omega arith)
  empty_iff (key ∷ keys) (e ∷ elements) document h = (λ g. cc, λ g. cc)

  value_or_open :
      (model : List XmlModel) (elements : List XmlElement) (out : JsonOutput)
      → open_elements model [] ≡ some elements
      → length out.stack ≡ length elements
      → (open_elements model [] ≡ some []) ↔ (into_value out ≡ ok out.document)
  unfolding into_value
  value_or_open model elements out e h =
      let z : (elements ≡ []) ↔ (value_at_end out.stack out.document ≡ ok out.document) =
        empty_iff out.stack elements out.document h in
      (λ g. z.0 cc, λ g. rw (e, z.1 g))

-- Where the visits of a record model have left a JSON output, begun empty, `into_value` gives its document
-- exactly if the model closes every element that it opens.
pub into_value_iff :
    ⦃x : Crates⦄ ⦃f : Formats⦄ ⦃j : SerdeJson⦄ (separate : Bool) (model : List XmlModel)
    (elements : List XmlElement) (out : JsonOutput)
    → visit_models json_visitor model [] (new_output separate) ≡ ok (elements, out)
    → (open_elements model [] ≡ some []) ↔ (into_value out ≡ ok out.document)
into_value_iff separate model elements out h =
    let z : (open_elements model [] ≡ some elements) × (length out.stack ≡ length elements) =
      Ensures-ok (λ q. (open_elements model [] ≡ some q.0) × (length q.1.stack ≡ length q.0))
        (visit_models json_visitor model [] (new_output separate)) (elements, out)
        (visit_models-Follows json_visitor KeyedBy json-Tracks model [] (new_output separate) refl)
        h in
    value_or_open model elements out z.0 z.1
