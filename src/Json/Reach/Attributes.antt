-- ===== src/Json/Reach/Attributes.antt =====
-- When `insert_node_with_attributes` of src/json_output.rs puts attributes into a node, and when it fails.
use evtx.Base.{◌≡◌, refl, ◌⊎◌, inl, inr, List, [], ◌∷◌, ◌++◌, Bool, true, false, some, Str, chars}
use evtx.Base.Result.{Result, ok, err}
use evtx.Crates.{Crates}
use evtx.Formats.{Formats}
use evtx.Error.{SerializationError, json_structure_error}
use evtx.Serde.{SerdeJson, View}
use evtx.Model.Xml.{XmlElement}
use evtx.Json.Path.{JsonResult, update_map, update_object, update_current}
use evtx.Json.Insert.{JsonOutput, insert_attributes, attribute_map, insert_node_with_attributes}
use evtx.Json.Reach.{lookup}
use evtx.Json.Reach.Writes.{reach, update_current-writes, update_current-err}

module _ ⦃x : Crates⦄ ⦃j : SerdeJson⦄ where
  abbrev pub bug : SerializationError
  bug =
      json_structure_error
        "This is a bug - expected current value to exist, and to be an object type."

  abbrev pub attributed : j.Map → j.Map → j.Value
  attributed attributes m =
      j.of_view
        (View.object (j.insert m (chars "#attributes") (j.of_view (View.object attributes))))

  abbrev pub is_object : View j.Value j.Map j.Number → Bool
  is_object (View.object m) = true
  is_object w = false

  object_or_bug :
      (change : j.Map → Result SerializationError j.Map) (w : View j.Value j.Map j.Number)
      → ((m : j.Map) × (w ≡ View.object m))
        ⊎ ((is_object w ≡ false) × (update_map change w ≡ err bug))
  object_or_bug change (View.object m) = inl (m, refl)
  object_or_bug change View.null = inr (refl, refl)
  object_or_bug change (View.bool b) = inr (refl, refl)
  object_or_bug change (View.number n) = inr (refl, refl)
  object_or_bug change (View.string s) = inr (refl, refl)
  object_or_bug change (View.array vs) = inr (refl, refl)

-- Attributes that are not all null and not kept separate go into the node of the pushed name where the path
-- reaches an object: it holds them under "#attributes" then. Where it reaches another value, a text or the null of
-- an element of that name before, the insertion fails with the error "This is a bug".
pub insert_node_with_attributes-is_object :
    ⦃x : Crates⦄ ⦃f : Formats⦄ ⦃j : SerdeJson⦄ (element : XmlElement) (name : Str)
    (out : JsonOutput) (attributes : j.Map)
    → out.separate_json_attributes ≡ false
    → attribute_map element.attributes j.new ≡ ok attributes
    → j.is_empty attributes ≡ false
    → ((m : j.Map) × (out' : JsonOutput) × (j.view (reach (out.stack ++ (name ∷ [])) out.document)
          ≡ View.object m)
        × (insert_node_with_attributes element name out ≡ ok out')
        × (lookup (out.stack ++ (name ∷ [])) out'.document ≡ some (attributed attributes m)))
      ⊎ ((is_object (j.view (reach (out.stack ++ (name ∷ [])) out.document)) ≡ false)
          × (insert_node_with_attributes element name out ≡ err bug))
unfolding insert_node_with_attributes update_object insert_attributes
insert_node_with_attributes-is_object ⦃j = j⦄ element name out attributes together made some_left =
    let keys : List Str = out.stack ++ (name ∷ []) in
    let w : j.Value = reach keys out.document in
    let change : j.Value → JsonResult = update_object (insert_attributes attributes) in
    elim (object_or_bug (insert_attributes attributes) (j.view w)) [
      | inl (m, o) ↦
          let c : change w ≡ ok (attributed attributes m) = rw o refl in
          let (v', e, l, beside) =
            update_current-writes keys keys change out.document (attributed attributes m) c in
          inl (
            m,
            record out { document = v'; stack = keys },
            o,
            rw (made, some_left, together, e) refl,
            l,
          )
      | inr (n, b) ↦
          let e : update_current keys change out.document ≡ err bug =
            update_current-err keys change out.document bug b in
          inr (n, rw (made, some_left, together, e) refl)
    ]
