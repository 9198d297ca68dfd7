-- ===== src/Json/Insert.antt =====
-- `JsonOutput` and its insertions of nodes: `insert_node_without_attributes`,
-- `insert_node_with_attributes` and `insert_data_node`.
use evtx.Base.{
  ℕ, zero, suc, ◌+◌, List, [], ◌∷◌, ◌++◌, Bool, true, false, Option, none, some, Str, chars, length,
  str_eq, if◌then◌else◌,
}
use evtx.Base.Text.{decimal}
use evtx.Base.Result.{Result, ok, panic, stuck, ◌>>=◌}
use evtx.Crates.{Crates}
use evtx.Error.{SerializationError}
use evtx.Formats.{Formats}
use evtx.Serde.{SerdeJson, View}
use evtx.Model.Xml.{XmlAttribute, XmlElement}
use evtx.Convert.Text.{as_cow_str}
use evtx.Convert.ToJson.{to_json, json_null}
use evtx.Json.Path.{JsonResult, empty_object, update_object, update_current, update_parent}

-- `format!("{}_{}", name, free_slot)`
unfoldable pub slot_key : Str → ℕ → Str
slot_key name free_slot = name ++ (b'_' ∷ decimal free_slot)

module _ ⦃x : Crates⦄ ⦃j : SerdeJson⦄ where
  pub record JsonOutput : Type 0 where
    pub document : j.Value
    pub stack : List Str
    pub separate_json_attributes : Bool

  -- `JsonOutput::new`
  abbrev pub new_output : Bool → JsonOutput
  new_output separate = record {
    document = empty_object;
    stack = [];
    separate_json_attributes = separate;
  }

  abbrev pub is_null_view : View j.Value j.Map j.Number → Bool
  is_null_view View.null = true
  is_null_view w = false

  abbrev pub is_empty_view : View j.Value j.Map j.Number → Bool
  is_empty_view (View.object m) = j.is_empty m
  is_empty_view w = false

  unfoldable pub is_null : j.Value → Bool
  is_null v = is_null_view (j.view v)

  -- `*v == Value::Object(Map::new())`
  unfoldable pub is_empty_object : j.Value → Bool
  is_empty_object v = is_empty_view (j.view v)

  -- The linear probe. `free_slot` is an `i32`, which the keys of a map in memory do not fill.
  unfoldable pub find_slot : ℕ → j.Map → Str → ℕ → Result SerializationError ℕ
  find_slot zero container name free_slot = stuck
  find_slot (suc fuel) container name free_slot = elim (j.get container (slot_key name free_slot)) [
    | none ↦ ok free_slot
    | some taken ↦ find_slot fuel container name (free_slot + 1)
  ]

  -- The slots that the probe can find taken are as many as the keys.
  unfoldable pub move_to_slot : j.Map → Str → j.Value → Result SerializationError j.Map
  move_to_slot container name old_value = do
    free_slot ← find_slot (suc (length (j.keys container))) container name 1
    ok (j.insert container (slot_key name free_slot) old_value)

  -- A placeholder, null or an empty map, is not moved.
  abbrev pub keep_old : j.Map → Str → Option j.Value → Result SerializationError j.Map
  keep_old container name none = ok container
  keep_old container name (some old_value) =
      if is_null old_value
      then ok container
      else if is_empty_object old_value
      then ok container
      else move_to_slot container name old_value

  unfoldable pub insert_placeholder : Str → j.Map → Result SerializationError j.Map
  insert_placeholder name container =
      keep_old (j.insert container name json_null) name (j.get container name)

  -- The key is pushed, and what stood under it moves to a free slot.
  unfoldable pub insert_node_without_attributes :
      Str → JsonOutput → Result SerializationError JsonOutput
  insert_node_without_attributes name out = do
    let stack = out.stack ++ (name ∷ [])
    document ← update_parent stack (update_object (insert_placeholder name)) out.document
    ok (record out { document = document; stack = stack })

  -- `value[name]`, which panics where the key is missing.
  abbrev pub remove_if_empty : j.Map → Str → Option j.Value → Result SerializationError j.Map
  remove_if_empty container name none = panic
  remove_if_empty container name (some v) =
      if is_empty_object v then ok (j.remove container name) else ok container

  unfoldable pub insert_separate : Str → j.Map → j.Map → Result SerializationError j.Map
  insert_separate name attributes container =
      let container' =
        j.insert container (name ++ chars "_attributes") (j.of_view (View.object attributes)) in
      remove_if_empty container' name (j.get container' name)

  unfoldable pub insert_attributes : j.Map → j.Map → Result SerializationError j.Map
  insert_attributes attributes container =
      ok (j.insert container (chars "#attributes") (j.of_view (View.object attributes)))

  unfoldable pub insert_null : Str → j.Map → Result SerializationError j.Map
  insert_null name container = ok (j.insert container name json_null)

module _ ⦃x : Crates⦄ ⦃f : Formats⦄ ⦃j : SerdeJson⦄ where
  -- The attributes whose value is not null.
  unfoldable pub attribute_map : List XmlAttribute → j.Map → Result SerializationError j.Map
  attribute_map [] attributes = ok attributes
  attribute_map (attribute ∷ rest) attributes = do
    v ← to_json attribute.value
    attribute_map rest (if is_null v then attributes else j.insert attributes attribute.name.str v)

  -- Where the attributes go: nowhere, beside the node, or into it.
  abbrev pub attributes_in : XmlElement → Str → JsonOutput → j.Map → JsonResult
  attributes_in element name out attributes =
      let stack = out.stack ++ (name ∷ []) in
      if j.is_empty attributes
      then update_parent stack (update_object (insert_null name)) out.document
      else if out.separate_json_attributes
      then update_parent stack (update_object (insert_separate name attributes)) out.document
      else update_current stack (update_object (insert_attributes attributes)) out.document

  unfoldable pub insert_node_with_attributes :
      XmlElement → Str → JsonOutput → Result SerializationError JsonOutput
  insert_node_with_attributes element name out = do
    attributes ← attribute_map element.attributes j.new
    document ← attributes_in element name out attributes
    ok (record out { document = document; stack = out.stack ++ (name ∷ []) })

  -- `element.attributes.iter().find(|a| a.name == "Name")`
  unfoldable pub find_name : List XmlAttribute → Option XmlAttribute
  find_name [] = none
  find_name (a ∷ rest) = if str_eq a.name.str (chars "Name") then some a else find_name rest

  abbrev pub insert_data : Option XmlAttribute → JsonOutput → Result SerializationError JsonOutput
  insert_data (some name) out = do
    data_key ← as_cow_str name.value
    insert_node_without_attributes data_key out
  insert_data none out = ok (record out { stack = out.stack ++ (chars "Data" ∷ []) })

  -- Like a regular node, but under its "Name" attribute.
  unfoldable pub insert_data_node : XmlElement → JsonOutput → Result SerializationError JsonOutput
  insert_data_node element out = insert_data (find_name element.attributes) out
