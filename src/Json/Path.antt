-- ===== src/Json/Path.antt =====
-- The document of `JsonOutput`, and the paths into it: `get_or_create_current_path` and
-- `get_current_parent`. A `&mut` into the document is an update at its path.
use evtx.Base.{List, [], ◌∷◌, Option, none, some, Str}
use evtx.Base.Result.{Result, ok, err, panic, ◌>>=◌}
use evtx.Crates.{Crates}
use evtx.Error.{SerializationError, json_structure_error}
use evtx.Serde.{SerdeJson, View}

-- `Vec::pop`, for its effect on the vector.
unfoldable pub drop_last : List Str → List Str
drop_last [] = []
drop_last (s ∷ []) = []
drop_last (s ∷ t ∷ ts) = s ∷ drop_last (t ∷ ts)

module _ ⦃x : Crates⦄ ⦃j : SerdeJson⦄ where
  abbrev pub JsonResult : Type 0
  JsonResult = Result SerializationError j.Value

  abbrev pub empty_object : j.Value
  empty_object = j.of_view (View.object j.new)

  -- `Value::get` and `get_mut` at a string: only an object has entries.
  abbrev pub get_view : View j.Value j.Map j.Number → Str → Option j.Value
  get_view (View.object m) key = j.get m key
  get_view w key = none

  unfoldable pub get_key : j.Value → Str → Option j.Value
  get_key v key = get_view (j.view v) key

  -- A document of one key.
  abbrev pub singleton : Str → j.Value → j.Value
  singleton key v = j.of_view (View.object (j.insert j.new key v))

  -- What the loop puts in the place of a node that has no such key: a null becomes a map, another
  -- node that is no object is shifted in under the key, and an object gets an empty object.
  abbrev pub missing_child : Str → j.Value → View j.Value j.Map j.Number → j.Value
  missing_child key v View.null = singleton key empty_object
  missing_child key v (View.object m) = j.of_view (View.object (j.insert m key empty_object))
  missing_child key v w = singleton key v

  abbrev pub ensure_view : Str → j.Value → Option j.Value → j.Value
  ensure_view key v none = missing_child key v (j.view v)
  ensure_view key v (some child) = v

  unfoldable pub ensure_child : Str → j.Value → j.Value
  ensure_child key v = ensure_view key v (get_key v key)

  -- A write through `get_mut(key)`, of a value whose key is there.
  abbrev pub put_view : View j.Value j.Map j.Number → Str → j.Value → j.Value → j.Value
  put_view (View.object m) key child v = j.of_view (View.object (j.insert m key child))
  put_view w key child v = v

  unfoldable pub put_key : j.Value → Str → j.Value → j.Value
  put_key v key child = put_view (j.view v) key child v

  -- `get_mut(key).expect(…)` and a change of what it gives.
  abbrev pub update_child : (j.Value → JsonResult) → j.Value → Str → Option j.Value → JsonResult
  update_child change v key none = panic
  update_child change v key (some child) = do child' ← change child; ok (put_key v key child')

  -- A change at a path that is there.
  unfoldable pub update_at : List Str → (j.Value → JsonResult) → j.Value → JsonResult
  update_at [] change v = change v
  update_at (key ∷ path) change v = update_child (update_at path change) v key (get_key v key)

  -- `get_or_create_current_path`
  unfoldable pub create_path : List Str → j.Value → JsonResult
  create_path [] v = ok v
  create_path (key ∷ path) v =
      let v' = ensure_child key v in update_child (create_path path) v' key (get_key v' key)

  -- `as_object_mut().ok_or(…)` and a change of the map.
  abbrev pub update_map :
      (j.Map → Result SerializationError j.Map) → View j.Value j.Map j.Number → JsonResult
  update_map change (View.object m) = do m' ← change m; ok (j.of_view (View.object m'))
  update_map change w = err (
      json_structure_error
        "This is a bug - expected current value to exist, and to be an object type.")

  unfoldable pub update_object : (j.Map → Result SerializationError j.Map) → j.Value → JsonResult
  update_object change v = update_map change (j.view v)

  -- The change of the map at the current path, and at its parent.
  unfoldable pub update_current : List Str → (j.Value → JsonResult) → j.Value → JsonResult
  update_current stack change v = do v' ← create_path stack v; update_at stack change v'

  unfoldable pub update_parent : List Str → (j.Value → JsonResult) → j.Value → JsonResult
  update_parent stack change v = do v' ← create_path stack v; update_at (drop_last stack) change v'
