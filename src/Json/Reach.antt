-- ===== src/Json/Reach.antt =====
-- Values at the paths of a JSON document, and what a change at a path leaves as it was.
pub mod Writes
pub mod Attributes
use evtx.Base.{
  Bool, true, false, if◌then◌else◌, Bool-cases, inl, inr, subst, str_eq, str_eq→eq, ◌≡◌, refl, ap,
  List, [], ◌∷◌, ◌++◌, Option, none, some, Str, str_eq_refl,
}
use evtx.Base.Result.{Result, ok}
use evtx.Crates.{Crates}
use evtx.Error.{SerializationError}
use evtx.Serde.{SerdeJson, View}
use evtx.Json.Path.{
  drop_last, JsonResult, empty_object, get_view, get_key, missing_child, ensure_view, ensure_child,
  put_view, put_key, update_child, update_at, create_path, update_object, update_current,
  update_parent,
}

-- The path branches off from the keys: neither goes on from the other.
abbrev pub leaves : List Str → List Str → Bool
leaves [] path = false
leaves (key ∷ keys) [] = false
leaves (key ∷ keys) (k ∷ path) = if str_eq key k then leaves keys path else true

module _ ⦃x : Crates⦄ ⦃j : SerdeJson⦄ where
  abbrev pub and_lookup : (j.Value → Option j.Value) → Option j.Value → Option j.Value
  and_lookup more none = none
  and_lookup more (some v) = more v

  -- The value at a path, by `get` of each key in turn.
  unfoldable pub lookup : List Str → j.Value → Option j.Value
  lookup [] v = some v
  lookup (key ∷ path) v = and_lookup (lookup path) (get_key v key)

  pub get_key-object :
      (m : j.Map) (key : Str) → get_key (j.of_view (View.object m)) key ≡ j.get m key
  unfolding get_key
  get_key-object m key = rw (j.view-of_view (View.object m))

  pub get_key-insert :
      (m : j.Map) (key : Str) (child : j.Value)
      → get_key (j.of_view (View.object (j.insert m key child))) key ≡ some child
  get_key-insert m key child =
      rw (get_key-object (j.insert m key child) key, j.get-insert m key key child, str_eq_refl key)

  get_key-put_view :
      (w : View j.Value j.Map j.Number) (v : j.Value) (key : Str) (old child : j.Value)
      → get_view w key ≡ some old
      → get_key (put_view w key child v) key ≡ some child
  get_key-put_view (View.object m) v key old child h = get_key-insert m key child
  get_key-put_view View.null v key old child h = absurd cc
  get_key-put_view (View.bool b) v key old child h = absurd cc
  get_key-put_view (View.number n) v key old child h = absurd cc
  get_key-put_view (View.string s) v key old child h = absurd cc
  get_key-put_view (View.array vs) v key old child h = absurd cc

  pub get_key-put_key :
      (v : j.Value) (key : Str) (old child : j.Value)
      → get_key v key ≡ some old
      → get_key (put_key v key child) key ≡ some child
  unfolding put_key get_key
  get_key-put_key v key old child h = get_key-put_view (j.view v) v key old child h

  pub lookup-put_key :
      (path : List Str) (v : j.Value) (key : Str) (old child w : j.Value)
      → get_key v key ≡ some old
      → lookup path child ≡ some w
      → lookup (key ∷ path) (put_key v key child) ≡ some w
  unfolding lookup
  lookup-put_key path v key old child w h k = rw (get_key-put_key v key old child h, k)

  get_key-put_view_other :
      (w : View j.Value j.Map j.Number) (v : j.Value) (key k : Str) (child : j.Value)
      → j.view v ≡ w
      → str_eq key k ≡ false
      → get_key (put_view w key child v) k ≡ get_view w k
  unfolding get_key
  get_key-put_view_other (View.object m) v key k child h e =
      rw (j.view-of_view (View.object (j.insert m key child)), j.get-insert m key k child, e) refl
  get_key-put_view_other View.null v key k child h e = rw h refl
  get_key-put_view_other (View.bool b) v key k child h e = rw h refl
  get_key-put_view_other (View.number n) v key k child h e = rw h refl
  get_key-put_view_other (View.string s) v key k child h e = rw h refl
  get_key-put_view_other (View.array vs) v key k child h e = rw h refl

  get_key-put_other :
      (v : j.Value) (key k : Str) (child : j.Value)
      → str_eq key k ≡ false
      → get_key (put_key v key child) k ≡ get_key v k
  unfolding put_key get_key
  get_key-put_other v key k child e = get_key-put_view_other (j.view v) v key k child refl e

  -- At the paths that leave `keys` to the side the values are the same.
  abbrev pub Frame : List Str → j.Value → j.Value → Type 0
  Frame keys v v' = (path : List Str) → leaves keys path ≡ true → lookup path v' ≡ lookup path v

  -- The same of a first key and what is under it.
  pub Frame-first :
      (key : Str) (keys : List Str) (v v' : j.Value)
      → ((path : List Str)
          → leaves keys path ≡ true
          → and_lookup (lookup path) (get_key v' key) ≡ and_lookup (lookup path) (get_key v key))
      → ((k : Str) → str_eq key k ≡ false → get_key v' k ≡ get_key v k)
      → Frame (key ∷ keys) v v'
  unfolding lookup
  Frame-first key keys v v' under beside [] l = absurd cc
  Frame-first key keys v v' under beside (k ∷ path) l = elim (Bool-cases (str_eq key k)) [
    | inl e ↦
        let z : key ≡ k = str_eq→eq key k e in
        let l' : leaves keys path ≡ true = rw e at l in
        subst
          (λ n. and_lookup (lookup path) (get_key v' n) ≡ and_lookup (lookup path) (get_key v n)) z
          (under path l')
    | inr e ↦ ap (and_lookup (lookup path)) (beside k e)
  ]

  pub Frame-put :
      (keys : List Str) (v : j.Value) (key : Str) (child child' : j.Value)
      → get_key v key ≡ some child
      → Frame keys child child'
      → Frame (key ∷ keys) v (put_key v key child')
  Frame-put keys v key child child' h f =
      Frame-first key keys v (put_key v key child')
        (λ path l. rw (get_key-put_key v key child child' h, h) (f path l))
        (λ k e. get_key-put_other v key k child' e)

  lookup_under :
      (keys path : List Str) (o : Option j.Value) (w : j.Value)
      → ((v w : j.Value)
          → lookup (keys ++ path) v ≡ some w
          → (u : j.Value) × (lookup keys v ≡ some u) × (lookup path u ≡ some w))
      → and_lookup (lookup (keys ++ path)) o ≡ some w
      → (u : j.Value) × (and_lookup (lookup keys) o ≡ some u) × (lookup path u ≡ some w)
  lookup_under keys path none w more h = absurd cc
  lookup_under keys path (some v) w more h = more v w h

  pub lookup-append :
      (keys path : List Str) (v w : j.Value)
      → lookup (keys ++ path) v ≡ some w
      → (u : j.Value) × (lookup keys v ≡ some u) × (lookup path u ≡ some w)
  unfolding lookup
  lookup-append [] path v w h = (v, refl, h)
  lookup-append (key ∷ keys) path v w h =
      lookup_under keys path (get_key v key) w (lookup-append keys path) h

  object_with_key :
      (u : View j.Value j.Map j.Number) (key : Str) (o : Option j.Value) (w : j.Value)
      → get_view u key ≡ o
      → and_lookup (λ v. some v) o ≡ some w
      → (m : j.Map) × (u ≡ View.object m)
  object_with_key (View.object m) key o w h l = (m, refl)
  object_with_key View.null key o w h l = absurd cc
  object_with_key (View.bool b) key o w h l = absurd cc
  object_with_key (View.number n) key o w h l = absurd cc
  object_with_key (View.string s) key o w h l = absurd cc
  object_with_key (View.array vs) key o w h l = absurd cc

  pub parent_object :
      (key : Str) (u w : j.Value)
      → lookup (key ∷ []) u ≡ some w
      → (m : j.Map) × (j.view u ≡ View.object m)
  unfolding lookup get_key
  parent_object key u w h = object_with_key (j.view u) key (get_view (j.view u) key) w refl h
