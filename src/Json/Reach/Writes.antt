-- ===== src/Json/Reach/Writes.antt =====
-- The updates of the JSON document: `get_or_create_current_path` makes the path, so that its `expect` and that of
-- `get_current_parent` do not fail, and a change at the path is all that is written.
use evtx.Base.{
  ◌≡◌, refl, ap, ◌∙◌, List, [], ◌∷◌, ◌++◌, true, false, Option, none, some, Str, str_eq, ◌⊎◌, inl,
  inr, Bool-cases,
}
use evtx.Base.Result.{Result, ok, err}
use evtx.Crates.{Crates}
use evtx.Error.{SerializationError}
use evtx.Serde.{SerdeJson, View}
use evtx.Json.Path.{
  drop_last, JsonResult, empty_object, get_view, get_key, missing_child, ensure_view, ensure_child,
  put_key, update_at, create_path, update_object, update_current, update_parent,
}
use evtx.Json.Reach.{
  and_lookup, lookup, get_key-object, get_key-insert, lookup-put_key, leaves, Frame, Frame-first,
  Frame-put, lookup-append, parent_object,
}

module _ ⦃x : Crates⦄ ⦃j : SerdeJson⦄ where
  -- What stands under a key that is made in a node: an empty object, or the node itself if it is no object.
  abbrev shifted_view : View j.Value j.Map j.Number → j.Value → j.Value
  shifted_view View.null v = empty_object
  shifted_view (View.object m) v = empty_object
  shifted_view w v = v

  abbrev shifted : j.Value → j.Value
  shifted v = shifted_view (j.view v) v

  abbrev or_shifted : (j.Value → j.Value) → j.Value → Option j.Value → j.Value
  or_shifted more v none = shifted v
  or_shifted more v (some child) = more child

  -- The value at a path of the document, or, where the path breaks off, an empty object or the node without
  -- entries at which it breaks off.
  unfoldable pub reach : List Str → j.Value → j.Value
  reach [] v = v
  reach (key ∷ path) v = or_shifted (reach path) v (get_key v key)

  -- A node that is made has no entries.
  abbrev IsBare : j.Value → Type 0
  IsBare v = (shifted v ≡ v) × ((key : Str) → get_key v key ≡ none)

  empty_IsBare : IsBare empty_object
  unfolding get_key
  empty_IsBare = (
    rw (j.view-of_view (View.object j.new)) refl,
    λ key. rw (j.view-of_view (View.object j.new)) (j.get-new key),
  )

  scalar_IsBare :
      (v : j.Value) (w : View j.Value j.Map j.Number)
      → j.view v ≡ w
      → shifted_view w v ≡ v
      → ((key : Str) → get_view w key ≡ none)
      → IsBare v
  unfolding get_key
  scalar_IsBare v w h s n = (rw h s, λ key. rw h (n key))

  shifted_view-IsBare :
      (v : j.Value) (w : View j.Value j.Map j.Number) → j.view v ≡ w → IsBare (shifted_view w v)
  shifted_view-IsBare v View.null h = empty_IsBare
  shifted_view-IsBare v (View.object m) h = empty_IsBare
  shifted_view-IsBare v (View.bool b) h = scalar_IsBare v (View.bool b) h refl (λ key. refl)
  shifted_view-IsBare v (View.number n) h = scalar_IsBare v (View.number n) h refl (λ key. refl)
  shifted_view-IsBare v (View.string s) h = scalar_IsBare v (View.string s) h refl (λ key. refl)
  shifted_view-IsBare v (View.array vs) h = scalar_IsBare v (View.array vs) h refl (λ key. refl)

  shifted-IsBare : (v : j.Value) → IsBare (shifted v)
  shifted-IsBare v = shifted_view-IsBare v (j.view v) refl

  reach-bare : (path : List Str) (v : j.Value) → IsBare v → reach path v ≡ v
  unfolding reach
  reach-bare [] v h = refl
  reach-bare (key ∷ path) v h = rw (h.1 key) (h.0)

  lookup-bare :
      (keys path : List Str) (v : j.Value)
      → IsBare v
      → leaves keys path ≡ true
      → lookup path v ≡ none
  unfolding lookup
  lookup-bare [] path v h l = absurd cc
  lookup-bare (k ∷ keys) [] v h l = absurd cc
  lookup-bare (k ∷ keys) (key ∷ path) v h l = rw (h.1 key) refl

  -- A key that is made: what is under it, and that nothing else is.
  missing-key :
      (key : Str) (v : j.Value) (w : View j.Value j.Map j.Number)
      → get_key (missing_child key v w) key ≡ some (shifted_view w v)
  missing-key key v View.null = get_key-insert j.new key empty_object
  missing-key key v (View.object m) = get_key-insert m key empty_object
  missing-key key v (View.bool b) = get_key-insert j.new key v
  missing-key key v (View.number n) = get_key-insert j.new key v
  missing-key key v (View.string s) = get_key-insert j.new key v
  missing-key key v (View.array vs) = get_key-insert j.new key v

  inserted_other :
      (m : j.Map) (key k : Str) (child : j.Value)
      → str_eq key k ≡ false
      → get_key (j.of_view (View.object (j.insert m key child))) k ≡ j.get m k
  inserted_other m key k child e =
      get_key-object (j.insert m key child) k ∙ rw (j.get-insert m key k child, e) refl

  missing_other :
      (key k : Str) (v : j.Value) (w : View j.Value j.Map j.Number)
      → str_eq key k ≡ false
      → get_key (missing_child key v w) k ≡ get_view w k
  missing_other key k v View.null e = inserted_other j.new key k empty_object e ∙ j.get-new k
  missing_other key k v (View.object m) e = inserted_other m key k empty_object e
  missing_other key k v (View.bool b) e = inserted_other j.new key k v e ∙ j.get-new k
  missing_other key k v (View.number n) e = inserted_other j.new key k v e ∙ j.get-new k
  missing_other key k v (View.string s) e = inserted_other j.new key k v e ∙ j.get-new k
  missing_other key k v (View.array vs) e = inserted_other j.new key k v e ∙ j.get-new k

  missing_key_other :
      (key : Str) (v : j.Value) (k : Str)
      → str_eq key k ≡ false
      → get_key (missing_child key v (j.view v)) k ≡ get_key v k
  unfolding get_key
  missing_key_other key v k e = missing_other key k v (j.view v) e

  -- What the first step of a path makes sure of.
  record Ensured (key : Str) (path : List Str) (v u : j.Value) : Type 0 where
    child : j.Value
    there : get_key u key ≡ some child
    reaches : reach path child ≡ reach (key ∷ path) v
    frame : Frame (key ∷ path) v u

  ensure_view-Ensured :
      (key : Str) (path : List Str) (v : j.Value) (o : Option j.Value)
      → get_key v key ≡ o
      → Ensured key path v (ensure_view key v o)
  unfolding reach
  ensure_view-Ensured key path v (some child) h = record {
    child = child;
    there = h;
    reaches = rw h refl;
    frame = λ p l. refl;
  }
  ensure_view-Ensured key path v none h = record {
    child = shifted v;
    there = missing-key key v (j.view v);
    reaches = reach-bare path (shifted v) (shifted-IsBare v) ∙ rw h refl;
    frame =
        Frame-first key path v (missing_child key v (j.view v))
          (λ p l.
            rw (missing-key key v (j.view v), h)
              (lookup-bare path p (shifted v) (shifted-IsBare v) l))
          (missing_key_other key v);
  }

  ensure_child-Ensured :
      (key : Str) (path : List Str) (v : j.Value) → Ensured key path v (ensure_child key v)
  unfolding ensure_child
  ensure_child-Ensured key path v = ensure_view-Ensured key path v (get_key v key) refl

  -- The path is made, holds what it reaches, and the rest is as it was.
  record Created (path : List Str) (v : j.Value) : Type 0 where
    made : j.Value
    run : create_path path v ≡ ok made
    there : lookup path made ≡ some (reach path v)
    frame : Frame path v made

  Frame-then :
      (keys : List Str) (v u w : j.Value) → Frame keys v u → Frame keys u w → Frame keys v w
  Frame-then keys v u w f g path l = g path l ∙ f path l

  create_path-Created : (path : List Str) (v : j.Value) → Created path v
  unfolding create_path lookup reach
  create_path-Created [] v = record { made = v; run = refl; there = refl; frame = λ p l. refl }
  create_path-Created (key ∷ path) v =
      let u : j.Value = ensure_child key v in
      let e : Ensured key path v u = ensure_child-Ensured key path v in
      let c : Created path e.child = create_path-Created path e.child in
      record {
        made = put_key u key c.made;
        run = rw (e.there, c.run) refl;
        there =
            lookup-put_key path u key e.child c.made (reach (key ∷ path) v) e.there
              (c.there ∙ ap (λ r. some r) e.reaches);
        frame =
            Frame-then (key ∷ path) v u (put_key u key c.made) e.frame
              (Frame-put path u key e.child c.made e.there c.frame);
      }

  -- A change that succeeds at a path that is there.
  record Written (path : List Str) (change : j.Value → JsonResult) (v w' : j.Value) : Type 0 where
    after : j.Value
    run : update_at path change v ≡ ok after
    there : lookup path after ≡ some w'
    frame : Frame path v after

  under :
      (key : Str) (path : List Str) (change : j.Value → JsonResult) (v w' child : j.Value)
      → get_key v key ≡ some child
      → Written path change child w'
      → Written (key ∷ path) change v w'
  unfolding update_at
  under key path change v w' child e r = record {
    after = put_key v key r.after;
    run = rw (e, r.run) refl;
    there = lookup-put_key path v key child r.after w' e r.there;
    frame = Frame-put path v key child r.after e r.frame;
  }

  found_child :
      (key : Str) (path : List Str) (v w : j.Value) (o : Option j.Value)
      → get_key v key ≡ o
      → and_lookup (lookup path) o ≡ some w
      → (child : j.Value) × (get_key v key ≡ some child) × (lookup path child ≡ some w)
  found_child key path v w none e l = absurd cc
  found_child key path v w (some child) e l = (child, e, l)

  update_at-Written :
      (path : List Str) (change : j.Value → JsonResult) (v w w' : j.Value)
      → lookup path v ≡ some w
      → change w ≡ ok w'
      → Written path change v w'
  unfolding update_at lookup
  update_at-Written [] change v w w' l c =
      let e : v ≡ w = cc in record { after = w'; run = cc; there = refl; frame = λ p q. absurd cc }
  update_at-Written (key ∷ path) change v w w' l c =
      let (child, e, k) = found_child key path v w (get_key v key) refl l in
      under key path change v w' child e (update_at-Written path change child w w' k c)

  -- A change that fails there.
  update_at-err :
      (path : List Str) (change : j.Value → JsonResult) (v w : j.Value) (e : SerializationError)
      → lookup path v ≡ some w
      → change w ≡ err e
      → update_at path change v ≡ err e
  unfolding update_at lookup
  update_at-err [] change v w e l c = let z : v ≡ w = cc in cc
  update_at-err (key ∷ path) change v w e l c =
      let (child, h, k) = found_child key path v w (get_key v key) refl l in
      rw (h, update_at-err path change child w e k c) refl

  -- A change of what the path reaches, where it fails.
  pub update_current-err :
      (stack : List Str) (change : j.Value → JsonResult) (v : j.Value) (e : SerializationError)
      → change (reach stack v) ≡ err e
      → update_current stack change v ≡ err e
  unfolding update_current
  update_current-err stack change v e c =
      let made : Created stack v = create_path-Created stack v in
      rw made.run (update_at-err stack change made.made (reach stack v) e made.there c)

-- Whatever the document and the stack of keys, a change that succeeds on the value at the current path is written
-- there, where a path that breaks off reaches an empty object, or the node without entries that it breaks off at.
-- The update then succeeds, so that the `expect` of the source does not fail, the path holds the changed value, and
-- every path that branches off from it holds what it held.
pub update_current-writes :
    ⦃x : Crates⦄ ⦃j : SerdeJson⦄ (stack path : List Str) (change : j.Value → JsonResult)
    (v w' : j.Value)
    → change (reach stack v) ≡ ok w'
    → (v' : j.Value) × (update_current stack change v ≡ ok v')
      × (lookup stack v' ≡ some w')
      × ((leaves stack path ≡ false) ⊎ (lookup path v' ≡ lookup path v))
unfolding update_current
update_current-writes stack path change v w' c =
    let made : Created stack v = create_path-Created stack v in
    let wrote : Written stack change made.made w' =
      update_at-Written stack change made.made (reach stack v) w' made.there c in
    let beside : (leaves stack path ≡ false) ⊎ (lookup path wrote.after ≡ lookup path v) =
      elim (Bool-cases (leaves stack path)) [
        | inl l ↦ inr (Frame-then stack v made.made wrote.after made.frame wrote.frame path l)
        | inr l ↦ inl l
      ] in
    (wrote.after, rw (made.run, wrote.run) refl, wrote.there, beside)

drop_last-append : (keys : List Str) (key : Str) → drop_last (keys ++ (key ∷ [])) ≡ keys
unfolding drop_last
drop_last-append [] key = refl
drop_last-append (k ∷ []) key = refl
drop_last-append (k ∷ l ∷ keys) key = ap (λ ks. k ∷ ks) (drop_last-append (l ∷ keys) key)

-- The parent of a pushed key is an object.
pub update_parent-object :
    ⦃x : Crates⦄ ⦃j : SerdeJson⦄ (keys : List Str) (key : Str)
    (change : j.Map → Result SerializationError j.Map) (v : j.Value)
    → ((m : j.Map) → (m' : j.Map) × (change m ≡ ok m'))
    → (v' : j.Value) × (update_parent (keys ++ (key ∷ [])) (update_object change) v ≡ ok v')
unfolding update_parent update_object
update_parent-object ⦃j = j⦄ keys key change v total =
    let made : Created (keys ++ (key ∷ [])) v = create_path-Created (keys ++ (key ∷ [])) v in
    let w : j.Value = reach (keys ++ (key ∷ [])) v in
    let (u, lu, lw) = lookup-append keys (key ∷ []) made.made w made.there in
    let (m, o) = parent_object key u w lw in
    let (m', c) = total m in
    let wrote : Written keys (update_object change) made.made (j.of_view (View.object m')) =
      update_at-Written keys (update_object change) made.made u (j.of_view (View.object m')) lu
        (rw o (rw c refl)) in
    (wrote.after, rw (made.run, drop_last-append keys key, wrote.run) refl)
