-- ===== src/Json/Slots.antt =====
-- The free slots of `insert_node_without_attributes`: the probe ends, and no value is lost.
use evtx.Base.{
  ℕ, zero, suc, ◌+◌, ◌≤◌, ◌<◌, ◌≡◌, ◌≢◌, ◌⊎◌, inl, inr, refl, ap, subst, ◌∙◌, List, [], ◌∷◌, ◌++◌,
  map, false, Option, none, some, Str, drop, length, str_eq, str_eq_refl, str_eq→eq, Bool-cases,
  arith,
}
use native.Mathlib.Decide.{dec_lt}
use evtx.Base.Text.{decimal}
use evtx.Base.Decimal.{number, number-decimal}
use evtx.Base.Pigeonhole.{Has, range-length}
use evtx.Base.Result.{ok, stuck}
use evtx.Crates.{Crates}
use evtx.Serde.{SerdeJson, IsAmong}
use evtx.Convert.ToJson.{json_null}
use evtx.Json.Reach.Writes.{update_parent-object}
use evtx.Json.Insert.{
  JsonOutput, insert_node_without_attributes, slot_key, find_slot, move_to_slot, keep_old,
  insert_placeholder, is_null, is_empty_object,
}

Option-cases : {A : Type 0} (o : Option A) → ((a : A) × (o ≡ some a)) ⊎ (o ≡ none)
Option-cases none = inr refl
Option-cases (some a) = inl (a, refl)

-- The number of the slot that a key is the key of.
abbrev slot_number : Str → Str → ℕ
slot_number name key = number 0 (drop (suc (length name)) key)

drop-append : (name : Str) (c : ℕ) (s : Str) → drop (suc (length name)) (name ++ (c ∷ s)) ≡ s
drop-append [] c s = refl
drop-append (n ∷ name) c s = drop-append name c s

slot_number-slot_key : (name : Str) (n : ℕ) → slot_number name (slot_key name n) ≡ n
unfolding slot_key
slot_number-slot_key name n =
    ap (λ s. number 0 s) (drop-append name b'_' (decimal n)) ∙ number-decimal n

numbers-Has :
    (name key : Str) (keys : List Str)
    → IsAmong key keys
    → Has (slot_number name key) (map (slot_number name) keys)
numbers-Has name key [] h = absurd h
numbers-Has name key (k ∷ keys) (inl e) = inl (ap (slot_number name) (str_eq→eq k key e))
numbers-Has name key (k ∷ keys) (inr h) = inr (numbers-Has name key keys h)

length-map : (g : Str → ℕ) (keys : List Str) → length (map g keys) ≡ length keys
length-map g [] = refl
length-map g (k ∷ keys) = ap suc (length-map g keys)

module _ ⦃x : Crates⦄ ⦃j : SerdeJson⦄ where
  -- A probe that runs out of its fuel has found every slot taken.
  all_taken :
      (fuel : ℕ) (m : j.Map) (name : Str) (n i : ℕ)
      → find_slot fuel m name n ≡ stuck
      → n ≤ i
      → i < n + fuel
      → (v : j.Value) × (j.get m (slot_key name i) ≡ some v)
  unfolding find_slot
  all_taken zero m name n i h p q = absurd (omega arith)
  all_taken (suc fuel) m name n i h p q = elim (Option-cases (j.get m (slot_key name n))) [
    | inr e ↦ let h' : ok n ≡ stuck = rw (e, find_slot) at h in absurd cc
    | inl (v, e) ↦ elim (dec_lt n i) [
      | no l ↦
          let d : n ≡ i = omega arith in (v, subst (λ k. j.get m (slot_key name k) ≡ some v) d e)
      | yes l ↦
          let h' : find_slot fuel m name (n + 1) ≡ stuck = rw (e, find_slot) at h in
          all_taken fuel m name (n + 1) i h' (omega arith) (omega arith)
    ]
  ]

  probe_ends : (m : j.Map) (name : Str) → find_slot (suc (length (j.keys m))) m name 1 ≢ stuck
  probe_ends m name h =
      let numbers : List ℕ = map (slot_number name) (j.keys m) in
      let r : suc (length (j.keys m)) ≤ length numbers =
        range-length 1 (suc (length (j.keys m))) numbers λ i p q.
          let (v, e) = all_taken (suc (length (j.keys m))) m name 1 i h p q in
          subst (λ k. Has k numbers) (slot_number-slot_key name i)
            (numbers-Has name (slot_key name i) (j.keys m)
              (j.keys_complete m (slot_key name i) v e)) in
      absurd (omega (arith, length-map (slot_number name) (j.keys m)))

  -- It gives a slot that is free.
  probe_free :
      (fuel : ℕ) (m : j.Map) (name : Str) (n : ℕ)
      → find_slot fuel m name n ≢ stuck
      → (i : ℕ) × (find_slot fuel m name n ≡ ok i) × (j.get m (slot_key name i) ≡ none)
  unfolding find_slot
  probe_free zero m name n h = absurd (h refl)
  probe_free (suc fuel) m name n h = elim (Option-cases (j.get m (slot_key name n))) [
    | inr e ↦ (n, rw (e, find_slot) refl, e)
    | inl (v, e) ↦
        let h' : find_slot fuel m name (n + 1) ≢ stuck = rw (e, find_slot) at h in
        let (i, g, k) = probe_free fuel m name (n + 1) h' in (i, rw (e, find_slot, g) refl, k)
  ]

  move_to_slot-ok :
      (m : j.Map) (name : Str) (v : j.Value)
      → (i : ℕ) × (move_to_slot m name v ≡ ok (j.insert m (slot_key name i) v))
        × (j.get m (slot_key name i) ≡ none)
  unfolding move_to_slot
  move_to_slot-ok m name v =
      let (i, g, k) = probe_free (suc (length (j.keys m))) m name 1 (probe_ends m name) in
      (i, rw g refl, k)

  -- What an insertion of the name owes to the map before it.
  pub record Keeps (name : Str) (m m' : j.Map) : Type 0 where
    pub null_there : j.get m' name ≡ some json_null
    pub others :
        (k : Str) (u : j.Value) → str_eq name k ≡ false → j.get m k ≡ some u → j.get m' k ≡ some u
    pub moved :
        (v : j.Value)
        → j.get m name ≡ some v
        → is_null v ≡ false
        → is_empty_object v ≡ false
        → (i : ℕ) × (j.get m' (slot_key name i) ≡ some v)

  get_same : (m : j.Map) (k : Str) (v : j.Value) → j.get (j.insert m k v) k ≡ some v
  get_same m k v = rw (j.get-insert m k k v, str_eq_refl k)

  get_other :
      (m : j.Map) (k l : Str) (v : j.Value)
      → str_eq k l ≡ false
      → j.get (j.insert m k v) l ≡ j.get m l
  get_other m k l v h = rw (j.get-insert m k l v, h)

  kept_other :
      (m : j.Map) (k l : Str) (v u : j.Value)
      → str_eq k l ≡ false
      → j.get m l ≡ some u
      → j.get (j.insert m k v) l ≡ some u
  kept_other m k l v u h e = rw (get_other m k l v h, e)

  -- An entry is kept by an insertion at a key that is not there.
  kept_new :
      (m : j.Map) (k l : Str) (v u : j.Value)
      → j.get m k ≡ none
      → j.get m l ≡ some u
      → j.get (j.insert m k v) l ≡ some u
  kept_new m k l v u n e = elim (Bool-cases (str_eq k l)) [
    | inr d ↦ kept_other m k l v u d e
    | inl d ↦ let s : k ≡ l = str_eq→eq k l d in let z : j.get m k ≡ some u = rw (s, e) in absurd cc
  ]

  placeholder_Keeps :
      (name : Str) (m : j.Map) (o : Option j.Value)
      → j.get m name ≡ o
      → (m' : j.Map) × (keep_old (j.insert m name json_null) name o ≡ ok m') × Keeps name m m'
  placeholder_Keeps name m none e = (
    j.insert m name json_null,
    refl,
    record {
      null_there = get_same m name json_null;
      others = λ k u d h. kept_other m name k json_null u d h;
      moved = λ v h n g. absurd cc;
    },
  )
  placeholder_Keeps name m (some old) e = elim (Bool-cases (is_null old)) [
    | inl n ↦ (
      j.insert m name json_null,
      rw n refl,
      record {
        null_there = get_same m name json_null;
        others = λ k u d h. kept_other m name k json_null u d h;
        moved = λ v h z g. let s : v ≡ old = cc in absurd cc;
      },
    )
    | inr n ↦ elim (Bool-cases (is_empty_object old)) [
      | inl n' ↦ (
        j.insert m name json_null,
        rw (n, n') refl,
        record {
          null_there = get_same m name json_null;
          others = λ k u d h. kept_other m name k json_null u d h;
          moved = λ v h z g. let s : v ≡ old = cc in absurd cc;
        },
      )
      | inr n' ↦
          let c : j.Map = j.insert m name json_null in
          let (i, g, free) = move_to_slot-ok c name old in
          (
            j.insert c (slot_key name i) old,
            rw (n, n', g) refl,
            record {
              null_there =
                  kept_new c (slot_key name i) name old json_null free (get_same m name json_null);
              others = λ k u d h.
                  kept_new c (slot_key name i) k old u free (kept_other m name k json_null u d h);
              moved =
                  λ v h z g. let s : old ≡ v = cc in (i, rw (get_same c (slot_key name i) old, s));
            },
          )
    ]
  ]

-- Whatever the map and the name, `insert_placeholder` succeeds: its probe for a free slot ends. The name
-- then holds a null, every other key that held a value holds it still, and a value of the name
-- that is neither null nor an empty object is held under a numbered key of the name.
pub insert_placeholder-Keeps :
    ⦃x : Crates⦄ ⦃j : SerdeJson⦄ (name : Str) (m : j.Map)
    → (m' : j.Map) × (insert_placeholder name m ≡ ok m') × Keeps name m m'
unfolding insert_placeholder
insert_placeholder-Keeps ⦃j = j⦄ name m = placeholder_Keeps name m (j.get m name) refl

-- Whatever the output's document and keys and whatever the name, `insert_node_without_attributes`
-- succeeds, and pushes the name: no error, no panic and no endless probe.
pub insert_node_without_attributes-ok :
    ⦃x : Crates⦄ ⦃j : SerdeJson⦄ (name : Str) (out : JsonOutput)
    → (document : j.Value) × (insert_node_without_attributes name out
        ≡ ok (record out { document = document; stack = out.stack ++ (name ∷ []) }))
unfolding insert_node_without_attributes
insert_node_without_attributes-ok name out =
    let (document, e) =
      update_parent-object out.stack name (insert_placeholder name) out.document
        λ m. let (m', g, k) = insert_placeholder-Keeps name m in (m', g) in
    (document, rw e refl)
