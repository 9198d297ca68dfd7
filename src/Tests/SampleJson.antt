-- ===== src/Tests/SampleJson.antt =====
-- A stand-in for serde_json: its `Value` as data, and a map as its entries in order.
use evtx.Base.{
  ◌≡◌, refl, ap, List, [], ◌∷◌, Option, none, some, Bool, true, false, Str, str_eq, str_eq_refl,
  str_eq→eq, if◌then◌else◌, Bool-cases, inl, inr, ◌↔◌, arith,
}
use evtx.Base.Int.{ℤ, pos}
use evtx.Formats.{Formats}
use evtx.Serde.{View, IsAmong, SerdeJson}
use evtx.Tests.Sample.{sample_crates}

mutual
  pub data Json : Type 0 where
    null : Json
    bool : Bool → Json
    number : ℤ → Json
    string : Str → Json
    array : Jsons → Json
    object : Entries → Json

  pub data Jsons : Type 0 where
    no_jsons : Jsons
    one_more : Json → Jsons → Jsons

  pub data Entries : Type 0 where
    no_entries : Entries
    entry : Str → Json → Entries → Entries

abbrev pub to_list : Jsons → List Json
to_list no_jsons = []
to_list (one_more v vs) = v ∷ to_list vs

abbrev pub of_list : List Json → Jsons
of_list [] = no_jsons
of_list (v ∷ vs) = one_more v (of_list vs)

to_list-of_list : (vs : List Json) → to_list (of_list vs) ≡ vs
to_list-of_list [] = refl
to_list-of_list (v ∷ vs) = ap (λ us. v ∷ us) (to_list-of_list vs)

abbrev pub view : Json → View Json Entries ℤ
view null = View.null
view (bool b) = View.bool b
view (number n) = View.number n
view (string s) = View.string s
view (array vs) = View.array (to_list vs)
view (object m) = View.object m

abbrev pub of_view : View Json Entries ℤ → Json
of_view View.null = null
of_view (View.bool b) = bool b
of_view (View.number n) = number n
of_view (View.string s) = string s
of_view (View.array vs) = array (of_list vs)
of_view (View.object m) = object m

pub view-of_view : (w : View Json Entries ℤ) → view (of_view w) ≡ w
view-of_view View.null = refl
view-of_view (View.bool b) = refl
view-of_view (View.number n) = refl
view-of_view (View.string s) = refl
view-of_view (View.array vs) = ap View.array (to_list-of_list vs)
view-of_view (View.object m) = refl

abbrev pub get : Entries → Str → Option Json
get no_entries k = none
get (entry j v m) k = if str_eq j k then some v else get m k

abbrev pub insert : Entries → Str → Json → Entries
insert no_entries k v = entry k v no_entries
insert (entry j w m) k v = if str_eq j k then entry k v m else entry j w (insert m k v)

abbrev pub remove : Entries → Str → Entries
remove no_entries k = no_entries
remove (entry j w m) k = let rest = remove m k in if str_eq j k then rest else entry j w rest

abbrev pub is_empty : Entries → Bool
is_empty no_entries = true
is_empty (entry j w m) = false

abbrev pub keys : Entries → List Str
keys no_entries = []
keys (entry j w m) = j ∷ keys m

-- A key that is another's is not the key of a third.
apart : (i k j : Str) → str_eq i k ≡ false → str_eq i j ≡ true → str_eq k j ≡ false
apart i k j e g = elim (Bool-cases (str_eq k j)) [
  | inl h ↦
      let f : i ≡ j = str_eq→eq i j g in
      let f' : k ≡ j = str_eq→eq k j h in
      let z : str_eq i k ≡ true = rw (f, f', str_eq_refl j) in ground arith
  | inr h ↦ h
]

pub get-insert :
    (m : Entries) (k j : Str) (v : Json)
    → get (insert m k v) j ≡ (if str_eq k j then some v else get m j)
get-insert no_entries k j v = refl
get-insert (entry i w m) k j v = elim (Bool-cases (str_eq i k)) [
  | inl e ↦ let f : i ≡ k = str_eq→eq i k e in ground (arith, ap (λ l. str_eq l j) f)
  | inr e ↦ elim (Bool-cases (str_eq i j)) [
    | inl g ↦ let z : str_eq k j ≡ false = apart i k j e g in ground arith
    | inr g ↦ ground (arith, get-insert m k j v)
  ]
]

pub get-remove :
    (m : Entries) (k j : Str) → get (remove m k) j ≡ (if str_eq k j then none else get m j)
get-remove no_entries k j = ground arith
get-remove (entry i w m) k j = elim (Bool-cases (str_eq i k)) [
  | inl e ↦
      let f : i ≡ k = str_eq→eq i k e in ground (arith, ap (λ l. str_eq l j) f, get-remove m k j)
  | inr e ↦ elim (Bool-cases (str_eq i j)) [
    | inl g ↦ let z : str_eq k j ≡ false = apart i k j e g in ground arith
    | inr g ↦ ground (arith, get-remove m k j)
  ]
]

pub is_empty_iff : (m : Entries) → (is_empty m ≡ true) ↔ ((k : Str) → get m k ≡ none)
is_empty_iff no_entries = (λ h k. refl, λ h. refl)
is_empty_iff (entry j w m) = (λ h. ground arith, λ h. ground (arith, h j, str_eq_refl j))

pub keys_complete : (m : Entries) (k : Str) (v : Json) → get m k ≡ some v → IsAmong k (keys m)
keys_complete no_entries k v h = ground arith
keys_complete (entry j w m) k v h = elim (Bool-cases (str_eq j k)) [
  | inl e ↦ inl e
  | inr e ↦ inr (keys_complete m k v (ground arith))
]

instance abbrev pub sample_json : SerdeJson
sample_json = record {
  Value = Json;
  Map = Entries;
  Number = ℤ;
  view = view;
  of_view = of_view;
  view-of_view = view-of_view;
  of_uint = pos;
  of_int = λ n. n;
  json_f32 = λ n. number (pos n);
  json_f64 = λ n. number (pos n);
  json_datetime = string;
  new = no_entries;
  get = get;
  insert = insert;
  remove = remove;
  is_empty = is_empty;
  keys = keys;
  get-new = λ k. refl;
  get-insert = get-insert;
  get-remove = get-remove;
  is_empty_iff = is_empty_iff;
  keys_complete = keys_complete;
}

instance abbrev pub sample_formats : Formats
sample_formats = record {
  guid_to_string = λ g. g;
  sid_to_string = λ s. s;
  format_datetime = λ t. t;
  datetime_to_string = λ t. t;
  f32_to_string = λ n. n ∷ [];
  f64_to_string = λ n. n ∷ [];
  unescape = λ s. some s;
}
