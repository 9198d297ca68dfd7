-- ===== src/Serde.antt =====
-- serde_json's `Value` and `Map`, as the parameter of the JSON output. `view` and `of_view` read and
-- build the enum; the laws of a map are those of its documentation.
use evtx.Base.{
  ℕ, List, [], ◌∷◌, Str, Option, none, some, Bool, true, ◌≡◌, ◌⊎◌, ◌↔◌, str_eq, if◌then◌else◌,
}
use evtx.Base.Int.{ℤ}
use evtx.Crates.{Crates}

-- The variants of `serde_json::Value`.
pub data View (Value Map Number : Type 0) : Type 0 where
  null : View Value Map Number
  bool : Bool → View Value Map Number
  number : Number → View Value Map Number
  string : Str → View Value Map Number
  array : List Value → View Value Map Number
  object : Map → View Value Map Number

-- The key is one of the list.
abbrev pub IsAmong : Str → List Str → Type 0
IsAmong k [] = ⊥
IsAmong k (j ∷ js) = (str_eq j k ≡ true) ⊎ IsAmong k js

pub record SerdeJson ⦃x : Crates⦄ : Type 1 where
  pub Value : Type 0
  pub Map : Type 0
  pub Number : Type 0
  pub view : Value → View Value Map Number
  pub of_view : View Value Map Number → Value
  pub view-of_view : (w : View Value Map Number) → view (of_view w) ≡ w
  -- `json!` of numbers and of a `DateTime`.
  pub of_uint : ℕ → Number
  pub of_int : ℤ → Number
  pub json_f32 : ℕ → Value
  pub json_f64 : ℕ → Value
  pub json_datetime : x.DateTime → Value
  -- `Map::new`, `get`, `insert`, `remove`, `is_empty` and `keys`.
  pub new : Map
  pub get : Map → Str → Option Value
  pub insert : Map → Str → Value → Map
  pub remove : Map → Str → Map
  pub is_empty : Map → Bool
  pub keys : Map → List Str
  pub get-new : (k : Str) → get new k ≡ none
  pub get-insert :
      (m : Map) (k j : Str) (v : Value)
      → get (insert m k v) j ≡ (if str_eq k j then some v else get m j)
  pub get-remove :
      (m : Map) (k j : Str) → get (remove m k) j ≡ (if str_eq k j then none else get m j)
  pub is_empty_iff : (m : Map) → (is_empty m ≡ true) ↔ ((k : Str) → get m k ≡ none)
  pub keys_complete : (m : Map) (k : Str) (v : Value) → get m k ≡ some v → IsAmong k (keys m)

-- `to_string` and `to_string_pretty` of a value; `none` is an error.
pub record SerdePrint ⦃x : Crates⦄ ⦃j : SerdeJson⦄ : Type 0 where
  pub to_string : j.Value → Option Str
  pub to_string_pretty : j.Value → Option Str
