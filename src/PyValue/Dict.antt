-- ===== src/PyValue/Dict.antt =====
-- The values, and dictionaries in insertion order.
use ramulator.PyValue.Text.{parse_int}
use ramulator.Prelude.{
  ℕ, suc, ◌/◌, ◌^◌, String, Bool, true, false, Option, none, some, List, [], ◌∷◌, Result, ok, err,
  Error, value_error, type_error, key_error, str_eq, if◌then◌else◌,
}
use ramulator.Prelude.Int.{ℤ, pos, negsuc, sub_ℕ}

-- A finite `float` is a dyadic rational, m / 2 ^ k; `infinity true` is the positive one.
pub data Float : Type 0 where
  dyadic : ℤ → ℕ → Float
  infinity : Bool → Float
  nan : Float

-- A `field` is an entry whose key is a text, and `keyed` one with another key, as YAML allows.
-- `List Value` and `dict` inside `Value` are the block's own lists.
mutual
  pub data Value : Type 0 where
    null : Value
    bool : Bool → Value
    int : ℤ → Value
    float : Float → Value
    str : String → Value
    arr : Items → Value
    obj : Fields → Value

  pub data Fields : Type 0 where
    end : Fields
    field : String → Value → Fields → Fields
    keyed : Value → Value → Fields → Fields

  pub data Items : Type 0 where
    nil : Items
    cons : Value → Items → Items

abbrev pub elements : Items → List Value
elements nil = []
elements (cons v vs) = v ∷ elements vs

abbrev pub of_list : List Value → Items
of_list [] = nil
of_list (v ∷ vs) = cons v (of_list vs)

-- `d.get(key)` with `none` for a missing key.
unfoldable pub get : String → Fields → Option Value
get k end = none
get k (field j v d) = if str_eq j k then some v else get k d
get k (keyed j v d) = get k d

abbrev pub is_some {ℓ} : {A : Type ℓ} → Option A → Bool
is_some none = false
is_some (some a) = true

-- `key in d`
abbrev pub has : String → Fields → Bool
has k d = is_some (get k d)

-- `d[key]`
abbrev pub index : String → Fields → Result Value
index k d = elim (get k d) [ none ↦ err key_error | some v ↦ ok v ]

-- `d.get(key, default)`
abbrev pub get_or_default : String → Value → Fields → Value
get_or_default k v d = elim (get k d) [ none ↦ v | some w ↦ w ]

-- `d[key] = v`: an old key keeps its place.
unfoldable pub insert : String → Value → Fields → Fields
insert k v end = field k v end
insert k v (field j w d) = if str_eq j k then field j v d else field j w (insert k v d)
insert k v (keyed j w d) = keyed j w (insert k v d)

-- `isinstance(v, int) and not isinstance(v, bool)`, with the number.
abbrev pub as_int : Value → Option ℤ
as_int (int z) = some z
as_int _ = none

-- Python's truth of a value.
abbrev pub truthy : Value → Bool
truthy null = false
truthy (bool b) = b
truthy (int (pos ℕ.zero)) = false
truthy (int _) = true
truthy (float (dyadic (pos ℕ.zero) _)) = false
truthy (float _) = true
truthy (str String.[]) = false
truthy (str _) = true
truthy (arr nil) = false
truthy (arr _) = true
truthy (obj end) = false
truthy (obj _) = true

-- A float without its fraction.
truncate : ℤ → ℕ → ℤ
truncate (pos m) k = pos (m / 2 ^ k)
truncate (negsuc m) k = sub_ℕ 0 (suc m / 2 ^ k)

-- `int(v)`
unfoldable pub to_int : Value → Result ℤ
unfolding truncate
to_int (bool true) = ok (pos 1)
to_int (bool false) = ok (pos 0)
to_int (int z) = ok z
to_int (float (dyadic m k)) = ok (truncate m k)
to_int (float (infinity _)) = err Error.overflow_error
to_int (float nan) = err (value_error "cannot convert float NaN to integer")
to_int (str s) = elim (parse_int s) [
  | none ↦ err (value_error "invalid literal for int() with base 10")
  | some z ↦ ok z
]
to_int _ = err type_error
