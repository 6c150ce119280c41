-- ===== src/Config/Overrides.antt =====
-- python/ramulator/pimscope/config.py: `apply_overrides`, with `json.loads` as a parameter.
pub mod Laws
pub mod Parsed
use Prim.Native.Char.{Char, code}
use ramulator.Prelude.{
  ℕ, String, Bool, true, false, not, Option, none, some, List, [], ◌∷◌, Result, ok, err,
  value_error, ◌>>=◌, str_eq, ◌==◌, if◌then◌else◌,
}
use ramulator.PyValue.{
  Value, Fields, end, field, null, bool, int, float, str, arr, obj, get, insert,
}

-- `text.split(c, 1)`, `none` where `c` is not in the text.
pub split_once : ℕ → String → Option (String × String)
split_once c String.[] = none
split_once c (String.◌∷◌ d s) =
    let rest = split_once c s in
    if code d == c
    then some (String.[], s)
    else elim rest [ none ↦ none | some (a, b) ↦ some (String.◌∷◌ d a, b) ]

push_char : Char → List String → List String
push_char d [] = String.◌∷◌ d String.[] ∷ []
push_char d (part ∷ parts) = String.◌∷◌ d part ∷ parts

-- `text.split(c)`
pub split : ℕ → String → List String
unfolding push_char
split c String.[] = String.[] ∷ []
split c (String.◌∷◌ d s) =
    let parts = split c s in if code d == c then String.[] ∷ parts else push_char d parts

-- `[key for key in keys if key]`
pub nonempty : List String → List String
nonempty [] = []
nonempty (String.[] ∷ keys) = nonempty keys
nonempty (String.◌∷◌ c s ∷ keys) = String.◌∷◌ c s ∷ nonempty keys

-- A key, the keys behind it, and the value.
abbrev pub Override : Type 0
Override = String × List String × Value

first_key : List String → Value → Result Override
first_key [] v = err (value_error "override path is empty")
first_key (k ∷ ks) v = ok (k, ks, v)

-- A text that is no JSON stands for itself.
pub loaded : Option Value → String → Value
loaded none text = str text
loaded (some v) text = v

parse_parts : (String → Option Value) → Option (String × String) → Result Override
unfolding split nonempty first_key loaded
parse_parts loads none = err (value_error "override must use dotted.path=value syntax")
parse_parts loads (some (dotted, encoded)) =
    first_key (nonempty (split b'.' dotted)) (loaded (loads encoded) encoded)

unfoldable pub parse_override : (String → Option Value) → String → Result Override
unfolding split_once parse_parts
parse_override loads override = parse_parts loads (split_once b'=' override)

-- `cursor[key]` for a cursor to move into, made if it is missing or null.
pub child : Option Value → Result Fields
child none = ok end
child (some null) = ok end
child (some (obj d)) = ok d
child (some _) = err (value_error "override path crosses non-object field")

-- The walk of the cursor along the keys, and the write at the last one.
pub set_path : String → List String → Value → Fields → Result Fields
unfolding child
set_path k [] v d = ok (insert k v d)
set_path k (j ∷ ks) v d = do
  below ← child (get k d)
  below' ← set_path j ks v below
  ok (insert k (obj below') d)

unfoldable pub apply_override : (String → Option Value) → Fields → String → Result Fields
unfolding parse_override set_path
apply_override loads d override = parse_override loads override >>= λ (k, ks, v). set_path k ks v d

unfoldable pub apply_overrides : (String → Option Value) → Fields → List String → Result Fields
unfolding apply_override
apply_overrides loads d [] = ok d
apply_overrides loads d (override ∷ overrides) =
    apply_override loads d override >>= λ d'. apply_overrides loads d' overrides
