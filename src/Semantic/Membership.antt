-- ===== src/Semantic/Membership.antt =====
-- What Python's `in`, `<=` and comprehension tests make of a JSON value in
-- python/ramulator/workload_surrogate/structured_trace.py.
pub mod Laws
use ramulator.Prelude.{
  ℕ, String, Bool, true, false, not, ◌&&◌, ◌||◌, Option, none, some, List, [], ◌∷◌, ◌++◌, any, all,
  Result, Checked, ok, err, type_error, value_error, raise_if, ◌>>=◌, ◌>>◌, str_eq, ◌==◌,
  if◌then◌else◌,
}
use ramulator.Prelude.Int.{ℤ, pos, negsuc, is_positive}
use ramulator.PyValue.{
  Value, Fields, Items, null, bool, int, float, str, arr, obj, nil, cons, dyadic, infinity, nan,
  has, get, keys, contains, equals_text, elements, codes, index,
}

-- `value <= 0`, with `true` for 1.
unfoldable pub le_zero : Value → Result Bool
le_zero (int z) = ok (not (is_positive z))
le_zero (bool b) = ok (not b)
le_zero (float (dyadic z k)) = ok (not (is_positive z))
le_zero (float (infinity b)) = ok (not b)
le_zero (float nan) = ok false
le_zero _ = err type_error

-- `value in s` for a set of texts, which hashes the value.
unfoldable pub in_texts : Value → List String → Result Bool
in_texts (str t) texts = ok (contains t texts)
in_texts (arr vs) texts = err type_error
in_texts (obj d) texts = err type_error
in_texts _ texts = ok false

prefix_of : List ℕ → List ℕ → Bool
prefix_of [] cs = true
prefix_of (p ∷ ps) [] = false
prefix_of (p ∷ ps) (c ∷ cs) = p == c && prefix_of ps cs

has_infix : List ℕ → List ℕ → Bool
unfolding prefix_of
has_infix ps [] = prefix_of ps []
has_infix ps (c ∷ cs) = prefix_of ps (c ∷ cs) || has_infix ps cs

-- `part in text`
unfoldable pub is_infix : String → String → Bool
unfolding has_infix
is_infix part text = has_infix (codes part) (codes text)

same_codes : List ℕ → List ℕ → Bool
same_codes [] [] = true
same_codes (a ∷ cs) (b ∷ ds) = a == b && same_codes cs ds
same_codes _ _ = false

has_suffix : List ℕ → List ℕ → Bool
unfolding same_codes
has_suffix ps [] = same_codes ps []
has_suffix ps (c ∷ cs) = same_codes ps (c ∷ cs) || has_suffix ps cs

-- `text.endswith(part)`
unfoldable pub is_suffix : String → String → Bool
unfolding has_suffix
is_suffix part text = has_suffix (codes part) (codes text)

-- `text in value`
unfoldable pub holds_text : String → Value → Result Bool
unfolding is_infix
holds_text t (arr vs) = ok (any (equals_text t) (elements vs))
holds_text t (str s) = ok (is_infix t s)
holds_text t (obj d) = ok (has t d)
holds_text t _ = err type_error

-- `for field in fields: if field not in d: raise ValueError(message)`
abbrev pub require : List String → Fields → String → Checked
require [] d message = ok tt
require (k ∷ ks) d message = raise_if (not (has k d)) message >> require ks d message

-- `d[k]`, which has to be a dictionary.
unfoldable pub map_of : Value → Result Fields
map_of (obj d) = ok d
map_of _ = err (value_error "must be a map")

abbrev pub map_entry : String → Fields → Result Fields
map_entry k d = index k d >>= map_of

list_of : Option Value → Result (List Value)
list_of (some (arr vs)) = ok (elements vs)
list_of _ = err (value_error "must be a list")

-- `d[k]`, which has to be a list.
unfoldable pub list_entry : String → Fields → Result (List Value)
unfolding list_of
list_entry k d = list_of (get k d)

abbrev pub is_text_value : Value → Bool
is_text_value (str s) = true
is_text_value _ = false
