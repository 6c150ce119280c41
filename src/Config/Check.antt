-- ===== src/Config/Check.antt =====
-- python/ramulator/pimscope/config.py: the checks of one value.
pub mod Laws
pub mod Raises
use Prim.Native.String.{◌++◌ as str_append}
use ramulator.Prelude.{
  ℕ, zero, suc, String, Bool, true, false, not, Option, none, some, List, [], ◌∷◌, Result, Checked,
  ok, err, value_error, type_error, raise_if, ◌>>=◌, ◌>>◌, discard, any, str_eq, if◌then◌else◌,
}
use ramulator.Prelude.Int.{ℤ, pos, negsuc}
use ramulator.PyValue.{
  Value, Fields, end, null, bool, int, float, str, arr, obj, dyadic, infinity, nan, get, index, has,
  keys, has_other_key, contains, is_blank_text, truthy, equals_text, equals_nat,
}

-- `_fail(path, message)`
abbrev pub fail {ℓ} : {A : Type ℓ} → String → String → Result A
fail path message = err (value_error (str_append path (str_append ": " message)))

-- The messages are the source's without the values they show; a path is the field's name.
-- `if b: _fail(path, message)`
unfoldable pub fail_if : Bool → String → String → Checked
fail_if b path message = raise_if b (str_append path (str_append ": " message))

unfoldable pub expect_mapping : Value → String → Result Fields
expect_mapping (obj d) path = ok d
expect_mapping _ path = fail path "must be an object"

-- `raw or {}`
abbrev pub or_empty : Value → Value
or_empty v = if truthy v then v else obj end

-- A key that is not a text is unknown, and `', '.join` raises for it.
unfoldable pub reject_unknown : Fields → List String → String → Checked
reject_unknown d allowed path =
    if has_other_key d
    then err type_error
    else fail_if (any (λ k. not (contains k allowed)) (keys d)) path "unknown field(s)"

unfoldable pub positive_int : Value → String → Result ℕ
positive_int (int (pos (suc n))) path = ok (suc n)
positive_int _ path = fail path "must be a positive integer"

unfoldable pub nonnegative_int : Value → String → Result ℕ
nonnegative_int (int (pos n)) path = ok n
nonnegative_int _ path = fail path "must be a non-negative integer"

-- `value < 0` is false for NaN.
unfoldable pub nonnegative_number : Value → String → Checked
nonnegative_number (int (pos n)) path = ok tt
nonnegative_number (float (dyadic (pos m) k)) path = ok tt
nonnegative_number (float (infinity true)) path = ok tt
nonnegative_number (float nan) path = ok tt
nonnegative_number _ path = fail path "must be a non-negative number"

choose : String → List String → String → Result String
choose s choices path = if contains s choices then ok s else fail path "must be one of the choices"

unfoldable pub choice : Value → List String → String → Result String
unfolding choose
choice (str s) choices path = choose s choices path
choice _ choices path = fail path "must be one of the choices"

-- `not isinstance(value, str) or not value.strip()`
unfoldable pub nonempty_text : Value → String → Checked
nonempty_text (str s) path = fail_if (is_blank_text s) path "must be a non-empty string"
nonempty_text _ path = fail path "must be a non-empty string"

-- `if field in d:` before a check of `d[field]`.
abbrev pub check_if_present : (Value → String → Checked) → String → Fields → Checked
check_if_present check k d = elim (get k d) [ none ↦ ok tt | some v ↦ check v k ]

-- A check of `d[field]`.
abbrev pub check_at : (Value → String → Checked) → String → Fields → Checked
check_at check k d = index k d >>= λ v. check v k

-- `d[k]`, which has to be a positive integer.
abbrev pub positive_entry : String → Fields → Result ℕ
positive_entry k d = index k d >>= λ v. positive_int v k

abbrev pub choice_entry : String → List String → Fields → Result String
choice_entry k choices d = index k d >>= λ v. choice v choices k

abbrev pub is_positive_int : Value → String → Checked
is_positive_int v path = discard (positive_int v path)

abbrev pub is_nonnegative_int : Value → String → Checked
is_nonnegative_int v path = discard (nonnegative_int v path)

abbrev pub is_choice : List String → Value → String → Checked
is_choice choices v path = discard (choice v choices path)

abbrev pub is_mapping : Value → String → Checked
is_mapping v path = discard (expect_mapping v path)

-- `d[k] == text`, for a key that is there.
abbrev pub entry_is : String → String → Fields → Bool
entry_is k s d = elim (get k d) [ none ↦ false | some v ↦ equals_text s v ]

-- `d[k] == n`, for a key that is there.
abbrev pub entry_is_nat : String → ℕ → Fields → Bool
entry_is_nat k n d = elim (get k d) [ none ↦ false | some v ↦ equals_nat n v ]

-- `for field in fields:` with a check in the body.
abbrev pub each : (String → Checked) → List String → Checked
each check [] = ok tt
each check (k ∷ ks) = check k >> each check ks
