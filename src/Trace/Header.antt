-- ===== src/Trace/Header.antt =====
-- `build_header` and `validate_header`.
pub mod Accepted
use ramulator.Prelude.{
  String, Bool, false, not, Option, none, some, Result, Checked, ok, err, value_error, type_error,
  raise_if, ◌>>=◌, ◌>>◌, str_eq, if◌then◌else◌,
}
use ramulator.PyValue.{Value, Fields, end, field, str, arr, obj, has, get, index}

-- `CONCRETE_SCHEMA_VERSIONS`
unfoldable pub schema_version_of : String → Option String
schema_version_of c =
    if str_eq c "LPDDR5PIM"
    then some "lpddr5-pim-opcode-v0.2"
    else if str_eq c "LPDDR6PIM"
    then some "lpddr6-pim-opcode-v0.1"
    else none

abbrev pub is_text : String → Option Value → Bool
is_text s (some (str t)) = str_eq t s
is_text s _ = false

-- The schema version that goes with a value for `dram_class`.
pub schema_for : Value → Result (String × String)
schema_for (str c) = elim (schema_version_of c) [
  | none ↦ err (value_error "Unsupported concrete opcode dram_class")
  | some v ↦ ok (c, v)
]
schema_for (arr _) = err type_error
schema_for (obj _) = err type_error
schema_for _ = err (value_error "Unsupported concrete opcode dram_class")

abbrev pub is_other : String → Option String → Bool
is_other c none = false
is_other c (some e) = not (str_eq c e)

unfoldable pub validate_header : Value → Option String → Checked
unfolding schema_for
validate_header (obj header) expected = do
  raise_if (not (has "dram_class" header))
      "Concrete opcode trace header missing required field: dram_class"
  raise_if (not (has "schema_version" header))
      "Concrete opcode trace header missing required field: schema_version"
  (dram_class, schema) ← (index "dram_class" header >>= schema_for)
  raise_if (is_other dram_class expected)
      "Concrete opcode dram_class does not match expected backend"
  raise_if (not (is_text schema (get "schema_version" header)))
      "Unsupported concrete opcode schema_version"
validate_header _ expected = err (value_error "Concrete opcode trace header must be a JSON object")

unfoldable pub build_header : String → Result Fields
unfolding validate_header
build_header dram_class = elim (schema_version_of dram_class) [
  | none ↦ err (value_error "Unsupported PIM trace backend")
  | some schema ↦
      let header = field "schema_version" (str schema) (field "dram_class" (str dram_class) end) in
      (validate_header (obj header) (some dram_class) >> ok header)
]
