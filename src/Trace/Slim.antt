-- ===== src/Trace/Slim.antt =====
-- `slim_record`: the line of a record without what the header or prose carries.
pub mod Idempotent
use ramulator.Prelude.{
  String, Bool, ◌||◌, Option, none, some, Result, ok, err, attribute_error, ◌>>=◌, str_eq,
  if◌then◌else◌,
}
use ramulator.PyValue.{Value, Fields, end, field, keyed, null, obj, get, insert, truthy}

-- `_SLIM_DROP`
abbrev pub is_dropped : String → Bool
is_dropped k =
    str_eq k "schema_version" || str_eq k "record_id" || str_eq k "notes" || str_eq k "provenance"

unfoldable pub drop_constants : Fields → Fields
drop_constants end = end
drop_constants (field k v d) =
    if is_dropped k then drop_constants d else field k v (drop_constants d)
drop_constants (keyed k v d) = keyed k v (drop_constants d)

-- `(record.get("provenance") or {}).get("semantic_source")`
pub semantic_source : Option Value → Result (Option Value)
semantic_source none = ok none
semantic_source (some (obj d)) = ok (get "semantic_source" d)
semantic_source (some v) = if truthy v then err attribute_error else ok none

-- One entry of the comprehension: a key whose value is there and is not `None`.
copy_entry : String → String → Fields → Fields → Fields
copy_entry short full source sem = elim (get full source) [
  | none ↦ sem
  | some v ↦ elim v [ null ↦ sem | w ↦ insert short w sem ]
]

pub compact : Fields → Fields
unfolding copy_entry
compact source = copy_entry "op" "op" source (
    copy_entry "layer" "layer" source
      (copy_entry "kind" "kind" source (copy_entry "id" "record_id" source end)))

pub add_sem : Fields → Fields → Fields
add_sem end slim = slim
add_sem sem slim = insert "sem" (obj sem) slim

pub add_source : Option Value → Fields → Fields
unfolding compact add_sem
add_source (some (obj source)) slim = add_sem (compact source) slim
add_source _ slim = slim

unfoldable pub slim_record : Fields → Result Fields
unfolding drop_constants semantic_source add_source
slim_record r = do
  source ← semantic_source (get "provenance" r)
  ok (add_source source (drop_constants r))
