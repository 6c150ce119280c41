-- ===== src/Semantic/Record.antt =====
-- python/ramulator/workload_surrogate/structured_trace.py: `validate_record`.
pub mod Accepted
use ramulator.Prelude.{
  String, Bool, true, false, not, List, [], ◌∷◌, all, Result, Checked, ok, err, value_error,
  type_error, raise_if, ◌>>=◌, ◌>>◌, if◌then◌else◌,
}
use ramulator.Prelude.Int.{ℤ, pos, ◌+ℤ◌}
use ramulator.PyValue.{Value, Fields, str, has, index, to_int, contains, equals_text}
use ramulator.Semantic.Kinds
use ramulator.Semantic.Membership.{le_zero, in_texts, require}
use ramulator.Semantic.Dataflow.{validate_dataflow}

-- The branches on the kind.
pub validate_kind : String → Fields → Checked
validate_kind kind r =
    if contains kind ("HostRead" ∷ "HostWrite" ∷ [])
    then require Kinds.host_fields r "missing required field"
    else if contains kind ("PIMCompute" ∷ [])
    then require Kinds.pim_compute_fields r "missing required field"
    else if contains kind Kinds.all_bank_record_kinds
    then require Kinds.all_bank_fields r "missing required field"
    else if contains kind ("Barrier" ∷ [])
    then require ("barrier_scope" ∷ []) r "missing required field 'barrier_scope'"
    else if contains kind ("Drain" ∷ [])
    then require ("drain_scope" ∷ []) r "missing required field 'drain_scope'"
    else if contains kind Kinds.transformer_dataflow_record_kinds
    then validate_dataflow kind r
    else ok tt

-- A value that is in a set of texts is one.
pub text_in : Value → List String → Result String
text_in (str t) texts =
    raise_if (not (contains t texts)) "Unsupported Phase 2 semantic record kind" >> ok t
text_in v texts =
    in_texts v texts >>= λ found. err (value_error "Unsupported Phase 2 semantic r kind")

unfoldable pub validate_record : Fields → Checked
unfolding validate_kind text_in
validate_record r = do
  require Kinds.required_common r "Record missing required common fields"
  schema_version ← index "schema_version" r
  raise_if (not (equals_text "v0.1" schema_version)) "Unsupported schema_version"
  value ← index "kind" r
  kind ← text_in value Kinds.semantic_record_kinds
  repeat ← index "repeat" r
  not_positive ← le_zero repeat
  raise_if not_positive "Repeat must be positive"
  validate_kind kind r

-- `sum(int(record["repeat"]) for record in records)`
unfoldable pub expanded_record_count : List Fields → Result ℤ
expanded_record_count [] = ok (pos 0)
expanded_record_count (r ∷ rs) = do
  repeat ← (index "repeat" r >>= to_int)
  rest ← expanded_record_count rs
  ok (repeat +ℤ rest)
