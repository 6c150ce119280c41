-- ===== src/Semantic/Dataflow.antt =====
-- python/ramulator/workload_surrogate/structured_trace.py: `_validate_transformer_dataflow_record` and
-- the validators below it.
pub mod Accepted
use ramulator.Prelude.{
  String, Bool, true, false, not, List, [], ◌∷◌, ◌++◌, all, Result, Checked, ok, err, value_error,
  raise_if, ◌>>=◌, ◌>>◌, if◌then◌else◌,
}
use ramulator.Prelude.Int.{ℤ, is_positive}
use ramulator.PyValue.{
  Value, Fields, arr, nil, get, get_or_default, index, to_int, contains, equals_text,
}
use ramulator.Semantic.Kinds
use ramulator.Semantic.Membership.{
  in_texts, holds_text, require, map_entry, list_entry, is_text_value,
}

-- `for claim in claims: if claim not in listed: raise ...`
pub claims_listed : List String → Value → Checked
claims_listed [] listed = ok tt
claims_listed (claim ∷ claims) listed = do
  found ← holds_text claim listed
  raise_if (not found) "provenance misses a claim"
  claims_listed claims listed

-- `int(record[k]) <= 0` raises.
abbrev pub positive_field : String → Fields → Checked
positive_field k r = index k r >>= to_int >>= λ z. raise_if (not (is_positive z)) "must be positive"

family_is : Value → Checked
family_is family =
    raise_if (not (equals_text Kinds.required_p4_record_family family))
      "operator_context.record_family is not the required one"

abbrev pub context_required : List String
context_required = "operator_family" ∷ "stage" ∷ "record_family" ∷ []

-- The checks behind those of the dependencies.
validate_context : Fields → List Value → Checked
unfolding claims_listed family_is
validate_context r tensors = do
  context ← map_entry "operator_context" r
  require context_required context "operator_context missing required field"
  (index "record_family" context >>= family_is)
  provenance ← map_entry "provenance" r
  claims_listed Kinds.required_p4_claim_boundary
      (get_or_default "claim_boundary" (arr nil) provenance)
  claims_listed Kinds.required_p4_non_claims (get_or_default "non_claims" (arr nil) provenance)
  residency ← map_entry "residency" r
  raise_if (not (all is_text_value tensors)) "tensor_io entries must be strings"

pub validate_metadata : Fields → Checked
unfolding validate_context
validate_metadata r = do
  require Kinds.metadata_fields r "missing required transformer dataflow field"
  tensor_io ← map_entry "tensor_io" r
  inputs ← list_entry "inputs" tensor_io
  outputs ← list_entry "outputs" tensor_io
  dependencies ← list_entry "logical_dependencies" r
  raise_if (not (all is_text_value dependencies)) "logical_dependencies entries must be strings"
  validate_context r (inputs ++ outputs)

is_empty : List Value → Bool
is_empty [] = true
is_empty (v ∷ vs) = false

pub validate_compute : Fields → Checked
unfolding is_empty
validate_compute r = do
  require Kinds.compute_fields r "missing required compute field"
  positive_field "num_requests" r
  bank_sequence ← list_entry "bank_sequence" r
  raise_if (is_empty bank_sequence) "bank_sequence must be a non-empty list"
  positive_field "burst_length" r
  compute_shape ← map_entry "compute_shape" r
  require Kinds.shape_fields compute_shape "compute_shape missing required field"

pub validate_data_move : Fields → Checked
validate_data_move r = do
  require Kinds.data_move_fields r "PIMDataMove missing required movement field"
  positive_field "num_requests" r
  movement_policy ← map_entry "movement_policy" r
  require ("movement_kind" ∷ []) movement_policy "movement_policy missing required field"
  movement_kind ← index "movement_kind" movement_policy
  known ← in_texts movement_kind Kinds.valid_movement_kinds
  raise_if (not known) "movement_policy.movement_kind is not a recognized movement kind"

pub validate_accounting : Fields → Checked
validate_accounting r = do
  require ("accounting_metadata" ∷ []) r "missing required field 'accounting_metadata'"
  metadata ← map_entry "accounting_metadata" r
  ok tt

pub validate_operator : String → Fields → Checked
validate_operator kind r =
    if contains kind Kinds.transformer_compute_record_kinds
    then validate_compute r
    else if contains kind ("PIMDataMove" ∷ [])
    then validate_data_move r
    else if contains kind Kinds.transformer_accounting_record_kinds
    then validate_accounting r
    else ok tt

-- `record["kind"]` is a text: its membership in the kinds has been tested.
unfoldable pub validate_dataflow : String → Fields → Checked
unfolding validate_metadata validate_operator validate_compute validate_data_move
    validate_accounting
validate_dataflow kind r = validate_metadata r >> validate_operator kind r
