-- ===== src/Config/Workload.antt =====
-- python/ramulator/pimscope/config.py: `_resolve_workload`.
pub mod Accepted
pub mod Resolved
pub mod Raises
use ramulator.Prelude.{
  ℕ, String, Bool, true, false, not, ◌&&◌, Option, none, some, List, [], ◌∷◌, ◌++◌, Result, Checked,
  ok, err, key_error, all_checks, ◌>>=◌, ◌>>◌, if◌then◌else◌,
}
use ramulator.Prelude.Int.{pos}
use ramulator.PyValue.{
  Value, Fields, end, field, null, bool, int, float, str, arr, obj, get, get_or_default, insert,
  update, keys, index, contains,
}
use ramulator.Config.Check.{
  fail_if, expect_mapping, or_empty, reject_unknown, check_at, check_if_present, is_positive_int,
  is_nonnegative_int, is_choice, is_mapping, entry_is, choice_entry, each,
}
use ramulator.Config.Model.{supported_model_phases, resolve_model}

unfoldable pub default_workload : Fields
default_workload = field "workload_type" (str "structured_transformer_surrogate") (
    field "model" (str "opt-125m") (
      field "datatype" (str "int8") (
        field "phase" (str "decode") (
          field "past_len" (int (pos 32)) (
            field "prompt_len" (int (pos 12)) (
              field "schedule_policy" (str "serialized") (
                field "weight_residency" (str "resident") (
                  field "mac_mode" (str "per_kind") (
                    field "seed" (int (pos 12345)) (
                      field "max_inflight_requests" (int (pos 16)) (
                        field "interleave_depth" (int (pos 4)) (
                          field "max_expanded_records" (int (pos 100000000000)) (
                            field "max_trace_bytes" (int (pos 1073741824)) (
                              field "simulation_timeout_seconds" (int (pos 86400)) end))))))))))))))

unfoldable pub supported_workload_fields : List String
unfolding default_workload
supported_workload_fields = keys default_workload ++ ("datatype" ∷ "workload_options" ∷ [])

abbrev pub supported_workload_datatypes : List String
supported_workload_datatypes = "int8" ∷ "fp16" ∷ "bf16" ∷ []

abbrev pub supported_phases : List String
supported_phases = "decode" ∷ "prefill" ∷ []

abbrev pub supported_weight_residency : List String
supported_weight_residency = "resident" ∷ "full_preload" ∷ []

abbrev pub supported_mac_modes : List String
supported_mac_modes = "per_kind" ∷ "per_bank" ∷ "all_bank" ∷ []

abbrev pub supported_schedule_policies : List String
supported_schedule_policies = "serialized" ∷ "overlap_independent_heads" ∷ []

in_phases : List String → String → Checked
in_phases phases phase = fail_if (not (contains phase phases)) "workload.phase" "not supported"

phase_supported : Option (List String) → Fields → Checked
unfolding in_phases
phase_supported none w = err key_error
phase_supported (some phases) w = do
  phase ← choice_entry "phase" supported_phases w
  in_phases phases phase

-- What `workload["model"]` asks of the phase and the policy; `_choice` has passed both before.
check_model_use : Value → Fields → Checked
unfolding phase_supported
check_model_use (str name) w = phase_supported (supported_model_phases name) w
check_model_use (obj m) w =
    fail_if (not (entry_is "schedule_policy" "serialized" w)) "workload.schedule_policy"
      "custom dense models currently support only 'serialized'"
check_model_use _ w = ok tt

abbrev pub lengths : List String
lengths = "past_len" ∷ "prompt_len" ∷ []

abbrev pub limits : List String
limits =
    "max_inflight_requests" ∷ "interleave_depth" ∷ "max_expanded_records" ∷ "max_trace_bytes" ∷ []

abbrev pub workload_checks : Value → Fields → Fields → List Checked
unfolding check_model_use
workload_checks model supplied w =
    fail_if (not (entry_is "workload_type" "structured_transformer_surrogate" w))
      "workload.workload_type" "only structured_transformer_surrogate is supported in the release"
    ∷ check_if_present is_mapping "workload_options" supplied
    ∷ check_at (is_choice supported_workload_datatypes) "datatype" w
    ∷ check_at (is_choice supported_phases) "phase" w
    ∷ check_at (is_choice supported_weight_residency) "weight_residency" w
    ∷ check_at (is_choice supported_mac_modes) "mac_mode" w
    ∷ check_at (is_choice supported_schedule_policies) "schedule_policy" w
    ∷ each (λ k. check_at is_positive_int k w) lengths
    ∷ check_at is_nonnegative_int "seed" w
    ∷ each (λ k. check_at is_positive_int k w) limits
    ∷ check_at is_nonnegative_int "simulation_timeout_seconds" w
    ∷ fail_if (entry_is "phase" "prefill" w && not (entry_is "schedule_policy" "serialized" w))
        "workload.schedule_policy" "prefill currently supports only 'serialized'"
    ∷ check_model_use model w
    ∷ []

-- `workload["model"] = ...; workload["datatype"] = workload.get("datatype", "int8")`
pub set_model : Value → Fields → Fields
set_model model w =
    let w' = insert "model" model w in
    insert "datatype" (get_or_default "datatype" (str "int8") w') w'

pub read_model : Fields → Result Value
read_model w = index "model" w >>= resolve_model

pub resolve_supplied : Fields → Result Fields
unfolding read_model set_model workload_checks
resolve_supplied supplied = do
  reject_unknown supplied supported_workload_fields "workload"
  let merged = update default_workload supplied
  model ← read_model merged
  all_checks (workload_checks model supplied (set_model model merged))
  ok (set_model model merged)

unfoldable pub resolve_workload : Value → Result Fields
unfolding resolve_supplied
resolve_workload raw = expect_mapping (or_empty raw) "workload" >>= resolve_supplied
