-- ===== src/Config/Hardware/Pim.antt =====
-- python/ramulator/pimscope/config.py: the checks of the `pim` section in `_resolve_hardware`.
pub mod Accepted
use ramulator.Prelude.{
  ℕ, String, Bool, true, false, not, List, [], ◌∷◌, Checked, ok, ◌>>=◌, ◌>>◌, str_eq, ◌==◌,
}
use ramulator.Prelude.Int.{ℤ, pos}
use ramulator.PyValue.{Value, Fields, bool, int}
use ramulator.Config.Check.{
  fail, fail_if, positive_int, nonnegative_number, choice, choice_entry, check_at, check_if_present,
  is_positive_int, is_choice, each, reject_unknown,
}
use ramulator.Config.Hardware.Defaults.{
  supported_pim_datatypes, supported_pim_execution_models, supported_pim_fields,
}

equals_datatype : String → String → Checked
equals_datatype datatype datatype_class =
    fail_if (not (str_eq datatype_class datatype)) "hardware.pim.pim_datatype_class"
      "must equal pim_datatype"

-- `pim_datatype` has passed `_choice` before.
datatype_class : Fields → Value → String → Checked
unfolding equals_datatype
datatype_class pim v path = do
  c ← choice v supported_pim_datatypes path
  d ← choice_entry "pim_datatype" supported_pim_datatypes pim
  equals_datatype d c

is_boolean : Value → String → Checked
is_boolean (bool b) path = ok tt
is_boolean _ path = fail path "must be a boolean"

whole : Value → String → Checked
whole (int z) path = ok tt
whole _ path = fail path "must be an integer number of cycles"

cycles : Value → String → Checked
unfolding whole
cycles v path = nonnegative_number v path >> whole v path

same_ops : Value → Value → Checked
same_ops u v = do
  a ← positive_int u "pim_ops_per_block_issue"
  b ← positive_int v "pim_ops_per_request"
  fail_if (not (a == b)) "hardware.pim.pim_ops_per_request" "must equal pim_ops_per_block_issue"

same_request : Fields → Value → String → Checked
unfolding same_ops
same_request pim u path = check_if_present (λ v _. same_ops u v) "pim_ops_per_request" pim

-- Both entries, where they are there, have passed `_positive_int` before.
ops_agree : Fields → Checked
unfolding same_request
ops_agree pim = check_if_present (same_request pim) "pim_ops_per_block_issue" pim

abbrev pub resource_fields : List String
resource_fields =
    "pim_blocks_per_bank" ∷ "pim_banks_per_block" ∷ "pim_datatype_bits" ∷ "pim_simd_width_bits"
    ∷ "pim_lanes" ∷ "pim_mac_issue_interval_cycles" ∷ "pim_mac_pipeline_latency_cycles"
    ∷ "pim_slots_per_request" ∷ []

abbrev pub cycle_fields : List String
cycle_fields = "pim_movement_cycles" ∷ "pim_writeback_cycles" ∷ []

abbrev pub ops_fields : List String
ops_fields = "pim_ops_per_mac" ∷ "pim_ops_per_block_issue" ∷ "pim_ops_per_request" ∷ []

abbrev pub energy_fields : List String
energy_fields =
    "pim_compute_energy_pJ_per_mac" ∷ "pim_array_local_energy_pJ"
    ∷ "pim_cell_to_pim_energy_pJ_per_256b" ∷ "pim_vrf_access_energy_pJ" ∷ "pim_srf_access_energy_pJ"
    ∷ "pim_mode_switch_energy_pJ" ∷ []

unfoldable pub pim_checks : Fields → List Checked
unfolding datatype_class is_boolean cycles ops_agree
pim_checks pim =
    check_at (is_choice supported_pim_datatypes) "pim_datatype" pim
    ∷ check_if_present (datatype_class pim) "pim_datatype_class" pim
    ∷ check_at (is_choice supported_pim_execution_models) "pim_mac_execution_model" pim
    ∷ check_if_present is_boolean "pim_datatype_behavior_enabled" pim
    ∷ each (λ k. check_if_present is_positive_int k pim) resource_fields
    ∷ each (λ k. check_if_present cycles k pim) cycle_fields
    ∷ each (λ k. check_if_present is_positive_int k pim) ops_fields
    ∷ ops_agree pim
    ∷ each (λ k. check_if_present nonnegative_number k pim) energy_fields
    ∷ []
