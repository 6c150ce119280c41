-- ===== src/Config/Manifest.antt =====
-- python/ramulator/pimscope/config.py: `resolve_experiment_manifest`, and `load_raw_manifest` with the
-- parsed files as a parameter.
pub mod Resolved
use ramulator.Prelude.{
  ℕ, String, Bool, true, false, not, Option, none, some, List, [], ◌∷◌, ◌++◌, Result, Checked, ok,
  err, value_error, ◌>>=◌, ◌>>◌, str_eq, if◌then◌else◌,
}
use ramulator.Prelude.Int.{pos}
use ramulator.PyValue.{
  Value, Fields, end, field, null, int, str, arr, obj, get, get_or_default, insert, equals_nat,
  is_blank_text, index,
}
use ramulator.Config.Check.{
  fail, fail_if, expect_mapping, reject_unknown, nonempty_text, check_at, choice_entry, is_mapping,
}
use ramulator.Config.Hardware.{resolve_hardware}
use ramulator.Config.Hardware.Defaults.{Hardware, hardware_fields, supported_pim_datatypes}
use ramulator.Config.Workload.{resolve_workload, supported_workload_datatypes}

abbrev pub supported_top_level_fields : List String
supported_top_level_fields =
    "schema_version" ∷ "experiment" ∷ "hardware" ∷ "workload" ∷ "output" ∷ []

abbrev pub composed_manifest_fields : List String
composed_manifest_fields = "hardware_file" ∷ "workload_file" ∷ []

abbrev pub default_output : Value
default_output = obj (field "path" (str "results/custom/result.json") end)

-- `ResolvedExperiment.manifest`, a dictionary of these entries.
pub record Manifest : Type 0 where
  pub experiment : Value
  pub hardware : Hardware
  pub workload : Fields
  pub output_path : Value

abbrev pub manifest_fields : Manifest → Fields
manifest_fields m = field "schema_version" (int (pos 1)) (
    field "experiment" m.experiment (
      field "hardware" (obj (hardware_fields m.hardware)) (
        field "workload" (obj m.workload)
          (field "output" (obj (field "path" m.output_path end)) end))))

output_path_of : Fields → Result Value
output_path_of raw = do
  output ← expect_mapping (get_or_default "output" default_output raw) "output"
  reject_unknown output ("path" ∷ []) "output"
  let path = get_or_default "path" (str "results/custom/result.json") output
  nonempty_text path "output.path"
  ok path

-- Both datatypes have passed `_choice`.
datatypes_agree : Hardware → Fields → Checked
datatypes_agree hardware workload = do
  pim ← choice_entry "pim_datatype" supported_pim_datatypes hardware.pim
  datatype ← choice_entry "datatype" supported_workload_datatypes workload
  fail_if (not (str_eq pim datatype)) "workload.datatype" "must equal hardware.pim.pim_datatype"

resolve_fields : Fields → Result Manifest
unfolding output_path_of datatypes_agree
resolve_fields raw = do
  reject_unknown raw supported_top_level_fields "manifest"
  fail_if (not (equals_nat 1 (get_or_default "schema_version" (int (pos 1)) raw))) "schema_version"
      "must be 1"
  let experiment = get_or_default "experiment" (str "pimscope-experiment") raw
  nonempty_text experiment "experiment"
  output_path ← output_path_of raw
  hardware ← resolve_hardware (get_or_default "hardware" (obj end) raw)
  workload ← resolve_workload (get_or_default "workload" (obj end) raw)
  datatypes_agree hardware workload
  ok (record {
    experiment = experiment;
    hardware = hardware;
    workload = workload;
    output_path = output_path;
  })

unfoldable pub resolve_experiment_manifest : Value → Result Manifest
unfolding resolve_fields
resolve_experiment_manifest raw = expect_mapping raw "manifest" >>= resolve_fields
