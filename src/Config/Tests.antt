-- ===== src/Config/Tests.antt =====
-- Runs of the manifest resolvers.
use ramulator.Prelude.{
  String, ◌≡◌, ◌↔◌, refl, Option, none, some, List, [], ◌∷◌, Result, ok, err, str_eq, if◌then◌else◌,
  Raises, IsValueError, type_error,
}
use ramulator.Prelude.Int.{pos}
use ramulator.PyValue.{
  Value, Fields, TextKeys, end, field, keyed, int, str, obj, arr, nil, float, nan, get, insert,
  remove, update, equals_nat, is_blank_text,
}
use ramulator.Config.Check.{
  expect_mapping, reject_unknown, positive_int, nonnegative_int, nonnegative_number, choice,
  nonempty_text, fail_if,
}
use ramulator.Config.Model.{resolve_model, check_model_spec, supported_model_phases}
use ramulator.Config.Model.Accepted.{IsModel, resolve_model-ok_iff}
use ramulator.Config.Workload.{default_workload, supported_workload_fields, resolve_workload}
use ramulator.Config.Workload.Resolved as WorkloadResolved
use ramulator.Config.Workload.Raises.{resolve_workload-Raises}
use ramulator.Config.Hardware.{resolve_hardware}
use ramulator.Config.Hardware.Defaults.{
  Hardware, default_pim, default_controller, default_memory_system, default_topology,
  default_frontend_clock_ratio,
}
use ramulator.Config.Hardware.Pim.{pim_checks}
use ramulator.Config.Hardware.Checks.{
  hardware_checks, require_supported_pim_backend, backend_status,
}
use ramulator.Config.Hardware.Resolved as HardwareResolved
use ramulator.Config.Load.{load_raw_manifest}
use ramulator.Config.Load.Keys.{load_raw_manifest-KnownKeys}
use ramulator.Config.Check.Laws.{KnownKeys}
use ramulator.Config.Manifest.{Manifest, supported_top_level_fields, resolve_experiment_manifest}
use ramulator.Config.Manifest.Resolved as ManifestResolved
use ramulator.Config.Overrides.{parse_override, apply_override}
use ramulator.Config.Overrides.Parsed.{joined, dotted, parse_override-dotted}
use ramulator.Config.Overrides.Laws.{
  get_path, Apart, Passes, apply_override-sets, apply_override-ok_iff,
}

abbrev small_model : Fields
small_model = field "name" (str "tiny") (
    field "num_layers" (int (pos 2)) (
      field "hidden_size" (int (pos 64)) (
        field "num_heads" (int (pos 8)) (
          field "num_kv_heads" (int (pos 2))
            (field "head_dim" (int (pos 8)) (field "ffn_hidden_size" (int (pos 256)) end))))))

small_model_resolves : resolve_model (obj small_model) ≡ ok (obj small_model)
unfolding resolve_model check_model_spec expect_mapping reject_unknown fail_if positive_int
    nonempty_text is_blank_text get
small_model_resolves = refl

resolve_model-ok_iff_example :
    (resolve_model (obj small_model) ≡ ok (obj small_model))
    ↔ ((obj small_model ≡ obj small_model) × IsModel (obj small_model))
resolve_model-ok_iff_example = resolve_model-ok_iff (obj small_model) (obj small_model)

abbrev prefill : Fields
prefill = field "phase" (str "prefill") (field "prompt_len" (int (pos 64)) end)

abbrev prefill_workload : Fields
prefill_workload = update default_workload prefill

prefill_resolves : resolve_workload (obj prefill) ≡ ok prefill_workload
unfolding resolve_workload default_workload supported_workload_fields supported_model_phases
    resolve_model expect_mapping reject_unknown fail_if positive_int nonnegative_int choice get
    insert update
prefill_resolves = refl

resolve_workload-ok_iff_example :
    (resolve_workload (obj prefill) ≡ ok prefill_workload)
    ↔ WorkloadResolved.Resolves prefill prefill_workload
resolve_workload-ok_iff_example = WorkloadResolved.resolve_workload-ok_iff prefill prefill_workload

-- A model without its fields.
abbrev bare_model : Value
bare_model = obj (field "model" (obj (field "name" (str "tiny") end)) end)

resolve_workload-Raises_example : Raises IsValueError (resolve_workload bare_model)
unfolding TextKeys
resolve_workload-Raises_example = resolve_workload-Raises bare_model ((tt, tt), tt)

-- A key that is not a text.
number_key_raises : resolve_workload (obj (keyed (int (pos 1)) (int (pos 2)) end)) ≡ err type_error
unfolding resolve_workload expect_mapping reject_unknown
number_key_raises = refl

abbrev default_hardware : Hardware
default_hardware = record {
  dram_class = str "LPDDR5PIM";
  org_preset = str "LPDDR5_8Gb_x16";
  timing_preset = str "LPDDR5_6400";
  org_overrides = field "rank" (int (pos 2)) end;
  timing_overrides = field "nRCD" (float nan) end;
  pim = default_pim;
  controller = default_controller;
  memory_system = default_memory_system;
  topology = default_topology;
  frontend_clock_ratio = default_frontend_clock_ratio;
}

abbrev two_ranks : Fields
two_ranks =
    field "org_overrides" (obj (field "rank" (int (pos 2)) end))
      (field "timing_overrides" (obj (field "nRCD" (float nan) end)) end)

two_ranks_resolve : resolve_hardware (obj two_ranks) ≡ ok default_hardware
unfolding resolve_hardware hardware_checks pim_checks default_pim default_controller
    default_memory_system default_topology require_supported_pim_backend backend_status
    expect_mapping reject_unknown fail_if positive_int nonnegative_number choice get insert update
    equals_nat
two_ranks_resolve = refl

resolve_hardware-ok_iff_example :
    (resolve_hardware (obj two_ranks) ≡ ok default_hardware)
    ↔ HardwareResolved.Resolves two_ranks default_hardware
resolve_hardware-ok_iff_example =
    HardwareResolved.resolve_hardware-ok_iff two_ranks default_hardware

-- A list cannot be looked up among the backends.
list_class_raises : resolve_hardware (obj (field "dram_class" (arr nil) end)) ≡ err type_error
unfolding resolve_hardware hardware_checks pim_checks default_pim default_controller
    default_memory_system default_topology require_supported_pim_backend backend_status
    expect_mapping reject_unknown fail_if positive_int nonnegative_number choice get insert update
    equals_nat
list_class_raises = refl

abbrev default_manifest : Manifest
default_manifest = record {
  experiment = str "pimscope-experiment";
  hardware = default_hardware;
  workload = default_workload;
  output_path = str "results/custom/result.json";
}

default_manifest_resolves :
    resolve_experiment_manifest (obj (field "hardware" (obj two_ranks) end)) ≡ ok default_manifest
unfolding resolve_experiment_manifest resolve_hardware hardware_checks pim_checks default_pim
    default_controller default_memory_system default_topology require_supported_pim_backend
    backend_status expect_mapping reject_unknown fail_if positive_int nonnegative_number choice get
    insert update equals_nat resolve_workload default_workload supported_workload_fields
    supported_model_phases resolve_model nonnegative_int nonempty_text is_blank_text
default_manifest_resolves = refl

resolve_experiment_manifest-ok_iff_example :
    (resolve_experiment_manifest (obj (field "hardware" (obj two_ranks) end)) ≡ ok default_manifest)
    ↔ ManifestResolved.Resolves (field "hardware" (obj two_ranks) end) default_manifest
resolve_experiment_manifest-ok_iff_example =
    ManifestResolved.resolve_experiment_manifest-ok_iff (field "hardware" (obj two_ranks) end)
      default_manifest

-- No text is JSON.
abbrev no_json : String → Option Value
no_json s = none

abbrev model_override : String
model_override = "workload.model=opt-1.3b"

model_override_parses :
    parse_override no_json model_override ≡ ok ("workload", "model" ∷ [], str "opt-1.3b")
unfolding parse_override
model_override_parses = refl

abbrev with_phase : Fields
with_phase = field "workload" (obj (field "phase" (str "decode") end)) end

abbrev with_model : Fields
with_model =
    field "workload" (obj (field "phase" (str "decode") (field "model" (str "opt-1.3b") end))) end

model_override_applies : apply_override no_json with_phase model_override ≡ ok with_model
unfolding apply_override parse_override get insert
model_override_applies = refl

apply_override-sets_example :
    (get_path "workload" ("model" ∷ []) with_model ≡ some (str "opt-1.3b"))
    × ((a : String) (ls : List String)
        → Apart "workload" ("model" ∷ []) a ls
        → get_path a ls with_model ≡ get_path a ls with_phase)
apply_override-sets_example =
    apply_override-sets no_json model_override "workload" ("model" ∷ []) (str "opt-1.3b") with_phase
      with_model model_override_parses model_override_applies

apply_override-ok_iff_example :
    ((d' : Fields) × (apply_override no_json with_phase model_override ≡ ok d'))
    ↔ Passes "workload" ("model" ∷ []) with_phase
apply_override-ok_iff_example =
    apply_override-ok_iff no_json model_override "workload" ("model" ∷ []) (str "opt-1.3b")
      with_phase model_override_parses

parse_override-dotted_example :
    parse_override no_json (joined (dotted "a" ("b" ∷ [])) (joined "=" "c=d"))
    ≡ ok ("a", "b" ∷ [], str "c=d")
unfolding parse_override
parse_override-dotted_example =
    parse_override-dotted no_json "a" ("b" ∷ []) "c=d" (tt, (refl, tt), (refl, tt))
      ((tt, (refl, tt), (refl, tt)), tt)

abbrev memory_section : Fields
memory_section = field "topology" (obj (field "channels" (int (pos 1)) end)) end

abbrev composed_manifest : Fields
composed_manifest =
    field "schema_version" (int (pos 1)) (field "hardware_file" (str "hardware.json") end)

-- Two files: the section of the second is in a dictionary of its own.
abbrev two_files : String → Result Value
two_files path =
    if str_eq path "configs/hardware.json"
    then ok (obj (field "hardware" (obj memory_section) end))
    else ok (obj composed_manifest)

abbrev in_configs : String → String
in_configs reference = "configs/hardware.json"

abbrev loaded_manifest : Fields
loaded_manifest = field "schema_version" (int (pos 1)) (field "hardware" (obj memory_section) end)

composed_manifest_loads :
    load_raw_manifest two_files in_configs "configs/run.json" ≡ ok loaded_manifest
unfolding load_raw_manifest expect_mapping reject_unknown fail_if nonempty_text is_blank_text get
    insert remove
composed_manifest_loads = refl

load_raw_manifest-KnownKeys_example : KnownKeys supported_top_level_fields loaded_manifest
load_raw_manifest-KnownKeys_example =
    load_raw_manifest-KnownKeys two_files in_configs "configs/run.json" loaded_manifest
      composed_manifest_loads
