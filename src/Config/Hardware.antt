-- ===== src/Config/Hardware.antt =====
-- python/ramulator/pimscope/config.py: `_resolve_hardware`.
pub mod Defaults
pub mod Pim
pub mod Checks
pub mod Resolved
use ramulator.Prelude.{
  String, Bool, true, false, not, Option, none, some, List, [], ◌∷◌, Result, Checked, ok, err,
  ◌>>=◌, ◌>>◌, all_checks,
}
use ramulator.PyValue.{Value, Fields, end, field, str, obj, get, get_or_default, update}
use ramulator.Config.Check.{expect_mapping, or_empty, reject_unknown}
use ramulator.Config.Hardware.Defaults.{
  Hardware, default_pim, default_controller, default_memory_system, default_topology,
  default_frontend_clock_ratio, supported_hardware_fields,
}
use ramulator.Config.Hardware.Checks.{hardware_checks}

-- `org_overrides` and `timing_overrides` stand as they are given.
pub replaced : String → Fields → Result Fields
replaced k supplied = elim (get k supplied) [ none ↦ ok end | some v ↦ expect_mapping v k ]

-- The other sections update their defaults.
pub updated : String → Fields → Fields → Result Fields
updated k default supplied = elim (get k supplied) [
  | none ↦ ok default
  | some v ↦ (expect_mapping v k >>= λ section. ok (update default section))
]

pub merge_hardware : Fields → Result Hardware
unfolding replaced updated
merge_hardware supplied = do
  org_overrides ← replaced "org_overrides" supplied
  timing_overrides ← replaced "timing_overrides" supplied
  pim ← updated "pim" default_pim supplied
  controller ← updated "controller" default_controller supplied
  memory_system ← updated "memory_system" default_memory_system supplied
  topology ← updated "topology" default_topology supplied
  ok (record {
    dram_class = get_or_default "dram_class" (str "LPDDR5PIM") supplied;
    org_preset = get_or_default "org_preset" (str "LPDDR5_8Gb_x16") supplied;
    timing_preset = get_or_default "timing_preset" (str "LPDDR5_6400") supplied;
    org_overrides = org_overrides;
    timing_overrides = timing_overrides;
    pim = pim;
    controller = controller;
    memory_system = memory_system;
    topology = topology;
    frontend_clock_ratio =
        get_or_default "frontend_clock_ratio" default_frontend_clock_ratio supplied;
  })

pub resolve_supplied : Fields → Result Hardware
unfolding merge_hardware
resolve_supplied supplied = do
  reject_unknown supplied supported_hardware_fields "hardware"
  hardware ← merge_hardware supplied
  all_checks (hardware_checks hardware)
  ok hardware

unfoldable pub resolve_hardware : Value → Result Hardware
unfolding resolve_supplied
resolve_hardware raw = expect_mapping (or_empty raw) "hardware" >>= resolve_supplied
