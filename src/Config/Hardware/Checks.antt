-- ===== src/Config/Hardware/Checks.antt =====
-- python/ramulator/pimscope/config.py: the checks of `_resolve_hardware` in their order, and
-- python/ramulator/pimscope/capabilities.py: `require_supported_pim_backend`.
pub mod Accepted
use ramulator.Prelude.{
  String, Bool, true, false, not, Option, none, some, List, [], ◌∷◌, ◌++◌, ◌||◌, Result, Checked,
  ok, err, type_error, ◌>>=◌, ◌>>◌, str_eq, all_checks, if◌then◌else◌,
}
use ramulator.PyValue.{
  Value, Fields, end, field, keyed, null, bool, int, float, str, arr, obj, get, contains,
  equals_nat,
}
use ramulator.Config.Check.{
  fail, fail_if, positive_int, nonnegative_number, check_at, is_positive_int, is_choice, each,
  reject_unknown, entry_is_nat,
}
use ramulator.Config.Hardware.Defaults
use ramulator.Config.Hardware.Defaults.{Hardware}
use ramulator.Config.Hardware.Pim.{pim_checks}

-- `PIM_BACKEND_CAPABILITIES[dram_class]["status"]`
unfoldable pub backend_status : String → Option String
backend_status c =
    if str_eq c "LPDDR5PIM"
    then some "supported"
    else if str_eq c "LPDDR6PIM"
    then some "experimental"
    else none

status_accepted : Option String → Checked
status_accepted none = fail "hardware.dram_class" "unknown PIM backend"
status_accepted (some status) =
    fail_if (not (contains status ("supported" ∷ "experimental" ∷ []))) "hardware.dram_class"
      "the PIM backend is not supported"

-- A list or a dictionary is no key of a dictionary.
unfoldable pub require_supported_pim_backend : Value → Checked
unfolding status_accepted
require_supported_pim_backend (str c) =
    if str_eq c "LPDDR6"
    then fail "hardware.dram_class" "generic LPDDR6 is available in Ramulator"
    else status_accepted (backend_status c)
require_supported_pim_backend (arr vs) = err type_error
require_supported_pim_backend (obj d) = err type_error
require_supported_pim_backend _ = fail "hardware.dram_class" "unknown PIM backend"

-- `d[field] != 1`, after `_positive_int`.
only_one : String → Fields → Checked
only_one k d = fail_if (not (entry_is_nat k 1 d)) k "unsupported by the public runner"

-- `isinstance(value, str) and value`
nonempty : Value → String → Checked
nonempty (str s) path = fail_if (str_eq s "") path "must be a non-empty string"
nonempty _ path = fail path "must be a non-empty string"

-- `for field, value in d.items():`
abbrev pub each_item : (Value → String → Checked) → Fields → Checked
each_item check end = ok tt
each_item check (field k v d) = check v k >> each_item check d
each_item check (keyed k v d) = check v "" >> each_item check d

-- `overrides.get("rank", 1) not in {1, 2}`
rank_of : Option Value → Checked
rank_of none = ok tt
rank_of (some v) =
    fail_if (not (equals_nat 1 v || equals_nat 2 v)) "hardware.org_overrides.rank"
      "only one- and two-rank organizations are currently validated"

class_supported : Value → Checked
class_supported (str c) =
    fail_if (not (contains c Defaults.supported_pim_dram_classes)) "hardware.dram_class"
      "supported PIM DRAM classes"
class_supported _ = fail "hardware.dram_class" "supported PIM DRAM classes"

abbrev pub topology_checks : Fields → List Checked
unfolding only_one
topology_checks topology =
    reject_unknown topology Defaults.supported_topology_fields "hardware.topology"
    ∷ each (λ k. check_at is_positive_int k topology) Defaults.supported_topology_fields
    ∷ only_one "controllers" topology
    ∷ only_one "channels" topology
    ∷ []

abbrev pub device_checks : Hardware → List Checked
unfolding require_supported_pim_backend class_supported nonempty
device_checks h =
    require_supported_pim_backend h.dram_class
    ∷ class_supported h.dram_class
    ∷ nonempty h.org_preset "hardware.org_preset"
    ∷ nonempty h.timing_preset "hardware.timing_preset"
    ∷ is_positive_int h.frontend_clock_ratio "hardware.frontend_clock_ratio"
    ∷ reject_unknown h.pim Defaults.supported_pim_fields "hardware.pim"
    ∷ reject_unknown h.controller Defaults.supported_controller_fields "hardware.controller"
    ∷ reject_unknown h.memory_system Defaults.supported_memory_system_fields
        "hardware.memory_system"
    ∷ []

abbrev pub controller_checks : Fields → List Checked
controller_checks controller =
    check_at (is_choice Defaults.supported_schedulers) "scheduler" controller
    ∷ check_at (is_choice Defaults.supported_refresh_managers) "refresh_manager" controller
    ∷ check_at (is_choice Defaults.supported_row_policies) "row_policy" controller
    ∷ check_at (is_choice Defaults.supported_addr_mappers) "addr_mapper" controller
    ∷ []

abbrev pub override_checks : Hardware → List Checked
unfolding rank_of
override_checks h =
    each_item is_positive_int h.org_overrides
    ∷ rank_of (get "rank" h.org_overrides)
    ∷ each_item nonnegative_number h.timing_overrides
    ∷ []

unfoldable pub hardware_checks : Hardware → List Checked
unfolding topology_checks device_checks override_checks
hardware_checks h =
    all_checks (topology_checks h.topology)
    ∷ all_checks (device_checks h)
    ∷ all_checks (controller_checks h.controller)
    ∷ check_at (is_choice Defaults.supported_channel_mappers) "channel_mapper" h.memory_system
    ∷ check_at is_positive_int "clock_ratio" h.memory_system
    ∷ all_checks (pim_checks h.pim)
    ∷ all_checks (override_checks h)
    ∷ []
