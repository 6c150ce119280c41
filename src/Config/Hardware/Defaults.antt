-- ===== src/Config/Hardware/Defaults.antt =====
-- python/ramulator/pimscope/config.py: `DEFAULT_HARDWARE` and the names that a hardware section takes.
use ramulator.Prelude.{String, List, [], ◌∷◌}
use ramulator.Prelude.Int.{pos}
use ramulator.PyValue.{Value, Fields, end, field, int, str, obj}

-- The resolved dictionary: unknown keys are refused, so it has these ten.
pub record Hardware : Type 0 where
  pub dram_class : Value
  pub org_preset : Value
  pub timing_preset : Value
  pub org_overrides : Fields
  pub timing_overrides : Fields
  pub pim : Fields
  pub controller : Fields
  pub memory_system : Fields
  pub topology : Fields
  pub frontend_clock_ratio : Value

abbrev pub hardware_fields : Hardware → Fields
hardware_fields h = field "dram_class" h.dram_class (
    field "org_preset" h.org_preset (
      field "timing_preset" h.timing_preset (
        field "org_overrides" (obj h.org_overrides) (
          field "timing_overrides" (obj h.timing_overrides) (
            field "pim" (obj h.pim) (
              field "controller" (obj h.controller) (
                field "memory_system" (obj h.memory_system) (
                  field "topology" (obj h.topology)
                    (field "frontend_clock_ratio" h.frontend_clock_ratio end)))))))))

unfoldable pub default_pim : Fields
default_pim = field "pim_datatype" (str "int8") (
    field "pim_banks_per_block" (int (pos 2))
      (field "pim_mac_execution_model" (str "shared_block_serial") end))

unfoldable pub default_controller : Fields
default_controller = field "scheduler" (str "FRFCFS") (
    field "refresh_manager" (str "NoRefresh")
      (field "row_policy" (str "Open") (field "addr_mapper" (str "PassThroughAddrMapper") end)))

unfoldable pub default_memory_system : Fields
default_memory_system =
    field "clock_ratio" (int (pos 1)) (field "channel_mapper" (str "CacheLineInterleave") end)

unfoldable pub default_topology : Fields
default_topology = field "controllers" (int (pos 1)) (field "channels" (int (pos 1)) end)

abbrev pub default_frontend_clock_ratio : Value
default_frontend_clock_ratio = int (pos 4)

abbrev pub supported_hardware_fields : List String
supported_hardware_fields =
    "dram_class" ∷ "org_preset" ∷ "timing_preset" ∷ "org_overrides" ∷ "timing_overrides" ∷ "pim"
    ∷ "controller" ∷ "memory_system" ∷ "topology" ∷ "frontend_clock_ratio" ∷ []

abbrev pub supported_controller_fields : List String
supported_controller_fields = "scheduler" ∷ "refresh_manager" ∷ "row_policy" ∷ "addr_mapper" ∷ []

abbrev pub supported_memory_system_fields : List String
supported_memory_system_fields = "clock_ratio" ∷ "channel_mapper" ∷ []

-- A set in the source, whose order is open.
abbrev pub supported_topology_fields : List String
supported_topology_fields = "controllers" ∷ "channels" ∷ []

abbrev pub supported_schedulers : List String
supported_schedulers = "FRFCFS" ∷ "FRFCFSRowHit" ∷ []

abbrev pub supported_refresh_managers : List String
supported_refresh_managers = "NoRefresh" ∷ "AllBank" ∷ "PerBank" ∷ []

abbrev pub supported_row_policies : List String
supported_row_policies = "Open" ∷ "ClosedCAP" ∷ []

abbrev pub supported_addr_mappers : List String
supported_addr_mappers =
    "PassThroughAddrMapper" ∷ "ChRaBaRoCo" ∷ "RoBaRaCoCh" ∷ "MOP4CLXOR" ∷ "RITAddrMapper" ∷ []

abbrev pub supported_channel_mappers : List String
supported_channel_mappers = "CacheLineInterleave" ∷ "PassThroughChannelMapper" ∷ []

abbrev pub supported_pim_datatypes : List String
supported_pim_datatypes = "int8" ∷ "fp16" ∷ "int16" ∷ "bf16" ∷ []

abbrev pub supported_pim_dram_classes : List String
supported_pim_dram_classes = "LPDDR5PIM" ∷ "LPDDR6PIM" ∷ []

abbrev pub supported_pim_execution_models : List String
supported_pim_execution_models = "shared_block_serial" ∷ []

abbrev pub supported_pim_fields : List String
supported_pim_fields =
    "pim_blocks_per_bank" ∷ "pim_banks_per_block" ∷ "pim_mac_execution_model" ∷ "pim_datatype"
    ∷ "pim_datatype_class" ∷ "pim_datatype_behavior_enabled" ∷ "pim_datatype_bits"
    ∷ "pim_simd_width_bits" ∷ "pim_lanes" ∷ "pim_ops_per_mac" ∷ "pim_ops_per_block_issue"
    ∷ "pim_ops_per_request" ∷ "pim_mac_issue_interval_cycles" ∷ "pim_mac_pipeline_latency_cycles"
    ∷ "pim_movement_cycles" ∷ "pim_writeback_cycles" ∷ "pim_slots_per_request"
    ∷ "pim_compute_energy_pJ_per_mac" ∷ "pim_array_local_energy_pJ"
    ∷ "pim_cell_to_pim_energy_pJ_per_256b" ∷ "pim_vrf_access_energy_pJ" ∷ "pim_srf_access_energy_pJ"
    ∷ "pim_mode_switch_energy_pJ" ∷ []
