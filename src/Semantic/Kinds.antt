-- ===== src/Semantic/Kinds.antt =====
-- python/ramulator/workload_surrogate/structured_trace.py: the kinds of records and the fields of each.
use ramulator.Prelude.{String, List, [], ◌∷◌, ◌++◌}

abbrev pub base_semantic_record_kinds : List String
base_semantic_record_kinds = "HostRead" ∷ "HostWrite" ∷ "PIMCompute" ∷ "Barrier" ∷ "Drain" ∷ []

abbrev pub all_bank_record_kinds : List String
all_bank_record_kinds = "PIMLoadAll" ∷ "PIMComputeAll" ∷ []

abbrev pub transformer_compute_record_kinds : List String
transformer_compute_record_kinds =
    "AttentionScore" ∷ "AttentionContext" ∷ "FFNProjection" ∷ "MoERouter" ∷ "MoEExpertFFN" ∷ []

abbrev pub transformer_accounting_record_kinds : List String
transformer_accounting_record_kinds =
    "AttentionSoftmax" ∷ "PIMElementwise" ∷ "MoETopK" ∷ "MoEDispatch" ∷ "MoECombine"
    ∷ "PIMOperandResidency" ∷ "PIMOperandReuse" ∷ []

abbrev pub transformer_dataflow_record_kinds : List String
transformer_dataflow_record_kinds =
    "PIMDataMove" ∷ "AttentionScore" ∷ "AttentionSoftmax" ∷ "AttentionContext" ∷ "FFNProjection"
    ∷ "PIMElementwise" ∷ "MoERouter" ∷ "MoETopK" ∷ "MoEDispatch" ∷ "MoEExpertFFN" ∷ "MoECombine"
    ∷ "PIMOperandResidency" ∷ "PIMOperandReuse" ∷ []

abbrev pub semantic_record_kinds : List String
semantic_record_kinds =
    base_semantic_record_kinds ++ (all_bank_record_kinds ++ transformer_dataflow_record_kinds)

abbrev pub valid_movement_kinds : List String
valid_movement_kinds =
    "broadcast_or_accounted_tile_load" ∷ "preloaded_stationary_weight_residency"
    ∷ "dynamic_activation_tile" ∷ "bank_local_tile_activation"
    ∷ "cross_bank_operand_shuffle_accounting" ∷ []

abbrev pub required_p4_record_family : String
required_p4_record_family = "p4_offline_transformer_dataflow_ir"

abbrev pub required_p4_claim_boundary : List String
required_p4_claim_boundary =
    "structured transformer dataflow surrogate" ∷ "simulator-diagnostic" ∷ "non-silicon-calibrated"
    ∷ "operator-internal-dataflow-first" ∷ []

abbrev pub required_p4_non_claims : List String
required_p4_non_claims =
    "not_runtime_replay" ∷ "not_vllm_replay" ∷ "not_numerical_correctness"
    ∷ "not_silicon_faithful_softmax_or_data_movement" ∷ "not_raw_attacc_schema" ∷ []

abbrev pub host_fields : List String
host_fields = "bytes" ∷ "address_policy" ∷ []

abbrev pub pim_compute_fields : List String
pim_compute_fields =
    "num_requests" ∷ "bank_sequence" ∷ "dependency_context" ∷ "row_policy" ∷ "column_policy"
    ∷ "datatype_metadata" ∷ []

abbrev pub all_bank_fields : List String
all_bank_fields =
    "num_requests" ∷ "all_bank_scope" ∷ "dependency_context" ∷ "row_policy" ∷ "column_policy"
    ∷ "datatype_metadata" ∷ []

abbrev pub required_common : List String
required_common =
    "schema_version" ∷ "record_id" ∷ "kind" ∷ "phase" ∷ "layer" ∷ "op" ∷ "repeat" ∷ "provenance"
    ∷ "mapping_policy" ∷ []

abbrev pub metadata_fields : List String
metadata_fields = "tensor_io" ∷ "logical_dependencies" ∷ "operator_context" ∷ "residency" ∷ []

abbrev pub compute_fields : List String
compute_fields =
    "num_requests" ∷ "bank_sequence" ∷ "dependency_context" ∷ "row_policy" ∷ "column_policy"
    ∷ "datatype_metadata" ∷ "compute_shape" ∷ "burst_length" ∷ []

abbrev pub shape_fields : List String
shape_fields = "m" ∷ "n" ∷ "k" ∷ "output_elements" ∷ "datatype" ∷ []

abbrev pub data_move_fields : List String
data_move_fields =
    "movement_policy" ∷ "num_requests" ∷ "dependency_context" ∷ "row_policy" ∷ "column_policy"
    ∷ "datatype_metadata" ∷ []

-- Of the manifest.
abbrev pub required_manifest_fields : List String
required_manifest_fields =
    "manifest_version" ∷ "workload_class" ∷ "phase" ∷ "batch" ∷ "generated_tokens" ∷ "past_len"
    ∷ "hidden_size" ∷ "num_layers" ∷ "num_heads" ∷ "head_dim" ∷ "ffn_hidden_size" ∷ "datatype"
    ∷ "pim_compute_operator_classes" ∷ "host_support_record_classes"
    ∷ "host_only_provenance_classes" ∷ "mapping_policy" ∷ "literature_anchors" ∷ []

abbrev pub forbidden_datatype_scale_fields : List String
forbidden_datatype_scale_fields =
    "latency_scale" ∷ "throughput_scale" ∷ "energy_scale" ∷ "bitwidth_ratio" ∷ []

abbrev pub kv_cache_read_ops : List String
kv_cache_read_ops = "attention_k_cache_read" ∷ "attention_v_cache_read" ∷ []

abbrev pub pim_compute_op_suffix : String
pim_compute_op_suffix = "_gemv"
