-- ===== src/Semantic/Tests.antt =====
-- Runs of the validators of semantic records.
use ramulator.Prelude.{String, ◌≡◌, refl, false, List, [], ◌∷◌, map, ok}
use ramulator.Prelude.Int.{pos, ◌+ℤ◌}
use ramulator.PyValue.{
  Value, Fields, end, field, null, int, str, arr, obj, float, dyadic, get, equals_nat, to_int,
  of_list,
}
use ramulator.Semantic.Kinds
use ramulator.Semantic.Membership.{
  le_zero, in_texts, holds_text, is_infix, is_suffix, map_of, list_entry,
}
use ramulator.Semantic.Dataflow.{validate_dataflow}
use ramulator.Semantic.Record.{validate_record, expanded_record_count}
use ramulator.Semantic.Record.Accepted.{IsRecord, validate_record-IsRecord}
use ramulator.Semantic.Manifest.{validate_manifest}
use ramulator.Semantic.Manifest.Accepted.{IsManifest}
use ramulator.Semantic.Manifest.Valid.{validate_manifest-IsManifest}

abbrev texts : List String → Value
texts ss = arr (of_list (map (λ s. str s) ss))

abbrev claims : Fields
claims =
    field "claim_boundary" (texts Kinds.required_p4_claim_boundary)
      (field "non_claims" (texts Kinds.required_p4_non_claims) end)

abbrev data_move : Fields
data_move = field "schema_version" (str "v0.1") (
    field "record_id" (str "r0") (
      field "kind" (str "PIMDataMove") (
        field "phase" (str "decode") (
          field "layer" (int (pos 0)) (
            field "op" (str "k_load") (
              field "repeat" (int (pos 2)) (
                field "provenance" (obj claims) (
                  field "mapping_policy" (obj end) (
                    field "tensor_io"
                      (obj (field "inputs" (texts ("k" ∷ [])) (field "outputs" (texts []) end)))
                      (field "logical_dependencies" (texts []) (
                        field "operator_context"
                          (obj (
                            field "operator_family" (str "attention") (
                              field "stage" (str "load") (
                                field "record_family" (str "p4_offline_transformer_dataflow_ir")
                                  end))))
                          (field "residency" (obj end) (
                            field "movement_policy"
                              (obj (field "movement_kind" (str "dynamic_activation_tile") end))
                              (field "num_requests" (int (pos 4)) (
                                field "dependency_context" null (
                                  field "row_policy" null (
                                    field "column_policy" null
                                      (field "datatype_metadata" null end))))))))))))))))))

data_move_valid : validate_record data_move ≡ ok tt
unfolding validate_record validate_dataflow le_zero in_texts holds_text map_of list_entry get to_int
data_move_valid = refl

validate_record-IsRecord_example : IsRecord data_move
validate_record-IsRecord_example = validate_record-IsRecord data_move data_move_valid

data_moves_count : expanded_record_count (data_move ∷ data_move ∷ []) ≡ ok (pos 4)
unfolding expanded_record_count get to_int ◌+ℤ◌
data_moves_count = refl

abbrev decode_manifest : Fields
decode_manifest = field "manifest_version" (str "v0.1") (
    field "workload_class" (str "decode") (
      field "phase" (str "decode") (
        field "batch" (int (pos 1)) (
          field "generated_tokens" (int (pos 1)) (
            field "past_len" (int (pos 32)) (
              field "hidden_size" (int (pos 64)) (
                field "num_layers" (int (pos 2)) (
                  field "num_heads" (int (pos 8)) (
                    field "head_dim" (int (pos 8)) (
                      field "ffn_hidden_size" (int (pos 256)) (
                        field "datatype" (str "int8") (
                          field "pim_compute_operator_classes" (texts ("q_proj_gemv" ∷ [])) (
                            field "host_support_record_classes"
                              (texts ("attention_k_cache_read" ∷ "attention_v_cache_read" ∷ []))
                              (field "host_only_provenance_classes" (texts []) (
                                field "mapping_policy" (obj end)
                                  (field "literature_anchors" (texts []) end))))))))))))))))

decode_manifest_valid : validate_manifest decode_manifest ≡ ok tt
unfolding validate_manifest le_zero in_texts is_infix is_suffix get equals_nat
decode_manifest_valid = refl

validate_manifest-IsManifest_example : IsManifest decode_manifest
validate_manifest-IsManifest_example =
    validate_manifest-IsManifest decode_manifest decode_manifest_valid

-- Half a repetition passes, and counts for none.
half_repeat : le_zero (float (dyadic (pos 1) 1)) ≡ ok false
unfolding le_zero
half_repeat = refl

half_counts_none :
    expanded_record_count (field "repeat" (float (dyadic (pos 1) 1)) end ∷ []) ≡ ok (pos 0)
unfolding expanded_record_count get to_int ◌+ℤ◌
half_counts_none = refl
