-- ===== src/Config/Model.antt =====
-- python/ramulator/pimscope/config.py: `_resolve_model`, and the models that
-- python/ramulator/pimscope/workloads.py builds in.
pub mod Accepted
pub mod Raises
use ramulator.Prelude.{
  ℕ, ◌%◌, String, Bool, true, false, not, Option, none, some, List, [], ◌∷◌, all, Result, Checked,
  ok, err, all_checks, key_error, ◌>>=◌, ◌>>◌, str_eq, ltb, ◌==◌, if◌then◌else◌,
}
use ramulator.PyValue.{Value, Fields, str, obj, get, has, index, contains}
use ramulator.Config.Check.{
  fail, fail_if, expect_mapping, reject_unknown, positive_int, positive_entry, nonempty_text,
  check_at, check_if_present, is_positive_int, is_choice, each,
}

abbrev pub dense_model_keys : List String
dense_model_keys =
    "llama2-7b" ∷ "llama2-13b" ∷ "llama2-70b" ∷ "opt-125m" ∷ "opt-350m" ∷ "opt-1.3b" ∷ "qwen25-7b"
    ∷ "qwen25-14b" ∷ "qwen25-32b" ∷ "qwen25-72b" ∷ "gemma-2b" ∷ "gemma-7b" ∷ "gemma2-9b"
    ∷ "gemma2-27b" ∷ []

-- `SUPPORTED_MODEL_PHASES.get(model)`
unfoldable pub supported_model_phases : String → Option (List String)
supported_model_phases model =
    if contains model dense_model_keys
    then some ("decode" ∷ "prefill" ∷ [])
    else if str_eq model "mixtral-8x7b"
    then some ("decode" ∷ [])
    else none

abbrev pub supported_model_spec_fields : List String
supported_model_spec_fields =
    "name" ∷ "num_layers" ∷ "hidden_size" ∷ "num_heads" ∷ "num_kv_heads" ∷ "head_dim"
    ∷ "ffn_hidden_size" ∷ "ffn_variant" ∷ "activation" ∷ "citation" ∷ "paper_anchor" ∷ []

abbrev pub required_model_spec_fields : List String
required_model_spec_fields =
    "name" ∷ "num_layers" ∷ "hidden_size" ∷ "num_heads" ∷ "head_dim" ∷ "ffn_hidden_size" ∷ []

abbrev pub model_sizes : List String
model_sizes = "num_layers" ∷ "hidden_size" ∷ "num_heads" ∷ "head_dim" ∷ "ffn_hidden_size" ∷ []

abbrev pub model_texts : List String
model_texts = "activation" ∷ "citation" ∷ "paper_anchor" ∷ []

abbrev pub supported_ffn_variants : List String
supported_ffn_variants = "swiglu_3proj" ∷ "geglu_3proj" ∷ "relu_2proj" ∷ []

heads_divide : ℕ → ℕ → Checked
heads_divide heads kv_heads = do
  fail_if (ltb heads kv_heads) "workload.model.num_kv_heads" "must not exceed num_heads"
  fail_if (not (heads % kv_heads == 0)) "workload.model.num_kv_heads" "must divide num_heads"

-- `num_heads` has passed `_positive_int` before.
check_kv_heads : Fields → Value → String → Checked
unfolding heads_divide
check_kv_heads model v path = do
  kv_heads ← positive_int v path
  heads ← positive_entry "num_heads" model
  heads_divide heads kv_heads

abbrev pub model_checks : Fields → List Checked
unfolding check_kv_heads
model_checks model =
    reject_unknown model supported_model_spec_fields "workload.model"
    ∷ fail_if (not (all (λ k. has k model) required_model_spec_fields)) "workload.model"
        "missing required field(s)"
    ∷ check_at nonempty_text "name" model
    ∷ each (λ k. check_at is_positive_int k model) model_sizes
    ∷ check_if_present (check_kv_heads model) "num_kv_heads" model
    ∷ check_if_present (is_choice supported_ffn_variants) "ffn_variant" model
    ∷ each (λ k. check_if_present nonempty_text k model) model_texts
    ∷ []

unfoldable pub check_model_spec : Fields → Checked
unfolding check_kv_heads
check_model_spec model = all_checks (model_checks model)

built_in_model : String → Option (List String) → Result Value
built_in_model name none = fail "workload.model" "unsupported built-in model"
built_in_model name (some phases) = ok (str name)

unfoldable pub resolve_model : Value → Result Value
unfolding built_in_model check_model_spec
resolve_model (str name) = built_in_model name (supported_model_phases name)
resolve_model value = do
  model ← expect_mapping value "workload.model"
  check_model_spec model
  ok (obj model)
