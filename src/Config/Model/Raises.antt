-- ===== src/Config/Model/Raises.antt =====
-- What `_resolve_model` raises.
use ramulator.Prelude.{
  ℕ, ◌%◌, ◌==◌, ltb, String, ◌≡◌, true, false, not, all, All, Raises, Raises->>, Raises->>=,
  Raises-all_checks, all_checks, IsValueError, Option-cases, Bool-cases, inl, inr, arith,
}
use ramulator.PyValue.{Value, Fields, str, obj, has, has_other_key, TextKeys, no_other_key}
use ramulator.Config.Check.{
  check_at, check_if_present, fail_if, positive_int, reject_unknown, nonempty_text, is_positive_int,
  is_choice, positive_entry, expect_mapping,
}
use ramulator.Config.Check.Raises.{
  nonempty_text-Raises, choice-Raises, check_at-Raises, check_if_present-Raises, each-Raises,
  positive_int-Raises, positive_entry-Raises, fail_if-Raises, reject_unknown-Raises, Raises-discard,
}
use ramulator.Config.Model.{
  supported_model_phases, supported_model_spec_fields, required_model_spec_fields, model_sizes,
  model_texts, supported_ffn_variants, heads_divide, check_kv_heads, model_checks, check_model_spec,
  resolve_model,
}

heads_divide-Raises : (heads kv : ℕ) → Raises IsValueError (heads_divide heads kv)
unfolding heads_divide fail_if
heads_divide-Raises heads kv = elim (Bool-cases (ltb heads kv)) [
  | inl over ↦ rw over tt
  | inr within ↦
      rw within (
        fail_if-Raises (not (heads % kv == 0)) "workload.model.num_kv_heads"
          "must divide num_heads")
]

check_kv_heads-Raises :
    (m : Fields)
    → has "num_heads" m ≡ true
    → (v : Value) (path : String) → Raises IsValueError (check_kv_heads m v path)
unfolding check_kv_heads
check_kv_heads-Raises m h v path =
    Raises->>= IsValueError (positive_int v path) _
      (Raises-discard IsValueError (positive_int v path) (positive_int-Raises v path))
      λ kv _.
        Raises->>= IsValueError (positive_entry "num_heads" m) _
          (positive_entry-Raises "num_heads" m h) λ heads _. heads_divide-Raises heads kv

all_required :
    (m : Fields)
    → not (all (λ k. has k m) required_model_spec_fields) ≡ false
    → All (λ k. has k m ≡ true) required_model_spec_fields
all_required m h = ground arith

present-Raises :
    (m : Fields)
    → has_other_key m ≡ false
    → All (λ k. has k m ≡ true) required_model_spec_fields
    → Raises IsValueError (all_checks (model_checks m))
unfolding model_checks
present-Raises m texts (name, (layers, (hidden, (heads, (dim, (ffn, _)))))) =
    Raises-all_checks IsValueError (model_checks m) (
      reject_unknown-Raises m supported_model_spec_fields "workload.model" texts,
      (
        fail_if-Raises (not (all (λ k. has k m) required_model_spec_fields)) "workload.model"
            "missing required field(s)",
        (
          check_at-Raises nonempty_text nonempty_text-Raises "name" m name,
          (
            each-Raises (λ k. check_at is_positive_int k m) model_sizes
                (
                  positive "num_layers" layers,
                  (
                    positive "hidden_size" hidden,
                    (
                      positive "num_heads" heads,
                      (positive "head_dim" dim, (positive "ffn_hidden_size" ffn, tt)),
                    ),
                  ),
                ),
            (
              check_if_present-Raises (check_kv_heads m) (check_kv_heads-Raises m heads)
                  "num_kv_heads" m,
              (
                check_if_present-Raises (is_choice supported_ffn_variants)
                    (choice-Raises supported_ffn_variants) "ffn_variant" m,
                (
                  each-Raises (λ k. check_if_present nonempty_text k m) model_texts
                      (text "activation", (text "citation", (text "paper_anchor", tt))),
                  tt,
                ),
              ),
            ),
          ),
        ),
      ),
    )
  where
    positive : (k : String) → has k m ≡ true → Raises IsValueError (check_at is_positive_int k m)
    positive k h = check_at-Raises is_positive_int positive_int-Raises k m h

    text : (k : String) → Raises IsValueError (check_if_present nonempty_text k m)
    text k = check_if_present-Raises nonempty_text nonempty_text-Raises k m

missing-Raises :
    (m : Fields)
    → has_other_key m ≡ false
    → not (all (λ k. has k m) required_model_spec_fields) ≡ true
    → Raises IsValueError (all_checks (model_checks m))
unfolding model_checks fail_if
missing-Raises m texts h =
    Raises->> IsValueError (reject_unknown m supported_model_spec_fields "workload.model") _
      (reject_unknown-Raises m supported_model_spec_fields "workload.model" texts) (λ _. rw h tt)

check_model_spec-Raises :
    (m : Fields) → has_other_key m ≡ false → Raises IsValueError (check_model_spec m)
unfolding check_model_spec
check_model_spec-Raises m texts =
    elim (Bool-cases (not (all (λ k. has k m) required_model_spec_fields))) [
      | inl missing ↦ missing-Raises m texts missing
      | inr all_there ↦ present-Raises m texts (all_required m all_there)
    ]

-- Given a value whose dictionaries have texts for keys, `_resolve_model` raises nothing but
-- `ValueError`.
pub resolve_model-Raises : (v : Value) → TextKeys v → Raises IsValueError (resolve_model v)
unfolding resolve_model expect_mapping TextKeys
resolve_model-Raises (str name) h = elim (Option-cases (supported_model_phases name)) [
  | inl unknown ↦ rw unknown tt
  | inr (phases, known) ↦ rw known tt
]
resolve_model-Raises (obj m) h =
    Raises->> IsValueError (check_model_spec m) _ (check_model_spec-Raises m (no_other_key m h))
      (λ _. tt)
resolve_model-Raises _ h = tt
