-- ===== src/Config/Model/Accepted.antt =====
-- The models that `_resolve_model` accepts.
use ramulator.Prelude.{
  ℕ, suc, ◌%◌, String, ◌≡◌, ◌↔◌, ◌⊎◌, refl, ap, sym, ◌∙◌, true, false, not, none, some, List, all,
  all_checks-ok_iff, Checked, ok, ok_inj, All, >>-ok_iff, Option-cases, inl, inr, ltb, ◌==◌, ==_iff,
  arith, bind_elim, then_elim,
}
use ramulator.Prelude.Int.{pos}
use ramulator.PyValue.{Value, Fields, null, bool, int, float, str, arr, obj, get, has, index}
use ramulator.Config.Check.{
  fail_if, positive_int, nonempty_text, check_at, is_choice, expect_mapping, positive_entry,
}
use ramulator.Config.Check.Laws.{
  KnownKeys, HasPositive, HasChoice, HasText, reject_unknown-ok_iff, positive_at-ok_iff,
  choice_at-ok_iff, text_at-ok_iff, each-ok_iff, check_if_present-ok_iff, check_at_found,
  check_at_ok, fail_if-ok_iff, positive_int_value, positive_entry_value,
}
use ramulator.Config.Model.{
  supported_model_phases, supported_model_spec_fields, required_model_spec_fields, model_sizes,
  model_texts, supported_ffn_variants, heads_divide, check_kv_heads, check_model_spec, model_checks,
  check_model_spec, resolve_model,
}

-- An entry that is left out or satisfies a condition.
abbrev pub Optional : Type 0 → Fields → String → Type 0
Optional P d k = (get k d ≡ none) ⊎ P

-- The heads of keys and values divide the heads of queries.
abbrev pub HasKvHeads : Fields → Type 0
HasKvHeads m =
    (kv heads : ℕ) × (get "num_kv_heads" m ≡ some (int (pos (suc kv))))
    × (get "num_heads" m ≡ some (int (pos (suc heads))))
    × (suc heads % suc kv ≡ 0)

pub record IsModelSpec (m : Fields) : Type 0 where
  pub known : KnownKeys supported_model_spec_fields m
  pub named : HasText m "name"
  pub sized : All (HasPositive m) model_sizes
  pub kv_heads : Optional (HasKvHeads m) m "num_kv_heads"
  pub ffn_variant : Optional (HasChoice supported_ffn_variants m "ffn_variant") m "ffn_variant"
  pub texts : All (λ k. Optional (HasText m k) m k) model_texts

abbrev within : ℕ → ℕ → Checked
within heads kv =
    fail_if (ltb (suc heads) (suc kv)) "workload.model.num_kv_heads" "must not exceed num_heads"

abbrev even : ℕ → ℕ → Checked
even heads kv =
    fail_if (not (suc heads % suc kv == 0)) "workload.model.num_kv_heads" "must divide num_heads"

heads_divide-ok_iff :
    (heads kv : ℕ) → (heads_divide (suc heads) (suc kv) ≡ ok tt) ↔ (suc heads % suc kv ≡ 0)
unfolding heads_divide
heads_divide-ok_iff heads kv = (
  λ h.
      let (_, divides) = (>>-ok_iff (within heads kv) (even heads kv)).0 h in
      let zero_left = (fail_if-ok_iff _ _ _).0 divides in
      ground (arith, zero_left, ==_iff (suc heads % suc kv) 0),
  λ h.
      (>>-ok_iff (within heads kv) (even heads kv)).1
        ((fail_if-ok_iff _ _ _).1 (grind (arith, h)), (fail_if-ok_iff _ _ _).1 (rw h refl)),
)

kv_heads_ok :
    (m : Fields) (kv heads : ℕ)
    → get "num_kv_heads" m ≡ some (int (pos (suc kv)))
    → get "num_heads" m ≡ some (int (pos (suc heads)))
    → check_at (check_kv_heads m) "num_kv_heads" m ≡ heads_divide (suc heads) (suc kv)
unfolding check_kv_heads positive_int
kv_heads_ok m kv heads found queries =
    check_at_found (check_kv_heads m) "num_kv_heads" m found ∙ rw (queries, index) refl

both_heads :
    (m : Fields) (v : Value)
    → check_kv_heads m v "num_kv_heads" ≡ ok tt
    → (kv heads : ℕ) × (v ≡ int (pos (suc kv))) × (get "num_heads" m ≡ some (int (pos (suc heads))))
unfolding check_kv_heads
both_heads m v h = bind_elim (positive_int v "num_kv_heads") _ h λ kv ev h1.
    bind_elim (positive_entry "num_heads" m) _ h1 λ heads eh h2.
      let (j, _, is_kv) = positive_int_value v _ ev in
      let (i, _, found) = positive_entry_value "num_heads" m eh in (j, i, is_kv, found)

kv_heads-ok_iff :
    (m : Fields) → (check_at (check_kv_heads m) "num_kv_heads" m ≡ ok tt) ↔ HasKvHeads m
kv_heads-ok_iff m = (
  λ h.
      let (v, found, good) = check_at_ok (check_kv_heads m) "num_kv_heads" m h in
      let (kv, heads, e, queries) = both_heads m v good in
      let found' = found ∙ ap some e in
      (
        kv,
        heads,
        found',
        queries,
        (heads_divide-ok_iff heads kv).0 (sym (kv_heads_ok m kv heads found' queries) ∙ h),
      ),
  λ p. kv_heads_ok m p.0 p.1 p.2 p.3 ∙ (heads_divide-ok_iff p.1 p.0).1 p.4,
)

has_found : (k : String) (m : Fields) {v : Value} → get k m ≡ some v → has k m ≡ true
has_found k m h = rw (h, has) refl

required_present :
    (m : Fields)
    → HasText m "name"
    → All (HasPositive m) model_sizes
    → not (all (λ k. has k m) required_model_spec_fields) ≡ false
required_present m h k =
    let (layers, (hidden, (heads, (head_dim, (ffn, _))))) = k in
    rw (
      has_found "name" m h.1,
      has_found "num_layers" m layers.1,
      has_found "hidden_size" m hidden.1,
      has_found "num_heads" m heads.1,
      has_found "head_dim" m head_dim.1,
      has_found "ffn_hidden_size" m ffn.1,
    )

pub check_model_spec-ok_iff : (m : Fields) → (check_model_spec m ≡ ok tt) ↔ IsModelSpec m
unfolding check_model_spec
check_model_spec-ok_iff m = (
  λ h.
      let (c0, (_, (c2, (c3, (c4, (c5, (c6, _))))))) = (all_checks-ok_iff (model_checks m)).0 h in
      record {
        known = (reject_unknown-ok_iff m _ _).0 c0;
        named = (text_at-ok_iff m "name").0 c2;
        sized = (each-ok_iff (HasPositive m) _ (positive_at-ok_iff m) model_sizes).0 c3;
        kv_heads = (check_if_present-ok_iff _ (check_kv_heads m) m _ (kv_heads-ok_iff m)).0 c4;
        ffn_variant =
            (check_if_present-ok_iff _ (is_choice supported_ffn_variants) m _
                (choice_at-ok_iff _ m _)).0
              c5;
        texts =
            (each-ok_iff (λ k. Optional (HasText m k) m k) _
                (λ k. check_if_present-ok_iff _ nonempty_text m k (text_at-ok_iff m k))
                model_texts).0
              c6;
      },
  λ s. (all_checks-ok_iff (model_checks m)).1 (
    (reject_unknown-ok_iff m _ _).1 s.known,
    (
      (fail_if-ok_iff _ _ _).1 (required_present m s.named s.sized),
      (
        (text_at-ok_iff m "name").1 s.named,
        (
          (each-ok_iff (HasPositive m) _ (positive_at-ok_iff m) model_sizes).1 s.sized,
          (
            (check_if_present-ok_iff _ (check_kv_heads m) m _ (kv_heads-ok_iff m)).1 s.kv_heads,
            (
              (check_if_present-ok_iff _ (is_choice supported_ffn_variants) m _
                    (choice_at-ok_iff _ m _)).1
                  s.ffn_variant,
              (
                (each-ok_iff (λ k. Optional (HasText m k) m k) _
                      (λ k. check_if_present-ok_iff _ nonempty_text m k (text_at-ok_iff m k))
                      model_texts).1
                    s.texts,
                tt,
              ),
            ),
          ),
        ),
      ),
    ),
  ),
)

-- A built-in model by its name, or the sizes of a dense one.
abbrev pub IsModel : Value → Type 0
IsModel v =
    ((name : String) × (phases : List String) × (v ≡ str name)
      × (supported_model_phases name ≡ some phases))
    ⊎ ((m : Fields) × (v ≡ obj m) × IsModelSpec m)

built_in :
    (name : String) (v : Value)
    → resolve_model (str name) ≡ ok v
    → (v ≡ str name) × IsModel (str name)
unfolding resolve_model
built_in name v h = elim (Option-cases (supported_model_phases name)) [
  | inl unknown ↦ absurd (cc (rw unknown at h))
  | inr (phases, known) ↦ (sym (ok_inj (rw known at h)), inl (name, phases, refl, known))
]

custom : (m : Fields) (v : Value) → resolve_model (obj m) ≡ ok v → (v ≡ obj m) × IsModel (obj m)
unfolding resolve_model expect_mapping
custom m v h =
    then_elim (check_model_spec m) _ h
      λ good e. (sym (ok_inj e), inr (m, refl, (check_model_spec-ok_iff m).0 good))

resolve_model_sound : (u v : Value) → resolve_model u ≡ ok v → (v ≡ u) × IsModel u
unfolding resolve_model expect_mapping
resolve_model_sound (str name) v h = built_in name v h
resolve_model_sound (obj m) v h = custom m v h
resolve_model_sound null v h = absurd (cc)
resolve_model_sound (bool b) v h = absurd (cc)
resolve_model_sound (int z) v h = absurd (cc)
resolve_model_sound (float x) v h = absurd (cc)
resolve_model_sound (arr vs) v h = absurd (cc)

resolve_model_complete : (v : Value) → IsModel v → resolve_model v ≡ ok v
unfolding resolve_model expect_mapping
resolve_model_complete v (inl (name, phases, e, known)) = rw e (rw known refl)
resolve_model_complete v (inr (m, e, spec)) = rw e (rw ((check_model_spec-ok_iff m).1 spec) refl)

-- `_resolve_model` returns a value as it is exactly if it names a built-in model, or has a text for
-- `name`, positive integers for the five sizes, heads of keys and values (if given) that divide the
-- heads of queries, an FFN variant (if given) of the three, texts for the rest, and no other key.
pub resolve_model-ok_iff : (u v : Value) → (resolve_model u ≡ ok v) ↔ ((v ≡ u) × IsModel u)
resolve_model-ok_iff u v =
    (resolve_model_sound u v, λ p. resolve_model_complete u p.1 ∙ ap ok (sym p.0))
