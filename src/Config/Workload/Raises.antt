-- ===== src/Config/Workload/Raises.antt =====
-- What `_resolve_workload` raises.
use ramulator.Prelude.{
  String, ◌≡◌, refl, true, List, Raises, Raises->>, Raises->>=, Raises-all_checks, all_checks,
  IsValueError, Option-cases, Bool-cases, inl, inr,
}
use mathlib.Core.Path.{subst}
use ramulator.Config.Check.Laws.{expect_mapping_ok}
use ramulator.PyValue.{
  obj, truthy, TextKeys, TextFields, get-TextKeys, update-TextFields, no_other_key, Value, Fields,
  get, has, index, update, has-update,
}
use ramulator.Config.Check.{
  expect_mapping, or_empty, reject_unknown, check_at, is_positive_int, is_nonnegative_int,
  is_choice, is_mapping, choice_entry,
}
use ramulator.Config.Check.Raises.{
  fail_if-Raises, check_at-Raises, check_if_present-Raises, choice-Raises, is_mapping-Raises,
  positive_int-Raises, nonnegative_int-Raises, each-Raises, expect_mapping-Raises,
  reject_unknown-Raises, choice_entry-Raises,
}
use ramulator.Config.Model.Accepted.{IsModel}
use ramulator.Config.Model.Raises.{resolve_model-Raises}
use ramulator.Config.Workload.{
  default_workload, supported_workload_fields, supported_workload_datatypes, supported_phases,
  supported_weight_residency, supported_mac_modes, supported_schedule_policies, lengths, limits,
  workload_checks, set_model, read_model, resolve_supplied, resolve_workload, in_phases,
  phase_supported, check_model_use,
}
use ramulator.Config.Workload.Resolved.{read_model_sound, update_default-set_model}

check_model_use-Raises :
    (model : Value) (w : Fields)
    → IsModel model
    → has "phase" w ≡ true
    → Raises IsValueError (check_model_use model w)
unfolding check_model_use phase_supported in_phases
check_model_use-Raises model w (inl (name, phases, e, known)) h = rw e (
    rw known (
      Raises->>= IsValueError (choice_entry "phase" supported_phases w) (in_phases phases)
        (choice_entry-Raises "phase" supported_phases w h) (λ phase _. fail_if-Raises _ _ _)))
check_model_use-Raises model w (inr (m, e, spec)) h = rw e (fail_if-Raises _ _ _)

abbrev merged : Fields → Fields
merged s = update default_workload s

has_default : (k : String) (s : Fields) → has k default_workload ≡ true → has k (merged s) ≡ true
has_default k s h = has-update k default_workload s h

checks-Raises :
    (model : Value) (s : Fields)
    → IsModel model
    → Raises IsValueError (all_checks (workload_checks model s (merged s)))
unfolding workload_checks default_workload get
checks-Raises model s good =
    let w = merged s in
    Raises-all_checks IsValueError (workload_checks model s w) (
      fail_if-Raises _ _ _,
      (
        check_if_present-Raises is_mapping is_mapping-Raises "workload_options" s,
        (
          among supported_workload_datatypes "datatype" refl,
          (
            among supported_phases "phase" refl,
            (
              among supported_weight_residency "weight_residency" refl,
              (
                among supported_mac_modes "mac_mode" refl,
                (
                  among supported_schedule_policies "schedule_policy" refl,
                  (
                    each-Raises (λ k. check_at is_positive_int k w) lengths
                        (positive "past_len" refl, (positive "prompt_len" refl, tt)),
                    (
                      natural "seed" refl,
                      (
                        each-Raises (λ k. check_at is_positive_int k w) limits
                            (
                              positive "max_inflight_requests" refl,
                              (
                                positive "interleave_depth" refl,
                                (
                                  positive "max_expanded_records" refl,
                                  (positive "max_trace_bytes" refl, tt),
                                ),
                              ),
                            ),
                        (
                          natural "simulation_timeout_seconds" refl,
                          (
                            fail_if-Raises _ _ _,
                            (check_model_use-Raises model w good (has_default "phase" s refl), tt),
                          ),
                        ),
                      ),
                    ),
                  ),
                ),
              ),
            ),
          ),
        ),
      ),
    )
  where
    among :
        (choices : List String) (k : String)
        → has k default_workload ≡ true
        → Raises IsValueError (check_at (is_choice choices) k (merged s))
    among choices k h =
        check_at-Raises (is_choice choices) (choice-Raises choices) k (merged s) (has_default k s h)

    positive :
        (k : String)
        → has k default_workload ≡ true
        → Raises IsValueError (check_at is_positive_int k (merged s))
    positive k h =
        check_at-Raises is_positive_int positive_int-Raises k (merged s) (has_default k s h)

    natural :
        (k : String)
        → has k default_workload ≡ true
        → Raises IsValueError (check_at is_nonnegative_int k (merged s))
    natural k h =
        check_at-Raises is_nonnegative_int nonnegative_int-Raises k (merged s) (has_default k s h)

read_model-Raises :
    (d : Fields) → TextFields d → has "model" d ≡ true → Raises IsValueError (read_model d)
unfolding read_model
read_model-Raises d texts h = elim (Option-cases (get "model" d)) [
  | inl missing ↦ absurd (cc (rw missing at h))
  | inr (v, found) ↦ rw (found, index) (resolve_model-Raises v (get-TextKeys "model" d texts found))
]

has_model : (s : Fields) → has "model" (merged s) ≡ true
unfolding default_workload get
has_model s = has_default "model" s refl

default_workload-TextFields : TextFields default_workload
unfolding default_workload TextFields TextKeys
default_workload-TextFields = search

resolve_supplied-Raises : (s : Fields) → TextFields s → Raises IsValueError (resolve_supplied s)
unfolding resolve_supplied
resolve_supplied-Raises s texts =
    Raises->> IsValueError (reject_unknown s supported_workload_fields "workload") _
      (reject_unknown-Raises s _ _ (no_other_key s texts))
      λ _.
        Raises->>= IsValueError (read_model (merged s)) _
          (read_model-Raises (merged s)
            (update-TextFields default_workload s default_workload-TextFields texts) (has_model s))
          λ model read.
            let (named, good) = read_model_sound (merged s) model read in
            Raises->> IsValueError
              (all_checks (workload_checks model s (set_model model (merged s)))) _
              (rw (update_default-set_model s model named) (checks-Raises model s good)) (λ _. tt)

or_empty-TextFields : (v : Value) (s : Fields) → TextKeys v → or_empty v ≡ obj s → TextFields s
unfolding TextKeys TextFields
or_empty-TextFields v s texts e = elim (Bool-cases (truthy v)) [
  | inl full ↦ subst TextKeys (rw full at e) texts
  | inr empty ↦ subst TextKeys (rw empty at e) tt
]

-- Given a value whose dictionaries have texts for keys, as those of JSON have, `_resolve_workload`
-- raises nothing but `ValueError`.
pub resolve_workload-Raises :
    (raw : Value) → TextKeys raw → Raises IsValueError (resolve_workload raw)
unfolding resolve_workload TextKeys TextFields
resolve_workload-Raises raw texts =
    Raises->>= IsValueError (expect_mapping (or_empty raw) "workload") resolve_supplied
      (expect_mapping-Raises (or_empty raw) "workload")
      λ s e. resolve_supplied-Raises s (or_empty-TextFields raw s texts (expect_mapping_ok _ _ e))
