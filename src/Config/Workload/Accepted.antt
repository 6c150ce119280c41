-- ===== src/Config/Workload/Accepted.antt =====
-- What the checks of `_resolve_workload` accept.
use ramulator.Prelude.{
  String, ◌≡◌, ◌↔◌, ◌⊎◌, refl, Bool, true, false, not, ◌&&◌, some, List, ok, All, all_checks,
  all_checks-ok_iff, inl, inr, bind_elim,
}
use ramulator.PyValue.{Value, Fields, str, obj, get, contains}
use ramulator.Config.Check.{fail_if, is_mapping, entry_is, choice_entry}
use ramulator.Config.Check.Laws.{
  HasPositive, HasNatural, HasChoice, HasMapping, positive_at-ok_iff, nonnegative_at-ok_iff,
  choice_at-ok_iff, each-ok_iff, check_if_present-ok_iff, mapping_at-ok_iff, entry_is-true,
  fail_unless, choice_entry_value, choice_entry_found,
}
use ramulator.Config.Model.{supported_model_phases}
use ramulator.Config.Model.Accepted.{Optional, IsModel}
use ramulator.Config.Workload.{
  supported_workload_datatypes, supported_phases, supported_weight_residency, supported_mac_modes,
  supported_schedule_policies, lengths, limits, workload_checks, in_phases, phase_supported,
  check_model_use,
}

-- A built-in model that supports the phase, or a dense one under the serialized policy.
abbrev pub ModelFits : Value → Fields → Type 0
ModelFits model w =
    ((name : String) × (phases : List String) × (phase : String) × (model ≡ str name)
      × (supported_model_phases name ≡ some phases)
      × (get "phase" w ≡ some (str phase))
      × (contains phase phases ≡ true))
    ⊎ ((m : Fields) × (model ≡ obj m) × (get "schedule_policy" w ≡ some (str "serialized")))

-- `w` is a workload, where the caller gave `supplied`.
pub record IsWorkload (model : Value) (supplied w : Fields) : Type 0 where
  pub surrogate : get "workload_type" w ≡ some (str "structured_transformer_surrogate")
  pub options : Optional (HasMapping supplied "workload_options") supplied "workload_options"
  pub datatype : HasChoice supported_workload_datatypes w "datatype"
  pub phase : HasChoice supported_phases w "phase"
  pub residency : HasChoice supported_weight_residency w "weight_residency"
  pub mac_mode : HasChoice supported_mac_modes w "mac_mode"
  pub policy : HasChoice supported_schedule_policies w "schedule_policy"
  pub lengthy : All (HasPositive w) lengths
  pub seed : HasNatural w "seed"
  pub limited : All (HasPositive w) limits
  pub timeout : HasNatural w "simulation_timeout_seconds"
  pub prefill_serialized :
      get "phase" w ≡ some (str "prefill") → get "schedule_policy" w ≡ some (str "serialized")
  pub model_fits : ModelFits model w

implies_iff :
    (a b : Bool) (path message : String)
    → (fail_if (a && not b) path message ≡ ok tt) ↔ (a ≡ true → b ≡ true)
unfolding fail_if
implies_iff true true path message = (λ _ _. refl, λ _. refl)
implies_iff true false path message = (λ h. absurd (cc), λ h. absurd (cc (h refl)))
implies_iff false b path message = (λ _ h. absurd (cc), λ _. refl)

prefill-ok_iff :
    (w : Fields) (path message : String)
    → (fail_if
          (entry_is "phase" "prefill" w && not (entry_is "schedule_policy" "serialized" w))
          path
          message
        ≡ ok tt)
      ↔ (get "phase" w ≡ some (str "prefill") → get "schedule_policy" w ≡ some (str "serialized"))
prefill-ok_iff w path message =
    let phase = entry_is-true "phase" "prefill" w in
    let policy = entry_is-true "schedule_policy" "serialized" w in
    let both =
      implies_iff (entry_is "phase" "prefill" w) (entry_is "schedule_policy" "serialized" w) path
        message in
    (λ h p. policy.0 (both.0 h (phase.1 p)), λ f. both.1 (λ p. policy.1 (f (phase.0 p))))

phase_supported_sound :
    (phases : List String) (w : Fields)
    → phase_supported (some phases) w ≡ ok tt
    → (phase : String) × (get "phase" w ≡ some (str phase)) × (contains phase phases ≡ true)
unfolding phase_supported in_phases
phase_supported_sound phases w h =
    bind_elim (choice_entry "phase" supported_phases w) (in_phases phases) h λ phase found good. (
      phase,
      choice_entry_value "phase" supported_phases w found,
      (fail_unless (contains phase phases) "workload.phase" "not supported").0 good,
    )

phase_supported_complete :
    (phases : List String) (phase : String) (w : Fields)
    → HasChoice supported_phases w "phase"
    → get "phase" w ≡ some (str phase)
    → contains phase phases ≡ true
    → phase_supported (some phases) w ≡ ok tt
unfolding phase_supported in_phases fail_if
phase_supported_complete phases phase w (t, found, known) at_phase supported =
    let same : t ≡ phase = cc in
    let known' : contains phase supported_phases ≡ true = rw (← same) known in
    rw (choice_entry_found "phase" supported_phases w at_phase known', supported)

check_model_use_sound :
    (model : Value) (w : Fields)
    → IsModel model
    → check_model_use model w ≡ ok tt
    → ModelFits model w
unfolding check_model_use
check_model_use_sound model w (inl (name, phases, e, known)) h =
    let (phase, found, supported) = phase_supported_sound phases w (rw known at (rw e at h)) in
    inl (name, phases, phase, e, known, found, supported)
check_model_use_sound model w (inr (m, e, spec)) h = inr (
  m,
  e,
  (entry_is-true "schedule_policy" "serialized" w).0 (
      (fail_unless (entry_is "schedule_policy" "serialized" w) "workload.schedule_policy"
          "custom dense models currently support only 'serialized'").0
        (rw e at h)),
)

check_model_use_complete :
    (model : Value) (w : Fields)
    → HasChoice supported_phases w "phase"
    → ModelFits model w
    → check_model_use model w ≡ ok tt
unfolding check_model_use fail_if
check_model_use_complete model w c (inl (name, phases, phase, e, known, at_phase, supported)) =
    rw e (rw known (phase_supported_complete phases phase w c at_phase supported))
check_model_use_complete model w c (inr (m, e, serialized)) =
    rw (e, (entry_is-true "schedule_policy" "serialized" w).1 serialized)

pub checks-ok_iff :
    (model : Value) (s w : Fields)
    → IsModel model
    → (all_checks (workload_checks model s w) ≡ ok tt) ↔ IsWorkload model s w
unfolding workload_checks
checks-ok_iff model s w is_model = (
  λ h.
      let (c0, (c1, (c2, (c3, (c4, (c5, (c6, (c7, (c8, (c9, (c10, (c11, (c12, _))))))))))))) =
        (all_checks-ok_iff (workload_checks model s w)).0 h in
      record {
        surrogate = (entry_is-true _ _ w).0 ((fail_unless _ _ _).0 c0);
        options = (check_if_present-ok_iff _ is_mapping s _ (mapping_at-ok_iff s _)).0 c1;
        datatype = (choice_at-ok_iff _ w _).0 c2;
        phase = (choice_at-ok_iff _ w _).0 c3;
        residency = (choice_at-ok_iff _ w _).0 c4;
        mac_mode = (choice_at-ok_iff _ w _).0 c5;
        policy = (choice_at-ok_iff _ w _).0 c6;
        lengthy = (each-ok_iff (HasPositive w) _ (positive_at-ok_iff w) lengths).0 c7;
        seed = (nonnegative_at-ok_iff w _).0 c8;
        limited = (each-ok_iff (HasPositive w) _ (positive_at-ok_iff w) limits).0 c9;
        timeout = (nonnegative_at-ok_iff w _).0 c10;
        prefill_serialized = (prefill-ok_iff w _ _).0 c11;
        model_fits = check_model_use_sound model w is_model c12;
      },
  λ r. (all_checks-ok_iff (workload_checks model s w)).1 (
    (fail_unless _ _ _).1 ((entry_is-true _ _ w).1 r.surrogate),
    (
      (check_if_present-ok_iff _ is_mapping s _ (mapping_at-ok_iff s _)).1 r.options,
      (
        (choice_at-ok_iff _ w _).1 r.datatype,
        (
          (choice_at-ok_iff _ w _).1 r.phase,
          (
            (choice_at-ok_iff _ w _).1 r.residency,
            (
              (choice_at-ok_iff _ w _).1 r.mac_mode,
              (
                (choice_at-ok_iff _ w _).1 r.policy,
                (
                  (each-ok_iff (HasPositive w) _ (positive_at-ok_iff w) lengths).1 r.lengthy,
                  (
                    (nonnegative_at-ok_iff w _).1 r.seed,
                    (
                      (each-ok_iff (HasPositive w) _ (positive_at-ok_iff w) limits).1 r.limited,
                      (
                        (nonnegative_at-ok_iff w _).1 r.timeout,
                        (
                          (prefill-ok_iff w _ _).1 r.prefill_serialized,
                          (check_model_use_complete model w r.phase r.model_fits, tt),
                        ),
                      ),
                    ),
                  ),
                ),
              ),
            ),
          ),
        ),
      ),
    ),
  ),
)
