-- ===== src/Semantic/Manifest/Valid.antt =====
-- `validate_manifest` accepts valid manifests only.
use ramulator.Prelude.{
  String, ◌≡◌, ◌⊎◌, refl, ap, sym, ◌∙◌, Bool, true, false, not, ◌&&◌, some, [], ◌∷◌, any, all,
  str_eq, eq_iff, ok, raise_if, raise_if-ok, bind_elim, then_elim, ◌>>=◌, Bool-cases, inl, inr,
}
use ramulator.PyValue.{
  Value, Fields, null, bool, int, float, str, arr, obj, get, has, index, get_or_default, truthy,
  equals_text, equals_nat, equals_text-true,
}
use ramulator.Semantic.Kinds
use ramulator.Semantic.Membership.{le_zero, in_texts, is_infix}
use ramulator.Semantic.Membership.Laws.{index_value}
use ramulator.Semantic.Manifest.{
  scale_fields, as_set, overlap, texts_of, is_nil, check_operators, differs, is_mixed, check_phase,
  validate_manifest,
}
use ramulator.Semantic.Manifest.Accepted.{
  IsManifest, IsOperators, IsDecode, IsMixed, nil_of, scale_fields-Clean, disjoint, is_true,
  classes, texts_of_lem, gemv_ops, every_one,
}

check_operators-IsOperators : (d : Fields) → check_operators d ≡ ok tt → IsOperators d
unfolding check_operators
check_operators-IsOperators d h =
    bind_elim (index "pim_compute_operator_classes" d >>= as_set) _ h λ pim ep h1.
      bind_elim (index "host_support_record_classes" d >>= as_set) _ h1 λ host eh h2.
        then_elim
          (raise_if (overlap pim host)
            "Operator classes overlap between pim_compute and host_support")
          _ h2
          λ d1 h3.
            bind_elim (index "host_only_provenance_classes" d >>= as_set) _ h3 λ provenance er h4.
              then_elim
                (raise_if (overlap pim provenance)
                  "Operator classes overlap between pim_compute and host_only_provenance")
                _ h4
                λ d2 h5.
                  then_elim
                    (raise_if (overlap host provenance)
                      "Operator classes overlap between host_support and host_only_provenance")
                    _ h5
                    λ d3 h6.
                      then_elim
                        (raise_if
                          (not (all (λ op. any (equals_text op) host) Kinds.kv_cache_read_ops))
                          "host_support_record_classes must include KV cache reads")
                        _ h6
                        λ kv h7. bind_elim (texts_of pim) _ h7 λ ops eo h8.
                          then_elim
                            (raise_if (any (is_infix "cache_read") ops)
                              "KV cache reads must be in host_support_record_classes")
                            _ h8
                            λ no_read h9. record {
                              pim = pim;
                              host = host;
                              provenance = provenance;
                              pim_classes = classes "pim_compute_operator_classes" d ep;
                              host_classes = classes "host_support_record_classes" d eh;
                              provenance_classes = classes "host_only_provenance_classes" d er;
                              pim_host = disjoint pim host (raise_if-ok _ _ d1);
                              pim_provenance = disjoint pim provenance (raise_if-ok _ _ d2);
                              host_provenance = disjoint host provenance (raise_if-ok _ _ d3);
                              reads_cache =
                                  every_one (λ op. any (equals_text op) host)
                                    Kinds.kv_cache_read_ops (is_true _ _ kv);
                              ops = ops;
                              pim_texts = texts_of_lem pim eo;
                              gemv = gemv_ops ops (raise_if-ok _ _ no_read) (raise_if-ok _ _ h9);
                            }

approved :
    (b : Bool) (k text message : String) (d : Fields)
    → raise_if (b && differs k text d) message ≡ ok tt
    → b ≡ true
    → get_or_default k null d ≡ str text
approved b k text message d h on =
    (equals_text-true text (get_or_default k null d)).0 (is_true _ message (rw on at h))

-- The phase is a text of the two.
two_phases :
    (v : Value)
    → in_texts v ("decode" ∷ "mixed_prefill_decode" ∷ []) ≡ ok true
    → (v ≡ str "decode") ⊎ (v ≡ str "mixed_prefill_decode")
unfolding in_texts
two_phases (str s) h = elim (Bool-cases (str_eq "decode" s)) [
  | inl first ↦ inl (ap str (sym ((eq_iff "decode" s).0 first)))
  | inr other ↦ elim (Bool-cases (str_eq "mixed_prefill_decode" s)) [
    | inl second ↦ inr (ap str (sym ((eq_iff "mixed_prefill_decode" s).0 second)))
    | inr neither ↦ absurd (cc (rw (other, neither) at h))
  ]
]
two_phases null h = absurd (cc)
two_phases (bool b) h = absurd (cc)
two_phases (int z) h = absurd (cc)
two_phases (float x) h = absurd (cc)
two_phases (arr vs) h = absurd (cc)
two_phases (obj d) h = absurd (cc)

-- What `check_phase` has tested, before the modes are told apart.
record IsPhase (d : Fields) : Type 0 where
  pub phase : Value
  pub has_phase : get "phase" d ≡ some phase
  pub allowed : in_texts phase ("decode" ∷ "mixed_prefill_decode" ∷ []) ≡ ok true
  pub approval : is_mixed d ≡ true → get_or_default "mixed_phase_approval" null d ≡ str "P2.9c"
  pub only_mixed : (equals_text "mixed_prefill_decode" phase && not (is_mixed d)) ≡ false
  pub mixed_only : (is_mixed d && not (equals_text "mixed_prefill_decode" phase)) ≡ false
  pub batch : (v : Value) × (get "batch" d ≡ some v) × (equals_nat 1 v ≡ true)
  pub tokens : Value
  pub has_tokens : get "generated_tokens" d ≡ some tokens
  pub positive : le_zero tokens ≡ ok false
  pub one_token : (not (is_mixed d) && not (equals_nat 1 tokens)) ≡ false

check_phase-IsPhase : (d : Fields) → check_phase d ≡ ok tt → IsPhase d
unfolding check_phase
check_phase-IsPhase d h =
    then_elim
      (raise_if (is_mixed d && differs "mixed_phase_approval" "P2.9c" d)
        "Mixed prefill/decode generation requires mixed_phase_approval='P2.9c'")
      _ h
      λ approval h1. bind_elim (index "phase" d) _ h1 λ phase ep h2.
        bind_elim (in_texts phase ("decode" ∷ "mixed_prefill_decode" ∷ [])) _ h2 λ allowed ea h3.
          then_elim (raise_if (not allowed) "Phase 2 semantic generator does not support the phase")
            _ h3
            λ is_allowed h4.
              then_elim
                (raise_if (equals_text "mixed_prefill_decode" phase && not (is_mixed d))
                  "phase='mixed_prefill_decode' requires mixed_phase_extension=True")
                _ h4
                λ only_mixed h5.
                  then_elim
                    (raise_if (is_mixed d && not (equals_text "mixed_prefill_decode" phase))
                      "mixed_phase_extension=True requires phase='mixed_prefill_decode'")
                    _ h5
                    λ mixed_only h6. bind_elim (index "batch" d) _ h6 λ batch eb h7.
                      then_elim
                        (raise_if (not (equals_nat 1 batch))
                          "Phase 2 semantic generator only supports batch=1")
                        _ h7
                        λ one h8. bind_elim (index "generated_tokens" d) _ h8 λ tokens et h9.
                          bind_elim (le_zero tokens) _ h9 λ none_left el h10.
                            then_elim (raise_if none_left "generated_tokens must be positive") _ h10
                              λ positive h11. record {
                                phase = phase;
                                has_phase = index_value "phase" d ep;
                                allowed = ea ∙ ap ok (is_true allowed _ is_allowed);
                                approval = approved (is_mixed d) _ "P2.9c" _ d approval;
                                only_mixed = raise_if-ok _ _ only_mixed;
                                mixed_only = raise_if-ok _ _ mixed_only;
                                batch = (
                                  batch,
                                  index_value "batch" d eb,
                                  is_true (equals_nat 1 batch) _ one,
                                );
                                tokens = tokens;
                                has_tokens = index_value "generated_tokens" d et;
                                positive = el ∙ ap ok (raise_if-ok none_left _ positive);
                                one_token = raise_if-ok _ _ h11;
                              }

of_not : (b : Bool) → not b ≡ false → b ≡ true
of_not true h = refl
of_not false h = cc

IsPhase-IsDecode : (d : Fields) (p : IsPhase d) → p.phase ≡ str "decode" → IsDecode d
IsPhase-IsDecode d p e =
    let unmixed : is_mixed d ≡ false = and_true (is_mixed d) (rw e at p.mixed_only) in
    (
      p.tokens,
      unmixed,
      p.has_phase ∙ ap some e,
      p.has_tokens,
      of_not (equals_nat 1 p.tokens) (rw unmixed at p.one_token),
    )
  where
    and_true : (b : Bool) → (b && true) ≡ false → b ≡ false
    and_true true h = absurd (cc)
    and_true false h = refl

IsPhase-IsMixed : (d : Fields) (p : IsPhase d) → p.phase ≡ str "mixed_prefill_decode" → IsMixed d
IsPhase-IsMixed d p e =
    let mixed : is_mixed d ≡ true = of_not (is_mixed d) (rw e at p.only_mixed) in
    (p.tokens, mixed, p.has_phase ∙ ap some e, p.has_tokens, p.positive, p.approval mixed)

mode_of : (d : Fields) (p : IsPhase d) → IsDecode d ⊎ IsMixed d
mode_of d p = elim (two_phases p.phase p.allowed) [
  | inl decode ↦ inl (IsPhase-IsDecode d p decode)
  | inr mixed ↦ inr (IsPhase-IsMixed d p mixed)
]

-- A manifest that is accepted has the required fields, one batch, and either decodes one token or is the
-- approved mix of prefill and decode with a number of tokens that is not `<= 0`; its all-bank records, if it enables them, are approved;
-- no key at any depth is a datatype scale; and its operator classes are pairwise disjoint, the ones for
-- PIM are GEMV operators that read no cache, and both cache reads are among those of the host.
pub validate_manifest-IsManifest : (d : Fields) → validate_manifest d ≡ ok tt → IsManifest d
unfolding validate_manifest
validate_manifest-IsManifest d h =
    then_elim
      (raise_if (not (all (λ k. has k d) Kinds.required_manifest_fields))
        "Manifest missing required fields")
      _ h
      λ present h1. then_elim (check_phase d) _ h1 λ phase h2.
        then_elim
          (raise_if
            (truthy (get_or_default "enable_all_bank_records" null d)
              && differs "all_bank_records_approval" "P2.9b" d)
            "All-bank record generation requires all_bank_records_approval='P2.9b'")
          _ h2
          λ all_bank h3.
            then_elim
              (raise_if (not (is_nil (scale_fields (obj d))))
                "Datatype scaling fields are not supported")
              _ h3
              λ clean h4.
                let p = check_phase-IsPhase d phase in
                record {
                  present =
                      every_one (λ k. has k d) Kinds.required_manifest_fields (is_true _ _ present);
                  phase = mode_of d p;
                  batch = p.batch;
                  all_bank = approved _ "all_bank_records_approval" "P2.9b" _ d all_bank;
                  clean =
                      scale_fields-Clean (obj d)
                        (nil_of (scale_fields (obj d)) (is_true _ _ clean));
                  operators = check_operators-IsOperators d h4;
                }
