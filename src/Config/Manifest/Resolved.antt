-- ===== src/Config/Manifest/Resolved.antt =====
-- What `resolve_experiment_manifest` returns, and when.
use mathlib.Core.Path.{subst}
use ramulator.Prelude.{
  refl, String, ◌≡◌, ◌↔◌, ap, sym, ◌∙◌, not, some, [], ◌∷◌, ok, ok_inj, true, false, bind_elim,
  then_elim, eq_iff, ◌>>=◌,
}
use ramulator.Prelude.Int.{pos}
use ramulator.PyValue.{
  Value, Fields, end, int, str, obj, get, get_or_default, equals_nat, is_blank_text,
}
use ramulator.Config.Check.{
  fail_if, expect_mapping, or_empty, reject_unknown, nonempty_text, choice_entry,
}
use ramulator.Config.Check.Laws.{
  KnownKeys, expect_mapping_ok, reject_unknown-ok_iff, nonempty_text_ok, choice_entry_value,
  choice_entry_found, fail_unless, fail_if-ok_iff,
}
use ramulator.Config.Hardware
use ramulator.Config.Hardware.{resolve_hardware}
use ramulator.Config.Hardware.Defaults.{Hardware, supported_pim_datatypes}
use ramulator.Config.Hardware.Resolved as HardwareResolved
use ramulator.Config.Workload
use ramulator.Config.Workload.{resolve_workload, supported_workload_datatypes}
use ramulator.Config.Workload.Resolved as WorkloadResolved
use ramulator.Config.Manifest.{
  Manifest, default_output, supported_top_level_fields, output_path_of, datatypes_agree,
  resolve_fields, resolve_experiment_manifest,
}

abbrev pub IsFilled : Value → Type 0
IsFilled v = (t : String) × (v ≡ str t) × (is_blank_text t ≡ false)

-- A section of the manifest is this dictionary; a missing or empty value stands for the empty one.
abbrev pub IsSection : String → Fields → Fields → Type 0
IsSection k raw s = or_empty (get_or_default k (obj end) raw) ≡ obj s

-- The path of the output section, which is optional and so is its entry.
pub record HasOutput (raw : Fields) (path : Value) : Type 0 where
  pub output : Fields
  pub given : get_or_default "output" default_output raw ≡ obj output
  pub known : KnownKeys ("path" ∷ []) output
  pub entry : path ≡ get_or_default "path" (str "results/custom/result.json") output
  pub filled : IsFilled path

pub record Resolves (raw : Fields) (m : Manifest) : Type 0 where
  pub known : KnownKeys supported_top_level_fields raw
  pub schema : equals_nat 1 (get_or_default "schema_version" (int (pos 1)) raw) ≡ true
  pub experiment : m.experiment ≡ get_or_default "experiment" (str "pimscope-experiment") raw
  pub named : IsFilled m.experiment
  pub output : HasOutput raw m.output_path
  pub hardware_section : Fields
  pub hardware_given : IsSection "hardware" raw hardware_section
  pub hardware : HardwareResolved.Resolves hardware_section m.hardware
  pub workload_section : Fields
  pub workload_given : IsSection "workload" raw workload_section
  pub workload : WorkloadResolved.Resolves workload_section m.workload
  pub same_datatype : get "pim_datatype" m.hardware.pim ≡ get "datatype" m.workload

nonempty_text_filled : (v : Value) (path : String) → IsFilled v → nonempty_text v path ≡ ok tt
unfolding nonempty_text
nonempty_text_filled v path (t, e, filled) = rw e ((fail_if-ok_iff _ _ _).1 filled)

hardware_sound :
    (v : Value) (h : Hardware)
    → resolve_hardware v ≡ ok h
    → (s : Fields) × (or_empty v ≡ obj s) × HardwareResolved.Resolves s h
unfolding resolve_hardware
hardware_sound v h e =
    bind_elim (expect_mapping (or_empty v) "hardware") Hardware.resolve_supplied e λ s given good.
      (s, expect_mapping_ok _ _ given, HardwareResolved.resolve_supplied_sound s h good)

hardware_complete :
    (v : Value) (s : Fields) (h : Hardware)
    → or_empty v ≡ obj s
    → HardwareResolved.Resolves s h
    → resolve_hardware v ≡ ok h
unfolding resolve_hardware expect_mapping
hardware_complete v s h given r =
    ap (λ (u : Value). expect_mapping u "hardware" >>= Hardware.resolve_supplied) given
    ∙ HardwareResolved.resolve_supplied_complete s h r

workload_sound :
    (v : Value) (w : Fields)
    → resolve_workload v ≡ ok w
    → (s : Fields) × (or_empty v ≡ obj s) × WorkloadResolved.Resolves s w
unfolding resolve_workload
workload_sound v w e =
    bind_elim (expect_mapping (or_empty v) "workload") Workload.resolve_supplied e λ s given good.
      (s, expect_mapping_ok _ _ given, WorkloadResolved.resolve_supplied_sound s w good)

workload_complete :
    (v : Value) (s w : Fields)
    → or_empty v ≡ obj s
    → WorkloadResolved.Resolves s w
    → resolve_workload v ≡ ok w
unfolding resolve_workload expect_mapping
workload_complete v s w given r =
    ap (λ (u : Value). expect_mapping u "workload" >>= Workload.resolve_supplied) given
    ∙ WorkloadResolved.resolve_supplied_complete s w r

output_path_sound : (raw : Fields) (v : Value) → output_path_of raw ≡ ok v → HasOutput raw v
unfolding output_path_of
output_path_sound raw v h =
    bind_elim (expect_mapping (get_or_default "output" default_output raw) "output") _ h
      λ output given h1. then_elim (reject_unknown output ("path" ∷ []) "output") _ h1 λ known h2.
        then_elim (nonempty_text (path output) "output.path") _ h2 λ filled h3.
          let (t, e, full) = nonempty_text_ok (path output) "output.path" filled in
          record {
            output = output;
            given = expect_mapping_ok _ _ given;
            known = (reject_unknown-ok_iff output _ _).0 known;
            entry = sym (ok_inj h3);
            filled = (t, sym (ok_inj h3) ∙ e, full);
          }
  where
    path : Fields → Value
    path output = get_or_default "path" (str "results/custom/result.json") output

output_path_complete : (raw : Fields) (v : Value) → HasOutput raw v → output_path_of raw ≡ ok v
unfolding output_path_of expect_mapping
output_path_complete raw v o =
    rw
      (
        o.given,
        (reject_unknown-ok_iff o.output ("path" ∷ []) "output").1 o.known,
        ← o.entry,
        nonempty_text_filled v "output.path" o.filled,
      )
      refl

datatypes_same :
    (h : Hardware) (w : Fields)
    → datatypes_agree h w ≡ ok tt
    → get "pim_datatype" h.pim ≡ get "datatype" w
unfolding datatypes_agree
datatypes_same h w e =
    bind_elim (choice_entry "pim_datatype" supported_pim_datatypes h.pim) _ e λ p ep e1.
      bind_elim (choice_entry "datatype" supported_workload_datatypes w) _ e1 λ d ed e2.
        let same : p ≡ d = (eq_iff p d).0 ((fail_unless _ _ _).0 e2) in
        choice_entry_value _ _ h.pim ep
        ∙ ap (λ s. some (str s)) same
        ∙ sym (choice_entry_value _ _ w ed)

datatypes_agree_complete :
    (h : Hardware) (w s t : Fields)
    → HardwareResolved.Resolves s h
    → WorkloadResolved.Resolves t w
    → get "pim_datatype" h.pim ≡ get "datatype" w
    → datatypes_agree h w ≡ ok tt
unfolding datatypes_agree
datatypes_agree_complete h w s t hardware workload same =
    let (p, at_p, known_p) = hardware.is_hardware.pim.datatype in
    let (d, at_d, known_d) = workload.is_workload.datatype in
    let equal : p ≡ d = cc in
    rw
      (
        choice_entry_found "pim_datatype" supported_pim_datatypes h.pim at_p known_p,
        choice_entry_found "datatype" supported_workload_datatypes w at_d known_d,
      )
      ((fail_unless _ _ _).1 ((eq_iff p d).1 equal))

experiment_of : Fields → Value
experiment_of raw = get_or_default "experiment" (str "pimscope-experiment") raw

resolve_fields_sound : (raw : Fields) (m : Manifest) → resolve_fields raw ≡ ok m → Resolves raw m
unfolding resolve_fields experiment_of
resolve_fields_sound raw m h =
    then_elim (reject_unknown raw supported_top_level_fields "manifest") _ h λ known h1.
      then_elim
        (fail_if (not (equals_nat 1 (get_or_default "schema_version" (int (pos 1)) raw)))
          "schema_version" "must be 1")
        _ h1
        λ schema h2. then_elim (nonempty_text (experiment_of raw) "experiment") _ h2 λ filled h3.
          bind_elim (output_path_of raw) _ h3 λ path ep h4.
            bind_elim (resolve_hardware (get_or_default "hardware" (obj end) raw)) _ h4 λ hw eh h5.
              bind_elim (resolve_workload (get_or_default "workload" (obj end) raw)) _ h5 λ w ew h6.
                then_elim (datatypes_agree hw w) _ h6 λ agree h7. subst (Resolves raw) (ok_inj h7) (
                  let (s, hardware_given, hardware) = hardware_sound _ hw eh in
                  let (t, workload_given, workload) = workload_sound _ w ew in
                  record {
                    known = (reject_unknown-ok_iff raw _ _).0 known;
                    schema = (fail_unless _ _ _).0 schema;
                    experiment = refl;
                    named = nonempty_text_ok (experiment_of raw) "experiment" filled;
                    output = output_path_sound raw path ep;
                    hardware_section = s;
                    hardware_given = hardware_given;
                    hardware = hardware;
                    workload_section = t;
                    workload_given = workload_given;
                    workload = workload;
                    same_datatype = datatypes_same hw w agree;
                  })

resolve_fields_complete : (raw : Fields) (m : Manifest) → Resolves raw m → resolve_fields raw ≡ ok m
unfolding resolve_fields fail_if
resolve_fields_complete raw m r =
    rw
      (
        (reject_unknown-ok_iff raw supported_top_level_fields "manifest").1 r.known,
        r.schema,
        ← r.experiment,
        nonempty_text_filled m.experiment "experiment" r.named,
        output_path_complete raw m.output_path r.output,
        hardware_complete _ r.hardware_section m.hardware r.hardware_given r.hardware,
        workload_complete _ r.workload_section m.workload r.workload_given r.workload,
        datatypes_agree_complete m.hardware m.workload _ _ r.hardware r.workload r.same_datatype,
      )
      refl

-- `resolve_experiment_manifest` returns `m` for a dictionary exactly if the dictionary has the five
-- top-level keys at most and the schema version 1; `m` has its experiment and its output path, or the
-- defaults, and both are texts that are not blank; the output section has the key "path" at most; the
-- hardware and the workload of `m` are what its sections resolve to, as `_resolve_hardware` and
-- `_resolve_workload` do it; and the two have one datatype.
pub resolve_experiment_manifest-ok_iff :
    (raw : Fields) (m : Manifest) → (resolve_experiment_manifest (obj raw) ≡ ok m) ↔ Resolves raw m
unfolding resolve_experiment_manifest expect_mapping
resolve_experiment_manifest-ok_iff raw m =
    (resolve_fields_sound raw m, resolve_fields_complete raw m)
