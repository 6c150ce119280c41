-- ===== src/Config/Hardware/Resolved.antt =====
-- What `_resolve_hardware` returns, and when.
use ramulator.Prelude.{
  String, ◌≡◌, ◌↔◌, ◌⊎◌, refl, ap, sym, ◌∙◌, none, some, ok, ok_inj, all_checks, bind_elim,
  then_elim, ◌>>=◌, Option-cases, inl, inr, arith,
}
use ramulator.PyValue.{Value, Fields, end, field, keyed, str, obj, get, get_or_default, update}
use ramulator.Config.Check.{expect_mapping, reject_unknown}
use ramulator.Config.Check.Laws.{KnownKeys, expect_mapping_ok, reject_unknown-ok_iff}
use ramulator.Config.Hardware.Defaults.{
  Hardware, default_pim, default_controller, default_memory_system, default_topology,
  default_frontend_clock_ratio, supported_hardware_fields,
}
use ramulator.Config.Hardware.Checks.{hardware_checks}
use ramulator.Config.Hardware.Checks.Accepted.{IsHardware, hardware_checks-ok_iff}
use ramulator.Config.Hardware.{
  replaced, updated, merge_hardware, resolve_supplied, resolve_hardware,
}

-- A section is the one given, or empty.
abbrev pub Replaced : String → Fields → Fields → Type 0
Replaced k s m = ((get k s ≡ none) × (m ≡ end)) ⊎ (get k s ≡ some (obj m))

-- A section is its default, updated by the one given.
abbrev pub Updated : String → Fields → Fields → Fields → Type 0
Updated k default s m =
    ((get k s ≡ none) × (m ≡ default))
    ⊎ ((given : Fields) × (get k s ≡ some (obj given)) × (m ≡ update default given))

replaced_found :
    (k : String) (s : Fields) {v : Value} → get k s ≡ some v → replaced k s ≡ expect_mapping v k
unfolding replaced
replaced_found k s h = rw (h, replaced) refl

replaced_missing : (k : String) (s : Fields) → get k s ≡ none → replaced k s ≡ ok end
unfolding replaced
replaced_missing k s h = rw (h, replaced) refl

updated_found :
    (k : String) (default s : Fields) {v : Value}
    → get k s ≡ some v
    → updated k default s ≡ (expect_mapping v k >>= λ section. ok (update default section))
unfolding updated
updated_found k default s h = rw (h, updated) refl

updated_missing :
    (k : String) (default s : Fields) → get k s ≡ none → updated k default s ≡ ok default
unfolding updated
updated_missing k default s h = rw (h, updated) refl

replaced_sound : (k : String) (s : Fields) {m : Fields} → replaced k s ≡ ok m → Replaced k s m
replaced_sound k s h = elim (Option-cases (get k s)) [
  | inl missing ↦ inl (missing, sym (ok_inj (sym (replaced_missing k s missing) ∙ h)))
  | inr (v, found) ↦
      inr (found ∙ ap some (expect_mapping_ok v k (sym (replaced_found k s found) ∙ h)))
]

replaced_complete : (k : String) (s m : Fields) → Replaced k s m → replaced k s ≡ ok m
unfolding expect_mapping
replaced_complete k s m (inl (missing, e)) = replaced_missing k s missing ∙ ap ok (sym e)
replaced_complete k s m (inr found) = replaced_found k s found

updated_sound :
    (k : String) (default s : Fields) {m : Fields}
    → updated k default s ≡ ok m
    → Updated k default s m
updated_sound k default s h = elim (Option-cases (get k s)) [
  | inl missing ↦ inl (missing, sym (ok_inj (sym (updated_missing k default s missing) ∙ h)))
  | inr (v, found) ↦
      bind_elim (expect_mapping v k) (λ section. ok (update default section))
        (sym (updated_found k default s found) ∙ h)
        λ given e same. inr (given, found ∙ ap some (expect_mapping_ok v k e), sym (ok_inj same))
]

updated_complete :
    (k : String) (default s m : Fields) → Updated k default s m → updated k default s ≡ ok m
unfolding expect_mapping
updated_complete k default s m (inl (missing, e)) =
    updated_missing k default s missing ∙ ap ok (sym e)
updated_complete k default s m (inr (given, found, e)) =
    updated_found k default s found ∙ ap ok (sym e)

-- Each entry of the result is the one given, or the default.
pub record Merged (s : Fields) (h : Hardware) : Type 0 where
  pub dram_class : h.dram_class ≡ get_or_default "dram_class" (str "LPDDR5PIM") s
  pub org_preset : h.org_preset ≡ get_or_default "org_preset" (str "LPDDR5_8Gb_x16") s
  pub timing_preset : h.timing_preset ≡ get_or_default "timing_preset" (str "LPDDR5_6400") s
  pub frontend_clock_ratio :
      h.frontend_clock_ratio ≡ get_or_default "frontend_clock_ratio" default_frontend_clock_ratio s
  pub org_overrides : Replaced "org_overrides" s h.org_overrides
  pub timing_overrides : Replaced "timing_overrides" s h.timing_overrides
  pub pim : Updated "pim" default_pim s h.pim
  pub controller : Updated "controller" default_controller s h.controller
  pub memory_system : Updated "memory_system" default_memory_system s h.memory_system
  pub topology : Updated "topology" default_topology s h.topology

merge_hardware_sound : (s : Fields) (h : Hardware) → merge_hardware s ≡ ok h → Merged s h
unfolding merge_hardware
merge_hardware_sound s h e = bind_elim (replaced "org_overrides" s) _ e λ org e1 h1.
    bind_elim (replaced "timing_overrides" s) _ h1 λ timing e2 h2.
      bind_elim (updated "pim" default_pim s) _ h2 λ pim e3 h3.
        bind_elim (updated "controller" default_controller s) _ h3 λ controller e4 h4.
          bind_elim (updated "memory_system" default_memory_system s) _ h4 λ memory e5 h5.
            bind_elim (updated "topology" default_topology s) _ h5 λ topology e6 h6.
              let same = ok_inj h6 in
              record {
                dram_class = ap (λ (x : Hardware). x.dram_class) (sym same);
                org_preset = ap (λ (x : Hardware). x.org_preset) (sym same);
                timing_preset = ap (λ (x : Hardware). x.timing_preset) (sym same);
                frontend_clock_ratio = ap (λ (x : Hardware). x.frontend_clock_ratio) (sym same);
                org_overrides =
                    rw (ap (λ (x : Hardware). x.org_overrides) (sym same)) (replaced_sound _ s e1);
                timing_overrides =
                    rw (ap (λ (x : Hardware). x.timing_overrides) (sym same))
                      (replaced_sound _ s e2);
                pim = rw (ap (λ (x : Hardware). x.pim) (sym same)) (updated_sound _ _ s e3);
                controller =
                    rw (ap (λ (x : Hardware). x.controller) (sym same)) (updated_sound _ _ s e4);
                memory_system =
                    rw (ap (λ (x : Hardware). x.memory_system) (sym same)) (updated_sound _ _ s e5);
                topology =
                    rw (ap (λ (x : Hardware). x.topology) (sym same)) (updated_sound _ _ s e6);
              }

merge_hardware_complete : (s : Fields) (h : Hardware) → Merged s h → merge_hardware s ≡ ok h
unfolding merge_hardware
merge_hardware_complete s h m =
    rw
      (
        replaced_complete "org_overrides" s h.org_overrides m.org_overrides,
        replaced_complete "timing_overrides" s h.timing_overrides m.timing_overrides,
        updated_complete "pim" default_pim s h.pim m.pim,
        updated_complete "controller" default_controller s h.controller m.controller,
        updated_complete "memory_system" default_memory_system s h.memory_system m.memory_system,
        updated_complete "topology" default_topology s h.topology m.topology,
      )
      (ground (arith, m.dram_class, m.org_preset, m.timing_preset, m.frontend_clock_ratio))

-- What a dictionary of hardware fields becomes, and when.
pub record Resolves (supplied : Fields) (h : Hardware) : Type 0 where
  pub known : KnownKeys supported_hardware_fields supplied
  pub merged : Merged supplied h
  pub is_hardware : IsHardware h

pub resolve_supplied_sound : (s : Fields) (h : Hardware) → resolve_supplied s ≡ ok h → Resolves s h
unfolding resolve_supplied
resolve_supplied_sound s h e =
    then_elim (reject_unknown s supported_hardware_fields "hardware") _ e λ known e1.
      bind_elim (merge_hardware s) _ e1 λ g merged e2.
        then_elim (all_checks (hardware_checks g)) _ e2 λ good e3.
          let same : g ≡ h = ok_inj e3 in
          record {
            known = (reject_unknown-ok_iff s supported_hardware_fields "hardware").0 known;
            merged = merge_hardware_sound s h (merged ∙ ap ok same);
            is_hardware = (hardware_checks-ok_iff h).0 (rw same at good);
          }

pub resolve_supplied_complete :
    (s : Fields) (h : Hardware) → Resolves s h → resolve_supplied s ≡ ok h
unfolding resolve_supplied
resolve_supplied_complete s h r = rw (
  (reject_unknown-ok_iff s supported_hardware_fields "hardware").1 r.known,
  merge_hardware_complete s h r.merged,
  (hardware_checks-ok_iff h).1 r.is_hardware,
)

resolve_hardware_obj : (s : Fields) → resolve_hardware (obj s) ≡ resolve_supplied s
unfolding resolve_hardware expect_mapping
resolve_hardware_obj end = refl
resolve_hardware_obj (field k v s) = refl
resolve_hardware_obj (keyed k v s) = refl

-- `_resolve_hardware` returns `h` for a dictionary exactly if the dictionary has known keys only, each
-- entry of `h` is the one given or the default (`pim`, `controller`, `memory_system` and `topology` the
-- default updated by the one given), and `h` has one controller and one channel, a supported PIM class,
-- presets that are not empty, each setting among its choices or in its range (NaN counts as a
-- non-negative number), a `pim` section whose
-- datatype class and operation counts agree, and one or two ranks where the rank is overridden.
pub resolve_hardware-ok_iff :
    (s : Fields) (h : Hardware) → (resolve_hardware (obj s) ≡ ok h) ↔ Resolves s h
resolve_hardware-ok_iff s h =
    rw (resolve_hardware_obj s) (resolve_supplied_sound s h, resolve_supplied_complete s h)
