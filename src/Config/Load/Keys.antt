-- ===== src/Config/Load/Keys.antt =====
-- The keys of a loaded manifest.
use ramulator.Prelude.{
  All, ◌∙◌, String, ◌≡◌, refl, true, List, ◌∷◌, ◌++◌, Result, ok, ok_inj, bind_elim, then_elim,
  str_eq, eq_iff, Bool-cases, inl, inr, arith,
}
use ramulator.PyValue.{
  has_other_key, keys, Value, Fields, end, field, keyed, null, bool, int, float, str, arr, obj, has,
  get_or_default, insert, remove, contains,
}
use ramulator.Config.Check.{fail_if, reject_unknown, nonempty_text}
use ramulator.Config.Check.Laws.{KnownKeys, reject_unknown-ok_iff}
use ramulator.Config.Manifest.{supported_top_level_fields, composed_manifest_fields}
use ramulator.Config.Load.{
  load_text_manifest, load_section_file, load_reference, load_section, load_raw_manifest,
}

-- The texts among the keys.
abbrev Known : List String → Fields → Type 0
Known names d = All (λ k. contains k names ≡ true) (keys d)

remove-Known :
    (k : String) (names : List String) (d : Fields) → Known (k ∷ names) d → Known names (remove k d)
unfolding remove
remove-Known k names end h = tt
remove-Known k names (field j v d) h = elim (Bool-cases (str_eq j k)) [
  | inl same ↦ rw same (remove-Known k names d h.1)
  | inr other ↦
      rw other ((ground (arith, other, h.0, eq_iff j k, eq_iff k j), remove-Known k names d h.1))
]
remove-Known k names (keyed j v d) h = remove-Known k names d h

has_other_key-remove : (k : String) (d : Fields) → has_other_key (remove k d) ≡ has_other_key d
unfolding remove
has_other_key-remove k end = refl
has_other_key-remove k (field j v d) = elim (Bool-cases (str_eq j k)) [
  | inl same ↦ rw same (has_other_key-remove k d)
  | inr other ↦ rw other (has_other_key-remove k d)
]
has_other_key-remove k (keyed j v d) = refl

insert-Known :
    (k : String) (v : Value) (names : List String) (d : Fields)
    → contains k names ≡ true
    → Known names d
    → Known names (insert k v d)
unfolding insert
insert-Known k v names end known h = (known, tt)
insert-Known k v names (field j w d) known h = elim (Bool-cases (str_eq j k)) [
  | inl same ↦ rw same h
  | inr other ↦ rw other ((h.0, insert-Known k v names d known h.1))
]
insert-Known k v names (keyed j w d) known h = insert-Known k v names d known h

has_other_key-insert :
    (k : String) (v : Value) (d : Fields) → has_other_key (insert k v d) ≡ has_other_key d
unfolding insert
has_other_key-insert k v end = refl
has_other_key-insert k v (field j w d) = elim (Bool-cases (str_eq j k)) [
  | inl same ↦ rw same refl
  | inr other ↦ rw other (has_other_key-insert k v d)
]
has_other_key-insert k v (keyed j w d) = refl

load_reference-KnownKeys :
    (read : String → Result Value) (beside : String → String) (section file : String)
    (names : List String) (raw : Fields) (reference : Value) {d : Fields}
    → contains section names ≡ true
    → KnownKeys names raw
    → load_reference read beside section file raw reference ≡ ok d
    → KnownKeys names d
unfolding load_reference
load_reference-KnownKeys read beside section file names raw null known h e = rw (← ok_inj e) h
load_reference-KnownKeys read beside section file names raw (str t) known h e =
    then_elim (fail_if (has section raw) section "cannot be used with its file") _ e λ _ e1.
      then_elim (nonempty_text (str t) file) _ e1 λ _ e2.
        bind_elim (load_section_file read (beside t) section) _ e2 λ payload _ e3.
          rw (← ok_inj e3) (
            (
              has_other_key-insert section (obj payload) raw ∙ h.0,
              insert-Known section (obj payload) names raw known h.1,
            ))
load_reference-KnownKeys read beside section file names raw (bool b) known h e =
    then_elim (fail_if (has section raw) section "cannot be used with its file") _ e
      λ _ e1. absurd (cc)
load_reference-KnownKeys read beside section file names raw (int z) known h e =
    then_elim (fail_if (has section raw) section "cannot be used with its file") _ e
      λ _ e1. absurd (cc)
load_reference-KnownKeys read beside section file names raw (float x) known h e =
    then_elim (fail_if (has section raw) section "cannot be used with its file") _ e
      λ _ e1. absurd (cc)
load_reference-KnownKeys read beside section file names raw (arr vs) known h e =
    then_elim (fail_if (has section raw) section "cannot be used with its file") _ e
      λ _ e1. absurd (cc)
load_reference-KnownKeys read beside section file names raw (obj m) known h e =
    then_elim (fail_if (has section raw) section "cannot be used with its file") _ e
      λ _ e1. absurd (cc)

load_section-KnownKeys :
    (read : String → Result Value) (beside : String → String) (section file : String)
    (names : List String) (raw : Fields) {d : Fields}
    → contains section names ≡ true
    → KnownKeys (file ∷ names) raw
    → load_section read beside section file raw ≡ ok d
    → KnownKeys names d
unfolding load_section
load_section-KnownKeys read beside section file names raw known h e =
    load_reference-KnownKeys read beside section file names (remove file raw)
      (get_or_default file null raw) known
      (has_other_key-remove file raw ∙ h.0, remove-Known file names raw h.1) e

-- A manifest that `load_raw_manifest` returns has no top-level key but the five of
-- SUPPORTED_TOP_LEVEL_FIELDS, whatever the files hold: the references to section files are taken out.
pub load_raw_manifest-KnownKeys :
    (read : String → Result Value) (beside : String → String) (path : String) (d : Fields)
    → load_raw_manifest read beside path ≡ ok d
    → KnownKeys supported_top_level_fields d
unfolding load_raw_manifest
load_raw_manifest-KnownKeys read beside path d h =
    bind_elim (load_text_manifest read path) _ h λ raw _ h1.
      then_elim (reject_unknown raw (composed_manifest_fields ++ supported_top_level_fields) path) _
        h1
        λ known h2.
          bind_elim (load_section read beside "hardware" "hardware_file" raw) _ h2 λ raw' e h3.
            load_section-KnownKeys read beside "workload" "workload_file" supported_top_level_fields
              raw' refl
              (load_section-KnownKeys read beside "hardware" "hardware_file"
                ("workload_file" ∷ supported_top_level_fields) raw refl
                ((reject_unknown-ok_iff raw _ path).0 known) e)
              h3
