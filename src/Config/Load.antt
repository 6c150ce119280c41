-- ===== src/Config/Load.antt =====
-- python/ramulator/pimscope/config.py: `load_raw_manifest`. Parameters stand for the reader of a file,
-- which parses its text, and for the path that a reference in a manifest leads to.
pub mod Keys
use ramulator.Prelude.{
  String, Bool, true, false, not, ◌&&◌, List, [], ◌∷◌, ◌++◌, all, Result, ok, err, ◌>>=◌, ◌>>◌,
  str_eq, if◌then◌else◌,
}
use ramulator.PyValue.{
  Value, Fields, null, bool, int, float, str, arr, obj, has, get_or_default, insert, remove, index,
  has_other_key, keys,
}
use ramulator.Config.Check.{fail, fail_if, expect_mapping, reject_unknown, nonempty_text}
use ramulator.Config.Manifest.{supported_top_level_fields, composed_manifest_fields}

load_text_manifest : (String → Result Value) → String → Result Fields
load_text_manifest read path = read path >>= λ v. expect_mapping v path

-- `set(payload) == {section}`
only_key : String → Fields → Bool
only_key section payload =
    has section payload && not (has_other_key payload) && all (λ k. str_eq k section) (keys payload)

load_section_file : (String → Result Value) → String → String → Result Fields
unfolding load_text_manifest only_key
load_section_file read path section = do
  payload ← load_text_manifest read path
  let inner = index section payload >>= λ v. expect_mapping v section
  (if only_key section payload then inner else ok payload)

-- The reference that was taken out of `raw`, where it is not None.
load_reference :
    (String → Result Value) → (String → String) → String → String → Fields → Value → Result Fields
unfolding load_section_file
load_reference read beside section file raw null = ok raw
load_reference read beside section file raw (str reference) = do
  fail_if (has section raw) section "cannot be used with its file"
  nonempty_text (str reference) file
  payload ← load_section_file read (beside reference) section
  ok (insert section (obj payload) raw)
load_reference read beside section file raw other = do
  fail_if (has section raw) section "cannot be used with its file"
  fail file "must be a non-empty path string"

-- The body of the loop over the sections.
load_section :
    (String → Result Value) → (String → String) → String → String → Fields → Result Fields
unfolding load_reference
load_section read beside section file raw =
    load_reference read beside section file (remove file raw) (get_or_default file null raw)

unfoldable pub load_raw_manifest :
    (String → Result Value) → (String → String) → String → Result Fields
unfolding load_section load_text_manifest
load_raw_manifest read beside path = do
  raw ← load_text_manifest read path
  reject_unknown raw (composed_manifest_fields ++ supported_top_level_fields) path
  raw' ← load_section read beside "hardware" "hardware_file" raw
  load_section read beside "workload" "workload_file" raw'
