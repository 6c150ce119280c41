-- ===== src/Trace/Header/Accepted.antt =====
-- Which headers `validate_header` accepts.
use mathlib.Core.Path.{subst}
use ramulator.Prelude.{
  String, ◌≡◌, ◌↔◌, refl, ap, ◌∙◌, Bool, true, false, not, Option, none, some, ok, ok_inj,
  bind_elim, then_elim, raise_if-ok, raise_if, ◌>>=◌, eq_iff, Option-cases, inl, inr, arith,
}
use ramulator.PyValue.{Value, Fields, null, bool, int, float, str, arr, obj, get, has, index}
use ramulator.Trace.Header.{schema_version_of, is_text, schema_for, is_other, validate_header}

-- A header that names a class and its schema.
pub record IsHeader (h : Fields) (expected : Option String) : Type 0 where
  pub dram_class : String
  pub schema : String
  pub names_class : get "dram_class" h ≡ some (str dram_class)
  pub names_schema : get "schema_version" h ≡ some (str schema)
  pub known : schema_version_of dram_class ≡ some schema
  pub as_expected : is_other dram_class expected ≡ false

read_class :
    (h : Fields) (r : String × String)
    → (index "dram_class" h >>= schema_for) ≡ ok r
    → (v : Value) × (get "dram_class" h ≡ some v) × (schema_for v ≡ ok r)
read_class h r e = elim (Option-cases (get "dram_class" h)) [
  | inl missing ↦ absurd (ground arith)
  | inr (v, found) ↦ (v, found, ground arith)
]

schema_for_ok :
    (v : Value) (r : String × String)
    → schema_for v ≡ ok r
    → (v ≡ str r.0) × (schema_version_of r.0 ≡ some r.1)
unfolding schema_for
schema_for_ok (str c) r e = elim (Option-cases (schema_version_of c)) [
  | inl missing ↦ absurd (ground arith)
  | inr (w, found) ↦
      let q : (c, w) ≡ r = ok_inj (rw (schema_for, found) at e) in
      (
        ap (λ (p : String × String). str p.0) q,
        subst (λ (p : String × String). schema_version_of p.0 ≡ some p.1) q found,
      )
]
schema_for_ok null r e = cc
schema_for_ok (bool b) r e = cc
schema_for_ok (int z) r e = cc
schema_for_ok (float x) r e = cc
schema_for_ok (arr vs) r e = cc
schema_for_ok (obj d) r e = cc

is_text-true : (s : String) (o : Option Value) → is_text s o ≡ true → o ≡ some (str s)
is_text-true s none e = cc
is_text-true s (some (str t)) e = ap (λ (x : String). some (str x)) ((eq_iff t s).0 e)
is_text-true s (some null) e = cc
is_text-true s (some (bool b)) e = cc
is_text-true s (some (int z)) e = cc
is_text-true s (some (float x)) e = cc
is_text-true s (some (arr vs)) e = cc
is_text-true s (some (obj d)) e = cc

double_not : (b : Bool) → not b ≡ false → b ≡ true
double_not true e = refl
double_not false e = cc

validate_header_sound :
    (h : Fields) (expected : Option String)
    → validate_header (obj h) expected ≡ ok tt
    → IsHeader h expected
unfolding validate_header
validate_header_sound h expected e =
    then_elim
      (raise_if (not (has "dram_class" h))
        "Concrete opcode trace header missing required field: dram_class")
      _ e
      λ e1 h1.
        then_elim
          (raise_if (not (has "schema_version" h))
            "Concrete opcode trace header missing required field: schema_version")
          _ h1
          λ e2 h2. bind_elim (index "dram_class" h >>= schema_for) _ h2 λ r er h3.
            let (v, found, ev) = read_class h r er in
            let (names, known) = schema_for_ok v r ev in
            then_elim
              (raise_if (is_other r.0 expected)
                "Concrete opcode dram_class does not match expected backend")
              _ h3
              λ e4 h4. record {
                dram_class = r.0;
                schema = r.1;
                names_class = found ∙ ap some names;
                names_schema = is_text-true r.1 _ (double_not _ (raise_if-ok _ _ h4));
                known = known;
                as_expected = raise_if-ok _ _ e4;
              }

class_found :
    (h : Fields) (c v : String)
    → get "dram_class" h ≡ some (str c)
    → schema_version_of c ≡ some v
    → (index "dram_class" h >>= schema_for) ≡ ok (c, v)
unfolding schema_for
class_found h c v e known = ground arith

validate_header_complete :
    (h : Fields) (expected : Option String)
    → IsHeader h expected
    → validate_header (obj h) expected ≡ ok tt
unfolding validate_header
validate_header_complete h expected a = rw (
  class_found h a.dram_class a.schema a.names_class a.known,
  a.names_class,
  a.names_schema,
  a.as_expected,
  (eq_iff a.schema a.schema).1 refl,
)

-- `validate_header` accepts a dictionary exactly if its `dram_class` is a known class, its
-- `schema_version` is the one of that class, and the expected class, if one is given, is that class.
pub validate_header-ok_iff :
    (h : Fields) (expected : Option String)
    → (validate_header (obj h) expected ≡ ok tt) ↔ IsHeader h expected
validate_header-ok_iff h expected =
    (validate_header_sound h expected, validate_header_complete h expected)
