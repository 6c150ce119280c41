-- ===== src/Config/Hardware/Pim/Accepted.antt =====
-- The `pim` sections that the checks accept.
use ramulator.Prelude.{
  ℕ, suc, String, ◌≡◌, ◌↔◌, refl, ap, sym, ◌∙◌, Bool, true, false, some, List, Checked, ok, All,
  all_checks, all_checks-ok_iff, bind_elim, eq_iff, ◌==◌, ==_refl, Option-cases, inl, inr, arith,
}
use ramulator.Prelude.Int.{pos, negsuc}
use ramulator.PyValue.{
  Value, Fields, null, bool, int, float, str, arr, obj, dyadic, infinity, nan, get, contains,
}
use ramulator.Config.Check.{
  fail_if, positive_int, nonnegative_number, choice, choice_entry, check_at, check_if_present,
  is_positive_int, each,
}
use ramulator.Config.Check.Laws.{
  HasPositive, HasChoice, positive_at-ok_iff, choice_at-ok_iff, each-ok_iff,
  check_if_present-ok_iff, check_at_ok, check_at_found, check_if_present_found,
  check_if_present_missing, fail_unless, choice_value, choice_entry_value, choice_entry_found,
  choice_known, positive_int_value,
}
use ramulator.Config.Hardware.Defaults.{supported_pim_datatypes, supported_pim_execution_models}
use ramulator.Config.Model.Accepted.{Optional}
use ramulator.Config.Hardware.Pim.{
  equals_datatype, datatype_class, is_boolean, whole, cycles, same_ops, same_request, ops_agree,
  resource_fields, cycle_fields, ops_fields, energy_fields, pim_checks,
}

-- The numbers that `_nonnegative_number` takes, NaN among them.
abbrev pub IsNonnegative : Value → Type 0
IsNonnegative (int (pos n)) = Unit {0}
IsNonnegative (float (dyadic (pos m) k)) = Unit {0}
IsNonnegative (float (infinity true)) = Unit {0}
IsNonnegative (float nan) = Unit {0}
IsNonnegative _ = ⊥

abbrev pub HasNonnegative : Fields → String → Type 0
HasNonnegative d k = (v : Value) × (get k d ≡ some v) × IsNonnegative v

abbrev pub HasNat : Fields → String → Type 0
HasNat d k = (n : ℕ) × (get k d ≡ some (int (pos n)))

abbrev pub SameOps : Fields → Type 0
SameOps d =
    (n : ℕ) × (get "pim_ops_per_block_issue" d ≡ some (int (pos (suc n))))
    × (get "pim_ops_per_request" d ≡ some (int (pos (suc n))))

pub record IsPim (d : Fields) : Type 0 where
  pub datatype : HasChoice supported_pim_datatypes d "pim_datatype"
  pub same_class :
      Optional
        ((t : String) × (get "pim_datatype_class" d ≡ some (str t))
          × (get "pim_datatype" d ≡ some (str t)))
        d
        "pim_datatype_class"
  pub execution : HasChoice supported_pim_execution_models d "pim_mac_execution_model"
  pub enabled :
      Optional
        ((b : Bool) × (get "pim_datatype_behavior_enabled" d ≡ some (bool b)))
        d
        "pim_datatype_behavior_enabled"
  pub resources : All (λ k. Optional (HasPositive d k) d k) resource_fields
  pub durations : All (λ k. Optional (HasNat d k) d k) cycle_fields
  pub ops : All (λ k. Optional (HasPositive d k) d k) ops_fields
  pub ops_same : Optional (Optional (SameOps d) d "pim_ops_per_request") d "pim_ops_per_block_issue"
  pub energies : All (λ k. Optional (HasNonnegative d k) d k) energy_fields

pub takes_number :
    (v : Value) (path : String) → (nonnegative_number v path ≡ ok tt) ↔ IsNonnegative v
unfolding nonnegative_number
takes_number (int (pos n)) path = (λ _. tt, λ _. refl)
takes_number (int (negsuc n)) path = (λ h. absurd (cc), λ h. absurd h)
takes_number (float (dyadic (pos m) k)) path = (λ _. tt, λ _. refl)
takes_number (float (dyadic (negsuc m) k)) path = (λ h. absurd (cc), λ h. absurd h)
takes_number (float (infinity true)) path = (λ _. tt, λ _. refl)
takes_number (float (infinity false)) path = (λ h. absurd (cc), λ h. absurd h)
takes_number (float nan) path = (λ _. tt, λ _. refl)
takes_number null path = (λ h. absurd (cc), λ h. absurd h)
takes_number (bool b) path = (λ h. absurd (cc), λ h. absurd h)
takes_number (str s) path = (λ h. absurd (cc), λ h. absurd h)
takes_number (arr vs) path = (λ h. absurd (cc), λ h. absurd h)
takes_number (obj d) path = (λ h. absurd (cc), λ h. absurd h)

nonnegative_at-ok_iff :
    (d : Fields) (k : String) → (check_at nonnegative_number k d ≡ ok tt) ↔ HasNonnegative d k
nonnegative_at-ok_iff d k = (
  λ h.
      let (v, found, good) = check_at_ok nonnegative_number k d h in
      (v, found, (takes_number v k).0 good),
  λ p. check_at_found nonnegative_number k d p.1 ∙ (takes_number p.0 k).1 p.2,
)

cycles_ok : (v : Value) (path : String) → cycles v path ≡ ok tt → (n : ℕ) × (v ≡ int (pos n))
unfolding cycles whole nonnegative_number
cycles_ok (int (pos n)) path h = (n, refl)
cycles_ok (int (negsuc n)) path h = absurd (cc)
cycles_ok (float (dyadic (pos m) k)) path h = absurd (cc)
cycles_ok (float (dyadic (negsuc m) k)) path h = absurd (cc)
cycles_ok (float (infinity true)) path h = absurd (cc)
cycles_ok (float (infinity false)) path h = absurd (cc)
cycles_ok (float nan) path h = absurd (cc)
cycles_ok null path h = absurd (cc)
cycles_ok (bool b) path h = absurd (cc)
cycles_ok (str s) path h = absurd (cc)
cycles_ok (arr vs) path h = absurd (cc)
cycles_ok (obj d) path h = absurd (cc)

cycles_at-ok_iff : (d : Fields) (k : String) → (check_at cycles k d ≡ ok tt) ↔ HasNat d k
unfolding cycles whole nonnegative_number
cycles_at-ok_iff d k = (
  λ h.
      let (v, found, good) = check_at_ok cycles k d h in
      let (n, e) = cycles_ok v k good in (n, found ∙ ap some e),
  λ p. check_at_found cycles k d p.1,
)

boolean_ok : (v : Value) (path : String) → is_boolean v path ≡ ok tt → (b : Bool) × (v ≡ bool b)
unfolding is_boolean
boolean_ok (bool b) path h = (b, refl)
boolean_ok (int z) path h = absurd (cc)
boolean_ok (float x) path h = absurd (cc)
boolean_ok null path h = absurd (cc)
boolean_ok (str s) path h = absurd (cc)
boolean_ok (arr vs) path h = absurd (cc)
boolean_ok (obj d) path h = absurd (cc)

boolean_at-ok_iff :
    (d : Fields) (k : String)
    → (check_at is_boolean k d ≡ ok tt) ↔ ((b : Bool) × (get k d ≡ some (bool b)))
unfolding is_boolean
boolean_at-ok_iff d k = (
  λ h.
      let (v, found, good) = check_at_ok is_boolean k d h in
      let (b, e) = boolean_ok v k good in (b, found ∙ ap some e),
  λ p. check_at_found is_boolean k d p.1,
)

equals_datatype-ok_iff : (d c : String) → (equals_datatype d c ≡ ok tt) ↔ (c ≡ d)
unfolding equals_datatype
equals_datatype-ok_iff d c =
    (λ h. (eq_iff c d).0 ((fail_unless _ _ _).0 h), λ e. (fail_unless _ _ _).1 ((eq_iff c d).1 e))

datatype_class_known :
    (d : Fields) (s : String)
    → get "pim_datatype" d ≡ some (str s)
    → contains s supported_pim_datatypes ≡ true
    → datatype_class d (str s) "pim_datatype_class" ≡ ok tt
unfolding datatype_class
datatype_class_known d s at_s known =
    rw
      (
        choice_known s supported_pim_datatypes "pim_datatype_class" known,
        choice_entry_found "pim_datatype" supported_pim_datatypes d at_s known,
      )
      ((equals_datatype-ok_iff s s).1 refl)

class_at-ok_iff :
    (d : Fields)
    → HasChoice supported_pim_datatypes d "pim_datatype"
    → (check_at (datatype_class d) "pim_datatype_class" d ≡ ok tt) ↔ (
        (t : String) × (get "pim_datatype_class" d ≡ some (str t))
        × (get "pim_datatype" d ≡ some (str t)))
unfolding datatype_class
class_at-ok_iff d (t, at_t, known) = (
  λ h.
      let (v, found, good) = check_at_ok (datatype_class d) "pim_datatype_class" d h in
      bind_elim (choice v supported_pim_datatypes "pim_datatype_class") _ good λ c ec h1.
        bind_elim (choice_entry "pim_datatype" supported_pim_datatypes d) _ h1 λ e ee h2.
          let same : c ≡ e = (equals_datatype-ok_iff e c).0 h2 in
          let is_c = choice_value v supported_pim_datatypes _ ec in
          (
            c,
            found ∙ ap some is_c,
            choice_entry_value "pim_datatype" supported_pim_datatypes d ee
                ∙ ap (λ s. some (str s)) (sym same),
          ),
  λ (s, at_class, at_s).
      let same : t ≡ s = cc in
      let known' : contains s supported_pim_datatypes ≡ true = rw (← same) known in
      check_at_found (datatype_class d) "pim_datatype_class" d at_class
      ∙ datatype_class_known d s at_s known',
)

same_ops_sound :
    (u v : Value)
    → same_ops u v ≡ ok tt
    → (n : ℕ) × (u ≡ int (pos (suc n))) × (v ≡ int (pos (suc n)))
unfolding same_ops
same_ops_sound u v h = bind_elim (positive_int u "pim_ops_per_block_issue") _ h λ a ea h1.
    bind_elim (positive_int v "pim_ops_per_request") _ h1 λ b eb h2.
      let (n, is_a, is_u) = positive_int_value u _ ea in
      let (m, is_b, is_v) = positive_int_value v _ eb in
      let same = (fail_unless (a == b) _ _).0 h2 in
      let e : m ≡ n = ground (arith, is_a, is_b, same) in
      (n, is_u, is_v ∙ ap (λ (k : ℕ). int (pos (suc k))) e)

same_ops_complete :
    (u v : Value) (n : ℕ) → u ≡ int (pos (suc n)) → v ≡ int (pos (suc n)) → same_ops u v ≡ ok tt
unfolding same_ops positive_int fail_if
same_ops_complete u v n e f = rw (e, f, ==_refl (suc n))

request_sound :
    (d : Fields) (u : Value)
    → get "pim_ops_per_block_issue" d ≡ some u
    → same_request d u "pim_ops_per_block_issue" ≡ ok tt
    → Optional (SameOps d) d "pim_ops_per_request"
unfolding same_request
request_sound d u issue h = elim (Option-cases (get "pim_ops_per_request" d)) [
  | inl missing ↦ inl missing
  | inr (v, found) ↦
      let (n, eu, ev) =
        same_ops_sound u v
          (sym (check_if_present_found (λ v _. same_ops u v) "pim_ops_per_request" d found) ∙ h) in
      inr (n, issue ∙ ap some eu, found ∙ ap some ev)
]

ops_sound :
    (d : Fields)
    → ops_agree d ≡ ok tt
    → Optional (Optional (SameOps d) d "pim_ops_per_request") d "pim_ops_per_block_issue"
unfolding ops_agree
ops_sound d h = elim (Option-cases (get "pim_ops_per_block_issue" d)) [
  | inl missing ↦ inl missing
  | inr (u, found) ↦ inr (
      request_sound d u found
        (sym (check_if_present_found (same_request d) "pim_ops_per_block_issue" d found) ∙ h))
]

request_complete :
    (d : Fields) (u : Value)
    → get "pim_ops_per_block_issue" d ≡ some u
    → Optional (SameOps d) d "pim_ops_per_request"
    → same_request d u "pim_ops_per_block_issue" ≡ ok tt
unfolding same_request
request_complete d u issue (inl missing) =
    check_if_present_missing (λ v _. same_ops u v) "pim_ops_per_request" d missing
request_complete d u issue (inr (n, at_issue, at_request)) =
    let e : u ≡ int (pos (suc n)) = cc in
    check_if_present_found (λ v _. same_ops u v) "pim_ops_per_request" d at_request
    ∙ same_ops_complete u (int (pos (suc n))) n e refl

ops_complete :
    (d : Fields)
    → Optional (Optional (SameOps d) d "pim_ops_per_request") d "pim_ops_per_block_issue"
    → ops_agree d ≡ ok tt
unfolding ops_agree
ops_complete d h = elim (Option-cases (get "pim_ops_per_block_issue" d)) [
  | inl missing ↦ check_if_present_missing (same_request d) "pim_ops_per_block_issue" d missing
  | inr (u, found) ↦
      check_if_present_found (same_request d) "pim_ops_per_block_issue" d found
      ∙ request_complete d u found (given u found h)
]
  where
    given :
        (u : Value)
        → get "pim_ops_per_block_issue" d ≡ some u
        → Optional (Optional (SameOps d) d "pim_ops_per_request") d "pim_ops_per_block_issue"
        → Optional (SameOps d) d "pim_ops_per_request"
    given u found (inl missing) = absurd (cc)
    given u found (inr both) = both

pub pim_checks-ok_iff : (d : Fields) → (all_checks (pim_checks d) ≡ ok tt) ↔ IsPim d
unfolding pim_checks
pim_checks-ok_iff d = (
  λ h.
      let (c0, (c1, (c2, (c3, (c4, (c5, (c6, (c7, (c8, _))))))))) =
        (all_checks-ok_iff (pim_checks d)).0 h in
      let datatype = (choice_at-ok_iff supported_pim_datatypes d "pim_datatype").0 c0 in
      record {
        datatype = datatype;
        same_class =
            (if_given (datatype_class d) "pim_datatype_class" (class_at-ok_iff d datatype)).0 c1;
        execution = (choice_at-ok_iff _ d _).0 c2;
        enabled = (if_given is_boolean _ (boolean_at-ok_iff d _)).0 c3;
        resources =
            (each_given is_positive_int (HasPositive d) (positive_at-ok_iff d) resource_fields).0
              c4;
        durations = (each_given cycles (HasNat d) (cycles_at-ok_iff d) cycle_fields).0 c5;
        ops = (each_given is_positive_int (HasPositive d) (positive_at-ok_iff d) ops_fields).0 c6;
        ops_same = ops_sound d c7;
        energies =
            (each_given nonnegative_number (HasNonnegative d) (nonnegative_at-ok_iff d)
                energy_fields).0
              c8;
      },
  λ p. (all_checks-ok_iff (pim_checks d)).1 (
    (choice_at-ok_iff supported_pim_datatypes d "pim_datatype").1 p.datatype,
    (
      (if_given (datatype_class d) "pim_datatype_class" (class_at-ok_iff d p.datatype)).1
          p.same_class,
      (
        (choice_at-ok_iff _ d _).1 p.execution,
        (
          (if_given is_boolean _ (boolean_at-ok_iff d _)).1 p.enabled,
          (
            (each_given is_positive_int (HasPositive d) (positive_at-ok_iff d) resource_fields).1
                p.resources,
            (
              (each_given cycles (HasNat d) (cycles_at-ok_iff d) cycle_fields).1 p.durations,
              (
                (each_given is_positive_int (HasPositive d) (positive_at-ok_iff d) ops_fields).1
                    p.ops,
                (
                  ops_complete d p.ops_same,
                  (
                    (each_given nonnegative_number (HasNonnegative d) (nonnegative_at-ok_iff d)
                          energy_fields).1
                        p.energies,
                    tt,
                  ),
                ),
              ),
            ),
          ),
        ),
      ),
    ),
  ),
)
  where
    if_given :
        (check : Value → String → Checked) (k : String) {P : Type 0}
        → (check_at check k d ≡ ok tt) ↔ P
        → (check_if_present check k d ≡ ok tt) ↔ Optional P d k
    if_given check k {P} e = check_if_present-ok_iff P check d k e

    each_given :
        (check : Value → String → Checked) (P : String → Type 0)
        → ((k : String) → (check_at check k d ≡ ok tt) ↔ P k)
        → (ks : List String)
        → (each (λ k. check_if_present check k d) ks ≡ ok tt) ↔ All (λ k. Optional (P k) d k) ks
    each_given check P e ks =
        each-ok_iff (λ k. Optional (P k) d k) (λ k. check_if_present check k d)
          (λ k. check_if_present-ok_iff (P k) check d k (e k)) ks
