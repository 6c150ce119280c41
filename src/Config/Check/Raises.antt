-- ===== src/Config/Check/Raises.antt =====
-- What the checks of one value raise is a `ValueError`, at any value.
use ramulator.Prelude.{
  suc, String, ◌≡◌, Bool, true, false, List, Result, Checked, ok, err, Error, discard, Raises,
  Raises-raise_if, IsValueError, [], ◌∷◌, All, Raises->>, Option-cases, Bool-cases, inl, inr,
}
use ramulator.Prelude.Int.{pos}
use ramulator.PyValue.{
  Value, Fields, int, str, obj, get, has, has_other_key, index, contains, is_blank_text,
}
use ramulator.Config.Check.{
  expect_mapping, reject_unknown, positive_int, nonnegative_int, choose, choice, nonempty_text,
  each, is_mapping, positive_entry, choice_entry, check_if_present, check_at, is_positive_int,
  is_nonnegative_int, is_choice, fail_if,
}
use ramulator.Config.Check.Laws.{check_at_found, check_if_present_found, check_if_present_missing}

pub fail_if-Raises :
    (b : Bool) (path message : String) → Raises IsValueError (fail_if b path message)
unfolding fail_if
fail_if-Raises b path message = Raises-raise_if b _

pub expect_mapping-Raises :
    (v : Value) (path : String) → Raises IsValueError (expect_mapping v path)
unfolding expect_mapping
expect_mapping-Raises (obj d) path = tt
expect_mapping-Raises _ path = tt

pub positive_int-Raises : (v : Value) (path : String) → Raises IsValueError (is_positive_int v path)
unfolding positive_int
positive_int-Raises (int (pos (suc n))) path = tt
positive_int-Raises _ path = tt

pub nonnegative_int-Raises :
    (v : Value) (path : String) → Raises IsValueError (is_nonnegative_int v path)
unfolding nonnegative_int
nonnegative_int-Raises (int (pos n)) path = tt
nonnegative_int-Raises _ path = tt

pub nonempty_text-Raises : (v : Value) (path : String) → Raises IsValueError (nonempty_text v path)
unfolding nonempty_text
nonempty_text-Raises (str s) path = fail_if-Raises (is_blank_text s) _ _
nonempty_text-Raises _ path = tt

pub choice-Raises :
    (choices : List String) (v : Value) (path : String)
    → Raises IsValueError (is_choice choices v path)
unfolding choice choose
choice-Raises choices (str s) path = elim (Bool-cases (contains s choices)) [
  | inl known ↦ rw known tt
  | inr other ↦ rw other tt
]
choice-Raises choices _ path = tt

pub check_at-Raises :
    (check : Value → String → Checked)
    → ((v : Value) (path : String) → Raises IsValueError (check v path))
    → (k : String) (d : Fields) → has k d ≡ true
    → Raises IsValueError (check_at check k d)
check_at-Raises check all k d h = elim (Option-cases (get k d)) [
  | inl missing ↦ absurd (cc (rw missing at h))
  | inr (v, found) ↦ rw (check_at_found check k d found) (all v k)
]

pub check_if_present-Raises :
    (check : Value → String → Checked)
    → ((v : Value) (path : String) → Raises IsValueError (check v path))
    → (k : String) (d : Fields) → Raises IsValueError (check_if_present check k d)
check_if_present-Raises check all k d = elim (Option-cases (get k d)) [
  | inl missing ↦ rw (check_if_present_missing check k d missing) tt
  | inr (v, found) ↦ rw (check_if_present_found check k d found) (all v k)
]

pub each-Raises :
    (check : String → Checked) (ks : List String)
    → All (λ k. Raises IsValueError (check k)) ks
    → Raises IsValueError (each check ks)
each-Raises check [] h = tt
each-Raises check (k ∷ ks) h =
    Raises->> IsValueError (check k) (each check ks) h.0 (λ _. each-Raises check ks h.1)

pub is_mapping-Raises : (v : Value) (path : String) → Raises IsValueError (is_mapping v path)
unfolding expect_mapping
is_mapping-Raises (obj d) path = tt
is_mapping-Raises _ path = tt

pub Raises-discard {ℓ} :
    {A : Type ℓ} (P : Error → Type 0) (m : Result A) → Raises P (discard m) → Raises P m
Raises-discard P (ok a) h = tt
Raises-discard P (err e) h = h

pub positive_entry-Raises :
    (k : String) (d : Fields) → has k d ≡ true → Raises IsValueError (positive_entry k d)
positive_entry-Raises k d h = elim (Option-cases (get k d)) [
  | inl missing ↦ absurd (cc (rw missing at h))
  | inr (v, found) ↦
      rw (found, index) (Raises-discard IsValueError (positive_int v k) (positive_int-Raises v k))
]

pub reject_unknown-Raises :
    (d : Fields) (allowed : List String) (path : String)
    → has_other_key d ≡ false
    → Raises IsValueError (reject_unknown d allowed path)
unfolding reject_unknown
reject_unknown-Raises d allowed path texts = rw texts (fail_if-Raises _ _ _)

pub choice_entry-Raises :
    (k : String) (choices : List String) (d : Fields)
    → has k d ≡ true
    → Raises IsValueError (choice_entry k choices d)
choice_entry-Raises k choices d h = elim (Option-cases (get k d)) [
  | inl missing ↦ absurd (cc (rw missing at h))
  | inr (v, found) ↦
      rw (found, index)
        (Raises-discard IsValueError (choice v choices k) (choice-Raises choices v k))
]
