-- ===== src/Config/Check/Laws.antt =====
-- What the checks of one value accept, and what they raise.
use ramulator.Prelude.{
  ℕ, suc, zero, String, ◌≡◌, ◌↔◌, ◌⊎◌, refl, ap, sym, ◌∙◌, Bool, true, false, none, some, List,
  Checked, ok, err, Error, discard, raise_if-ok_iff, ok_inj, bind_elim, [], ◌∷◌, not, All, any,
  >>-ok_iff, Option-cases, Bool-cases, inl, inr,
}
use ramulator.Prelude.Int.{pos, negsuc}
use ramulator.PyValue.{
  equals_text-true, Value, Fields, null, bool, int, float, str, arr, obj, get, index, contains,
  is_blank_text, keys, has_other_key, equals_text, str_eq_refl,
}
use ramulator.Config.Check.{
  expect_mapping, reject_unknown, positive_int, nonnegative_int, choose, choice, nonempty_text,
  each, is_mapping, entry_is, positive_entry, choice_entry, check_if_present, check_at,
  is_positive_int, is_nonnegative_int, is_choice, fail_if,
}

abbrev pub HasPositive : Fields → String → Type 0
HasPositive d k = (n : ℕ) × (get k d ≡ some (int (pos (suc n))))

abbrev pub HasNatural : Fields → String → Type 0
HasNatural d k = (n : ℕ) × (get k d ≡ some (int (pos n)))

abbrev pub HasChoice : List String → Fields → String → Type 0
HasChoice choices d k = (t : String) × (get k d ≡ some (str t)) × (contains t choices ≡ true)

pub expect_mapping_ok :
    (v : Value) (path : String) {d : Fields} → expect_mapping v path ≡ ok d → v ≡ obj d
unfolding expect_mapping
expect_mapping_ok (obj d) path h = ap obj (ok_inj h)
expect_mapping_ok null path h = cc
expect_mapping_ok (bool b) path h = cc
expect_mapping_ok (int z) path h = cc
expect_mapping_ok (float x) path h = cc
expect_mapping_ok (str s) path h = cc
expect_mapping_ok (arr vs) path h = cc

pub fail_if-ok_iff :
    (b : Bool) (path message : String) → (fail_if b path message ≡ ok tt) ↔ (b ≡ false)
unfolding fail_if
fail_if-ok_iff b path message = raise_if-ok_iff b _

pub fail_unless :
    (b : Bool) (path message : String) → (fail_if (not b) path message ≡ ok tt) ↔ (b ≡ true)
unfolding fail_if
fail_unless true path message = (λ _. refl, λ _. refl)
fail_unless false path message = (λ h. absurd (cc), λ h. absurd (cc))

pub positive_int_ok :
    (v : Value) (path : String) → is_positive_int v path ≡ ok tt → (n : ℕ) × (v ≡ int (pos (suc n)))
unfolding positive_int
positive_int_ok (int (pos (suc n))) path h = (n, refl)
positive_int_ok (int (pos zero)) path h = absurd (cc)
positive_int_ok (int (negsuc n)) path h = absurd (cc)
positive_int_ok null path h = absurd (cc)
positive_int_ok (bool b) path h = absurd (cc)
positive_int_ok (float x) path h = absurd (cc)
positive_int_ok (str s) path h = absurd (cc)
positive_int_ok (arr vs) path h = absurd (cc)
positive_int_ok (obj d) path h = absurd (cc)

pub positive_int_value :
    (v : Value) (path : String) {n : ℕ}
    → positive_int v path ≡ ok n
    → (k : ℕ) × (n ≡ suc k) × (v ≡ int (pos (suc k)))
unfolding positive_int
positive_int_value (int (pos (suc k))) path h = (k, sym (ok_inj h), refl)
positive_int_value (int (pos zero)) path h = absurd (cc)
positive_int_value (int (negsuc n)) path h = absurd (cc)
positive_int_value null path h = absurd (cc)
positive_int_value (bool b) path h = absurd (cc)
positive_int_value (float x) path h = absurd (cc)
positive_int_value (str s) path h = absurd (cc)
positive_int_value (arr vs) path h = absurd (cc)
positive_int_value (obj d) path h = absurd (cc)

nonnegative_int_ok :
    (v : Value) (path : String) → is_nonnegative_int v path ≡ ok tt → (n : ℕ) × (v ≡ int (pos n))
unfolding nonnegative_int
nonnegative_int_ok (int (pos n)) path h = (n, refl)
nonnegative_int_ok (int (negsuc n)) path h = absurd (cc)
nonnegative_int_ok null path h = absurd (cc)
nonnegative_int_ok (bool b) path h = absurd (cc)
nonnegative_int_ok (float x) path h = absurd (cc)
nonnegative_int_ok (str s) path h = absurd (cc)
nonnegative_int_ok (arr vs) path h = absurd (cc)
nonnegative_int_ok (obj d) path h = absurd (cc)

choose_ok :
    (s : String) (choices : List String) (path : String)
    → discard (choose s choices path) ≡ ok tt
    → contains s choices ≡ true
unfolding choose
choose_ok s choices path h = elim (Bool-cases (contains s choices)) [
  | inl known ↦ known
  | inr other ↦ absurd (cc (rw other at h))
]

pub choice_ok :
    (v : Value) (choices : List String) (path : String)
    → is_choice choices v path ≡ ok tt
    → (t : String) × (v ≡ str t) × (contains t choices ≡ true)
unfolding choice
choice_ok (str s) choices path h = (s, refl, choose_ok s choices path h)
choice_ok null choices path h = absurd (cc)
choice_ok (bool b) choices path h = absurd (cc)
choice_ok (int z) choices path h = absurd (cc)
choice_ok (float x) choices path h = absurd (cc)
choice_ok (arr vs) choices path h = absurd (cc)
choice_ok (obj d) choices path h = absurd (cc)

pub check_at_found :
    (check : Value → String → Checked) (k : String) (d : Fields) {v : Value}
    → get k d ≡ some v
    → check_at check k d ≡ check v k
check_at_found check k d h = rw (h, check_at, index) refl

pub check_if_present_found :
    (check : Value → String → Checked) (k : String) (d : Fields) {v : Value}
    → get k d ≡ some v
    → check_if_present check k d ≡ check v k
check_if_present_found check k d h = rw (h, check_if_present) refl

pub check_if_present_missing :
    (check : Value → String → Checked) (k : String) (d : Fields)
    → get k d ≡ none
    → check_if_present check k d ≡ ok tt
check_if_present_missing check k d h = rw (h, check_if_present) refl

check_at_missing :
    (check : Value → String → Checked) (k : String) (d : Fields)
    → get k d ≡ none
    → check_at check k d ≡ err Error.key_error
check_at_missing check k d h = rw (h, check_at, index) refl

pub check_at_ok :
    (check : Value → String → Checked) (k : String) (d : Fields)
    → check_at check k d ≡ ok tt
    → (v : Value) × (get k d ≡ some v) × (check v k ≡ ok tt)
check_at_ok check k d h = elim (Option-cases (get k d)) [
  | inl missing ↦ absurd (cc (check_at_missing check k d missing))
  | inr (v, found) ↦ (v, found, sym (check_at_found check k d found) ∙ h)
]

pub positive_at-ok_iff :
    (d : Fields) (k : String) → (check_at is_positive_int k d ≡ ok tt) ↔ HasPositive d k
unfolding positive_int
positive_at-ok_iff d k = (
  λ h.
      let (v, found, good) = check_at_ok is_positive_int k d h in
      let (n, e) = positive_int_ok v k good in (n, rw (← e) found),
  λ p. check_at_found is_positive_int k d p.1,
)

pub nonnegative_at-ok_iff :
    (d : Fields) (k : String) → (check_at is_nonnegative_int k d ≡ ok tt) ↔ HasNatural d k
unfolding nonnegative_int
nonnegative_at-ok_iff d k = (
  λ h.
      let (v, found, good) = check_at_ok is_nonnegative_int k d h in
      let (n, e) = nonnegative_int_ok v k good in (n, rw (← e) found),
  λ p. check_at_found is_nonnegative_int k d p.1,
)

choose_value :
    (s : String) (choices : List String) (path : String) {t : String}
    → choose s choices path ≡ ok t
    → s ≡ t
unfolding choose
choose_value s choices path h = elim (Bool-cases (contains s choices)) [
  | inl known ↦ ok_inj (rw known at h)
  | inr other ↦ absurd (cc (rw other at h))
]

pub choice_value :
    (v : Value) (choices : List String) (path : String) {t : String}
    → choice v choices path ≡ ok t
    → v ≡ str t
unfolding choice
choice_value (str s) choices path h = ap str (choose_value s choices path h)
choice_value null choices path h = absurd (cc)
choice_value (bool b) choices path h = absurd (cc)
choice_value (int z) choices path h = absurd (cc)
choice_value (float x) choices path h = absurd (cc)
choice_value (arr vs) choices path h = absurd (cc)
choice_value (obj d) choices path h = absurd (cc)

pub index_ok : (k : String) (d : Fields) {v : Value} → index k d ≡ ok v → get k d ≡ some v
index_ok k d h = elim (Option-cases (get k d)) [
  | inl missing ↦ absurd (cc (missing_key k d missing))
  | inr (w, found) ↦ found ∙ ap some (ok_inj (sym (found_key k d found) ∙ h))
]
  where
    missing_key : (k : String) (d : Fields) → get k d ≡ none → index k d ≡ err Error.key_error
    missing_key k d e = rw (e, index) refl

    found_key : (k : String) (d : Fields) {w : Value} → get k d ≡ some w → index k d ≡ ok w
    found_key k d e = rw (e, index) refl

pub positive_entry_value :
    (k : String) (d : Fields) {n : ℕ}
    → positive_entry k d ≡ ok n
    → (j : ℕ) × (n ≡ suc j) × (get k d ≡ some (int (pos (suc j))))
positive_entry_value k d h =
    bind_elim (index k d) (λ v. positive_int v k) h
      λ v found good.
        let (j, size, e) = positive_int_value v k good in (j, size, index_ok k d found ∙ ap some e)

pub choice_known :
    (t : String) (choices : List String) (path : String)
    → contains t choices ≡ true
    → choice (str t) choices path ≡ ok t
unfolding choice choose
choice_known t choices path known = rw known refl

pub choice_entry_value :
    (k : String) (choices : List String) (d : Fields) {s : String}
    → choice_entry k choices d ≡ ok s
    → get k d ≡ some (str s)
choice_entry_value k choices d h =
    bind_elim (index k d) (λ v. choice v choices k) h
      λ v found good. index_ok k d found ∙ ap some (choice_value v choices k good)

pub choice_entry_found :
    (k : String) (choices : List String) (d : Fields) {s : String}
    → get k d ≡ some (str s)
    → contains s choices ≡ true
    → choice_entry k choices d ≡ ok s
unfolding choice choose
choice_entry_found k choices d found known = rw (found, index) (rw known refl)

pub choice_at-ok_iff :
    (choices : List String) (d : Fields) (k : String)
    → (check_at (is_choice choices) k d ≡ ok tt) ↔ HasChoice choices d k
unfolding choice choose
choice_at-ok_iff choices d k = (
  λ h.
      let (v, found, good) = check_at_ok (is_choice choices) k d h in
      let (t, e, known) = choice_ok v choices k good in (t, rw (← e) found, known),
  λ p. check_at_found (is_choice choices) k d p.1 ∙ rw p.2 refl,
)

pub each-ok_iff :
    (P : String → Type 0) (check : String → Checked)
    → ((k : String) → (check k ≡ ok tt) ↔ P k)
    → (ks : List String) → (each check ks ≡ ok tt) ↔ All P ks
each-ok_iff P check one [] = (λ _. tt, λ _. refl)
each-ok_iff P check one (k ∷ ks) = (
  λ h.
      let (first, rest) = (>>-ok_iff (check k) (each check ks)).0 h in
      ((one k).0 first, (each-ok_iff P check one ks).0 rest),
  λ h. (>>-ok_iff (check k) (each check ks)).1 ((one k).1 h.0, (each-ok_iff P check one ks).1 h.1),
)

pub check_if_present-ok_iff :
    (P : Type 0) (check : Value → String → Checked) (d : Fields) (k : String)
    → (check_at check k d ≡ ok tt) ↔ P
    → (check_if_present check k d ≡ ok tt) ↔ ((get k d ≡ none) ⊎ P)
check_if_present-ok_iff P check d k here = (
  λ h. elim (Option-cases (get k d)) [
    | inl missing ↦ inl missing
    | inr (v, found) ↦
        inr (
          here.0
            (check_at_found check k d found ∙ sym (check_if_present_found check k d found) ∙ h))
  ],
  λ h. elim h [
    | inl missing ↦ check_if_present_missing check k d missing
    | inr p ↦
        let (v, found, good) = check_at_ok check k d (here.1 p) in
        check_if_present_found check k d found ∙ good
  ],
)

abbrev pub HasText : Fields → String → Type 0
HasText d k = (t : String) × (get k d ≡ some (str t)) × (is_blank_text t ≡ false)

abbrev pub HasMapping : Fields → String → Type 0
HasMapping d k = (m : Fields) × (get k d ≡ some (obj m))

pub nonempty_text_ok :
    (v : Value) (path : String)
    → nonempty_text v path ≡ ok tt
    → (t : String) × (v ≡ str t) × (is_blank_text t ≡ false)
unfolding nonempty_text
nonempty_text_ok (str s) path h = (s, refl, (fail_if-ok_iff _ _ _).0 h)
nonempty_text_ok null path h = absurd (cc)
nonempty_text_ok (bool b) path h = absurd (cc)
nonempty_text_ok (int z) path h = absurd (cc)
nonempty_text_ok (float x) path h = absurd (cc)
nonempty_text_ok (arr vs) path h = absurd (cc)
nonempty_text_ok (obj d) path h = absurd (cc)

pub text_at-ok_iff : (d : Fields) (k : String) → (check_at nonempty_text k d ≡ ok tt) ↔ HasText d k
unfolding nonempty_text
text_at-ok_iff d k = (
  λ h.
      let (v, found, good) = check_at_ok nonempty_text k d h in
      let (t, e, full) = nonempty_text_ok v k good in (t, rw (← e) found, full),
  λ p. check_at_found nonempty_text k d p.1 ∙ (fail_if-ok_iff _ _ _).1 p.2,
)

mapping_ok : (v : Value) (path : String) → is_mapping v path ≡ ok tt → (m : Fields) × (v ≡ obj m)
unfolding expect_mapping
mapping_ok (obj m) path h = (m, refl)
mapping_ok null path h = absurd (cc)
mapping_ok (bool b) path h = absurd (cc)
mapping_ok (int z) path h = absurd (cc)
mapping_ok (float x) path h = absurd (cc)
mapping_ok (str s) path h = absurd (cc)
mapping_ok (arr vs) path h = absurd (cc)

pub mapping_at-ok_iff :
    (d : Fields) (k : String) → (check_at is_mapping k d ≡ ok tt) ↔ HasMapping d k
unfolding expect_mapping
mapping_at-ok_iff d k = (
  λ h.
      let (v, found, good) = check_at_ok is_mapping k d h in
      let (m, e) = mapping_ok v k good in (m, rw (← e) found),
  λ p. check_at_found is_mapping k d p.1,
)

no_unknown :
    (allowed ks : List String)
    → (any (λ k. not (contains k allowed)) ks ≡ false) ↔ All (λ k. contains k allowed ≡ true) ks
no_unknown allowed [] = (λ _. tt, λ _. refl)
no_unknown allowed (k ∷ ks) = elim (Bool-cases (contains k allowed)) [
  | inl known ↦ (
    λ h. (known, (no_unknown allowed ks).0 (rw known at h)),
    λ h. rw known ((no_unknown allowed ks).1 h.1),
  )
  | inr other ↦ (λ h. absurd (cc (rw other at h)), λ h. absurd (cc (rw other at (h.0))))
]

-- The keys of a dictionary are texts, and known.
abbrev pub KnownKeys : List String → Fields → Type 0
KnownKeys allowed d = (has_other_key d ≡ false) × All (λ k. contains k allowed ≡ true) (keys d)

-- `reject_unknown` accepts a dictionary all of whose keys are known.
pub reject_unknown-ok_iff :
    (d : Fields) (allowed : List String) (path : String)
    → (reject_unknown d allowed path ≡ ok tt) ↔ KnownKeys allowed d
unfolding reject_unknown
reject_unknown-ok_iff d allowed path = elim (Bool-cases (has_other_key d)) [
  | inl foreign ↦ (λ h. absurd (cc (rw foreign at h)), λ h. absurd (cc (rw foreign at h.0)))
  | inr texts ↦ (
    λ h. (texts, (no_unknown allowed (keys d)).0 ((fail_if-ok_iff _ _ _).0 (rw texts at h))),
    λ h. rw texts ((fail_if-ok_iff _ _ _).1 ((no_unknown allowed (keys d)).1 h.1)),
  )
]

entry_is_missing : (k s : String) (d : Fields) → get k d ≡ none → entry_is k s d ≡ false
entry_is_missing k s d h = rw (h, entry_is) refl

pub entry_is_found :
    (k s : String) (d : Fields) {v : Value} → get k d ≡ some v → entry_is k s d ≡ equals_text s v
entry_is_found k s d h = rw (h, entry_is) refl

pub entry_is-true : (k s : String) (d : Fields) → (entry_is k s d ≡ true) ↔ (get k d ≡ some (str s))
entry_is-true k s d = elim (Option-cases (get k d)) [
  | inl missing ↦ (λ h. absurd (cc (entry_is_missing k s d missing)), λ h. absurd (cc missing))
  | inr (v, found) ↦ (
    λ h. found ∙ ap some ((equals_text-true s v).0 (sym (entry_is_found k s d found) ∙ h)),
    λ h. entry_is_found k s d h ∙ str_eq_refl s,
  )
]
