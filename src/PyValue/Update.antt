-- ===== src/PyValue/Update.antt =====
-- Dictionaries against one another, and the laws of `get`.
use ramulator.PyValue.Dict.{
  Fields, Value, arr, bool, dyadic, end, field, keyed, float, get, has, insert, int, null, obj, str,
}
use ramulator.Prelude.{
  ℕ, ◌*◌, ◌^◌, String, ◌≡◌, ◌↔◌, all, refl, ap, ◌∙◌, Bool, true, false, not, none, some, List, [],
  ◌∷◌, ◌==◌, str_eq, eq_iff, if◌then◌else◌, Bool-cases, inl, inr, arith,
}
use ramulator.Prelude.Int.{pos}
use ramulator.PyValue.Text.{contains}

-- A new key that is not a text, at the end.
append_keyed : Value → Value → Fields → Fields
append_keyed k v end = keyed k v end
append_keyed k v (field j w d) = field j w (append_keyed k v d)
append_keyed k v (keyed j w d) = keyed j w (append_keyed k v d)

-- `d.update(e)`, where the keys of `d` are texts, as those of the source's tables are.
unfoldable pub update : Fields → Fields → Fields
unfolding append_keyed
update d end = d
update d (field k v e) = update (insert k v d) e
update d (keyed k v e) = update (append_keyed k v d) e

-- `d` without a key, as `d.pop(k, None)` leaves it.
unfoldable pub remove : String → Fields → Fields
remove k end = end
remove k (field j v d) = if str_eq j k then remove k d else field j v (remove k d)
remove k (keyed j v d) = keyed j v (remove k d)

-- The members of `set(d)` that are texts.
abbrev pub keys : Fields → List String
keys end = []
keys (field k v d) = k ∷ keys d
keys (keyed k v d) = keys d

-- Has `set(d)` a member that is not a text?
abbrev pub has_other_key : Fields → Bool
has_other_key end = false
has_other_key (field k v d) = has_other_key d
has_other_key (keyed k v d) = true

-- `value == n`, which `True`, `False` and floats pass too.
unfoldable pub equals_nat : ℕ → Value → Bool
equals_nat n (int (pos m)) = m == n
equals_nat n (bool true) = n == 1
equals_nat n (bool false) = n == 0
equals_nat n (float (dyadic (pos m) k)) = m == n * 2 ^ k
equals_nat n _ = false

-- `value == text`
abbrev pub equals_text : String → Value → Bool
equals_text s (str t) = str_eq t s
equals_text s _ = false

pub str_eq_refl : (s : String) → str_eq s s ≡ true
str_eq_refl s = (eq_iff s s).1 refl

pub get-insert :
    (j k : String) (v : Value) (d : Fields)
    → get j (insert k v d) ≡ (if str_eq k j then some v else get j d)
unfolding get insert
get-insert j k v end = refl
get-insert j k v (field i w d) = elim (Bool-cases (str_eq i k)) [
  | inl same ↦ let q : i ≡ k = (eq_iff i k).0 same in rw (same, q) (ground arith)
  | inr other ↦
      rw (other, get) (ground (arith, get-insert j k v d, eq_iff i j, eq_iff k j, eq_iff i k))
]
get-insert j k v (keyed i w d) = get-insert j k v d

get-append_keyed : (j : String) (k v : Value) (d : Fields) → get j (append_keyed k v d) ≡ get j d
unfolding get append_keyed
get-append_keyed j k v end = refl
get-append_keyed j k v (field i w d) = elim (Bool-cases (str_eq i j)) [
  | inl same ↦ rw same
  | inr other ↦ rw other (get-append_keyed j k v d)
]
get-append_keyed j k v (keyed i w d) = get-append_keyed j k v d

pub has-insert :
    (j k : String) (v : Value) (d : Fields)
    → has j (insert k v d) ≡ (if str_eq k j then true else has j d)
has-insert j k v d = rw (get-insert j k v d) (ground arith)

-- A write of the value that is there changes nothing.
pub insert_same : (k : String) (v : Value) (d : Fields) → get k d ≡ some v → insert k v d ≡ d
unfolding get insert
insert_same k v end h = cc
insert_same k v (field i w d) h = elim (Bool-cases (str_eq i k)) [
  | inl same ↦
      let q : some w ≡ some v = rw (same, get) at h in
      let r : w ≡ v = cc in rw (same, insert) (rw r refl)
  | inr other ↦
      let q : get k d ≡ some v = rw (other, get) at h in
      rw (other, insert) (ap (field i w) (insert_same k v d q))
]
insert_same k v (keyed i w d) h = ap (keyed i w) (insert_same k v d h)

-- A key that `e` lacks keeps its value.
pub get-update_other : (j : String) (d e : Fields) → get j e ≡ none → get j (update d e) ≡ get j d
unfolding get update
get-update_other j d end h = refl
get-update_other j d (field k v e) h = elim (Bool-cases (str_eq k j)) [
  | inl same ↦ absurd (cc (rw (same, get) at h))
  | inr other ↦
      let q : get j e ≡ none = rw (other, get) at h in
      get-update_other j (insert k v d) e q ∙ get-insert j k v d ∙ rw other refl
]
get-update_other j d (keyed k v e) h =
    get-update_other j (append_keyed k v d) e h ∙ get-append_keyed j k v d

pub has-update : (j : String) (d e : Fields) → has j d ≡ true → has j (update d e) ≡ true
unfolding update
has-update j d end h = h
has-update j d (field k v e) h =
    has-update j (insert k v d) e (rw (has-insert j k v d) (ground arith))
has-update j d (keyed k v e) h =
    has-update j (append_keyed k v d) e (rw (get-append_keyed j k v d) h)

-- No key stands twice, as in every `dict`.
abbrev pub IsDict : Fields → Type 0
IsDict end = Unit {0}
IsDict (field k v d) = (get k d ≡ none) × IsDict d
IsDict (keyed k v d) = IsDict d

-- An entry of the second dictionary wins.
pub get-update :
    (j : String) (d e : Fields)
    → IsDict e
    → get j (update d e) ≡ (if has j e then get j e else get j d)
unfolding get update
get-update j d end u = refl
get-update j d (field k v e) u = elim (Bool-cases (str_eq k j)) [
  | inl same ↦
      let q : k ≡ j = (eq_iff k j).0 same in
      let fresh : get j e ≡ none = rw q at u.0 in
      rw (same, get) (get-update_other j (insert k v d) e fresh ∙ get-insert j k v d ∙ rw same refl)
  | inr other ↦
      rw (other, get) (get-update j (insert k v d) e u.1 ∙ rw (get-insert j k v d, other) refl)
]
get-update j d (keyed k v e) u =
    get-update j (append_keyed k v d) e u ∙ rw (get-append_keyed j k v d) refl

pub equals_text-true : (s : String) (v : Value) → (equals_text s v ≡ true) ↔ (v ≡ str s)
equals_text-true s (str t) = (λ h. ap str ((eq_iff t s).0 h), λ h. (eq_iff t s).1 (cc h))
equals_text-true s null = (λ h. absurd (cc), λ h. absurd (cc))
equals_text-true s (bool b) = (λ h. absurd (cc), λ h. absurd (cc))
equals_text-true s (int z) = (λ h. absurd (cc), λ h. absurd (cc))
equals_text-true s (float x) = (λ h. absurd (cc), λ h. absurd (cc))
equals_text-true s (arr vs) = (λ h. absurd (cc), λ h. absurd (cc))
equals_text-true s (obj d) = (λ h. absurd (cc), λ h. absurd (cc))

-- A text in one of two lists that share none is not in the other.
pub contains_apart :
    (s : String) (xs ys : List String)
    → all (λ x. not (contains x ys)) xs ≡ true
    → contains s xs ≡ true
    → contains s ys ≡ false
contains_apart s [] ys apart h = cc
contains_apart s (x ∷ xs) ys apart h = elim (Bool-cases (contains x ys)) [
  | inl shared ↦ absurd (cc (rw shared at apart))
  | inr fresh ↦ elim (Bool-cases (str_eq x s)) [
    | inl same ↦ rw (← (eq_iff x s).0 same) fresh
    | inr other ↦ contains_apart s xs ys (rw fresh at apart) (rw other at h)
  ]
]
