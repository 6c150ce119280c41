-- ===== src/Semantic/Membership/Laws.antt =====
-- What the entries of a dictionary are where the checks pass.
use ramulator.Prelude.{
  String, ◌≡◌, refl, ap, sym, ◌∙◌, Bool, true, false, not, Option, none, some, List, [], ◌∷◌, ◌++◌,
  all, ok, err, ok_inj, All, raise_if, raise_if-ok_iff, >>-ok_iff, bind_elim, Option-cases,
  Bool-cases, inl, inr, key_error,
}
use ramulator.PyValue.{
  Value, Fields, Items, null, bool, int, float, str, arr, obj, get, has, index, elements,
}
use ramulator.Semantic.Membership.{require, map_of, map_entry, list_of, list_entry, is_text_value}

abbrev pub IsTextValue : Value → Type 0
IsTextValue v = (s : String) × (v ≡ str s)

-- An entry that is a list of texts.
abbrev pub HasTexts : Fields → String → Type 0
HasTexts d k = (vs : Items) × (get k d ≡ some (arr vs)) × All IsTextValue (elements vs)

abbrev pub HasMap : Fields → String → Type 0
HasMap d k = (m : Fields) × (get k d ≡ some (obj m))

abbrev pub HasAll : List String → Fields → Type 0
HasAll ks d = All (λ k. has k d ≡ true) ks

of_not : (b : Bool) → not b ≡ false → b ≡ true
of_not true h = refl
of_not false h = cc

pub require_sound :
    (ks : List String) (d : Fields) (message : String) → require ks d message ≡ ok tt → HasAll ks d
require_sound [] d message h = tt
require_sound (k ∷ ks) d message h =
    let (first, rest) = (>>-ok_iff (raise_if (not (has k d)) message) (require ks d message)).0 h in
    (of_not (has k d) ((raise_if-ok_iff _ message).0 first), require_sound ks d message rest)

index_missing : (k : String) (d : Fields) → get k d ≡ none → index k d ≡ err key_error
index_missing k d e = rw (e, index) refl

index_found : (k : String) (d : Fields) {v : Value} → get k d ≡ some v → index k d ≡ ok v
index_found k d e = rw (e, index) refl

pub index_value : (k : String) (d : Fields) {v : Value} → index k d ≡ ok v → get k d ≡ some v
index_value k d h = elim (Option-cases (get k d)) [
  | inl missing ↦ absurd (cc (index_missing k d missing))
  | inr (w, found) ↦ found ∙ ap some (ok_inj (sym (index_found k d found) ∙ h))
]

map_of_value : (v : Value) {m : Fields} → map_of v ≡ ok m → v ≡ obj m
unfolding map_of
map_of_value (obj d) h = ap obj (ok_inj h)
map_of_value null h = cc
map_of_value (bool b) h = cc
map_of_value (int z) h = cc
map_of_value (float x) h = cc
map_of_value (str s) h = cc
map_of_value (arr vs) h = cc

pub map_entry_value :
    (k : String) (d : Fields) {m : Fields} → map_entry k d ≡ ok m → get k d ≡ some (obj m)
map_entry_value k d h =
    bind_elim (index k d) map_of h λ v found e. index_value k d found ∙ ap some (map_of_value v e)

list_of_value :
    (o : Option Value) {vs : List Value}
    → list_of o ≡ ok vs
    → (items : Items) × (o ≡ some (arr items)) × (elements items ≡ vs)
unfolding list_of
list_of_value (some (arr items)) h = (items, refl, ok_inj h)
list_of_value none h = absurd (cc)
list_of_value (some null) h = absurd (cc)
list_of_value (some (bool b)) h = absurd (cc)
list_of_value (some (int z)) h = absurd (cc)
list_of_value (some (float x)) h = absurd (cc)
list_of_value (some (str s)) h = absurd (cc)
list_of_value (some (obj d)) h = absurd (cc)

pub list_entry_value :
    (k : String) (d : Fields) {vs : List Value}
    → list_entry k d ≡ ok vs
    → (items : Items) × (get k d ≡ some (arr items)) × (elements items ≡ vs)
unfolding list_entry
list_entry_value k d h = list_of_value (get k d) h

text_value : (v : Value) → is_text_value v ≡ true → IsTextValue v
text_value (str s) h = (s, refl)
text_value null h = absurd (cc)
text_value (bool b) h = absurd (cc)
text_value (int z) h = absurd (cc)
text_value (float x) h = absurd (cc)
text_value (arr vs) h = absurd (cc)
text_value (obj d) h = absurd (cc)

all_texts : (vs : List Value) → all is_text_value vs ≡ true → All IsTextValue vs
all_texts [] h = tt
all_texts (v ∷ vs) h = elim (Bool-cases (is_text_value v)) [
  | inl good ↦ (text_value v good, all_texts vs (rw good at h))
  | inr bad ↦ absurd (cc (rw bad at h))
]

-- The check of the elements of a list, as it stands in an error test.
pub texts_sound :
    (vs : List Value) (message : String)
    → raise_if (not (all is_text_value vs)) message ≡ ok tt
    → All IsTextValue vs
texts_sound vs message h = all_texts vs (of_not _ ((raise_if-ok_iff _ message).0 h))

pub All-append_inv :
    (P : Value → Type 0) (xs ys : List Value) → All P (xs ++ ys) → All P xs × All P ys
All-append_inv P [] ys h = (tt, h)
All-append_inv P (x ∷ xs) ys h =
    let (left, right) = All-append_inv P xs ys h.1 in ((h.0, left), right)
