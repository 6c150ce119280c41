-- ===== src/PyValue/Keys.antt =====
-- Values whose dictionaries have texts for keys, at every depth, as those of JSON have.
use mathlib.Core.Path.{subst}
use ramulator.PyValue.Dict.{
  Value, Fields, Items, end, field, keyed, nil, cons, arr, obj, get, insert,
}
use ramulator.PyValue.Update.{update, has_other_key}
use ramulator.Prelude.{String, ◌≡◌, refl, false, some, str_eq, Bool-cases, inl, inr}

unfoldable mutual
  pub TextKeys : Value → Type 0
  TextKeys (arr vs) = TextItems vs
  TextKeys (obj d) = TextFields d
  TextKeys _ = Unit {0}

  pub TextFields : Fields → Type 0
  TextFields end = Unit {0}
  TextFields (field k v d) = TextKeys v × TextFields d
  TextFields (keyed k v d) = ⊥

  TextItems : Items → Type 0
  TextItems nil = Unit {0}
  TextItems (cons v vs) = TextKeys v × TextItems vs

pub no_other_key : (d : Fields) → TextFields d → has_other_key d ≡ false
unfolding TextFields
no_other_key end h = refl
no_other_key (field k v d) h = no_other_key d h.1
no_other_key (keyed k v d) h = absurd h

pub get-TextKeys :
    (k : String) (d : Fields) {v : Value} → TextFields d → get k d ≡ some v → TextKeys v
unfolding get TextFields
get-TextKeys k end {v} h e = absurd (cc)
get-TextKeys k (field j w d) {v} h e = elim (Bool-cases (str_eq j k)) [
  | inl same ↦
      let q : some w ≡ some v = rw (same, get) at e in let r : w ≡ v = cc in subst TextKeys r h.0
  | inr other ↦ let q : get k d ≡ some v = rw (other, get) at e in get-TextKeys k d h.1 q
]
get-TextKeys k (keyed j w d) {v} h e = absurd h

insert-TextFields :
    (k : String) (v : Value) (d : Fields) → TextKeys v → TextFields d → TextFields (insert k v d)
unfolding insert TextFields
insert-TextFields k v end t h = (t, tt)
insert-TextFields k v (field j w d) t h = elim (Bool-cases (str_eq j k)) [
  | inl same ↦ rw same (t, h.1)
  | inr other ↦ rw other (h.0, insert-TextFields k v d t h.1)
]
insert-TextFields k v (keyed j w d) t h = absurd h

pub update-TextFields : (d e : Fields) → TextFields d → TextFields e → TextFields (update d e)
unfolding update TextFields
update-TextFields d end h t = h
update-TextFields d (field k v e) h t =
    update-TextFields (insert k v d) e (insert-TextFields k v d t.0 h) t.1
update-TextFields d (keyed k v e) h t = absurd t
