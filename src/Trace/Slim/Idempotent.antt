-- ===== src/Trace/Slim/Idempotent.antt =====
-- A slim record is left as it is: what `write_jsonl` has slimmed passes the reader unchanged.
use mathlib.Core.Path.{subst}
use ramulator.Prelude.{
  String, ◌≡◌, refl, ap, ◌∙◌, false, Option, none, some, ok, ok_inj, bind_elim, str_eq, eq_iff,
  Bool-cases, inl, inr, arith,
}
use ramulator.PyValue.{
  Value, Fields, end, field, keyed, null, bool, int, float, str, arr, obj, get, insert,
}
use ramulator.Trace.Slim.{
  is_dropped, drop_constants, semantic_source, compact, add_sem, add_source, slim_record,
}

drop_twice : (d : Fields) → drop_constants (drop_constants d) ≡ drop_constants d
unfolding drop_constants
drop_twice end = refl
drop_twice (field k v d) = elim (Bool-cases (is_dropped k)) [
  | inl dropped ↦ rw dropped (drop_twice d)
  | inr kept ↦ rw (kept, drop_constants, kept) (ap (λ (e : Fields). field k v e) (drop_twice d))
]
drop_twice (keyed k v d) = ap (λ (e : Fields). keyed k v e) (drop_twice d)

no_provenance : (d : Fields) → get "provenance" (drop_constants d) ≡ none
unfolding drop_constants get
no_provenance end = refl
no_provenance (field k v d) = elim (Bool-cases (is_dropped k)) [
  | inl dropped ↦ rw dropped (no_provenance d)
  | inr kept ↦
      let q : str_eq k "provenance" ≡ false = ground arith in rw (kept, get, q) (no_provenance d)
]
no_provenance (keyed k v d) = no_provenance d

drop-insert :
    (v : Value) (d : Fields)
    → drop_constants (insert "sem" v (drop_constants d)) ≡ insert "sem" v (drop_constants d)
unfolding drop_constants insert
drop-insert v end = refl
drop-insert v (field k w d) = elim (Bool-cases (is_dropped k)) [
  | inl dropped ↦ rw dropped (drop-insert v d)
  | inr kept ↦ elim (Bool-cases (str_eq k "sem")) [
    | inl here ↦
        rw (kept, insert, here, drop_constants, kept)
          (ap (λ (e : Fields). field k v e) (drop_twice d))
    | inr other ↦
        rw (kept, insert, other, drop_constants, kept)
          (ap (λ (e : Fields). field k w e) (drop-insert v d))
  ]
]
drop-insert v (keyed k w d) = ap (λ (e : Fields). keyed k w e) (drop-insert v d)

get-insert_ne : (v : Value) (d : Fields) → get "provenance" (insert "sem" v d) ≡ get "provenance" d
unfolding get insert
get-insert_ne v end = refl
get-insert_ne v (field k w d) = elim (Bool-cases (str_eq k "sem")) [
  | inl here ↦
      let q : k ≡ "sem" = (eq_iff k "sem").0 here in
      let e : str_eq k "provenance" ≡ false = ap (λ (x : String). str_eq x "provenance") q in
      rw (here, get, e)
  | inr other ↦ elim (Bool-cases (str_eq k "provenance")) [
    | inl found ↦ rw (other, get, found)
    | inr not_found ↦ rw (other, get, not_found) (get-insert_ne v d)
  ]
]
get-insert_ne v (keyed k w d) = get-insert_ne v d

-- No constant field is left.
IsSlim : Fields → Type 0
IsSlim s = (drop_constants s ≡ s) × (get "provenance" s ≡ none)

dropped-IsSlim : (d : Fields) → IsSlim (drop_constants d)
unfolding IsSlim
dropped-IsSlim d = (drop_twice d, no_provenance d)

add_sem-IsSlim : (sem d : Fields) → IsSlim (add_sem sem (drop_constants d))
unfolding IsSlim add_sem
add_sem-IsSlim end d = (drop_twice d, no_provenance d)
add_sem-IsSlim (field k v sem) d = (
  drop-insert (obj (field k v sem)) d,
  get-insert_ne (obj (field k v sem)) (drop_constants d) ∙ no_provenance d,
)
add_sem-IsSlim (keyed k v sem) d = (
  drop-insert (obj (keyed k v sem)) d,
  get-insert_ne (obj (keyed k v sem)) (drop_constants d) ∙ no_provenance d,
)

add_source-IsSlim : (o : Option Value) (d : Fields) → IsSlim (add_source o (drop_constants d))
unfolding add_source
add_source-IsSlim none d = dropped-IsSlim d
add_source-IsSlim (some (obj source)) d = add_sem-IsSlim (compact source) d
add_source-IsSlim (some null) d = dropped-IsSlim d
add_source-IsSlim (some (bool b)) d = dropped-IsSlim d
add_source-IsSlim (some (int z)) d = dropped-IsSlim d
add_source-IsSlim (some (float x)) d = dropped-IsSlim d
add_source-IsSlim (some (str t)) d = dropped-IsSlim d
add_source-IsSlim (some (arr vs)) d = dropped-IsSlim d

slim_record-IsSlim : (r s : Fields) → slim_record r ≡ ok s → IsSlim s
unfolding slim_record
slim_record-IsSlim r s h =
    bind_elim (semantic_source (get "provenance" r))
      (λ (o : Option Value). ok (add_source o (drop_constants r))) h
      λ o e h1. subst IsSlim (ok_inj h1) (add_source-IsSlim o r)

-- Slimming a slim record changes nothing.
pub slim_record-slim_record : (r s : Fields) → slim_record r ≡ ok s → slim_record s ≡ ok s
unfolding slim_record IsSlim semantic_source add_source
slim_record-slim_record r s h =
    let (kept, none_left) = slim_record-IsSlim r s h in rw (none_left, kept)
