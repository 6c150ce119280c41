-- ===== src/Config/Overrides/Laws.antt =====
-- What an override changes, and what it leaves.
use ramulator.Prelude.{
  String, ◌≡◌, ◌⊎◌, ◌↔◌, refl, ap, sym, ◌∙◌, false, Option, none, some, List, [], ◌∷◌, ok, ok_inj,
  bind_elim, str_eq, inl, inr,
}
use ramulator.PyValue.{
  Value, Fields, end, null, bool, int, float, str, arr, obj, get, insert, get-insert, str_eq_refl,
}
use ramulator.Config.Overrides.{parse_override, child, set_path, apply_override}

-- The dictionary that a value is, for a lookup to descend into.
abbrev below : Option Value → Fields
below (some (obj d)) = d
below _ = end

-- `raw[k][k1]...[kn]`, `none` where a key is missing or a value on the way is no dictionary.
abbrev pub get_path : String → List String → Fields → Option Value
get_path k [] d = get k d
get_path k (j ∷ ks) d = get_path j ks (below (get k d))

-- Two paths that part: neither leads through the other.
abbrev pub Apart : String → List String → String → List String → Type 0
Apart k [] a ls = str_eq k a ≡ false
Apart k (j ∷ ks) a [] = str_eq k a ≡ false
Apart k (j ∷ ks) a (b ∷ bs) = (str_eq k a ≡ false) ⊎ ((k ≡ a) × Apart j ks b bs)

child_lem : (o : Option Value) {d : Fields} → child o ≡ ok d → below o ≡ d
unfolding child
child_lem none h = ok_inj h
child_lem (some null) h = ok_inj h
child_lem (some (obj d)) h = ok_inj h
child_lem (some (bool b)) h = absurd (cc)
child_lem (some (int z)) h = absurd (cc)
child_lem (some (float x)) h = absurd (cc)
child_lem (some (str s)) h = absurd (cc)
child_lem (some (arr vs)) h = absurd (cc)

get-insert_self : (k : String) (v : Value) (d : Fields) → get k (insert k v d) ≡ some v
get-insert_self k v d = get-insert k k v d ∙ rw (str_eq_refl k) refl

get-insert_other :
    (a k : String) (v : Value) (d : Fields) → str_eq k a ≡ false → get a (insert k v d) ≡ get a d
get-insert_other a k v d h = get-insert a k v d ∙ rw h refl

pub get_path-set_path :
    (k : String) (ks : List String) (v : Value) (d d' : Fields)
    → set_path k ks v d ≡ ok d'
    → get_path k ks d' ≡ some v
unfolding set_path
get_path-set_path k [] v d d' h = ap (get k) (sym (ok_inj h)) ∙ get-insert_self k v d
get_path-set_path k (j ∷ ks) v d d' h = bind_elim (child (get k d)) _ h λ e _ h1.
    bind_elim (set_path j ks v e) (λ e'. ok (insert k (obj e') d)) h1
      λ e' set same.
        let at_k : get k d' ≡ some (obj e') =
          ap (get k) (sym (ok_inj same)) ∙ get-insert_self k (obj e') d in
        ap (λ (o : Option Value). get_path j ks (below o)) at_k ∙ get_path-set_path j ks v e e' set

-- A lookup by another first key.
get_path_other :
    (k a : String) (ls : List String) (v : Value) (d : Fields)
    → str_eq k a ≡ false
    → get_path a ls (insert k v d) ≡ get_path a ls d
get_path_other k a [] v d h = get-insert_other a k v d h
get_path_other k a (b ∷ bs) v d h =
    ap (λ (o : Option Value). get_path b bs (below o)) (get-insert_other a k v d h)

pub get_path-set_path_other :
    (k : String) (ks : List String) (a : String) (ls : List String) (v : Value) (d d' : Fields)
    → Apart k ks a ls
    → set_path k ks v d ≡ ok d'
    → get_path a ls d' ≡ get_path a ls d
unfolding set_path
get_path-set_path_other k [] a ls v d d' apart h =
    ap (get_path a ls) (sym (ok_inj h)) ∙ get_path_other k a ls v d apart
get_path-set_path_other k (j ∷ ks) a [] v d d' apart h = bind_elim (child (get k d)) _ h λ e _ h1.
    bind_elim (set_path j ks v e) (λ e'. ok (insert k (obj e') d)) h1
      λ e' set same. ap (get_path a []) (sym (ok_inj same)) ∙ get_path_other k a [] (obj e') d apart
get_path-set_path_other k (j ∷ ks) a (b ∷ bs) v d d' (inl apart) h =
    bind_elim (child (get k d)) _ h λ e _ h1.
      bind_elim (set_path j ks v e) (λ e'. ok (insert k (obj e') d)) h1
        λ e' set same.
          ap (get_path a (b ∷ bs)) (sym (ok_inj same))
          ∙ get_path_other k a (b ∷ bs) (obj e') d apart
get_path-set_path_other k (j ∷ ks) a (b ∷ bs) v d d' (inr (q, apart)) h =
    bind_elim (child (get k d)) _ h λ e ee h1.
      bind_elim (set_path j ks v e) (λ e'. ok (insert k (obj e') d)) h1
        λ e' set same.
          let at_k : get a d' ≡ some (obj e') =
            rw (← q) (ap (get k) (sym (ok_inj same)) ∙ get-insert_self k (obj e') d) in
          let was : e ≡ below (get a d) = rw (← q) (sym (child_lem (get k d) ee)) in
          ap (λ (o : Option Value). get_path b bs (below o)) at_k
          ∙ get_path-set_path_other j ks b bs v e e' apart set
          ∙ ap (get_path b bs) was

-- An override that is applied has set its value at its path, and a lookup by any path that parts from
-- it, on the way or at the end, gives what it gave.
pub apply_override-sets :
    (loads : String → Option Value) (override k : String) (ks : List String) (v : Value)
    (d d' : Fields)
    → parse_override loads override ≡ ok (k, ks, v)
    → apply_override loads d override ≡ ok d'
    → (get_path k ks d' ≡ some v)
      × ((a : String) (ls : List String) → Apart k ks a ls → get_path a ls d' ≡ get_path a ls d)
unfolding apply_override
apply_override-sets loads override k ks v d d' parsed h =
    let set : set_path k ks v d ≡ ok d' = rw parsed at h in
    (
      get_path-set_path k ks v d d' set,
      λ a ls apart. get_path-set_path_other k ks a ls v d d' apart set,
    )

-- A cursor can move into what is missing, null or a dictionary.
abbrev IsOpen : Option Value → Type 0
IsOpen none = Unit {0}
IsOpen (some null) = Unit {0}
IsOpen (some (obj d)) = Unit {0}
IsOpen _ = ⊥

-- No value on the way to the last key bars it.
abbrev pub Passes : String → List String → Fields → Type 0
Passes k [] d = Unit {0}
Passes k (j ∷ ks) d = IsOpen (get k d) × Passes j ks (below (get k d))

IsOpen-child : (o : Option Value) → IsOpen o → child o ≡ ok (below o)
unfolding child
IsOpen-child none h = refl
IsOpen-child (some null) h = refl
IsOpen-child (some (obj d)) h = refl
IsOpen-child (some (bool b)) h = absurd h
IsOpen-child (some (int z)) h = absurd h
IsOpen-child (some (float x)) h = absurd h
IsOpen-child (some (str s)) h = absurd h
IsOpen-child (some (arr vs)) h = absurd h

child-IsOpen : (o : Option Value) (d : Fields) → child o ≡ ok d → IsOpen o
unfolding child
child-IsOpen none d h = tt
child-IsOpen (some null) d h = tt
child-IsOpen (some (obj e)) d h = tt
child-IsOpen (some (bool b)) d h = cc
child-IsOpen (some (int z)) d h = cc
child-IsOpen (some (float x)) d h = cc
child-IsOpen (some (str s)) d h = cc
child-IsOpen (some (arr vs)) d h = cc

set_path-Passes :
    (k : String) (ks : List String) (v : Value) (d d' : Fields)
    → set_path k ks v d ≡ ok d'
    → Passes k ks d
unfolding set_path
set_path-Passes k [] v d d' h = tt
set_path-Passes k (j ∷ ks) v d d' h = bind_elim (child (get k d)) _ h λ e ee h1.
    bind_elim (set_path j ks v e) (λ e'. ok (insert k (obj e') d)) h1
      λ e' set _.
        (child-IsOpen (get k d) e ee, rw (child_lem (get k d) ee) (set_path-Passes j ks v e e' set))

Passes-set_path :
    (k : String) (ks : List String) (v : Value) (d : Fields)
    → Passes k ks d
    → (d' : Fields) × (set_path k ks v d ≡ ok d')
unfolding set_path
Passes-set_path k [] v d h = (insert k v d, refl)
Passes-set_path k (j ∷ ks) v d h =
    let (e', set) = Passes-set_path j ks v (below (get k d)) h.1 in
    (insert k (obj e') d, rw (IsOpen-child (get k d) h.0, set) refl)

-- An override is applied exactly if every value on the way to its last key is missing, null or a
-- dictionary.
pub apply_override-ok_iff :
    (loads : String → Option Value) (override k : String) (ks : List String) (v : Value)
    (d : Fields)
    → parse_override loads override ≡ ok (k, ks, v)
    → ((d' : Fields) × (apply_override loads d override ≡ ok d')) ↔ Passes k ks d
unfolding apply_override
apply_override-ok_iff loads override k ks v d parsed = (
  λ (d', h). set_path-Passes k ks v d d' (rw parsed at h),
  λ h. let (d', set) = Passes-set_path k ks v d h in (d', rw parsed set),
)
