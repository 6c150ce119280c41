-- ===== src/Addressing/Validation.antt =====
-- What `validate_addr_vec` accepts, and that it accepts every vector that the mapper builds.
use native.Mathlib.Nat.{div-add-mod, div-le_self}
use ramulator.Prelude.{
  then_elim, raise_if-eq-ok, ap₂, ◌↔◌, not, false, ◌==◌, ℕ, zero, suc, ◌/◌, ◌%◌, ◌<◌, ◌≡◌, refl, ap,
  String, Bool, false, not, some, List, [], ◌∷◌, map, ok, arith, length, length-map, All, All₂,
  ==_refl, ◌==◌,
}
use ramulator.Prelude.Int.{pos, negsuc}
use ramulator.PyValue.{Value, null, int, to_int}
use ramulator.Addressing.Vector.{
  check_coordinate, check_coordinates, validate_addr_vec, to_value, positive_sizes, divide_last,
  last,
}

pub positive_sizes-map :
    (sizes : List ℕ) → All (λ s. 0 < s) sizes → positive_sizes (map to_value sizes) ≡ some sizes
positive_sizes-map [] h = refl
positive_sizes-map (zero ∷ sizes) h = absurd (omega arith)
positive_sizes-map (suc s ∷ sizes) h = rw (positive_sizes-map sizes h.1)

quotient-pos : (x p : ℕ) → 0 < x → 0 < p → x % p ≡ 0 → 0 < x / p
quotient-pos x p hx hp e = grind (arith, div-add-mod x p)

pub divide_last-pos :
    (p : ℕ) (sizes : List ℕ)
    → 0 < p
    → All (λ s. 0 < s) sizes
    → last sizes % p ≡ 0
    → All (λ s. 0 < s) (divide_last p sizes)
divide_last-pos p [] hp h e = tt
divide_last-pos p (x ∷ []) hp h e = (quotient-pos x p h.0 hp e, tt)
divide_last-pos p (x ∷ y ∷ xs) hp h e = (h.0, divide_last-pos p (y ∷ xs) hp h.1 e)

pub length-divide_last : (p : ℕ) (xs : List ℕ) → length (divide_last p xs) ≡ length xs
length-divide_last p [] = refl
length-divide_last p (x ∷ []) = refl
length-divide_last p (x ∷ y ∷ xs) = ap suc (length-divide_last p (y ∷ xs))

-- Coordinates in prefetch units lie below the sizes in columns.
pub below-divide_last :
    (p : ℕ) (vs sizes : List ℕ) → All₂ ◌<◌ vs (divide_last p sizes) → All₂ ◌<◌ vs sizes
below-divide_last p [] [] h = tt
below-divide_last p [] (x ∷ []) h = elim h [ ]
below-divide_last p [] (x ∷ y ∷ xs) h = elim h [ ]
below-divide_last p (v ∷ vs) [] h = elim h [ ]
below-divide_last p (v ∷ []) (x ∷ []) h = (omega (arith, div-le_self x p), tt)
below-divide_last p (v ∷ w ∷ vs) (x ∷ []) h = elim h.1 [ ]
below-divide_last p (v ∷ vs) (x ∷ y ∷ xs) h = (h.0, below-divide_last p vs (y ∷ xs) h.1)

check_coordinate-ok :
    (a : Bool) (v s : ℕ) → v < s → check_coordinate a (to_value s) (to_value v) ≡ ok tt
unfolding check_coordinate to_int
check_coordinate-ok a v s h = ground arith

pub check_coordinates-ok :
    (a : Bool) (vs sizes : List ℕ)
    → All₂ ◌<◌ vs sizes
    → check_coordinates a (map to_value sizes) (map to_value vs) ≡ ok tt
unfolding check_coordinates
check_coordinates-ok a [] [] h = refl
check_coordinates-ok a [] (s ∷ sizes) h = elim h [ ]
check_coordinates-ok a (v ∷ vs) [] h = elim h [ ]
check_coordinates-ok a (v ∷ vs) (s ∷ sizes) h =
    rw (check_coordinate-ok a v s h.0) (check_coordinates-ok a vs sizes h.1)

All₂-length : (vs sizes : List ℕ) → All₂ ◌<◌ vs sizes → length vs ≡ length sizes
All₂-length [] [] h = refl
All₂-length [] (s ∷ sizes) h = elim h [ ]
All₂-length (v ∷ vs) [] h = elim h [ ]
All₂-length (v ∷ vs) (s ∷ sizes) h = ap suc (All₂-length vs sizes h.1)

-- A vector with one coordinate below each size is valid.
pub validate_addr_vec-ok :
    (a : Bool) (names : List String) (vs sizes : List ℕ)
    → length names ≡ length sizes
    → All₂ ◌<◌ vs sizes
    → validate_addr_vec (map to_value vs) names (map to_value sizes) a ≡ ok tt
unfolding validate_addr_vec
validate_addr_vec-ok a names vs sizes e h =
    rw
      (
        length-map sizes to_value,
        length-map vs to_value,
        All₂-length vs sizes h,
        e,
        ==_refl (length sizes),
      )
      (check_coordinates-ok a vs sizes h)

check_coordinate_sound :
    (v : Value) (s : ℕ)
    → check_coordinate false (to_value s) v ≡ ok tt
    → (n : ℕ) × (v ≡ to_value n) × (n < s)
unfolding check_coordinate to_int
check_coordinate_sound (int (pos n)) s h = (n, refl, ground arith)
check_coordinate_sound (int (negsuc zero)) s h = absurd (ground arith)
check_coordinate_sound (int (negsuc (suc n))) s h = absurd (ground arith)
check_coordinate_sound null s h = cc
check_coordinate_sound _ s h = cc

check_coordinates_sound :
    (vs : List Value) (sizes : List ℕ)
    → check_coordinates false (map to_value sizes) vs ≡ ok tt
    → (ns : List ℕ) × (vs ≡ map to_value ns) × All₂ ◌<◌ ns sizes
unfolding check_coordinates
check_coordinates_sound [] [] h = ([], refl, tt)
check_coordinates_sound [] (s ∷ sizes) h = cc
check_coordinates_sound (v ∷ vs) [] h = cc
check_coordinates_sound (v ∷ vs) (s ∷ sizes) h =
    then_elim (check_coordinate false (to_value s) v) _ h λ e r.
      let (n, ev, lt) = check_coordinate_sound v s e in
      let (ns, evs, below) = check_coordinates_sound vs sizes r in
      (n ∷ ns, ap₂ (λ (a : Value) (b : List Value). a ∷ b) ev evs, (lt, below))

same_length :
    (names : List String) (sizes : List ℕ)
    → not (length names == length (map to_value sizes)) ≡ false
    → length names ≡ length sizes
same_length names sizes e =
    let l : length (map to_value sizes) ≡ length sizes = length-map sizes to_value in
    ground (arith, l)

validate_addr_vec_sound :
    (addr_vec : List Value) (names : List String) (sizes : List ℕ)
    → validate_addr_vec addr_vec names (map to_value sizes) false ≡ ok tt
    → (length names ≡ length sizes)
      × (ns : List ℕ) × (addr_vec ≡ map to_value ns)
      × All₂ ◌<◌ ns sizes
unfolding validate_addr_vec
validate_addr_vec_sound addr_vec names sizes h =
    let (e, h₁) = raise_if-eq-ok _ _ _ h in
    let (e', h₂) = raise_if-eq-ok _ _ _ h₁ in
    let (ns, ev, below) = check_coordinates_sound addr_vec sizes h₂ in
    (same_length names sizes e, ns, ev, below)

-- Without wildcards, `validate_addr_vec` accepts exactly the vectors of non-negative integers that
-- have one coordinate below each size, and one level name for each.
pub validate_addr_vec-ok_iff :
    (addr_vec : List Value) (names : List String) (sizes : List ℕ)
    → (validate_addr_vec addr_vec names (map to_value sizes) false ≡ ok tt) ↔ (
        (length names ≡ length sizes)
        × (ns : List ℕ) × (addr_vec ≡ map to_value ns)
        × All₂ ◌<◌ ns sizes)
validate_addr_vec-ok_iff addr_vec names sizes = (
  validate_addr_vec_sound addr_vec names sizes,
  λ r. rw r.2 (validate_addr_vec-ok false names r.1 sizes r.0 r.3),
)
