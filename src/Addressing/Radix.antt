-- ===== src/Addressing/Radix.antt =====
-- The mixed-radix loop of python/ramulator/dram/addressing.py, lines 198-201. The same loop runs
-- over bank counts in `_record_rank_ids` and `_decompose_flat_bank`.
use native.Mathlib.Nat.{
  mod-lt, div-add-mod, add-mul-mod_self_right, mod-eq_of_lt, add-mul-div_right, div-eq_of_lt,
}
use ramulator.Prelude.{
  ℕ, suc, ◌+◌, ◌*◌, ◌/◌, ◌%◌, ◌<◌, ◌≡◌, refl, ap, ap₂, ◌∙◌, List, [], ◌∷◌, arith, prod, All, All₂,
  length,
}

-- From the last radix to the first: the coordinates, and what is left of the value.
unfoldable pub decompose : ℕ → List ℕ → List ℕ × ℕ
decompose v [] = ([], v)
decompose v (r ∷ rs) = let (vec, rest) = decompose v rs in ((rest % r) ∷ vec, rest / r)

-- The number that a vector of coordinates stands for, the last coordinate the fastest.
abbrev pub compose : List ℕ → List ℕ → ℕ
compose (r ∷ rs) (v ∷ vs) = v * prod rs + compose rs vs
compose _ _ = 0

pub prod-pos : (rs : List ℕ) → All (λ r. 0 < r) rs → 0 < prod rs
prod-pos [] h = omega arith
prod-pos (r ∷ rs) h = grind (arith, prod-pos rs h.1)

pub decompose-lt : (v : ℕ) (rs : List ℕ) → All (λ r. 0 < r) rs → All₂ ◌<◌ (decompose v rs).0 rs
unfolding decompose
decompose-lt v [] h = tt
decompose-lt v (r ∷ rs) h = (mod-lt (decompose v rs).1 h.0, decompose-lt v rs h.1)

pub length-decompose : (v : ℕ) (rs : List ℕ) → length (decompose v rs).0 ≡ length rs
unfolding decompose
length-decompose v [] = refl
length-decompose v (r ∷ rs) = ap suc (length-decompose v rs)

-- The coordinates and the rest give the value back.
pub compose-decompose :
    (v : ℕ) (rs : List ℕ) → compose rs (decompose v rs).0 + (decompose v rs).1 * prod rs ≡ v
unfolding decompose
compose-decompose v [] = omega arith
compose-decompose v (r ∷ rs) =
    let q = (decompose v rs).1 in
    omega (arith, compose-decompose v rs, ap (λ (t : ℕ). t * prod rs) (div-add-mod q r))

-- The rest is 0 exactly below the product of the radices; here the half that the mapper needs.
pub decompose-rest :
    (v : ℕ) (rs : List ℕ) → All (λ r. 0 < r) rs → v < prod rs → (decompose v rs).1 ≡ 0
decompose-rest v rs h lt = grind (arith, compose-decompose v rs)

add-mul-one : (k : ℕ) → 0 + k * 1 ≡ k
add-mul-one k = omega arith

pub step-mod : (v k r : ℕ) → v < r → (v + k * r) % r ≡ v
step-mod v k r h = add-mul-mod_self_right v k r ∙ mod-eq_of_lt h

pub step-div : (v k r : ℕ) → v < r → (v + k * r) / r ≡ k
step-div v k r h = add-mul-div_right v k {z = r} (omega arith) ∙ rw (div-eq_of_lt h) (omega arith)

decompose-cons :
    (n r q : ℕ) (rs vs : List ℕ)
    → decompose n rs ≡ (vs, q)
    → decompose n (r ∷ rs) ≡ ((q % r) ∷ vs, q / r)
unfolding decompose
decompose-cons n r q rs vs e = ap (λ (p : List ℕ × ℕ). ((p.1 % r) ∷ p.0, p.1 / r)) e

-- Coordinates in range are what the loop finds.
pub decompose-compose :
    (k : ℕ) (rs vs : List ℕ) → All₂ ◌<◌ vs rs → decompose (compose rs vs + k * prod rs) rs ≡ (vs, k)
decompose-compose k [] [] h = unfold decompose in rw (add-mul-one k)
decompose-compose k [] (v ∷ vs) h = elim h [ ]
decompose-compose k (r ∷ rs) [] h = elim h [ ]
decompose-compose k (r ∷ rs) (v ∷ vs) h =
    let shift : compose (r ∷ rs) (v ∷ vs) + k * prod (r ∷ rs)
        ≡ compose rs vs + (v + k * r) * prod rs =
      omega arith in
    ap (λ (n : ℕ). decompose n (r ∷ rs)) shift
    ∙ decompose-cons _ r (v + k * r) rs vs (decompose-compose (v + k * r) rs vs h.1)
    ∙ ap₂ (λ (a b : ℕ). (a ∷ vs, b)) (step-mod v k r h.0) (step-div v k r h.0)

pub compose-lt : (rs vs : List ℕ) → All₂ ◌<◌ vs rs → compose rs vs < prod rs
compose-lt [] [] h = omega arith
compose-lt [] (v ∷ vs) h = elim h [ ]
compose-lt (r ∷ rs) [] h = elim h [ ]
compose-lt (r ∷ rs) (v ∷ vs) h = grind (arith, compose-lt rs vs h.1)

pub decompose-compose_zero :
    (rs vs : List ℕ) → All₂ ◌<◌ vs rs → decompose (compose rs vs) rs ≡ (vs, 0)
decompose-compose_zero rs vs h =
    let shift : compose rs vs ≡ compose rs vs + 0 * prod rs = omega arith in
    ap (λ (n : ℕ). decompose n rs) shift ∙ decompose-compose 0 rs vs h
