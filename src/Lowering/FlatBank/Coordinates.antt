-- ===== src/Lowering/FlatBank/Coordinates.antt =====
-- The coordinates that a flat bank is written as, and the rank among them.
use ramulator.Prelude.{
  ℕ, zero, suc, ◌*◌, ◌/◌, ◌%◌, ◌<◌, ◌≡◌, ◌≢◌, refl, sym, ap, ap₂, ◌∙◌, false, some, List, [], ◌∷◌,
  map, ok, raise_if, leb, lt→leb, length, get_or, set, prod, All, arith, length-set, ◌==◌,
  bind_elim, Bool-cases, Option-cases, inl, inr, ==_iff, get_elem?, then_elim, ok_inj,
}
use ramulator.Addressing.Radix.{decompose, compose, compose-decompose, decompose-rest}
use ramulator.Lowering.Modes.{Target, rank_id_for}
use ramulator.Lowering.FlatBank.{
  Slot, slots, place, decompose_flat_bank, rank_in, rank_for_flat_bank,
}

get_or-set_self : (xs : List ℕ) (i v : ℕ) → i < length xs → get_or (set xs i v) i 0 ≡ v
get_or-set_self [] i v h = absurd (omega arith)
get_or-set_self (x ∷ xs) zero v h = refl
get_or-set_self (x ∷ xs) (suc i) v h = get_or-set_self xs i v (omega arith)

get_or-set_ne : (xs : List ℕ) (i j v : ℕ) → i ≢ j → get_or (set xs i v) j 0 ≡ get_or xs j 0
get_or-set_ne [] i j v h = refl
get_or-set_ne (x ∷ xs) zero zero v h = absurd (h refl)
get_or-set_ne (x ∷ xs) zero (suc j) v h = refl
get_or-set_ne (x ∷ xs) (suc i) zero v h = refl
get_or-set_ne (x ∷ xs) (suc i) (suc j) v h = get_or-set_ne xs i j v (λ e. h (ap suc e))

abbrev pub sizes_of : List Slot → List ℕ
sizes_of = map (λ s. s.1)

-- The coordinates of a vector at the slots
abbrev pub coordinates : List Slot → List ℕ → List ℕ
coordinates ss av = map (λ s. get_or av s.0 0) ss

-- The slots lie in a vector of this length, no two at one position.
abbrev pub AreSlots : ℕ → List Slot → Type 0
AreSlots n [] = Unit
AreSlots n (s ∷ ss) = (s.0 < n) × All (λ q. s.0 ≢ q.0) ss × AreSlots n ss

length-place :
    (ss : List Slot) (flat_bank : ℕ) (av : List ℕ) → length (place ss flat_bank av).0 ≡ length av
unfolding place
length-place [] flat_bank av = refl
length-place (s ∷ ss) flat_bank av =
    length-set (place ss flat_bank av).0 s.0 ((place ss flat_bank av).1 % s.1)
    ∙ length-place ss flat_bank av

place-rest :
    (ss : List Slot) (flat_bank : ℕ) (av : List ℕ)
    → (place ss flat_bank av).1 ≡ (decompose flat_bank (sizes_of ss)).1
unfolding place decompose
place-rest [] flat_bank av = refl
place-rest (s ∷ ss) flat_bank av = ap (λ (r : ℕ). r / s.1) (place-rest ss flat_bank av)

coordinates-set :
    (ss : List Slot) (av : List ℕ) (p v : ℕ)
    → All (λ q. p ≢ q.0) ss
    → coordinates ss (set av p v) ≡ coordinates ss av
coordinates-set [] av p v h = refl
coordinates-set (s ∷ ss) av p v h =
    ap₂ (λ (x : ℕ) (xs : List ℕ). x ∷ xs) (get_or-set_ne av p s.0 v h.0)
      (coordinates-set ss av p v h.1)

place-coordinates :
    (ss : List Slot) (flat_bank : ℕ) (av : List ℕ)
    → AreSlots (length av) ss
    → coordinates ss (place ss flat_bank av).0 ≡ (decompose flat_bank (sizes_of ss)).0
unfolding place decompose
place-coordinates [] flat_bank av h = refl
place-coordinates (s ∷ ss) flat_bank av h =
    let later = (place ss flat_bank av).0 in
    let v = (place ss flat_bank av).1 % s.1 in
    let inside : s.0 < length later = rw (length-place ss flat_bank av) h.0 in
    ap₂ (λ (x : ℕ) (xs : List ℕ). x ∷ xs)
      (get_or-set_self later s.0 v inside ∙ ap (λ (r : ℕ). r % s.1) (place-rest ss flat_bank av))
      (coordinates-set ss later s.0 v h.1 ∙ place-coordinates ss flat_bank av h.2)

place_outside :
    (ss : List Slot) (flat_bank : ℕ) (av : List ℕ) (p : ℕ)
    → All (λ q. p ≢ q.0) ss
    → get_or (place ss flat_bank av).0 p 0 ≡ get_or av p 0
unfolding place
place_outside [] flat_bank av p h = refl
place_outside (s ∷ ss) flat_bank av p h =
    get_or-set_ne (place ss flat_bank av).0 s.0 p _ (λ e. h.0 (sym e))
    ∙ place_outside ss flat_bank av p h.1

sizes_of-slots :
    (positions counts : List ℕ) (ss : List Slot)
    → slots positions counts ≡ ok ss
    → length positions ≡ length counts
    → sizes_of ss ≡ counts
sizes_of-slots [] [] ss e l = ap sizes_of (sym (ok_inj e))
sizes_of-slots [] (c ∷ cs) ss e l = absurd (omega arith)
sizes_of-slots (p ∷ ps) [] ss e l = absurd (omega arith)
sizes_of-slots (p ∷ ps) (c ∷ cs) ss e l =
    bind_elim (slots ps cs) (λ (s : List Slot). ok ((p, c) ∷ s)) e
      λ rest er h.
        ap sizes_of (sym (ok_inj h))
        ∙ ap (λ (xs : List ℕ). c ∷ xs) (sizes_of-slots ps cs rest er (omega arith))

-- In interleave order, a flat bank below the number of banks is written as coordinates that stand
-- for it, at the bank positions only.
pub decompose_flat_bank_lem :
    (flat_bank : ℕ) (av positions counts : List ℕ) (ss : List Slot)
    → slots positions counts ≡ ok ss
    → length positions ≡ length counts
    → AreSlots (length av) ss
    → All (λ c. 0 < c) counts
    → flat_bank < prod counts
    → (av' : List ℕ) × (decompose_flat_bank flat_bank av positions counts false ≡ ok av')
      × (compose counts (coordinates ss av') ≡ flat_bank)
      × ((p : ℕ) → All (λ q. p ≢ q.0) ss → get_or av' p 0 ≡ get_or av p 0)
unfolding decompose_flat_bank
decompose_flat_bank_lem n av ps cs ss e l h positive lt =
    let sizes : sizes_of ss ≡ cs = sizes_of-slots ps cs ss e l in
    let written : coordinates ss (place ss n av).0 ≡ (decompose n cs).0 =
      place-coordinates ss n av h ∙ ap (λ (xs : List ℕ). (decompose n xs).0) sizes in
    let zero_rest : (decompose n cs).1 * prod cs ≡ 0 =
      ap (λ (r : ℕ). r * prod cs) (decompose-rest n cs positive lt) ∙ omega arith in
    (
      (place ss n av).0,
      rw (lt→leb n _ lt, e),
      ap (compose cs) written ∙ omega (arith, compose-decompose n cs, zero_rest),
      λ p out. place_outside ss n av p out,
    )

rank_in-rest :
    (ss : List Slot) (level base n : ℕ) (av : List ℕ)
    → (rank_in ss level base n).1 ≡ (place ss n av).1
unfolding place
rank_in-rest [] level base n av = refl
rank_in-rest (s ∷ ss) level base n av = ap (λ (r : ℕ). r / s.1) (rank_in-rest ss level base n av)

rank_in-place :
    (ss : List Slot) (level n : ℕ) (av : List ℕ)
    → level < length av
    → (rank_in ss level (get_or av level 0) n).0 ≡ get_or (place ss n av).0 level 0
unfolding place
rank_in-place [] level n av h = refl
rank_in-place (s ∷ ss) level n av h =
    let later = (place ss n av).0 in
    let rest : (rank_in ss level (get_or av level 0) n).1 ≡ (place ss n av).1 =
      rank_in-rest ss level (get_or av level 0) n av in
    elim (Bool-cases (s.0 == level)) [
      | inl here ↦
          let q : s.0 ≡ level = (==_iff s.0 level).0 here in
          let inside : s.0 < length later = rw (length-place ss n av, q) h in
          rw here (
            ap (λ (r : ℕ). r % s.1) rest
            ∙ sym (get_or-set_self later s.0 ((place ss n av).1 % s.1) inside)
            ∙ ap (λ (i : ℕ). get_or (set later s.0 ((place ss n av).1 % s.1)) i 0) q)
      | inr away ↦
          let q : s.0 ≢ level = λ e. absurd_eq s.0 level e away in
          rw away (
            rank_in-place ss level n av h
            ∙ sym (get_or-set_ne later s.0 level ((place ss n av).1 % s.1) q))
    ]
  where
    absurd_eq : (a b : ℕ) → a ≡ b → (a == b) ≡ false → ⊥
    absurd_eq a b e f = ground arith

get_elem?-get_or : (xs : List ℕ) (i : ℕ) {v : ℕ} → get_elem? xs i ≡ some v → get_or xs i 0 ≡ v
get_elem?-get_or [] i h = cc
get_elem?-get_or (x ∷ xs) zero h = cc
get_elem?-get_or (x ∷ xs) (suc i) h = get_elem?-get_or xs i h

rank_id_for-get_or :
    (t : Target) (level rank : ℕ) (av : List ℕ)
    → t.rank_level ≡ some level
    → rank_id_for t av ≡ ok rank
    → get_or av level 0 ≡ rank
unfolding rank_id_for
rank_id_for-get_or t level rank av e h = elim (Option-cases (get_elem? av level)) [
  | inl missing ↦ absurd (ground arith)
  | inr (v, found) ↦ get_elem?-get_or av level found ∙ ground arith
]

abbrev pub with_ranks : ℕ → ℕ → Target
with_ranks level n = record { rank_level = some level; rank_count = n }

-- With a layout, the rank that `rank_for_flat_bank` finds for a flat bank is the rank coordinate of
-- the vector that `_decompose_flat_bank` writes for it in interleave order.
pub rank_for_flat_bank-decompose_flat_bank :
    (level rank_count flat_bank : ℕ) (av av' positions counts : List ℕ) (ss : List Slot) (rank : ℕ)
    → level < length av
    → slots positions counts ≡ ok ss
    → rank_for_flat_bank (with_ranks level rank_count) (some ss) flat_bank av ≡ ok rank
    → decompose_flat_bank flat_bank av positions counts false ≡ ok av'
    → get_or av' level 0 ≡ rank
unfolding rank_for_flat_bank decompose_flat_bank
rank_for_flat_bank-decompose_flat_bank level count n av av' ps cs ss rank inside es h d =
    let t = with_ranks level count in
    then_elim (raise_if (leb (prod (sizes_of ss)) n) _) _ h λ _ h1.
      bind_elim (rank_id_for t av) (λ (b : ℕ). ok (rank_in ss level b n).0) h1
        λ base eb h2. then_elim (raise_if (leb (prod cs) n) _) _ d λ _ d1.
          let d2 : ok (place ss n av).0 ≡ ok av' = rw es at d1 in
          let b : get_or av level 0 ≡ base = rank_id_for-get_or t level base av refl eb in
          ap (λ (v : List ℕ). get_or v level 0) (sym (ok_inj d2))
          ∙ sym (rank_in-place ss level n av inside)
          ∙ ap (λ (r : ℕ). (rank_in ss level r n).0) b
          ∙ ok_inj h2
