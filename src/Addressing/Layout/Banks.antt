-- ===== src/Addressing/Layout/Banks.antt =====
-- The two bank orders of a layout: the controller's, and the interleave order.
use mathlib.Core.Path.{subst}
use mathlib.Core.List.{Perm, perm_middle, map-append, append-nil}
use mathlib.Core.List.Perm
use ramulator.Prelude.{
  ℕ, zero, suc, ◌-◌, ◌*◌, ◌≡◌, refl, ap, ◌∙◌, String, List, [], ◌∷◌, map, ok, arith, get_or, prod,
  prod-append, Option-cases, inl, inr,
}
use ramulator.Addressing.Layout.{
  Dram, Layout, extract_dram_layout, move_to_end, rotate_level, range_from, position, index_of,
  build_layout,
}
use ramulator.Addressing.Layout.Extract.{Steps, steps}

move_to_end-perm : (i : ℕ) (xs : List ℕ) → Perm (move_to_end i xs) xs
move_to_end-perm zero [] = Perm.refl []
move_to_end-perm (suc i) [] = Perm.refl []
move_to_end-perm zero (x ∷ xs) = rw (append-nil) at (perm_middle {a = x} xs [])
move_to_end-perm (suc i) (x ∷ xs) = Perm.cons x (move_to_end-perm i xs)

move_to_end-map :
    (f : ℕ → ℕ) (i : ℕ) (xs : List ℕ) → move_to_end i (map f xs) ≡ map f (move_to_end i xs)
move_to_end-map f zero [] = refl
move_to_end-map f (suc i) [] = refl
move_to_end-map f zero (x ∷ xs) = rw map-append
move_to_end-map f (suc i) (x ∷ xs) = ap (λ (l : List ℕ). f x ∷ l) (move_to_end-map f i xs)

prod-move_to_end : (i : ℕ) (xs : List ℕ) → prod (move_to_end i xs) ≡ prod xs
prod-move_to_end zero [] = refl
prod-move_to_end (suc i) [] = refl
prod-move_to_end zero (x ∷ xs) = omega (arith, prod-append xs (x ∷ []))
prod-move_to_end (suc i) (x ∷ xs) = ap (λ (t : ℕ). x * t) (prod-move_to_end i xs)

-- The orders `b` of the positions and of their counts, against the controller's positions.
record IsBankOrder (sizes controller : List ℕ) (b : List ℕ × List ℕ) : Type 0 where
  same_banks : Perm b.0 controller
  counts : b.1 ≡ map (λ i. get_or sizes i 0) b.0
  units : prod b.1 ≡ prod (map (λ i. get_or sizes i 0) controller)

moved :
    (sizes controller : List ℕ) (b : List ℕ × List ℕ) (i : ℕ)
    → IsBankOrder sizes controller b
    → IsBankOrder sizes controller (move_to_end i b.0, move_to_end i b.1)
moved sizes controller b i s = record {
  same_banks = Perm.trans (move_to_end-perm i b.0) s.same_banks;
  counts = ap (move_to_end i) s.counts ∙ move_to_end-map (λ j. get_or sizes j 0) i b.0;
  units = prod-move_to_end i b.1 ∙ s.units;
}

rotate_level-IsBankOrder :
    (sizes controller : List ℕ) (names : List String) (name : String) (b c : List ℕ × List ℕ)
    → IsBankOrder sizes controller b
    → rotate_level names name b ≡ ok c
    → IsBankOrder sizes controller c
unfolding rotate_level
rotate_level-IsBankOrder sizes controller names name b c s h =
    elim (Option-cases (position name names)) [
      | inl missing ↦ let e : c ≡ b = ground arith in rw e s
      | inr (p, found) ↦ elim (Option-cases (index_of p b.0)) [
        | inl missing ↦ absurd (ground arith)
        | inr (i, at) ↦
            let e : c ≡ (move_to_end i b.0, move_to_end i b.1) = ground arith in
            rw e (moved sizes controller b i s)
      ]
    ]

rotated :
    (d : Dram) (l : Layout) (s : Steps d l)
    → IsBankOrder s.sizes (range_from s.p.rank (suc s.p.bank - s.p.rank)) s.banks
rotated d l s =
    rotate_level-IsBankOrder _ _ d.level_names "PseudoChannel" s.groups s.banks
      (rotate_level-IsBankOrder _ _ d.level_names "BankGroup" _ s.groups
        (record { same_banks = Perm.refl _; counts = refl; units = refl }) s.from_groups)
      s.from_banks

finish :
    (d : Dram) (l : Layout)
    → Steps d l
    → Perm l.bank_positions l.controller_bank_positions
      × (l.bank_counts ≡ map (λ i. get_or l.level_sizes i 0) l.bank_positions)
      × (prod l.bank_counts ≡ l.total_bank_units)
unfolding build_layout
finish d l s =
    subst
      (λ (m : Layout).
        Perm m.bank_positions m.controller_bank_positions
        × (m.bank_counts ≡ map (λ i. get_or m.level_sizes i 0) m.bank_positions)
        × (prod m.bank_counts ≡ m.total_bank_units))
      s.result (let r = rotated d l s in (r.same_banks, r.counts, r.units))

-- In an extracted layout the interleave order lists the controller's bank levels, each once more
-- with its own count, and the bank counts multiply to `total_bank_units`.
pub extract_dram_layout-banks :
    (d : Dram) (l : Layout)
    → extract_dram_layout d ≡ ok l
    → Perm l.bank_positions l.controller_bank_positions
      × (l.bank_counts ≡ map (λ i. get_or l.level_sizes i 0) l.bank_positions)
      × (prod l.bank_counts ≡ l.total_bank_units)
extract_dram_layout-banks d l h = finish d l (steps d l h)
