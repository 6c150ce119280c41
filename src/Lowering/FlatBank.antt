-- ===== src/Lowering/FlatBank.antt =====
-- `_decompose_flat_bank` and `rank_for_flat_bank`: a flat bank index split over the bank levels. The
-- callers have checked that every position lies in the vector.
pub mod Coordinates
use native.Mathlib.Nat.{div-add-mod}
use ramulator.Prelude.{
  ℕ, zero, suc, ◌+◌, ◌*◌, ◌/◌, ◌%◌, ◌<◌, ◌≡◌, ◌≢◌, refl, sym, ap, ap₂, ◌∙◌, Bool, true, false,
  Option, none, some, List, [], ◌∷◌, ◌++◌, map, Result, ok, err, index_error, raise_if, ◌>>=◌, ◌>>◌,
  leb, lt→leb, if◌then◌else◌, length, get_or, set, prod, All, arith, length-set, ◌==◌, bind_elim,
  Bool-cases, Option-cases, inl, inr, ==_iff, get_elem?, then_elim, ok_inj,
}
use ramulator.Addressing.Radix.{decompose, compose, compose-decompose, decompose-rest}
use ramulator.Lowering.Modes.{Target, rank_id_for}

-- A bank level: its position in the vector, and its size.
abbrev pub Slot : Type 0
Slot = ℕ × ℕ

abbrev pub slots : List ℕ → List ℕ → Result (List Slot)
slots [] counts = ok []
slots (p ∷ ps) [] = err index_error
slots (p ∷ ps) (c ∷ cs) = slots ps cs >>= λ s. ok ((p, c) ∷ s)

-- `order.sort(key=…)`, which is stable
abbrev insert_slot : Slot → List Slot → List Slot
insert_slot s [] = s ∷ []
insert_slot s (q ∷ qs) = if leb s.0 q.0 then s ∷ q ∷ qs else q ∷ insert_slot s qs

abbrev pub sort_slots : List Slot → List Slot
sort_slots [] = []
sort_slots (s ∷ ss) = insert_slot s (sort_slots ss)

-- The loop over `reversed(order)`: the last level first.
unfoldable pub place : List Slot → ℕ → List ℕ → List ℕ × ℕ
place [] flat_bank av = (av, flat_bank)
place (s ∷ ss) flat_bank av =
    let (later, rest) = place ss flat_bank av in (set later s.0 (rest % s.1), rest / s.1)

unfoldable pub decompose_flat_bank : ℕ → List ℕ → List ℕ → List ℕ → Bool → Result (List ℕ)
decompose_flat_bank flat_bank addr_vec bank_positions bank_counts controller_order = do
  raise_if (leb (prod bank_counts) flat_bank) "flat bank index must be in [0, total_banks)"
  order ← slots bank_positions bank_counts
  ok (place (if controller_order then sort_slots order else order) flat_bank addr_vec).0

-- The loop of `rank_for_flat_bank`, the last level first.
abbrev pub rank_in : List Slot → ℕ → ℕ → ℕ → ℕ × ℕ
rank_in [] rank_level base_rank flat_bank = (base_rank, flat_bank)
rank_in (s ∷ ss) rank_level base_rank flat_bank =
    let (rank_id, remaining) = rank_in ss rank_level base_rank flat_bank in
    (if s.0 == rank_level then remaining % s.1 else rank_id, remaining / s.1)

unfoldable pub rank_for_flat_bank : Target → Option (List Slot) → ℕ → List ℕ → Result ℕ
rank_for_flat_bank t none flat_bank base_av = rank_id_for t base_av
rank_for_flat_bank t (some order) flat_bank base_av = elim t.rank_level [
  | none ↦ rank_id_for t base_av
  | some level ↦ do
    raise_if (leb (prod (map (λ s. s.1) order)) flat_bank)
        "flat bank index must be in [0, total_banks)"
    base ← rank_id_for t base_av
    ok (rank_in order level base flat_bank).0
]
