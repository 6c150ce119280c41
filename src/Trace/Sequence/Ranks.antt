-- ===== src/Trace/Sequence/Ranks.antt =====
-- The protocol of one rank, and that `sequence_step` is exactly that protocol at every rank that a
-- record touches.
use ramulator.Prelude.{
  String, sym, raise_if, ◌>>◌, ==_refl, ℕ, ◌≡◌, ◌≢◌, refl, Bool, true, false, not, ◌||◌, Option,
  none, some, List, [], ◌∷◌, ok, arith, if◌then◌else◌, any, Bool-cases, inl, inr, ◌==◌, ==_iff,
}
use ramulator.Trace.Opcode.{Opcode, sb, hab, hab_pim, pim_bcast, pim_mac_ab}
use ramulator.Trace.Sequence.{
  Mode, single_bank, host_all_bank, pim_all_bank, Protocol, contains_rank, is_single, is_host_mode,
  is_pim_mode, sequence_step,
}

-- A rank on its own: its mode, and whether a broadcast has been loaded.
abbrev pub RankState : Type 0
RankState = Mode × Bool

abbrev pub idle : RankState
idle = (single_bank, false)

-- What each opcode asks of the rank, and where it takes it.
abbrev pub rank_step : Opcode → RankState → Option RankState
rank_step sb s = some (single_bank, false)
rank_step hab s = some (host_all_bank, false)
rank_step hab_pim (m, loaded) = if loaded then some (pim_all_bank, loaded) else none
rank_step pim_bcast (host_all_bank, loaded) = some (host_all_bank, true)
rank_step pim_bcast _ = none
rank_step pim_mac_ab (pim_all_bank, true) = some (pim_all_bank, true)
rank_step pim_mac_ab _ = none
rank_step _ (single_bank, loaded) = some (single_bank, loaded)
rank_step _ _ = none

abbrev pub view : Protocol → ℕ → RankState
view p r = (p.modes r, p.bcasts r)

-- A record moves the ranks that it touches, and no other.
abbrev pub local_step : Opcode → List ℕ → ℕ → RankState → Option RankState
local_step op ranks r s = if contains_rank r ranks then rank_step op s else some s

any-false :
    (f : ℕ → Bool) (ranks : List ℕ) (r : ℕ)
    → any f ranks ≡ false
    → contains_rank r ranks ≡ true
    → f r ≡ false
any-false f [] r h c = cc
any-false f (x ∷ xs) r h c = elim (Bool-cases (x == r)) [
  | inl same ↦ let e : r ≡ x = sym ((==_iff x r).0 same) in rw e (ground arith)
  | inr other ↦ any-false f xs r (ground arith) (ground arith)
]

any-true :
    (f : ℕ → Bool) (ranks : List ℕ)
    → any f ranks ≡ true
    → (r : ℕ) × (contains_rank r ranks ≡ true) × (f r ≡ true)
any-true f [] h = cc
any-true f (x ∷ xs) h = elim (Bool-cases (f x)) [
  | inl here ↦ (x, rw (==_refl x), here)
  | inr not_here ↦ let (r, c, g) = any-true f xs (ground arith) in (r, ground arith, g)
]

-- A step that is accepted is the rank's own step at every rank.
pub sequence_step_sound :
    (op : Opcode) (ranks : List ℕ) (p q : Protocol)
    → sequence_step op ranks p ≡ ok q
    → (r : ℕ) → local_step op ranks r (view p r) ≡ some (view q r)
unfolding sequence_step
sequence_step_sound sb ranks p q h r = ground arith
sequence_step_sound hab ranks p q h r = ground arith
sequence_step_sound hab_pim ranks p q h r =
    ground (arith, any-false (λ (i : ℕ). not (p.bcasts i)) ranks r)
sequence_step_sound pim_bcast ranks p q h r =
    ground (arith, any-false (λ (i : ℕ). not (is_host_mode (p.modes i))) ranks r)
sequence_step_sound pim_mac_ab ranks p q h r =
    ground (arith, any-false (λ (i : ℕ). not (is_pim_mode (p.modes i)) || not (p.bcasts i)) ranks r)
sequence_step_sound _ ranks p q h r =
    ground (arith, any-false (λ (i : ℕ). not (is_single (p.modes i))) ranks r)

guarded :
    (f : ℕ → Bool) (ranks : List ℕ) (e : String) (q₀ : Protocol)
    → ((r : ℕ) → contains_rank r ranks ≡ true → f r ≡ true → ⊥)
    → (q : Protocol) × ((raise_if (any f ranks) e >> ok q₀) ≡ ok q)
guarded f ranks e q₀ h = elim (Bool-cases (any f ranks)) [
  | inl bad ↦ let (r, c, g) = any-true f ranks bad in absurd (h r c g)
  | inr good ↦ (q₀, rw good)
]

-- Where every touched rank would step, the record is accepted.
pub sequence_step_complete :
    (op : Opcode) (ranks : List ℕ) (p : Protocol)
    → ((r : ℕ) → local_step op ranks r (view p r) ≢ none)
    → (q : Protocol) × (sequence_step op ranks p ≡ ok q)
unfolding sequence_step
sequence_step_complete sb ranks p h = (_, refl)
sequence_step_complete hab ranks p h = (_, refl)
sequence_step_complete hab_pim ranks p h = guarded _ ranks _ _ (λ r c g. h r (ground arith))
sequence_step_complete pim_bcast ranks p h = guarded _ ranks _ _ (λ r c g. h r (ground arith))
sequence_step_complete pim_mac_ab ranks p h = guarded _ ranks _ _ (λ r c g. h r (ground arith))
sequence_step_complete _ ranks p h = guarded _ ranks _ _ (λ r c g. h r (ground arith))
