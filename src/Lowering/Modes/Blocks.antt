-- ===== src/Lowering/Modes/Blocks.antt =====
-- The blocks that run on one rank: each succeeds from any state of the lowering, and its records are
-- accepted.
use mathlib.Core.Path.{fun_ext}
use ramulator.Prelude.{
  ℕ, ◌<◌, ◌≡◌, ◌≢◌, refl, ap, Bool, true, false, List, [], ◌∷◌, Result, ok, ◌>>=◌, arith,
  Bool-cases, inl, inr, All, sum, some,
}
use ramulator.PyValue.{Fields, end}
use ramulator.Addressing.Layout.{Layout}
use ramulator.Trace.Opcode.{
  Opcode, read, write, sb, hab, hab_pim, pim_bcast, pim_mac, pim_mac_ab, max_repeat,
}
use ramulator.Trace.Sequence.{
  single_bank, Protocol, assign, is_single, is_host_mode, is_pim_mode, sequence_step, contains_rank,
  is_interleaved, start,
}
use ramulator.Lowering.Chunks.{split_from}
use ramulator.Lowering.Chunks.Cover.{split_repeat_lem}
use ramulator.Lowering.Modes.{
  Target, State, append, append_all, set_mode, set_ready, rank_id_for, rank_addr_vec,
  compute_on_rank, compute_record_on_rank, compute_all_on_rank, load_on_rank, access_single_bank,
  compute_on_bank, target_of,
}
use ramulator.Lowering.Modes.Accepted.{
  Follows, protocol_run, target_of-Targets, is_interleaved-end, appended, append_all-Follows,
  leaves, broadcast-Follows, transition_to_single_bank_lem, transition_to_host_all_bank_lem,
  ensure_all_bank_load_lem, transition_to_pim_all_bank_lem,
}

mac_keeps :
    (p : Protocol) (rank : ℕ)
    → is_pim_mode (p.modes rank) ≡ true
    → p.bcasts rank ≡ true
    → sequence_step pim_mac_ab (rank ∷ []) p ≡ ok p
unfolding sequence_step
mac_keeps p rank pim loaded = rw (pim, loaded)

pub compute_on_rank_lem :
    (layout : Layout) (t : Target) (base_av chunks : List ℕ) (rank : ℕ) (s : State)
    → Follows layout t s
    → rank_id_for t (rank_addr_vec t base_av rank) ≡ ok rank
    → (s' : State) × (compute_on_rank t base_av chunks rank s ≡ ok s') × Follows layout t s'
unfolding compute_on_rank
compute_on_rank_lem layout t base_av chunks rank s f e =
    let av = rank_addr_vec t base_av rank in
    let (l, el, fl, host, ready) = ensure_all_bank_load_lem layout t av s rank f e in
    let (m, em, fm, pim, loaded) =
      transition_to_pim_all_bank_lem layout t av l rank fl e host ready in
    let (fa, _) =
      append_all-Follows layout t pim_mac_ab av chunks m rank fm e
        (mac_keeps m.protocol rank pim loaded) in
    (
      set_ready rank false
          (set_mode rank single_bank (append sb av 1 end (append_all pim_mac_ab av chunks m))),
      rw (el, em),
      leaves layout t av (append_all pim_mac_ab av chunks m) rank fa e,
    )

-- A host access or a MAC of one bank.
abbrev pub is_single_bank_opcode : Opcode → Bool
is_single_bank_opcode read = true
is_single_bank_opcode write = true
is_single_bank_opcode pim_mac = true
is_single_bank_opcode _ = false

single_keeps :
    (op : Opcode) (p : Protocol) (rank : ℕ)
    → is_single_bank_opcode op ≡ true
    → is_single (p.modes rank) ≡ true
    → sequence_step op (rank ∷ []) p ≡ ok p
unfolding sequence_step
single_keeps read p rank o h = rw h
single_keeps write p rank o h = rw h
single_keeps pim_mac p rank o h = rw h
single_keeps sb p rank o h = cc
single_keeps hab p rank o h = cc
single_keeps hab_pim p rank o h = cc
single_keeps pim_bcast p rank o h = cc
single_keeps pim_mac_ab p rank o h = cc

pub access_single_bank_lem :
    (layout : Layout) (t : Target) (op : Opcode) (av : List ℕ) (n : ℕ) (extra : Fields) (rank : ℕ)
    (s : State)
    → Follows layout t s
    → rank_id_for t av ≡ ok rank
    → is_single_bank_opcode op ≡ true
    → is_interleaved op extra ≡ false
    → (s' : State) × (access_single_bank t op av n extra s ≡ ok s') × Follows layout t s'
unfolding access_single_bank append
access_single_bank_lem layout t op av n extra rank s f e o apart =
    let (m, em, fm, single) = transition_to_single_bank_lem layout t av s rank f e in
    (
      append op av n extra m,
      rw em,
      appended layout t m op av n extra rank m.protocol fm e apart
          (single_keeps op m.protocol rank o single),
    )

pub compute_on_bank_lem :
    (layout : Layout) (t : Target) (av : List ℕ) (total rank : ℕ) (s : State)
    → Follows layout t s
    → rank_id_for t av ≡ ok rank
    → 0 < total
    → (s' : State) × (compute_on_bank t av total s ≡ ok s') × Follows layout t s'
unfolding compute_on_bank
compute_on_bank_lem layout t av total rank s f e positive =
    let (m, em, fm, single) = transition_to_single_bank_lem layout t av s rank f e in
    let (chunks, ec, _, _) = split_repeat_lem total max_repeat positive (omega arith) in
    let (fa, _) =
      append_all-Follows layout t pim_mac av chunks m rank fm e
        (single_keeps pim_mac m.protocol rank refl single) in
    (append_all pim_mac av chunks m, rw (em, ec), fa)

assign-twice :
    (rank : ℕ) (d : ℕ → Bool)
    → assign (rank ∷ []) true (assign (rank ∷ []) true d) ≡ assign (rank ∷ []) true d
assign-twice rank d = fun_ext (λ i. elim (Bool-cases (contains_rank i (rank ∷ []))) [
  | inl here ↦ rw here
  | inr away ↦ rw away
])

-- A broadcast on a rank that is loaded already keeps the protocol.
broadcast_again :
    (p : Protocol) (rank : ℕ)
    → is_host_mode (p.modes rank) ≡ true
    → sequence_step pim_bcast (rank ∷ []) (record p { bcasts = assign (rank ∷ []) true p.bcasts })
      ≡ ok (record p { bcasts = assign (rank ∷ []) true p.bcasts })
unfolding sequence_step
broadcast_again p rank host = rw host (
    ap (λ (d : ℕ → Bool). ok (record { modes = p.modes; bcasts = d })) (assign-twice rank p.bcasts))

more_broadcasts :
    (layout : Layout) (t : Target) (av ns : List ℕ) (rank : ℕ) (s : State)
    → Follows layout t (set_ready rank true s)
    → rank_id_for t av ≡ ok rank
    → is_host_mode (s.protocol.modes rank) ≡ true
    → Follows layout t (set_ready rank true (append_all pim_bcast av ns s))
unfolding append_all append
more_broadcasts layout t av [] rank s f e host = f
more_broadcasts layout t av (n ∷ ns) rank s f e host =
    more_broadcasts layout t av ns rank (append pim_bcast av n end s)
      (appended layout t (set_ready rank true s) pim_bcast av n end rank _ f e
        (is_interleaved-end pim_bcast) (broadcast_again s.protocol rank host))
      e host

broadcasts-Follows :
    (layout : Layout) (t : Target) (av ns : List ℕ) (rank : ℕ) (s : State)
    → Follows layout t s
    → rank_id_for t av ≡ ok rank
    → is_host_mode (s.protocol.modes rank) ≡ true
    → ns ≢ []
    → Follows layout t (set_ready rank true (append_all pim_bcast av ns s))
unfolding append_all append
broadcasts-Follows layout t av [] rank s f e host h = absurd (h refl)
broadcasts-Follows layout t av (n ∷ ns) rank s f e host h =
    more_broadcasts layout t av ns rank (append pim_bcast av n end s)
      (broadcast-Follows layout t av n s rank f e host) e host

pub load_on_rank_lem :
    (layout : Layout) (t : Target) (base_av : List ℕ) (total rank : ℕ) (s : State)
    → Follows layout t s
    → rank_id_for t (rank_addr_vec t base_av rank) ≡ ok rank
    → 0 < total
    → (s' : State) × (load_on_rank t base_av total rank s ≡ ok s') × Follows layout t s'
unfolding load_on_rank
load_on_rank_lem layout t base_av total rank s f e positive =
    let av = rank_addr_vec t base_av rank in
    let (chunks, ec, all, _) = split_repeat_lem total max_repeat positive (omega arith) in
    let (h, eh, fh, host) = transition_to_host_all_bank_lem layout t av s rank f e in
    let some_chunk : chunks ≢ [] = λ q. not_empty chunks all positive q in
    (
      set_ready rank true (append_all pim_bcast av chunks h),
      rw (ec, eh),
      broadcasts-Follows layout t av chunks rank h fh e host some_chunk,
    )
  where
    not_empty : (ns : List ℕ) {n : ℕ} → sum ns ≡ n → 0 < n → ns ≡ [] → ⊥
    not_empty [] e lt q = omega (arith, e)
    not_empty (x ∷ ns) e lt q = cc

-- One block of the lowering, with what the semantic record fixes.
pub data Block : Type 0 where
  compute : List ℕ → ℕ → ℕ → ℕ → Block
  compute_all : List ℕ → ℕ → Block
  load : List ℕ → ℕ → ℕ → Block
  access : Opcode → List ℕ → ℕ → Fields → Block
  bank : List ℕ → ℕ → Block

abbrev pub run_block : Target → Block → State → Result State
run_block t (compute base_av n_ab m rank) s = compute_record_on_rank t base_av n_ab m rank s
run_block t (compute_all base_av rank) s = compute_all_on_rank t base_av rank s
run_block t (load base_av total rank) s = load_on_rank t base_av total rank s
run_block t (access op av n extra) s = access_single_bank t op av n extra s
run_block t (bank av total) s = compute_on_bank t av total s

abbrev pub run_blocks : Target → List Block → State → Result State
run_blocks t [] s = ok s
run_blocks t (b ∷ bs) s = run_block t b s >>= run_blocks t bs

-- The block's vector has a rank coordinate below `rank_count`, its total or its limit on a repeat is
-- positive, and a direct access is a READ, a WRITE or a PIM_MAC that is not interleaved.
abbrev pub IsPlaced : Target → Block → Type 0
IsPlaced t (compute base_av n_ab m rank) =
    (rank_id_for t (rank_addr_vec t base_av rank) ≡ ok rank) × (0 < m)
IsPlaced t (compute_all base_av rank) = rank_id_for t (rank_addr_vec t base_av rank) ≡ ok rank
IsPlaced t (load base_av total rank) =
    (rank_id_for t (rank_addr_vec t base_av rank) ≡ ok rank) × (0 < total)
IsPlaced t (access op av n extra) =
    (rank : ℕ) × (rank_id_for t av ≡ ok rank)
    × (is_single_bank_opcode op ≡ true)
    × (is_interleaved op extra ≡ false)
IsPlaced t (bank av total) = (rank : ℕ) × (rank_id_for t av ≡ ok rank) × (0 < total)

run_block_lem :
    (layout : Layout) (t : Target) (b : Block) (s : State)
    → Follows layout t s
    → IsPlaced t b
    → (s' : State) × (run_block t b s ≡ ok s') × Follows layout t s'
unfolding compute_record_on_rank compute_all_on_rank
run_block_lem layout t (compute base_av n_ab m rank) s f e =
    compute_on_rank_lem layout t base_av (split_from n_ab m n_ab) rank s f e.0
run_block_lem layout t (compute_all base_av rank) s f e =
    compute_on_rank_lem layout t base_av (1 ∷ []) rank s f e
run_block_lem layout t (load base_av total rank) s f e =
    load_on_rank_lem layout t base_av total rank s f e.0 e.1
run_block_lem layout t (access op av n extra) s f (rank, e, o, apart) =
    access_single_bank_lem layout t op av n extra rank s f e o apart
run_block_lem layout t (bank av total) s f (rank, e, h) =
    compute_on_bank_lem layout t av total rank s f e h

run_all :
    (layout : Layout) (t : Target) (bs : List Block) (s : State)
    → Follows layout t s
    → All (IsPlaced t) bs
    → (s' : State) × (run_blocks t bs s ≡ ok s') × Follows layout t s'
run_all layout t [] s f h = (s, refl, f)
run_all layout t (b ∷ bs) s f h =
    let (m, em, fm) = run_block_lem layout t b s f h.0 in
    let (r, er, fr) = run_all layout t bs m fm h.1 in (r, rw em er, fr)

-- For a lowering with an address layout, from a state whose records the validator's protocol accepts
-- at the ranks that it reads by that layout, every sequence of placed blocks succeeds, and the records
-- that it leaves are accepted too and lead the validator to the modes that the lowering holds.
pub run_blocks_lem :
    (layout : Layout) (size : ℕ) (t : Target) (bs : List Block) (s : State)
    → target_of (some layout) size ≡ ok t
    → protocol_run layout s.records start ≡ ok s.protocol
    → All (IsPlaced t) bs
    → (s' : State) × (run_blocks t bs s ≡ ok s')
      × (protocol_run layout s'.records start ≡ ok s'.protocol)
run_blocks_lem layout size t bs s target accepted placed =
    let (s', ran, f) =
      run_all layout t bs s (target_of-Targets layout size t target, accepted) placed in
    (s', ran, f.1)
