-- ===== src/Lowering/Modes.antt =====
-- The rank modes that `lower_semantic_records_to_concrete` keeps while it appends records: its inner
-- functions, and the blocks that it runs on one rank. A record's id, notes and provenance are prose
-- and are left out.
pub mod Accepted
pub mod Blocks
use ramulator.Prelude.{
  ℕ, zero, suc, String, Bool, true, false, not, ◌&&◌, ◌||◌, Option, none, some, List, [], ◌∷◌, ◌++◌,
  Result, ok, err, Error, value_error, index_error, raise_if, ◌>>=◌, ◌>>◌, ltb, if◌then◌else◌,
  get_elem?, set, length, ◌==◌,
}
use ramulator.PyValue.{Fields, end}
use ramulator.Addressing.Layout.{Layout, find}
use ramulator.Trace.Opcode.{
  Opcode, read, write, sb, hab, hab_pim, pim_bcast, pim_mac, pim_mac_ab, max_repeat,
}
use ramulator.Trace.Sequence.{
  Mode, single_bank, host_all_bank, pim_all_bank, Protocol, assign, is_single, is_host_mode,
  is_pim_mode, start, at_index,
}
use ramulator.Lowering.Chunks.{split_from, split_repeat}

-- `rank_level` and `rank_count`
pub record Target : Type 0 where
  pub rank_level : Option ℕ
  pub rank_count : ℕ

-- `rank_level` and `rank_count` from `address_layout`, whose sizes are natural numbers.
unfoldable pub target_of : Option Layout → ℕ → Result Target
target_of none addr_vec_size = ok (record { rank_level = none; rank_count = 1 })
target_of (some layout) addr_vec_size = do
  raise_if (not (length layout.level_names == addr_vec_size))
      "address_layout level count must equal addr_vec_size"
  rank_level ← find "Rank" layout.level_names
  rank_count ← at_index layout.level_sizes rank_level
  raise_if (rank_count == 0) "address_layout Rank size must be positive"
  ok (record { rank_level = some rank_level; rank_count = rank_count })

pub record Emitted : Type 0 where
  pub opcode : Opcode
  pub repeat : ℕ
  pub addr_vec : List ℕ
  pub extra_fields : Fields

-- `records`, with `rank_modes` and `rank_all_bank_load_ready` as the protocol's two functions.
pub record State : Type 0 where
  pub records : List Emitted
  pub protocol : Protocol

abbrev pub initial : State
initial = record { records = []; protocol = start }

unfoldable pub append : Opcode → List ℕ → ℕ → Fields → State → State
append op av repeat extra s = record s {
  records =
      s.records
      ++ (record { opcode = op; repeat = repeat; addr_vec = av; extra_fields = extra } ∷ []);
}

-- `for repeat_chunk in repeat_chunks: append(opcode, semantic, av, repeat=repeat_chunk)`
unfoldable pub append_all : Opcode → List ℕ → List ℕ → State → State
append_all op av [] s = s
append_all op av (n ∷ ns) s = append_all op av ns (append op av n end s)

-- The assignments to `rank_modes` and to `rank_all_bank_load_ready`.
abbrev pub set_mode : ℕ → Mode → State → State
set_mode rank m s = record s {
  protocol = record s.protocol { modes = assign (rank ∷ []) m s.protocol.modes };
}

abbrev pub set_ready : ℕ → Bool → State → State
set_ready rank b s = record s {
  protocol = record s.protocol { bcasts = assign (rank ∷ []) b s.protocol.bcasts };
}

unfoldable pub rank_id_for : Target → List ℕ → Result ℕ
rank_id_for t av = elim t.rank_level [
  | none ↦ ok 0
  | some level ↦ elim (get_elem? av level) [
    | none ↦ err index_error
    | some rank ↦
        raise_if (not (ltb rank t.rank_count)) "concrete rank coordinate must be in [0, rank_count)"
        >> ok rank
  ]
]

abbrev pub rank_addr_vec : Target → List ℕ → ℕ → List ℕ
rank_addr_vec t av rank = elim t.rank_level [ none ↦ av | some level ↦ set av level rank ]

unfoldable pub transition_to_single_bank : Target → List ℕ → State → Result State
transition_to_single_bank t av s = do
  rank ← rank_id_for t av
  ok (
      if is_single (s.protocol.modes rank)
      then s
      else set_ready rank false (set_mode rank single_bank (append sb av 1 end s)))

unfoldable pub transition_to_host_all_bank : Target → List ℕ → State → Result State
transition_to_host_all_bank t av s = do
  rank ← rank_id_for t av
  ok (
      if is_host_mode (s.protocol.modes rank)
      then s
      else set_ready rank false (set_mode rank host_all_bank (append hab av 1 end s)))

unfoldable pub ensure_all_bank_load : Target → List ℕ → State → Result State
ensure_all_bank_load t av s = do
  entered ← transition_to_host_all_bank t av s
  rank ← rank_id_for t av
  ok (
      if entered.protocol.bcasts rank
      then entered
      else set_ready rank true (append pim_bcast av 1 end entered))

unfoldable pub transition_to_pim_all_bank : Target → List ℕ → State → Result State
transition_to_pim_all_bank t av s = do
  rank ← rank_id_for t av
  if is_pim_mode (s.protocol.modes rank)
      then ok s
      else (raise_if (not (is_host_mode (s.protocol.modes rank)) || not (s.protocol.bcasts rank))
            "PIM all-bank mode requires a rank-local HAB and PIM_BCAST"
          >> ok (set_mode rank pim_all_bank (append hab_pim av 1 end s)))

-- The all-bank computation of one rank, whose MACs are cut into `chunks`.
unfoldable pub compute_on_rank : Target → List ℕ → List ℕ → ℕ → State → Result State
compute_on_rank t base_av chunks rank s = do
  let av = rank_addr_vec t base_av rank
  loaded ← ensure_all_bank_load t av s
  entered ← transition_to_pim_all_bank t av loaded
  ok (
      set_ready rank false
        (set_mode rank single_bank (append sb av 1 end (append_all pim_mac_ab av chunks entered))))

-- The rank's share of a compute record: `n_ab` all-bank MACs, cut by `max_repeat_per_record`.
unfoldable pub compute_record_on_rank : Target → List ℕ → ℕ → ℕ → ℕ → State → Result State
compute_record_on_rank t base_av n_ab max_repeat_per_record rank s =
    compute_on_rank t base_av (split_from n_ab max_repeat_per_record n_ab) rank s

-- The rank's share of one request of a PIMComputeAll record.
unfoldable pub compute_all_on_rank : Target → List ℕ → ℕ → State → Result State
compute_all_on_rank t base_av rank s = compute_on_rank t base_av (1 ∷ []) rank s

-- The broadcasts of one rank of a load of `total_repeat` requests.
unfoldable pub load_on_rank : Target → List ℕ → ℕ → ℕ → State → Result State
load_on_rank t base_av total_repeat rank s = do
  chunks ← split_repeat total_repeat max_repeat
  let av = rank_addr_vec t base_av rank
  entered ← transition_to_host_all_bank t av s
  ok (set_ready rank true (append_all pim_bcast av chunks entered))

-- A host access, or the MACs of one bank: the rank returns to single-bank mode first.
unfoldable pub access_single_bank : Target → Opcode → List ℕ → ℕ → Fields → State → Result State
access_single_bank t op av repeat extra s = do
  entered ← transition_to_single_bank t av s
  ok (append op av repeat extra entered)

unfoldable pub compute_on_bank : Target → List ℕ → ℕ → State → Result State
compute_on_bank t av per_bank_total s = do
  entered ← transition_to_single_bank t av s
  chunks ← split_repeat per_bank_total max_repeat
  ok (append_all pim_mac av chunks entered)
