-- ===== src/Lowering/Tests.antt =====
-- Runs of the lowering's parts.
use ramulator.Prelude.{
  ℕ, ◌≢◌, get_or, false, ◌+◌, ◌*◌, ◌/◌, ◌%◌, ◌≤◌, ◌<◌, ◌≡◌, refl, none, some, List, [], ◌∷◌, ◌++◌,
  map, ok, arith, All, sum,
}
use ramulator.PyValue.{Fields, end, field, str, obj, get, to_int}
use ramulator.Addressing.Vector.{
  to_value, addr_vec_from_byte_address, validate_addr_vec, check_coordinates, check_coordinate,
}
use ramulator.Addressing.Radix.{decompose, compose}
use ramulator.Trace.Record.{map_address}
use ramulator.Lowering.Host.{
  Config, HostPolicy, host_policy, sub_dict, check_policy, lower_host, host_repeats, host_chunks,
  host_chunk,
}
use ramulator.Lowering.Host.Conserved.{host_addresses, lower_host-strict_bytes}
use ramulator.Trace.Opcode.{read}
use ramulator.Addressing.Layout.{range_from}
use ramulator.Addressing.Tests.{small_layout}
use ramulator.Lowering.Chunks.{
  Chunk, split_repeat, split_from, host_address_chunks, bounded_from, strict_from,
}
use ramulator.Lowering.Chunks.Cover.{
  expand, Fits, split_repeat_lem, host_address_chunks-strict_bytes,
}
use ramulator.Lowering.Chunks.Wrap.{host_address_chunks-bounded_surrogate}
use ramulator.Lowering.Modes.{
  Target, State, initial, rank_id_for, access_single_bank, transition_to_single_bank, append,
  target_of,
}
use ramulator.Lowering.Host.Wrapped.{
  bounded, IsBounded, wrapped_address, lower_host-bounded_surrogate,
}
use ramulator.Lowering.Weights.{
  preload, preload_lem, data_move_materialization_bytes, data_move_tx_bytes,
  semantic_datatype_bytes,
}
use ramulator.Lowering.FlatBank.{Slot, place, decompose_flat_bank, rank_for_flat_bank}
use ramulator.Lowering.FlatBank.Coordinates.{
  coordinates, with_ranks, decompose_flat_bank_lem, rank_for_flat_bank-decompose_flat_bank,
}
use ramulator.Lowering.Modes.Accepted.{protocol_run}
use ramulator.Trace.Sequence.{start}
use ramulator.Lowering.Modes.Blocks.{
  Block, compute, load, access, bank, IsPlaced, run_blocks, run_blocks_lem,
}

split_7_by_3 : split_repeat 7 3 ≡ ok (3 ∷ 3 ∷ 1 ∷ [])
unfolding split_repeat split_from
split_7_by_3 = refl

-- The stream runs over the capacity of 8192 bytes after its third transaction.
wraps :
    host_address_chunks 4072 8 5 1000 (some small_layout) "bounded_surrogate_v1"
    ≡ ok (
        record { base = 8144; stride = 16; repeat = 3 }
        ∷ record { base = 0; stride = 16; repeat = 2 }
        ∷ [])
unfolding host_address_chunks bounded_from
wraps = refl

split_repeat_lem_example :
    (chunks : List ℕ) × (split_repeat 7 3 ≡ ok chunks)
    × (sum chunks ≡ 7)
    × All (λ c. (0 < c) × (c ≤ 3)) chunks
split_repeat_lem_example = split_repeat_lem 7 3 (omega arith) (omega arith)

host_address_chunks-strict_bytes_example :
    (chunks : List Chunk) × (host_address_chunks 64 32 5 2 none "strict_bytes" ≡ ok chunks)
    × (expand chunks ≡ map (λ k. 64 + k * 32) (range_from 0 5))
    × All (Fits 2) chunks
host_address_chunks-strict_bytes_example =
    host_address_chunks-strict_bytes 64 32 5 2 none (omega arith) (omega arith)

host_address_chunks-bounded_surrogate_example :
    (chunks : List Chunk) × (host_address_chunks 4072 8 5 1000
        (some small_layout)
        "bounded_surrogate_v1"
      ≡ ok chunks)
    × (expand chunks ≡ map (λ k. (4072 + k * 8) / 8 % (8192 / 16) * 16) (range_from 0 5))
    × All (Fits 1000) chunks
host_address_chunks-bounded_surrogate_example =
    host_address_chunks-bounded_surrogate 4072 8 5 1000 small_layout (omega arith) (omega arith)
      (omega arith) (omega arith) (omega arith) refl refl refl

abbrev two_ranks : Target
two_ranks = record { rank_level = some 1; rank_count = 2 }

abbrev vector : List ℕ
vector = 0 ∷ 0 ∷ 0 ∷ 0 ∷ 3 ∷ 0 ∷ []

abbrev blocks : List Block
blocks = compute vector 3 2 1 ∷ load vector 3 0 ∷ access read vector 4 end ∷ bank vector 2 ∷ []

on_rank : (r : ℕ) → r < 2 → rank_id_for two_ranks (0 ∷ r ∷ 0 ∷ 0 ∷ 3 ∷ 0 ∷ []) ≡ ok r
unfolding rank_id_for
on_rank r h = ground arith

placed : All (IsPlaced two_ranks) blocks
placed = (
  (on_rank 1 (omega arith), omega arith),
  (
    (on_rank 0 (omega arith), omega arith),
    ((0, on_rank 0 (omega arith), refl, refl), ((0, on_rank 0 (omega arith), omega arith), tt)),
  ),
)

targeted : target_of (some small_layout) 6 ≡ ok two_ranks
unfolding target_of
targeted = refl

run_blocks_lem_example :
    (s' : State) × (run_blocks two_ranks blocks initial ≡ ok s')
    × (protocol_run small_layout s'.records start ≡ ok s'.protocol)
run_blocks_lem_example = run_blocks_lem small_layout 6 two_ranks blocks initial targeted refl placed

abbrev strict : Config
strict = record {
  addr_vec_size = 6;
  address_layout = some small_layout;
  synthetic_address_policy = "strict_bytes";
  target = two_ranks;
}

abbrev host_read : Fields
host_read = field "kind" (str "HostRead") (
    field "repeat" (to_value 2) (
      field "address_policy"
        (obj (
          field "base_byte" (to_value 64)
            (field "stride_bytes" (to_value 16) (field "count" (to_value 3) end))))
        end))

abbrev policy : HostPolicy
policy = record { base_byte = 64; stride_bytes = 16; count = 3; semantic_repeat = 2 }

parsed : host_policy host_read ≡ ok policy
unfolding host_policy sub_dict check_policy get to_int
parsed = refl

lowered : (s' : State) × (lower_host strict "HostRead" host_read initial ≡ ok s')
unfolding lower_host host_repeats host_chunks host_chunk host_policy sub_dict check_policy get
    to_int host_address_chunks strict_from map_address addr_vec_from_byte_address decompose
    validate_addr_vec check_coordinates check_coordinate access_single_bank
    transition_to_single_bank rank_id_for append
lowered = (_, refl)

lower_host-strict_bytes_example :
    host_addresses lowered.0.records ≡ [] ++ map (λ k. 64 + k * 16) (range_from 0 (2 * 3))
lower_host-strict_bytes_example =
    lower_host-strict_bytes strict "HostRead" host_read policy initial lowered.0 refl parsed
      lowered.1

abbrev order : List Slot
order = (1, 2) ∷ (3, 4) ∷ (2, 4) ∷ []

flat_21 :
    decompose_flat_bank 21 vector (1 ∷ 3 ∷ 2 ∷ []) (2 ∷ 4 ∷ 4 ∷ []) false
    ≡ ok (0 ∷ 1 ∷ 1 ∷ 1 ∷ 3 ∷ 0 ∷ [])
unfolding decompose_flat_bank place
flat_21 = refl

rank_of_21 : rank_for_flat_bank (with_ranks 1 2) (some order) 21 vector ≡ ok 1
unfolding rank_for_flat_bank rank_id_for
rank_of_21 = refl

decompose_flat_bank_lem_example :
    (av' : List ℕ) × (decompose_flat_bank 21 vector (1 ∷ 3 ∷ 2 ∷ []) (2 ∷ 4 ∷ 4 ∷ []) false
      ≡ ok av')
    × (compose (2 ∷ 4 ∷ 4 ∷ []) (coordinates order av') ≡ 21)
    × ((p : ℕ) → All (λ q. p ≢ q.0) order → get_or av' p 0 ≡ get_or vector p 0)
decompose_flat_bank_lem_example =
    decompose_flat_bank_lem 21 vector (1 ∷ 3 ∷ 2 ∷ []) (2 ∷ 4 ∷ 4 ∷ []) order refl refl
      (omega arith) (omega arith) (omega arith)

abbrev written : List ℕ
written = 0 ∷ 1 ∷ 1 ∷ 1 ∷ 3 ∷ 0 ∷ []

rank_for_flat_bank-decompose_flat_bank_example : get_or written 1 0 ≡ 1
rank_for_flat_bank-decompose_flat_bank_example =
    rank_for_flat_bank-decompose_flat_bank 1 2 21 vector written (1 ∷ 3 ∷ 2 ∷ []) (2 ∷ 4 ∷ 4 ∷ [])
      order 1 (omega arith) refl rank_of_21 flat_21

-- The stream of the test above, which runs over the capacity.
abbrev wrapping : Fields
wrapping = field "kind" (str "HostWrite") (
    field "address_policy"
      (obj (
        field "base_byte" (to_value 4072)
          (field "stride_bytes" (to_value 8) (field "count" (to_value 5) end))))
      end)

abbrev wrapping_policy : HostPolicy
wrapping_policy = record { base_byte = 4072; stride_bytes = 8; count = 5; semantic_repeat = 1 }

wrapping_parsed : host_policy wrapping ≡ ok wrapping_policy
unfolding host_policy sub_dict check_policy get to_int
wrapping_parsed = refl

wrapping_lowered :
    (s' : State) × (lower_host (bounded 6 small_layout two_ranks) "HostWrite" wrapping initial
      ≡ ok s')
unfolding lower_host host_repeats host_chunks host_chunk host_policy sub_dict check_policy get
    to_int host_address_chunks bounded_from map_address addr_vec_from_byte_address decompose
    validate_addr_vec check_coordinates check_coordinate access_single_bank
    transition_to_single_bank rank_id_for append
wrapping_lowered = (_, refl)

wrapping_IsBounded : IsBounded small_layout wrapping_policy
wrapping_IsBounded = record {
  prefetch_pos = omega arith;
  tx_pos = omega arith;
  transactions_pos = omega arith;
  whole = refl;
  base_aligned = refl;
  stride_aligned = refl;
}

lower_host-bounded_surrogate_example :
    host_addresses wrapping_lowered.0.records
    ≡ [] ++ map (wrapped_address small_layout wrapping_policy) (range_from 0 (1 * 5))
lower_host-bounded_surrogate_example =
    lower_host-bounded_surrogate 6 small_layout two_ranks "HostWrite" wrapping wrapping_policy
      initial wrapping_lowered.0 wrapping_IsBounded wrapping_parsed wrapping_lowered.1

abbrev weights : Fields
weights =
    field "kind" (str "PIMDataMove")
      (field "movement_policy" (obj (field "movement_elements" (to_value 100) end)) end)

two_transactions : preload weights ≡ ok (record { total_bytes = 100; tx_bytes = 64; count = 2 })
unfolding preload data_move_materialization_bytes data_move_tx_bytes semantic_datatype_bytes
    sub_dict get to_int
two_transactions = refl

preload_lem_example : (100 ≤ 2 * 64) × (2 * 64 < 100 + 64)
preload_lem_example =
    preload_lem weights (record { total_bytes = 100; tx_bytes = 64; count = 2 }) two_transactions
