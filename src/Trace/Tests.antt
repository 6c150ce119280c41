-- ===== src/Trace/Tests.antt =====
-- Runs of the trace checks on a trace that drives one rank through a whole all-bank computation.
use ramulator.Prelude.{
  ℕ, ◌≡◌, ◌≢◌, ◌↔◌, refl, String, true, false, none, some, List, [], ◌∷◌, ◌++◌, map, ok, err,
  value_error, arith,
}
use ramulator.Prelude.Int.{pos}
use ramulator.PyValue.{obj, insert, Fields, end, field, int, str, arr, of_list, get, to_int}
use ramulator.Trace.Record.{validate_record}
use ramulator.Trace.Slim.{slim_record, drop_constants}
use ramulator.Trace.Slim.Idempotent.{slim_record-slim_record}
use ramulator.Trace.Header.{build_header, validate_header, schema_version_of}
use ramulator.Trace.Header.Accepted.{IsHeader, validate_header-ok_iff}
use ramulator.Trace.Interleave.{check_extras}
use ramulator.Addressing.Vector.{to_value, validate_addr_vec, check_coordinates, check_coordinate}
use ramulator.Addressing.Tests.{small_layout}
use ramulator.Trace.Opcode.{
  parse_opcode, opcode_named, parse_repeat, Opcode, pim_bcast, hab_pim, hab, sb, pim_mac_ab,
}
use ramulator.Trace.Sequence.Acceptance.{Event, read_event, read_events}
use ramulator.Trace.Sequence.History.{IsPrimed, validate_sequence-IsPrimed}
use ramulator.Trace.Sequence.{
  host_all_bank, Protocol, Walk, sequence_step, resolve_limit, validate_sequence, validate_from,
  validate_next, slim_if_rich, record_rank_ids, assign,
}
use ramulator.Trace.Sequence.Ranks.{local_step, view, sequence_step_sound, sequence_step_complete}
use ramulator.Trace.Sequence.Refinement.{AcceptsTrace, validate_sequence-ok_iff}

-- A record on rank 1, bank 0.
abbrev on_rank_1 : String → ℕ → Fields
on_rank_1 op n = field "opcode" (str op) (
    field "repeat" (int (pos n))
      (field "addr_vec" (arr (of_list (map to_value (0 ∷ 1 ∷ 0 ∷ 0 ∷ 3 ∷ 0 ∷ [])))) end))

abbrev computation : List Fields
computation =
    on_rank_1 "HAB" 1
    ∷ on_rank_1 "PIM_BCAST" 1
    ∷ on_rank_1 "HAB_PIM" 1
    ∷ on_rank_1 "PIM_MAC_AB" 3
    ∷ on_rank_1 "SB" 1
    ∷ []

abbrev no_broadcast : List Fields
no_broadcast = on_rank_1 "HAB" 1 ∷ on_rank_1 "HAB_PIM" 1 ∷ []

accepted_up_to_7 :
    (w : Walk) × (validate_sequence (some (pos 7)) none (some small_layout) computation ≡ ok w)
unfolding validate_sequence resolve_limit validate_from validate_next get validate_record
    parse_opcode opcode_named parse_repeat check_extras slim_if_rich record_rank_ids
    validate_addr_vec check_coordinates check_coordinate to_int sequence_step
accepted_up_to_7 = (_, refl)

beyond_6 :
    validate_sequence (some (pos 6)) none (some small_layout) computation
    ≡ err (value_error "Concrete opcode trace exceeds max expanded records")
unfolding validate_sequence resolve_limit validate_from validate_next get validate_record
    parse_opcode opcode_named parse_repeat check_extras slim_if_rich record_rank_ids
    validate_addr_vec check_coordinates check_coordinate to_int sequence_step
beyond_6 = refl

without_broadcast :
    validate_sequence none none (some small_layout) no_broadcast
    ≡ err (value_error "HAB_PIM requires a preceding PIM_BCAST in HAB mode")
unfolding validate_sequence resolve_limit validate_from validate_next get validate_record
    parse_opcode opcode_named parse_repeat check_extras slim_if_rich record_rank_ids
    validate_addr_vec check_coordinates check_coordinate to_int sequence_step
without_broadcast = refl

abbrev in_host_mode : Protocol
in_host_mode = record { modes = λ r. host_all_bank; bcasts = λ r. false }

abbrev loaded : Protocol
loaded = record { modes = λ r. host_all_bank; bcasts = assign (1 ∷ []) true (λ r. false) }

sequence_step_sound_example :
    local_step pim_bcast (1 ∷ []) 1 (view in_host_mode 1) ≡ some (view loaded 1)
unfolding sequence_step
sequence_step_sound_example = sequence_step_sound pim_bcast (1 ∷ []) in_host_mode loaded refl 1

touched : (r : ℕ) → local_step hab_pim (1 ∷ []) r (view loaded r) ≢ none
touched r h = ground arith

sequence_step_complete_example : (q : Protocol) × (sequence_step hab_pim (1 ∷ []) loaded ≡ ok q)
sequence_step_complete_example = sequence_step_complete hab_pim (1 ∷ []) loaded touched

limit_7 : resolve_limit (some (pos 7)) none ≡ ok 7
unfolding resolve_limit
limit_7 = refl

validate_sequence-ok_iff_example :
    ((w : Walk) × (validate_sequence (some (pos 7)) none (some small_layout) computation ≡ ok w))
    ↔ AcceptsTrace 7 (some small_layout) computation
validate_sequence-ok_iff_example =
    validate_sequence-ok_iff (some (pos 7)) none (some small_layout) computation 7 limit_7

abbrev event : Opcode → ℕ → Event
event op n = record { opcode = op; repeat = n; ranks = 1 ∷ [] }

abbrev until_mac : List Event
until_mac = event hab 1 ∷ event pim_bcast 1 ∷ event hab_pim 1 ∷ []

computation_events :
    read_events (some small_layout) computation
    ≡ ok (until_mac ++ (event pim_mac_ab 3 ∷ event sb 1 ∷ []))
unfolding read_events read_event validate_record get parse_opcode opcode_named parse_repeat
    check_extras slim_if_rich record_rank_ids validate_addr_vec check_coordinates check_coordinate
    to_int
computation_events = refl

validate_sequence-IsPrimed_example : IsPrimed 1 until_mac
validate_sequence-IsPrimed_example =
    validate_sequence-IsPrimed (some (pos 7)) none (some small_layout) computation
      accepted_up_to_7.0 until_mac (event sb 1 ∷ []) (event pim_mac_ab 3) 1 accepted_up_to_7.1
      computation_events refl refl

abbrev rich : Fields
rich = field "record_id" (str "op_0001") (
    field "opcode" (str "SB") (
      field "provenance"
        (obj (field "semantic_source" (obj (field "record_id" (str "r7") end)) end)) end))

abbrev slim : Fields
slim = field "opcode" (str "SB") (field "sem" (obj (field "id" (str "r7") end)) end)

slimmed : slim_record rich ≡ ok slim
unfolding slim_record drop_constants get insert
slimmed = refl

slim_record-slim_record_example : slim_record slim ≡ ok slim
slim_record-slim_record_example = slim_record-slim_record rich slim slimmed

abbrev header : Fields
header =
    field "schema_version" (str "lpddr5-pim-opcode-v0.2") (field "dram_class" (str "LPDDR5PIM") end)

built : build_header "LPDDR5PIM" ≡ ok header
unfolding build_header validate_header schema_version_of get
built = refl

validate_header-ok_iff_example :
    (validate_header (obj header) (some "LPDDR5PIM") ≡ ok tt) ↔ IsHeader header (some "LPDDR5PIM")
validate_header-ok_iff_example = validate_header-ok_iff header (some "LPDDR5PIM")
