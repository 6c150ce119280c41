-- ===== src/Trace/Sequence.antt =====
-- `_record_rank_ids` and `validate_sequence`: the mode protocol over a sequence of records.
pub mod Ranks
pub mod Acceptance
pub mod Refinement
pub mod History
use ramulator.Prelude.{
  ℕ, zero, suc, ◌+◌, String, Bool, true, false, not, ◌&&◌, ◌||◌, Option, none, some, List, [], ◌∷◌,
  map, Result, Checked, ok, err, Error, value_error, index_error, raise_if, ◌>>=◌, ◌>>◌, ltb, ◌==◌,
  if◌then◌else◌, any, get_or, get_elem?,
}
use ramulator.Prelude.Int.{ℤ, pos, negsuc}
use ramulator.PyValue.{Value, Fields, has, get, truthy, parse_int}
use ramulator.Addressing.Radix.{decompose}
use ramulator.Addressing.Layout.{Layout, index_of, find}
use ramulator.Trace.Opcode.{
  Opcode, read, write, sb, hab, hab_pim, pim_bcast, pim_mac, pim_mac_ab, is_pim_mac, natural,
}
use ramulator.Trace.Interleave.{bank_number, list_field}
use ramulator.Trace.Record.{Parsed, validate_record}
use ramulator.Trace.Slim.{slim_record}

-- The values of `rank_modes`: "SB", "HAB" and "HAB_PIM".
pub data Mode : Type 0 where
  single_bank host_all_bank pim_all_bank : Mode

-- `rank_modes` and `rank_bcasts`, with the defaults of their `get` calls.
pub record Protocol : Type 0 where
  pub modes : ℕ → Mode
  pub bcasts : ℕ → Bool

abbrev pub start : Protocol
start = record { modes = λ r. single_bank; bcasts = λ r. false }

abbrev pub contains_rank : ℕ → List ℕ → Bool
contains_rank r = any (λ i. i == r)

-- `for rank_id in rank_ids: d[rank_id] = v`
abbrev pub assign {ℓ} : {A : Type ℓ} → List ℕ → A → (ℕ → A) → ℕ → A
assign ranks v d r = if contains_rank r ranks then v else d r

abbrev pub is_single : Mode → Bool
is_single single_bank = true
is_single _ = false

abbrev pub is_host_mode : Mode → Bool
is_host_mode host_all_bank = true
is_host_mode _ = false

abbrev pub is_pim_mode : Mode → Bool
is_pim_mode pim_all_bank = true
is_pim_mode _ = false

-- The branches of `validate_sequence` on the opcode.
unfoldable pub sequence_step : Opcode → List ℕ → Protocol → Result Protocol
sequence_step read ranks p = do
  raise_if (any (λ r. not (is_single (p.modes r))) ranks) "READ requires SB mode"
  ok p
sequence_step write ranks p = do
  raise_if (any (λ r. not (is_single (p.modes r))) ranks) "WRITE requires SB mode"
  ok p
sequence_step sb ranks p =
    ok (record { modes = assign ranks single_bank p.modes; bcasts = assign ranks false p.bcasts })
sequence_step hab ranks p =
    ok (record { modes = assign ranks host_all_bank p.modes; bcasts = assign ranks false p.bcasts })
sequence_step hab_pim ranks p = do
  raise_if (any (λ r. not (p.bcasts r)) ranks) "HAB_PIM requires a preceding PIM_BCAST in HAB mode"
  ok (record p { modes = assign ranks pim_all_bank p.modes })
sequence_step pim_bcast ranks p = do
  raise_if (any (λ r. not (is_host_mode (p.modes r))) ranks) "PIM_BCAST requires HAB mode"
  ok (record p { bcasts = assign ranks true p.bcasts })
sequence_step pim_mac_ab ranks p = do
  raise_if (any (λ r. not (is_pim_mode (p.modes r)) || not (p.bcasts r)) ranks)
      "PIM_MAC_AB requires HAB_PIM mode after PIM_BCAST"
  ok p
sequence_step pim_mac ranks p = do
  raise_if (any (λ r. not (is_single (p.modes r))) ranks) "PIM_MAC requires SB mode"
  ok p

abbrev pub at_index : List ℕ → ℕ → Result ℕ
at_index xs i = elim (get_elem? xs i) [ none ↦ err index_error | some x ↦ ok x ]

unfoldable pub rank_level_of : Option Layout → Result ℕ
rank_level_of none = ok 1
rank_level_of (some l) = find "Rank" l.level_names

-- The rank coordinate of each flat bank.
bank_ranks : List ℕ → ℕ → List Value → List ℕ
bank_ranks counts i = map (λ b. get_or (decompose (bank_number b) counts).0 i 0)

-- `record["opcode"] != "PIM_MAC" or not record.get("bank_sequence")`, the other way round
abbrev pub is_interleaved : Opcode → Fields → Bool
is_interleaved op r =
    is_pim_mac op && (elim (get "bank_sequence" r) [ none ↦ false | some v ↦ truthy v ])

unfoldable pub record_rank_ids : Parsed → Fields → Option Layout → Result (List ℕ)
unfolding rank_level_of bank_ranks
record_rank_ids p r layout = do
  rank_level ← rank_level_of layout
  base ← at_index p.addr_vec rank_level
  if is_interleaved p.opcode r
      then elim (index_of rank_level (map natural (list_field "bank_positions" r))) [
        | none ↦ ok (base ∷ [])
        | some i ↦
            ok (
              bank_ranks (map natural (list_field "bank_counts" r)) i
                (list_field "bank_sequence" r))
      ]
      else ok (base ∷ [])

-- What the loop carries from record to record.
pub record Walk : Type 0 where
  pub expanded : ℕ
  pub protocol : Protocol

abbrev pub first : Walk
first = record { expanded = 0; protocol = start }

-- `record if "provenance" not in record else slim_record(record)`
unfoldable pub slim_if_rich : Fields → Result Fields
slim_if_rich r = if has "provenance" r then slim_record r else ok r

-- One round of the loop.
unfoldable pub validate_next : ℕ → Option Layout → Fields → Walk → Result Walk
unfolding slim_if_rich
validate_next limit layout r w = do
  slim ← slim_if_rich r
  p ← validate_record slim layout
  let expanded = w.expanded + p.repeat
  raise_if (ltb limit expanded) "Concrete opcode trace exceeds max expanded records"
  ranks ← record_rank_ids p slim layout
  next ← sequence_step p.opcode ranks w.protocol
  ok (record { expanded = expanded; protocol = next })

unfoldable pub validate_from : ℕ → Option Layout → List Fields → Walk → Result Walk
validate_from limit layout [] w = ok w
validate_from limit layout (r ∷ rs) w =
    validate_next limit layout r w >>= validate_from limit layout rs

abbrev default_limit : ℕ
default_limit = 1_000_000_000

-- `max_expanded_records`, or the environment's variable, or the default; it must be positive.
unfoldable pub resolve_limit : Option ℤ → Option String → Result ℕ
resolve_limit given environment = do
  limit ← elim given [
    | some z ↦ ok z
    | none ↦ elim environment [
      | none ↦ ok (pos default_limit)
      | some s ↦ elim (parse_int s) [
        | none ↦ err (value_error "invalid literal for int() with base 10")
        | some z ↦ ok z
      ]
    ]
  ]
  elim limit [
    | pos n ↦ raise_if (n == 0) "RAMULATOR_MAX_EXPANDED_RECORDS must be positive when set" >> ok n
    | negsuc n ↦ err (value_error "RAMULATOR_MAX_EXPANDED_RECORDS must be positive when set")
  ]

-- `environment` is `os.environ.get("RAMULATOR_MAX_EXPANDED_RECORDS")`. The walk's end is handed on
-- where Python returns nothing.
unfoldable pub validate_sequence :
    Option ℤ → Option String → Option Layout → List Fields → Result Walk
validate_sequence given environment layout records = do
  limit ← resolve_limit given environment
  validate_from limit layout records first
