-- ===== src/Addressing/Layout.antt =====
-- python/ramulator/dram/addressing.py: `extract_dram_layout`.
pub mod Extract
pub mod Banks
use ramulator.Prelude.{
  ℕ, zero, suc, ◌+◌, ◌-◌, ◌*◌, ◌/◌, ◌%◌, ◌^◌, String, Bool, true, false, not, ◌&&◌, ◌||◌, Option,
  none, some, List, [], ◌∷◌, ◌++◌, map, Result, Checked, ok, err, value_error, key_error, raise_if,
  ◌>>=◌, ◌>>◌, str_eq, ltb, leb, ◌==◌, if◌then◌else◌, length, prod, all, any, get_or, set,
}
use ramulator.Prelude.Int.{ℤ, pos, negsuc, sub_ℕ, div_ℤ}
use ramulator.PyValue.{
  contains, Value, Fields, end, field, keyed, codes, lower, int, float, dyadic, bool, get, to_int,
}
use ramulator.Addressing.Vector.{or_value_error, column_prefetch}

-- A DRAM standard with its resolved organization: what the function reads of `dram`.
pub record Dram : Type 0 where
  pub class_name : String
  pub level_names : List String
  pub organization : Fields
  pub internal_prefetch_size : ℤ
  pub data_payload_bytes : Option ℤ
  pub subchannel_model : Option Fields

pub record Layout : Type 0 where
  pub dram_class : String
  pub level_names : List String
  pub level_sizes : List ℕ
  pub address_level_sizes : List ℕ
  pub channel_pos : ℕ
  pub rank_pos : ℕ
  pub bank_positions : List ℕ
  pub bank_counts : List ℕ
  pub controller_bank_positions : List ℕ
  pub controller_bank_counts : List ℕ
  pub total_bank_units : ℕ
  pub row_pos : ℕ
  pub col_pos : ℕ
  pub num_rows : ℕ
  pub num_cols : ℕ
  pub internal_prefetch_size : ℕ
  pub num_cls : ℕ
  pub tx_bytes : ℕ
  pub capacity_bytes : ℕ

abbrev codes_eq : List ℕ → List ℕ → Bool
codes_eq [] [] = true
codes_eq (a ∷ as_) (b ∷ bs) = a == b && codes_eq as_ bs
codes_eq _ _ = false

-- `organization[name.lower()]`, the key given by its code points
index_codes : List ℕ → Fields → Result Value
index_codes k end = err key_error
index_codes k (field j v d) = if codes_eq (codes j) k then ok v else index_codes k d
index_codes k (keyed j v d) = index_codes k d

level_size : Fields → String → Result ℤ
unfolding index_codes
level_size organization name =
    if str_eq name "Channel" then ok (pos 1) else (index_codes (lower name) organization >>= to_int)

pub level_sizes_of : Fields → List String → Result (List ℤ)
unfolding level_size
level_sizes_of organization [] = ok []
level_sizes_of organization (name ∷ names) = do
  size ← level_size organization name
  sizes ← level_sizes_of organization names
  ok (size ∷ sizes)

-- `xs.index(x)`, `none` where it raises `ValueError`
abbrev pub position : String → List String → Option ℕ
position x [] = none
position x (y ∷ ys) =
    if str_eq y x then some 0 else elim (position x ys) [ none ↦ none | some i ↦ some (suc i) ]

abbrev pub index_of : ℕ → List ℕ → Option ℕ
index_of x [] = none
index_of x (y ∷ ys) =
    if y == x then some 0 else elim (index_of x ys) [ none ↦ none | some i ↦ some (suc i) ]

-- The sizes as numbers, if each is positive.
abbrev pub positive_counts : List ℤ → Option (List ℕ)
positive_counts [] = some []
positive_counts (pos (suc n) ∷ zs) = elim (positive_counts zs) [
  | none ↦ none
  | some ns ↦ some (suc n ∷ ns)
]
positive_counts (_ ∷ zs) = none

abbrev pub find : String → List String → Result ℕ
find name names = or_value_error "list.index(x): x not in list" (position name names)

pub record Positions : Type 0 where
  pub channel : ℕ
  pub rank : ℕ
  pub bank : ℕ
  pub row : ℕ
  pub column : ℕ

starts_with_channel : List String → Bool
starts_with_channel [] = false
starts_with_channel (name ∷ names) = str_eq name "Channel"

pub find_positions : List String → Result Positions
find_positions names = do
  channel ← find "Channel" names
  rank ← find "Rank" names
  bank ← find "Bank" names
  row ← find "Row" names
  column ← find "Column" names
  raise_if (not (channel == 0) || not (ltb rank bank && ltb bank row && ltb row column))
      "PIMScope concrete traces require Channel first and ordered Rank/.../Bank/Row/Column hierarchy levels"
  ok (record { channel = channel; rank = rank; bank = bank; row = row; column = column })

-- `list(range(lo, lo + n))`
abbrev pub range_from : ℕ → ℕ → List ℕ
range_from lo zero = []
range_from lo (suc n) = lo ∷ range_from (suc lo) n

-- `xs.append(xs.pop(i))`
abbrev pub move_to_end : ℕ → List ℕ → List ℕ
move_to_end i [] = []
move_to_end zero (x ∷ xs) = xs ++ (x ∷ [])
move_to_end (suc i) (x ∷ xs) = x ∷ move_to_end i xs

-- One round of the interleave loop, for "BankGroup" and "PseudoChannel".
pub rotate_level : List String → String → List ℕ × List ℕ → Result (List ℕ × List ℕ)
rotate_level names name (positions, counts) = elim (position name names) [
  | none ↦ ok (positions, counts)
  | some p ↦ do
    i ← or_value_error "list.index(x): x not in list" (index_of p positions)
    ok (move_to_end i positions, move_to_end i counts)
]

-- Bytes of a transaction: the payload, or the prefetch times the channel width in bits.
pub transaction_bytes : Dram → ℕ → Result ℕ
unfolding index_codes
transaction_bytes d prefetch = do
  bytes ← elim d.data_payload_bytes [
    | some b ↦ ok b
    | none ↦ do
      width ← (index_codes (codes "channel_width") d.organization >>= to_int)
      ok (elim width [
        | pos n ↦ pos (prefetch * n / 8)
        | negsuc n ↦ div_ℤ (sub_ℕ 0 (prefetch * suc n)) 8
      ])
  ]
  elim bytes [
    | pos n ↦ raise_if (n == 0) "DRAM transaction size must be positive" >> ok n
    | negsuc n ↦ err (value_error "DRAM transaction size must be positive")
  ]

-- `value == 1`, which `True` and `1.0` pass too
equals_one : Option Value → Bool
equals_one (some (int (pos n))) = n == 1
equals_one (some (bool b)) = b
equals_one (some (float (dyadic (pos m) k))) = m == 2 ^ k
equals_one _ = false

is_false : Option Value → Bool
is_false (some (bool false)) = true
is_false _ = false

-- `model.get("modeled_subchannels_per_channel") != 1` and `… is not False`
pub check_subchannels : Option Fields → Checked
unfolding equals_one is_false
check_subchannels none = ok tt
check_subchannels (some model) = do
  raise_if (not (equals_one (get "modeled_subchannels_per_channel" model)))
      "PIMScope concrete traces currently require exactly one modeled sub-channel per Channel"
  raise_if (not (is_false (get "independent_subchannel_scheduling" model)))
      "PIMScope does not support independent LPDDR6 sub-channel scheduling"

-- The layout from what the checks have established.
unfoldable pub build_layout : Dram → List ℕ → Positions → ℕ → ℕ → List ℕ × List ℕ → Layout
build_layout d sizes p prefetch tx banks =
    let controller = range_from p.rank (suc p.bank - p.rank) in
    let counts = map (λ i. get_or sizes i 0) controller in
    let num_cols = get_or sizes p.column 0 in
    let address_sizes = set sizes p.column (num_cols / prefetch) in
    record {
      dram_class = d.class_name;
      level_names = d.level_names;
      level_sizes = sizes;
      address_level_sizes = address_sizes;
      channel_pos = p.channel;
      rank_pos = p.rank;
      bank_positions = banks.0;
      bank_counts = banks.1;
      controller_bank_positions = controller;
      controller_bank_counts = counts;
      total_bank_units = prod counts;
      row_pos = p.row;
      col_pos = p.column;
      num_rows = get_or sizes p.row 0;
      num_cols = num_cols;
      internal_prefetch_size = prefetch;
      num_cls = num_cols / prefetch;
      tx_bytes = tx;
      capacity_bytes = tx * prod address_sizes;
    }

-- The level names that the hierarchy must have.
pub check_names : List String → Checked
unfolding starts_with_channel
check_names names = do
  raise_if (not (starts_with_channel names)) "DRAM hierarchy must begin with Channel"
  raise_if (not (contains "Rank" names) || not (contains "Bank" names))
      "DRAM hierarchy must contain Rank and Bank levels"
  raise_if (not (contains "Row" names) || not (contains "Column" names))
      "DRAM hierarchy must contain Row and Column levels"

unfoldable pub extract_dram_layout : Dram → Result Layout
unfolding level_sizes_of check_names find_positions transaction_bytes rotate_level check_subchannels
extract_dram_layout d = do
  let names = d.level_names
  sizes_of ← level_sizes_of d.organization names
  check_names names
  sizes ← or_value_error "DRAM hierarchy level sizes must be positive" (positive_counts sizes_of)
  p ← find_positions names
  prefetch ←
      column_prefetch "DRAM Column count must be divisible by internal_prefetch_size"
        d.internal_prefetch_size (get_or sizes p.column 0)
  tx ← transaction_bytes d prefetch
  let controller = range_from p.rank (suc p.bank - p.rank)
  let counts = map (λ i. get_or sizes i 0) controller
  groups ← rotate_level names "BankGroup" (controller, counts)
  banks ← rotate_level names "PseudoChannel" groups
  check_subchannels d.subchannel_model
  ok (build_layout d sizes p prefetch tx banks)
