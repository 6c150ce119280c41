-- ===== src/Trace/Interleave.antt =====
-- The second half of `validate_record`: the fields of compact bank-interleaved PIM_MAC records.
use ramulator.Prelude.{
  ℕ, ◌+◌, ◌*◌, String, Bool, true, false, not, ◌&&◌, ◌||◌, Option, none, some, List, [], ◌∷◌, ◌++◌,
  Result, Checked, ok, err, value_error, index_error, raise_if, ◌>>=◌, ◌>>◌, str_eq, ltb, leb, ◌==◌,
  if◌then◌else◌, length, get_or, get_elem?, any,
}
use ramulator.Prelude.Int.{ℤ, pos, negsuc, ltb_ℤ}
use ramulator.PyValue.{
  Value, Fields, int, bool, arr, obj, has, get, get_or_default, elements, to_int,
}
use ramulator.Addressing.Vector.{or_value_error, to_value}
use ramulator.Addressing.Layout.{Layout, position}
use ramulator.Trace.Opcode.{
  Opcode, is_pim_mac, is_int, positive_int, nonnegative_int, nonempty_list,
}

-- Does the record have one of `_INTERLEAVE_FIELDS`?
has_interleave_field : Fields → Bool
has_interleave_field r =
    any (λ (k : String). has k r)
      ("bank_sequence" ∷ "dependency_count" ∷ "row_count" ∷ "row_start" ∷ "column_start"
        ∷ "resolved_row_offset" ∷ "resolved_col_offset" ∷ "interleave_depth"
        ∷ "interleave_start_idx" ∷ "bank_positions" ∷ "bank_counts" ∷ "bank_level" ∷ "row_level"
        ∷ "col_level" ∷ [])

-- `isinstance(b, int) and b >= 0`, which a `bool` passes.
abbrev pub is_bank : Value → Bool
is_bank (int (pos _)) = true
is_bank (bool _) = true
is_bank _ = false

-- `int(bank)` of such an entry
abbrev pub bank_number : Value → ℕ
bank_number (int (pos n)) = n
bank_number (bool true) = 1
bank_number _ = 0

check_bank_sequence : Value → Checked
check_bank_sequence v = do
  banks ← nonempty_list "Concrete opcode bank_sequence must be a non-empty list" v
  raise_if (any (λ b. not (is_bank b)) banks)
      "Concrete opcode bank_sequence entries must be non-negative integers"

-- `if key in record: check(record[key])`
abbrev when_present : String → Fields → (Value → Checked) → Checked
when_present k r check = elim (get k r) [ none ↦ ok tt | some v ↦ check v ]

-- `0 <= level < len(level_names)`
check_level : String → ℤ → ℕ → Result ℕ
check_level message (pos n) levels = raise_if (leb levels n) message >> ok n
check_level message (negsuc n) levels = err (value_error message)

-- `int(record.get(key, default))`
abbrev int_field : String → ℕ → Fields → Result ℤ
int_field k d r = to_int (get_or_default k (to_value d) r)

-- `start < 0 or count < 1 or start + count > size`
check_range : String → ℤ → ℤ → ℕ → Checked
check_range message (pos start) (pos count) size =
    raise_if (ltb count 1 || ltb size (start + count)) message
check_range message _ _ size = err (value_error message)

abbrev mem_ℤ : ℤ → List ℤ → Bool
mem_ℤ z [] = false
mem_ℤ z (y ∷ ys) = (not (ltb_ℤ z y) && not (ltb_ℤ y z)) || mem_ℤ z ys

-- `len(set(xs)) != len(xs)`
abbrev has_repeat : List ℤ → Bool
has_repeat [] = false
has_repeat (z ∷ zs) = mem_ℤ z zs || has_repeat zs

abbrev as_ints : List Value → List ℤ
as_ints [] = []
as_ints (int z ∷ vs) = z ∷ as_ints vs
as_ints (_ ∷ vs) = as_ints vs

abbrev get_name : List String → ℕ → String
get_name names i = get_or names i ""

-- `level_sizes[position]`
size_at : List ℕ → ℕ → Result ℕ
size_at sizes i = elim (get_elem? sizes i) [ none ↦ err index_error | some size ↦ ok size ]

-- The loop over `zip(bank_positions, bank_counts)`, with `total_banks`.
count_banks : Layout → List ℤ → List ℤ → ℕ → Result ℕ
unfolding size_at
count_banks layout [] [] total = ok total
count_banks layout (p ∷ ps) (c ∷ cs) total = do
  i ←
      check_level "Concrete opcode bank_positions entries must fit within addr_vec" p
        (length layout.level_names)
  size ← size_at layout.level_sizes i
  raise_if (ltb_ℤ c (pos size) || ltb_ℤ (pos size) c)
      "Concrete opcode bank_counts must equal configured level size"
  count_banks layout ps cs (total * size)
count_banks layout _ _ total = err (value_error "zip() arguments differ in length")

-- `record[key]` as a list, for the joint check of positions and counts
abbrev pub list_field : String → Fields → List Value
list_field k r = elim (get k r) [ none ↦ [] | some v ↦ elim v [ arr vs ↦ elements vs | _ ↦ [] ] ]

-- `total_banks` from `bank_positions` and `bank_counts`.
total_from_positions : Layout → ℕ → ℕ → Fields → Result ℕ
unfolding count_banks check_level
total_from_positions layout row_level col_level r = do
  raise_if (not (has "bank_positions" r) || not (has "bank_counts" r))
      "Concrete opcode bank_positions and bank_counts must be provided together"
  let bp = list_field "bank_positions" r
  let bc = list_field "bank_counts" r
  raise_if (not (length bp == length bc) || length bp == 0)
      "Concrete opcode bank_positions and bank_counts must be non-empty lists of equal length"
  raise_if (any (λ v. not (is_int v)) (bp ++ bc))
      "Concrete opcode bank_positions and bank_counts entries must be integers"
  let positions = as_ints bp
  raise_if
      (has_repeat positions || mem_ℤ (pos row_level) positions || mem_ℤ (pos col_level) positions)
      "Concrete opcode bank_positions must be unique and not overlap row/column"
  count_banks layout positions (as_ints bc) 1

total_from_level : Layout → Fields → Result ℕ
unfolding check_level size_at
total_from_level layout r = do
  default ← or_value_error "list.index(x): x not in list" (position "Bank" layout.level_names)
  level ← int_field "bank_level" default r
  bank_level ←
      check_level "Concrete opcode bank_level must fit within addr_vec" level
        (length layout.level_names)
  raise_if (not (str_eq (get_name layout.level_names bank_level) "Bank"))
      "Concrete opcode bank_level must refer to the resolved Bank level"
  size_at layout.level_sizes bank_level

-- `if "bank_sequence" in record` the second time: the ranges against the layout.
check_ranges : Layout → List Value → Fields → Checked
unfolding check_level check_range size_at total_from_positions total_from_level
check_ranges layout banks r = do
  let names = layout.level_names
  default_row ← or_value_error "list.index(x): x not in list" (position "Row" names)
  row ← int_field "row_level" default_row r
  default_col ← or_value_error "list.index(x): x not in list" (position "Column" names)
  col ← int_field "col_level" default_col r
  row_level ← check_level "Concrete opcode row_level must fit within addr_vec" row (length names)
  col_level ← check_level "Concrete opcode col_level must fit within addr_vec" col (length names)
  raise_if
      (not (str_eq (get_name names row_level) "Row")
        || not (str_eq (get_name names col_level) "Column"))
      "Concrete opcode row_level/col_level must refer to the resolved Row/Column levels"
  row_start ← int_field "row_start" 0 r
  row_count ← int_field "row_count" 1 r
  column_start ← int_field "column_start" 0 r
  dependency_count ← int_field "dependency_count" 0 r
  rows ← size_at layout.level_sizes row_level
  check_range "Concrete opcode row range exceeds configured hierarchy" row_start row_count rows
  columns ← size_at layout.level_sizes col_level
  check_range "Concrete opcode column range exceeds configured hierarchy" column_start
      dependency_count columns
  total ←
      (if has "bank_positions" r || has "bank_counts" r
        then total_from_positions layout row_level col_level r
        else total_from_level layout r)
  raise_if (any (λ b. leb total (bank_number b)) banks)
      "Concrete opcode bank_sequence entries must be in [0, total_banks)"

check_interleaving : Option Layout → Fields → Value → Checked
unfolding check_ranges
check_interleaving none r v =
    err (value_error "Concrete bank interleaving validation requires address_layout")
check_interleaving (some layout) r v = do
  banks ← nonempty_list "Concrete opcode bank_sequence must be a non-empty list" v
  check_ranges layout banks r

abbrev drop_value : {A : Type 0} → Result A → Checked
drop_value m = m >>= λ _. ok tt

-- From the interleaving fields to the end of `validate_record`.
unfoldable pub check_extras : Opcode → Option Layout → Fields → Checked
unfolding has_interleave_field check_bank_sequence check_interleaving
check_extras op layout r = do
  raise_if (has_interleave_field r && not (is_pim_mac op))
      "Concrete opcode bank interleaving fields are only valid for PIM_MAC"
  when_present "bank_sequence" r check_bank_sequence
  when_present "dependency_count" r (λ v.
      drop_value (positive_int "Concrete opcode dependency_count must be a positive integer" v))
  when_present "row_count" r
      (λ v. drop_value (positive_int "Concrete opcode row_count must be a positive integer" v))
  when_present "interleave_depth" r (λ v.
      drop_value (positive_int "Concrete opcode interleave_depth must be a positive integer" v))
  when_present "interleave_start_idx" r (λ v.
      drop_value
        (nonnegative_int "Concrete opcode interleave_start_idx must be a non-negative integer" v))
  when_present "bank_sequence" r (check_interleaving layout r)
  when_present "sem" r (λ v. elim v [
    | obj sem ↦ raise_if (not (has "id" sem)) "Concrete opcode sem must contain an 'id'"
    | _ ↦ err (value_error "Concrete opcode sem must be a map")
  ])
