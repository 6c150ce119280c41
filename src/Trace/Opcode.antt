-- ===== src/Trace/Opcode.antt =====
-- The opcodes of a concrete trace, and the values of a record that every check reads.
use ramulator.Prelude.{
  ℕ, suc, String, Bool, true, false, ◌||◌, Option, none, some, List, ◌∷◌, Result, ok, err,
  value_error, type_error, raise_if, ◌>>◌, str_eq, ltb, ◌==◌, if◌then◌else◌,
}
use ramulator.Prelude.Int.{pos, negsuc}
use ramulator.PyValue.{Value, cons, int, str, arr, obj, elements}

pub data Opcode : Type 0 where
  read write sb hab hab_pim pim_bcast pim_mac pim_mac_ab : Opcode

-- `CONCRETE_OPCODES`, by name
unfoldable pub opcode_named : String → Option Opcode
opcode_named s =
    if str_eq s "READ"
    then some read
    else if str_eq s "WRITE"
    then some write
    else if str_eq s "SB"
    then some sb
    else if str_eq s "HAB"
    then some hab
    else if str_eq s "HAB_PIM"
    then some hab_pim
    else if str_eq s "PIM_BCAST"
    then some pim_bcast
    else if str_eq s "PIM_MAC"
    then some pim_mac
    else if str_eq s "PIM_MAC_AB"
    then some pim_mac_ab
    else none

abbrev pub name_of : Opcode → String
name_of read = "READ"
name_of write = "WRITE"
name_of sb = "SB"
name_of hab = "HAB"
name_of hab_pim = "HAB_PIM"
name_of pim_bcast = "PIM_BCAST"
name_of pim_mac = "PIM_MAC"
name_of pim_mac_ab = "PIM_MAC_AB"

-- `opcode in {"READ", "WRITE"}`
abbrev pub is_host : Opcode → Bool
is_host read = true
is_host write = true
is_host _ = false

abbrev pub is_pim_mac : Opcode → Bool
is_pim_mac pim_mac = true
is_pim_mac _ = false

-- `FORBIDDEN_RAW_ATTACC_OPCODES`
is_raw_attacc : String → Bool
is_raw_attacc s =
    str_eq s "PIM_WR_GB"
    || str_eq s "PIM_MV_BA"
    || str_eq s "PIM_MV_BF"
    || str_eq s "PIM_SFM"
    || str_eq s "PIM_SET_CONFIG"
    || str_eq s "PIM_SET"
    || str_eq s "PIM_ACT_AB"

-- The two membership tests on `record["opcode"]`; a list or a dict cannot be hashed.
unfoldable pub parse_opcode : Value → Result Opcode
unfolding is_raw_attacc opcode_named
parse_opcode (str s) =
    if is_raw_attacc s
    then err (value_error "Raw AttAcc opcode is not part of the LPDDR PIM concrete schema")
    else elim (opcode_named s) [
      | none ↦ err (value_error "Unsupported LPDDR PIM concrete opcode")
      | some op ↦ ok op
    ]
parse_opcode (arr _) = err type_error
parse_opcode (obj _) = err type_error
parse_opcode _ = err (value_error "Unsupported LPDDR PIM concrete opcode")

abbrev pub max_repeat : ℕ
max_repeat = 1_000_000

unfoldable pub parse_repeat : Value → Result ℕ
parse_repeat (int (pos n)) = do
  raise_if (n == 0 || ltb max_repeat n) "Concrete opcode repeat must be in [1, MAX_REPEAT]"
  ok n
parse_repeat (int (negsuc n)) =
    err (value_error "Concrete opcode repeat must be in [1, MAX_REPEAT]")
parse_repeat _ = err (value_error "Concrete opcode repeat must be an integer")

-- `not isinstance(v, list) or not v`
abbrev pub nonempty_list : String → Value → Result (List Value)
nonempty_list message (arr (cons v vs)) = ok (v ∷ elements vs)
nonempty_list message _ = err (value_error message)

abbrev pub is_int : Value → Bool
is_int (int _) = true
is_int _ = false

abbrev pub is_negative_int : Value → Bool
is_negative_int (int (negsuc _)) = true
is_negative_int _ = false

-- A non-negative integer as a number; other values do not pass the checks above it.
abbrev pub natural : Value → ℕ
natural (int (pos n)) = n
natural _ = 0

-- A positive integer field, as `dependency_count`.
abbrev pub positive_int : String → Value → Result ℕ
positive_int message (int (pos (suc n))) = ok (suc n)
positive_int message _ = err (value_error message)

abbrev pub nonnegative_int : String → Value → Result ℕ
nonnegative_int message (int (pos n)) = ok n
nonnegative_int message _ = err (value_error message)
