-- ===== src/Addressing/Vector.antt =====
-- python/ramulator/dram/addressing.py: `validate_addr_vec` and `addr_vec_from_byte_address`.
use ramulator.Prelude.{
  ℕ, zero, suc, ◌*◌, ◌/◌, ◌%◌, String, Bool, false, not, ◌||◌, Option, none, some, List, [], ◌∷◌,
  map, Result, Checked, ok, err, value_error, raise_if, ◌>>=◌, ◌>>◌, str_eq, leb, ◌==◌,
  if◌then◌else◌, length, prod,
}
use ramulator.Prelude.Int.{ℤ, pos, negsuc, ltb_ℤ}
use ramulator.PyValue.{Value, int, to_int}
use ramulator.Addressing.Radix.{decompose}

-- `allow_wildcards and value == -1`
abbrev pub is_wildcard : Bool → ℤ → Bool
is_wildcard allow (negsuc zero) = allow
is_wildcard allow _ = false

-- One round of the loop over `zip(level_names, level_sizes, addr_vec)`.
unfoldable pub check_coordinate : Bool → Value → Value → Checked
check_coordinate allow size (int v) = if is_wildcard allow v then ok tt else do
  bound ← to_int size
  raise_if (ltb_ℤ v (pos 0) || not (ltb_ℤ v bound)) "coordinate must be in [0, size)"
check_coordinate allow size _ = err (value_error "coordinate must be an integer")

unfoldable pub check_coordinates : Bool → List Value → List Value → Checked
check_coordinates allow [] [] = ok tt
check_coordinates allow (s ∷ sizes) (v ∷ vs) = do
  check_coordinate allow s v
  check_coordinates allow sizes vs
check_coordinates allow _ _ = err (value_error "zip() arguments differ in length")

unfoldable pub validate_addr_vec : List Value → List String → List Value → Bool → Checked
validate_addr_vec addr_vec level_names level_sizes allow_wildcards = do
  raise_if (not (length level_names == length level_sizes))
      "level_names and level_sizes must have equal length"
  raise_if (not (length addr_vec == length level_names)) "length must equal hierarchy level count"
  check_coordinates allow_wildcards level_sizes addr_vec

-- `address < 0` or no `int`
abbrev pub host_address : Value → Result ℕ
host_address (int (pos n)) = ok n
host_address _ = err (value_error "host byte address must be a non-negative integer")

-- `level_names[-1] == name`
abbrev pub is_last : String → List String → Bool
is_last name [] = false
is_last name (x ∷ []) = str_eq x name
is_last name (x ∷ y ∷ xs) = is_last name (y ∷ xs)

-- The sizes as numbers, if each is a positive `int`.
abbrev pub positive_sizes : List Value → Option (List ℕ)
positive_sizes [] = some []
positive_sizes (int (pos (suc n)) ∷ vs) = elim (positive_sizes vs) [
  | none ↦ none
  | some ns ↦ some (suc n ∷ ns)
]
positive_sizes (_ ∷ vs) = none

abbrev pub or_value_error {ℓ} : {A : Type ℓ} → String → Option A → Result A
or_value_error e none = err (value_error e)
or_value_error e (some a) = ok a

-- `xs[-1]` of a list that is not empty
abbrev pub last : List ℕ → ℕ
last [] = 0
last (x ∷ []) = x
last (x ∷ y ∷ xs) = last (y ∷ xs)

-- `xs[-1] //= p`
abbrev pub divide_last : ℕ → List ℕ → List ℕ
divide_last p [] = []
divide_last p (x ∷ []) = x / p ∷ []
divide_last p (x ∷ y ∷ xs) = x ∷ divide_last p (y ∷ xs)

-- A positive number, that divides the last size for the prefetch.
abbrev pub column_prefetch : String → ℤ → ℕ → Result ℕ
column_prefetch message (pos (suc p)) columns =
    raise_if (not (columns % suc p == 0)) message >> ok (suc p)
column_prefetch message _ columns = err (value_error message)

abbrev pub positive_tx : ℤ → Result ℕ
positive_tx (pos (suc t)) = ok (suc t)
positive_tx _ = err (value_error "tx_bytes must be positive")

abbrev pub to_value : ℕ → Value
to_value n = int (pos n)

abbrev pub capacity_message : String
capacity_message = "host byte address exceeds configured addressable capacity"

unfoldable pub addr_vec_from_byte_address :
    Value → List String → List Value → ℤ → ℤ → Result (List ℕ)
addr_vec_from_byte_address address level_names level_sizes internal_prefetch_size tx_bytes = do
  n ← host_address address
  raise_if (not (length level_names == length level_sizes) || length level_names == 0)
      "level_names and level_sizes must be non-empty and equal length"
  raise_if (not (is_last "Column" level_names))
      "address layout requires Column as the final hierarchy level"
  sizes ← or_value_error "level_sizes must contain positive integers" (positive_sizes level_sizes)
  prefetch ←
      column_prefetch "Column size must be divisible by internal_prefetch_size"
        internal_prefetch_size (last sizes)
  tx ← positive_tx tx_bytes
  let radices = divide_last prefetch sizes
  let capacity = tx * prod radices
  raise_if (leb capacity n) capacity_message
  let (addr_vec, value) = decompose (n / tx) radices
  raise_if (not (value == 0)) capacity_message
  validate_addr_vec (map to_value addr_vec) level_names level_sizes false
  ok addr_vec
