-- ===== src/Trace/Record.antt =====
-- `validate_record`. It returns nothing in Python; here the checks hand on the opcode, the repeat
-- count and the coordinates that they have read, which `validate_sequence` reads from the record.
use ramulator.Prelude.{
  ℕ, ◌+◌, ◌-◌, ◌*◌, Bool, true, false, not, ◌&&◌, ◌||◌, Option, none, some, List, [], ◌∷◌, Result,
  Checked, ok, err, value_error, raise_if, ◌>>=◌, ◌>>◌, ◌==◌, if◌then◌else◌, length, any, map,
}
use ramulator.Prelude.Int.{pos}
use ramulator.PyValue.{Value, Fields, has, get, index}
use ramulator.Addressing.Vector.{addr_vec_from_byte_address, validate_addr_vec, to_value}
use ramulator.Addressing.Layout.{Layout}
use ramulator.Trace.Opcode.{
  Opcode, is_host, is_int, is_negative_int, natural, positive_int, nonnegative_int, nonempty_list,
  parse_opcode, parse_repeat,
}
use ramulator.Trace.Interleave.{check_extras}

-- `addr_vec_from_byte_address` of this module, at `addr_vec_size=size`
unfoldable pub map_address : ℕ → ℕ → Option Layout → Result (List ℕ)
map_address address size none =
    err (value_error "address_layout is required for host byte-address mapping")
map_address address size (some l) = do
  raise_if (not (length l.level_names == size))
      "address_layout level count must equal addr_vec_size"
  addr_vec_from_byte_address (to_value address) l.level_names (map to_value l.level_sizes)
      (pos l.internal_prefetch_size) (pos l.tx_bytes)

check_keys : Fields → Checked
check_keys r = do
  raise_if (not (has "opcode" r && has "repeat" r && has "addr_vec" r))
      "Concrete opcode record missing required fields"
  raise_if (has "schema_version" r || has "provenance" r || has "record_id" r)
      "Concrete opcode record must not carry header/constant fields"

-- The coordinates: in range of the layout, or without one not negative.
check_coordinates_of : List Value → Option Layout → Checked
check_coordinates_of vs (some l) =
    validate_addr_vec vs l.level_names (map to_value l.level_sizes) false
check_coordinates_of vs none =
    raise_if (any is_negative_int vs) "Concrete opcode addr_vec entries must be non-negative"

parse_addr_vec : Value → Option Layout → Result (List ℕ)
unfolding check_coordinates_of
parse_addr_vec v layout = do
  vs ← nonempty_list "Concrete opcode addr_vec must be a non-empty list" v
  raise_if (any (λ c. not (is_int c)) vs) "Concrete opcode addr_vec entries must be integers"
  check_coordinates_of vs layout
  ok (map natural vs)

abbrev list_eq : List ℕ → List ℕ → Bool
list_eq [] [] = true
list_eq (x ∷ xs) (y ∷ ys) = x == y && list_eq xs ys
list_eq _ _ = false

-- `if "addr_byte" in record`: the byte address, which a host record's vector must decompose.
check_addr_byte : Opcode → List ℕ → Option Layout → Value → Result ℕ
unfolding map_address
check_addr_byte op vec layout v = do
  addr_byte ← nonnegative_int "Concrete opcode addr_byte must be a non-negative integer" v
  expected ← (if is_host op then map_address addr_byte (length vec) layout else ok vec)
  raise_if (not (list_eq vec expected))
      "Concrete READ/WRITE addr_vec must match decomposed addr_byte"
  ok addr_byte

-- `if "addr_byte_stride" in record`: the last address of the stream is mapped too.
check_stride : List ℕ → ℕ → Option Layout → Option ℕ → Value → Checked
unfolding map_address
check_stride vec repeat layout none v =
    err (value_error "Concrete opcode addr_byte_stride requires addr_byte")
check_stride vec repeat layout (some addr_byte) v = do
  stride ← positive_int "Concrete opcode addr_byte_stride must be a positive integer" v
  last_vec ← map_address (addr_byte + (repeat - 1) * stride) (length vec) layout
  ok tt

abbrev is_none {ℓ} : {A : Type ℓ} → Option A → Bool
is_none none = true
is_none (some a) = false

check_host : Opcode → ℕ → List ℕ → Option Layout → Fields → Checked
unfolding check_addr_byte check_stride
check_host op repeat vec layout r = do
  raise_if (is_host op && is_none layout) "Concrete READ/WRITE validation requires address_layout"
  raise_if ((has "addr_byte" r || has "addr_byte_stride" r) && not (is_host op))
      "Concrete opcode addr_byte fields are only valid for READ/WRITE"
  raise_if (is_host op && not (has "addr_byte" r)) "Concrete READ/WRITE records require addr_byte"
  addr_byte ← elim (get "addr_byte" r) [
    | none ↦ ok none
    | some v ↦ check_addr_byte op vec layout v >>= λ b. ok (some b)
  ]
  elim (get "addr_byte_stride" r) [
    | none ↦ ok tt
    | some v ↦ check_stride vec repeat layout addr_byte v
  ]

-- What `validate_sequence` reads of a record that has passed.
pub record Parsed : Type 0 where
  pub opcode : Opcode
  pub repeat : ℕ
  pub addr_vec : List ℕ

unfoldable pub validate_record : Fields → Option Layout → Result Parsed
unfolding check_keys parse_addr_vec check_host
validate_record r layout = do
  check_keys r
  op ← (index "opcode" r >>= parse_opcode)
  repeat ← (index "repeat" r >>= parse_repeat)
  vec ← (index "addr_vec" r >>= λ v. parse_addr_vec v layout)
  check_host op repeat vec layout r
  check_extras op layout r
  ok (record { opcode = op; repeat = repeat; addr_vec = vec })
