-- ===== src/Lowering/Host.antt =====
-- The HostRead and HostWrite branch of `lower_semantic_records_to_concrete`. `dict()` is modelled on
-- dictionaries; every other value raises.
pub mod Policy
pub mod Conserved
pub mod Wrapped
use ramulator.Prelude.{
  ℕ, zero, suc, ◌+◌, ◌*◌, String, Bool, true, false, not, ◌&&◌, ◌||◌, Option, none, some, List, [],
  ◌∷◌, Result, Checked, ok, err, Error, value_error, type_error, raise_if, ◌>>=◌, ◌>>◌, str_eq, ltb,
  ◌==◌, if◌then◌else◌,
}
use ramulator.Prelude.Int.{ℤ, pos, negsuc}
use ramulator.PyValue.{
  Value, Fields, end, field, int, str, obj, has, get, index, get_or_default, to_int,
}
use ramulator.Addressing.Vector.{to_value}
use ramulator.Addressing.Layout.{Layout}
use ramulator.Trace.Opcode.{Opcode, read, write, max_repeat}
use ramulator.Trace.Record.{map_address}
use ramulator.Lowering.Chunks.{Chunk, host_address_chunks}
use ramulator.Lowering.Modes.{Target, State, access_single_bank}

-- The arguments of the lowering that this branch reads.
pub record Config : Type 0 where
  pub addr_vec_size : ℕ
  pub address_layout : Option Layout
  pub synthetic_address_policy : String
  pub target : Target

-- `dict(record.get(key, {}))`
unfoldable pub sub_dict : String → Fields → Result Fields
sub_dict key r = elim (get key r) [
  | none ↦ ok end
  | some v ↦ elim v [ obj d ↦ ok d | _ ↦ err type_error ]
]

-- `address_policy` after its checks, with the semantic repeat.
pub record HostPolicy : Type 0 where
  pub base_byte : ℕ
  pub stride_bytes : ℕ
  pub count : ℕ
  pub semantic_repeat : ℕ

-- A non-negative integer
abbrev pub natural_or : String → ℤ → Result ℕ
natural_or message (pos n) = ok n
natural_or message (negsuc n) = err (value_error message)

-- A positive integer
abbrev pub positive_or : String → ℤ → Result ℕ
positive_or message (pos n) = raise_if (n == 0) message >> ok n
positive_or message (negsuc n) = err (value_error message)

-- The four checks, in the order of the source.
unfoldable pub check_policy : ℤ → ℤ → ℤ → ℤ → Result HostPolicy
check_policy base stride count repeat = do
  b ← natural_or "base_byte must be non-negative" base
  s ← positive_or "stride_bytes must be positive" stride
  c ← positive_or "address_policy.count must be positive" count
  r ← positive_or "repeat must be positive" repeat
  ok (record { base_byte = b; stride_bytes = s; count = c; semantic_repeat = r })

pub check_fields : Fields → Checked
check_fields policy =
    raise_if (not (has "base_byte" policy && has "stride_bytes" policy && has "count" policy))
      "address_policy missing required fields"

abbrev pub int_or : String → ℕ → Fields → Result ℤ
int_or key default d = to_int (get_or_default key (to_value default) d)

unfoldable pub host_policy : Fields → Result HostPolicy
unfolding check_fields
host_policy semantic = do
  policy ← sub_dict "address_policy" semantic
  check_fields policy
  base ← int_or "base_byte" 0 policy
  stride ← int_or "stride_bytes" 0 policy
  count ← int_or "count" 0 policy
  repeat ← int_or "repeat" 1 semantic
  check_policy base stride count repeat

-- The record's address fields: a stride only where it is used.
unfoldable pub chunk_fields : Chunk → Fields
chunk_fields c = field "addr_byte" (to_value c.base) (
    if ltb 1 c.repeat && ltb 0 c.stride
    then field "addr_byte_stride" (to_value c.stride) end
    else end)

-- One round of the loop over the chunks.
unfoldable pub host_chunk : Config → Opcode → Chunk → State → Result State
host_chunk cfg op c s = do
  av ← map_address c.base cfg.addr_vec_size cfg.address_layout
  access_single_bank cfg.target op av c.repeat (chunk_fields c) s

unfoldable pub host_chunks : Config → Opcode → List Chunk → State → Result State
host_chunks cfg op [] s = ok s
host_chunks cfg op (c ∷ cs) s = host_chunk cfg op c s >>= host_chunks cfg op cs

-- `for repeat_index in range(semantic_repeat)`, from `repeat_index` on.
unfoldable pub host_repeats : Config → Opcode → HostPolicy → ℕ → ℕ → State → Result State
host_repeats cfg op h repeat_index zero s = ok s
host_repeats cfg op h repeat_index (suc n) s = do
  chunks ←
      host_address_chunks (h.base_byte + repeat_index * h.count * h.stride_bytes) h.stride_bytes
        h.count max_repeat cfg.address_layout cfg.synthetic_address_policy
  next ← host_chunks cfg op chunks s
  host_repeats cfg op h (suc repeat_index) n next

unfoldable pub lower_host : Config → String → Fields → State → Result State
lower_host cfg kind semantic s = do
  h ← host_policy semantic
  host_repeats cfg (if str_eq kind "HostWrite" then write else read) h 0 h.semantic_repeat s
