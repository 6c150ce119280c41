-- ===== src/Lowering/Chunks.antt =====
-- `_split_repeat` and `_host_address_chunks`: a long repeat, or a stream of host addresses, cut into
-- records of at most `max_repeat`. The callers pass a base that is not negative and a positive stride.
pub mod Cover
pub mod Wrap
use ramulator.Prelude.{
  ℕ, zero, suc, ◌+◌, ◌-◌, ◌*◌, ◌/◌, ◌%◌, min, String, Bool, true, false, not, ◌||◌, Option, none,
  some, List, [], ◌∷◌, ◌++◌, map, Result, ok, err, value_error, raise_if, ◌>>=◌, ◌>>◌, str_eq, ltb,
  ◌==◌, if◌then◌else◌,
}
use ramulator.Addressing.Layout.{Layout, range_from}

-- The loop of `_split_repeat`; each round takes at least one, so `remaining` rounds are enough.
unfoldable pub split_from : ℕ → ℕ → ℕ → List ℕ
split_from zero max_repeat remaining = []
split_from (suc fuel) max_repeat zero = []
split_from (suc fuel) max_repeat (suc r) =
    let chunk = min max_repeat (suc r) in chunk ∷ split_from fuel max_repeat (suc r - chunk)

unfoldable pub split_repeat : ℕ → ℕ → Result (List ℕ)
split_repeat repeat max_repeat = do
  raise_if (repeat == 0) "repeat must be positive"
  raise_if (max_repeat == 0) "max_repeat must be positive"
  ok (split_from repeat max_repeat repeat)

-- A yielded triple.
pub record Chunk : Type 0 where
  pub base : ℕ
  pub stride : ℕ
  pub repeat : ℕ

-- `stride if repeat_chunk > 1 else 0`
abbrev pub stride_of : ℕ → ℕ → ℕ
stride_of stride chunk = if ltb 1 chunk then stride else 0

-- The loop under "strict_bytes"; `remaining` rounds are enough.
unfoldable pub strict_from : ℕ → ℕ → ℕ → ℕ → ℕ → ℕ → List Chunk
strict_from zero base_byte stride_bytes max_repeat remaining offset = []
strict_from (suc fuel) base_byte stride_bytes max_repeat zero offset = []
strict_from (suc fuel) base_byte stride_bytes max_repeat (suc r) offset =
    let chunk = min max_repeat (suc r) in
    record {
      base = base_byte + offset * stride_bytes;
      stride = stride_of stride_bytes chunk;
      repeat = chunk;
    }
    ∷ strict_from fuel base_byte stride_bytes max_repeat (suc r - chunk) (offset + chunk)

-- The numbers that the loop under "bounded_surrogate_v1" works with.
pub record Placement : Type 0 where
  pub base_byte : ℕ
  pub stride_bytes : ℕ
  pub max_repeat : ℕ
  pub prefetch : ℕ
  pub tx_bytes : ℕ
  pub num_transactions : ℕ

abbrev pub step_transactions : Placement → ℕ
step_transactions p = p.stride_bytes / p.prefetch % p.num_transactions

abbrev pub start_transaction : Placement → ℕ → ℕ
start_transaction p offset =
    (p.base_byte + offset * p.stride_bytes) / p.prefetch % p.num_transactions

-- `repeat_chunk` of a round: the rest, as far as one record reaches and before the wrap.
abbrev pub bounded_chunk : Placement → ℕ → ℕ → ℕ
bounded_chunk p remaining offset =
    if step_transactions p == 0
    then min p.max_repeat remaining
    else min (min p.max_repeat remaining)
        ((p.num_transactions - 1 - start_transaction p offset) / step_transactions p + 1)

unfoldable pub bounded_from : ℕ → Placement → ℕ → ℕ → List Chunk
bounded_from zero p remaining offset = []
bounded_from (suc fuel) p zero offset = []
bounded_from (suc fuel) p (suc r) offset =
    let chunk = bounded_chunk p (suc r) offset in
    record {
      base = start_transaction p offset * p.tx_bytes;
      stride = stride_of (step_transactions p * p.tx_bytes) chunk;
      repeat = chunk;
    }
    ∷ bounded_from fuel p (suc r - chunk) (offset + chunk)

-- `SYNTHETIC_ADDRESS_POLICIES`
abbrev pub is_policy : String → Bool
is_policy s = str_eq s "strict_bytes" || str_eq s "bounded_surrogate_v1"

pub bounded_chunks : ℕ → ℕ → ℕ → ℕ → Option Layout → Result (List Chunk)
bounded_chunks base_byte stride_bytes count max_repeat none =
    err (value_error "bounded_surrogate_v1 requires a resolved address_layout")
bounded_chunks base_byte stride_bytes count max_repeat (some l) = do
  raise_if
      (l.internal_prefetch_size == 0
        || l.tx_bytes == 0
        || l.capacity_bytes == 0
        || not (l.capacity_bytes % l.tx_bytes == 0))
      "bounded_surrogate_v1 requires valid prefetch, transaction, and capacity values"
  raise_if
      (not (base_byte % l.internal_prefetch_size == 0)
        || not (stride_bytes % l.internal_prefetch_size == 0))
      "bounded_surrogate_v1 requires surrogate base/stride alignment to internal_prefetch_size"
  let p : Placement = record {
    base_byte = base_byte;
    stride_bytes = stride_bytes;
    max_repeat = max_repeat;
    prefetch = l.internal_prefetch_size;
    tx_bytes = l.tx_bytes;
    num_transactions = l.capacity_bytes / l.tx_bytes;
  }
  ok (bounded_from count p count 0)

unfoldable pub host_address_chunks : ℕ → ℕ → ℕ → ℕ → Option Layout → String → Result (List Chunk)
unfolding bounded_chunks
host_address_chunks base_byte stride_bytes count max_repeat layout policy = do
  raise_if (count == 0 || max_repeat == 0)
      "host address chunk count and max_repeat must be positive"
  raise_if (not (is_policy policy)) "synthetic_address_policy must be one of the known policies"
  if str_eq policy "strict_bytes"
      then ok (strict_from count base_byte stride_bytes max_repeat count 0)
      else bounded_chunks base_byte stride_bytes count max_repeat layout
