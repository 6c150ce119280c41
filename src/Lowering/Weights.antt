-- ===== src/Lowering/Weights.antt =====
-- How many host transactions a weight preload takes: `_semantic_datatype_bytes`,
-- `_pim_data_move_tx_bytes`, `_pim_data_move_materialization_bytes` and the count made of them.
use mathlib.Core.Path.{subst}
use native.Mathlib.Nat.{div-add-mod, mod-lt}
use ramulator.Prelude.{
  ℕ, ◌+◌, ◌-◌, ◌*◌, ◌/◌, ◌%◌, ◌≤◌, ◌<◌, ◌≡◌, max, Bool, false, Option, none, some, Result, ok,
  ok_inj, bind_elim, ◌>>=◌, str_eq, if◌then◌else◌, arith,
}
use ramulator.PyValue.{Value, Fields, null, str, get, get_or_default}
use ramulator.Lowering.Host.Policy.{positive_or-pos}
use ramulator.Lowering.Host.{sub_dict, positive_or, int_or}

-- `datatype == "int8"`
abbrev is_int8 : Value → Bool
is_int8 (str s) = str_eq s "int8"
is_int8 _ = false

-- The datatype of the metadata, unless it is missing or `None`.
abbrev declared : Fields → Option Value
declared d = elim (get "datatype" d) [ none ↦ none | some v ↦ elim v [ null ↦ none | w ↦ some w ] ]

unfoldable pub semantic_datatype_bytes : Fields → Result ℕ
semantic_datatype_bytes r = do
  metadata ← sub_dict "datatype_metadata" r
  datatype ← elim (declared metadata) [
    | some v ↦ ok v
    | none ↦ do
      shape ← sub_dict "compute_shape" r
      ok (get_or_default "datatype" (str "int8") shape)
  ]
  ok (if is_int8 datatype then 1 else 2)

unfoldable pub data_move_tx_bytes : Fields → Result ℕ
data_move_tx_bytes r = do
  policy ← sub_dict "movement_policy" r
  tx ← int_or "materialization_tx_bytes" 64 policy
  positive_or "materialization_tx_bytes must be positive" tx

unfoldable pub data_move_materialization_bytes : Fields → Result ℕ
data_move_materialization_bytes r = do
  policy ← sub_dict "movement_policy" r
  z ← int_or "movement_elements" 0 policy
  elements ← positive_or "weight materialization missing positive movement_elements" z
  bytes ← semantic_datatype_bytes r
  ok (max 1 (elements * bytes))

-- `max(1, (total_bytes + tx_bytes - 1) // tx_bytes)`
abbrev pub transfer_count : ℕ → ℕ → ℕ
transfer_count total_bytes tx_bytes = max 1 ((total_bytes + tx_bytes - 1) / tx_bytes)

-- `count`, with the bytes and the transaction size that it is made of.
pub record Preload : Type 0 where
  pub total_bytes : ℕ
  pub tx_bytes : ℕ
  pub count : ℕ

unfoldable pub preload : Fields → Result Preload
preload semantic = do
  total ← data_move_materialization_bytes semantic
  tx ← data_move_tx_bytes semantic
  ok (record { total_bytes = total; tx_bytes = tx; count = transfer_count total tx })

ceiling :
    (n t : ℕ) → 0 < n → 0 < t → (n ≤ transfer_count n t * t) × (transfer_count n t * t < n + t)
ceiling n t hn ht =
    let q = (n + t - 1) / t in
    let e : t * q + (n + t - 1) % t ≡ n + t - 1 = div-add-mod (n + t - 1) t in
    let lt : (n + t - 1) % t < t = mod-lt (n + t - 1) ht in
    let positive : 1 ≤ q = grind (arith, e, lt) in
    let one : max 1 q ≡ q = omega arith in rw one (omega (arith, e, lt), omega (arith, e, lt))

tx_bytes-pos : (r : Fields) (tx : ℕ) → data_move_tx_bytes r ≡ ok tx → 0 < tx
unfolding data_move_tx_bytes
tx_bytes-pos r tx e = bind_elim (sub_dict "movement_policy" r) _ e λ policy e1 h1.
    bind_elim (int_or "materialization_tx_bytes" 64 policy)
      (positive_or "materialization_tx_bytes must be positive") h1
      λ z e2 h2. positive_or-pos "materialization_tx_bytes must be positive" z h2

total_bytes-pos : (r : Fields) (n : ℕ) → data_move_materialization_bytes r ≡ ok n → 0 < n
unfolding data_move_materialization_bytes
total_bytes-pos r n e = bind_elim (sub_dict "movement_policy" r) _ e λ policy e1 h1.
    bind_elim (int_or "movement_elements" 0 policy) _ h1 λ z e2 h2.
      bind_elim (positive_or "weight materialization missing positive movement_elements" z) _ h2
        λ elements e3 h3.
          bind_elim (semantic_datatype_bytes r) (λ (b : ℕ). ok (max 1 (elements * b))) h3
            λ b e4 h4. let q : max 1 (elements * b) ≡ n = ok_inj h4 in omega (arith, q)

-- The transactions of a preload are the fewest that hold its bytes.
pub preload_lem :
    (semantic : Fields) (p : Preload)
    → preload semantic ≡ ok p
    → (p.total_bytes ≤ p.count * p.tx_bytes) × (p.count * p.tx_bytes < p.total_bytes + p.tx_bytes)
unfolding preload
preload_lem semantic p e = bind_elim (data_move_materialization_bytes semantic) _ e λ total e1 h1.
    bind_elim (data_move_tx_bytes semantic)
      (λ (t : ℕ). ok (record { total_bytes = total; tx_bytes = t; count = transfer_count total t }))
      h1
      λ tx e2 h2.
        subst
          (λ (v : Preload).
            (v.total_bytes ≤ v.count * v.tx_bytes)
            × (v.count * v.tx_bytes < v.total_bytes + v.tx_bytes))
          (ok_inj h2)
          (ceiling total tx (total_bytes-pos semantic total e1) (tx_bytes-pos semantic tx e2))
