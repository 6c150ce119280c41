-- ===== src/Lowering/Chunks/Wrap.antt =====
-- Under "bounded_surrogate_v1" no chunk wraps: each is an arithmetic progression inside the capacity.
use native.Mathlib.Nat.{div-add-mod, mod-lt, mul-div-le}
use ramulator.Prelude.{
  ℕ, zero, suc, ◌+◌, ◌-◌, ◌*◌, ◌/◌, ◌%◌, ◌≤◌, ◌<◌, ◌≡◌, refl, ap, ◌∙◌, min, some, List, map, ok,
  ◌==◌, arith, All, Bool-cases, inl, inr, pos-==-zero, ==_iff,
}
use ramulator.Addressing.Radix.{step-mod, step-div}
use ramulator.Addressing.Layout.{Layout, range_from}
use ramulator.Lowering.Chunks.{
  Chunk, Placement, step_transactions, start_transaction, bounded_chunk, bounded_from,
  host_address_chunks,
}
use ramulator.Lowering.Chunks.Cover.{expand, Fits, chunk-addresses, then_rest}

record IsAligned (p : Placement) : Type 0 where
  prefetch_pos : 0 < p.prefetch
  transactions_pos : 0 < p.num_transactions
  max_pos : 0 < p.max_repeat
  base_aligned : p.base_byte % p.prefetch ≡ 0
  stride_aligned : p.stride_bytes % p.prefetch ≡ 0

-- The byte address of the stream's entry `k`: its token in prefetch units, wrapped at the capacity.
abbrev pub wrapped : Placement → ℕ → ℕ
wrapped p k = start_transaction p k * p.tx_bytes

quotient : (b s f k : ℕ) → 0 < f → b % f ≡ 0 → s % f ≡ 0 → (b + k * s) / f ≡ b / f + k * (s / f)
quotient b s f k hf hb hs =
    let eb : b ≡ f * (b / f) = omega (arith, div-add-mod b f) in
    let es : s ≡ f * (s / f) = omega (arith, div-add-mod s f) in
    let whole : b + k * s ≡ 0 + (b / f + k * (s / f)) * f = grind (arith, eb, es) in
    ap (λ (x : ℕ). x / f) whole ∙ step-div 0 (b / f + k * (s / f)) f hf

wrap : (x s n i : ℕ) → x % n + i * (s % n) < n → (x + i * s) % n ≡ x % n + i * (s % n)
wrap x s n i lt =
    let ex : n * (x / n) + x % n ≡ x = div-add-mod x n in
    let es : n * (s / n) + s % n ≡ s = div-add-mod s n in
    let whole : x + i * s ≡ (x % n + i * (s % n)) + (x / n + i * (s / n)) * n =
      grind (arith, ex, ap (λ (y : ℕ). i * y) es) in
    ap (λ (y : ℕ). y % n) whole ∙ step-mod (x % n + i * (s % n)) (x / n + i * (s / n)) n lt

start-next :
    (p : Placement) (offset i : ℕ)
    → IsAligned p
    → start_transaction p offset + i * step_transactions p < p.num_transactions
    → start_transaction p (offset + i) ≡ start_transaction p offset + i * step_transactions p
start-next p offset i a lt =
    let b = p.base_byte in
    let s = p.stride_bytes in
    let f = p.prefetch in
    let n = p.num_transactions in
    let here : (b + offset * s) / f ≡ b / f + offset * (s / f) =
      quotient b s f offset a.prefetch_pos a.base_aligned a.stride_aligned in
    let there : (b + (offset + i) * s) / f ≡ b / f + (offset + i) * (s / f) =
      quotient b s f (offset + i) a.prefetch_pos a.base_aligned a.stride_aligned in
    let along : (b + (offset + i) * s) / f ≡ (b + offset * s) / f + i * (s / f) =
      grind (arith, here, there) in
    ap (λ (y : ℕ). y % n) along ∙ wrap ((b + offset * s) / f) (s / f) n i lt

before_wrap :
    (n start step i : ℕ)
    → start < n
    → 0 < step
    → i < (n - 1 - start) / step + 1
    → start + i * step < n
before_wrap n start step i hs hp lt =
    let le : step * ((n - 1 - start) / step) ≤ n - 1 - start = mul-div-le (n - 1 - start) step in
    grind (arith, le)

chunk-pos :
    (p : Placement) (r offset : ℕ)
    → IsAligned p
    → (0 < bounded_chunk p (suc r) offset)
      × (bounded_chunk p (suc r) offset ≤ p.max_repeat)
      × (bounded_chunk p (suc r) offset ≤ suc r)
chunk-pos p r offset a = elim (Bool-cases (step_transactions p == 0)) [
  | inl still ↦ rw still (omega (arith, a.max_pos), omega arith, omega arith)
  | inr moving ↦ rw moving (omega (arith, a.max_pos), omega arith, omega arith)
]

chunk-within :
    (p : Placement) (remaining offset i : ℕ)
    → IsAligned p
    → i < bounded_chunk p remaining offset
    → start_transaction p offset + i * step_transactions p < p.num_transactions
chunk-within p remaining offset i a lt =
    let inside : start_transaction p offset < p.num_transactions = mod-lt _ a.transactions_pos in
    elim (Bool-cases (step_transactions p == 0)) [
      | inl still ↦
          let z : step_transactions p ≡ 0 = (==_iff (step_transactions p) 0).0 still in
          let same : i * step_transactions p ≡ 0 = ap (λ (y : ℕ). i * y) z ∙ omega arith in
          omega (arith, inside, same)
      | inr moving ↦
          let positive : 0 < step_transactions p = ground (arith, moving) in
          let l : i
              < min (min p.max_repeat remaining) (
                  (p.num_transactions - 1 - start_transaction p offset) / step_transactions p + 1) =
            rw moving at lt in
          before_wrap p.num_transactions (start_transaction p offset) (step_transactions p) i inside
            positive (omega (arith, l))
    ]

bounded_from_lem :
    (fuel : ℕ) (p : Placement) (remaining offset : ℕ)
    → IsAligned p
    → remaining ≤ fuel
    → (expand (bounded_from fuel p remaining offset)
        ≡ map (wrapped p) (range_from offset remaining))
      × All (Fits p.max_repeat) (bounded_from fuel p remaining offset)
unfolding bounded_from
bounded_from_lem zero p r offset a le = let q : r ≡ 0 = omega arith in (rw q, tt)
bounded_from_lem (suc fuel) p zero offset a le = (refl, tt)
bounded_from_lem (suc fuel) p (suc r) offset a le =
    let chunk = bounded_chunk p (suc r) offset in
    let (positive, short, part) = chunk-pos p r offset a in
    let (covers, fit) = bounded_from_lem fuel p (suc r - chunk) (offset + chunk) a (omega arith) in
    (
      then_rest (wrapped p) offset chunk (suc r) _ _ part
          (chunk-addresses (wrapped p) (start_transaction p offset * p.tx_bytes)
            (step_transactions p * p.tx_bytes) chunk offset positive
            (λ i lt.
              let e = start-next p offset i a (chunk-within p (suc r) offset i a lt) in
              grind (arith, ap (λ (y : ℕ). y * p.tx_bytes) e)))
          covers,
      ((positive, short), fit),
    )

-- Under "bounded_surrogate_v1", on a valid layout and an aligned stream, the chunks exist, none is
-- empty or longer than `max_repeat`, and together they touch, in order, the stream's tokens in
-- prefetch units, each wrapped into the layout's transactions: no chunk runs over the wrap.
pub host_address_chunks-bounded_surrogate :
    (base_byte stride_bytes count max_repeat : ℕ) (l : Layout)
    → 0 < count
    → 0 < max_repeat
    → 0 < l.internal_prefetch_size
    → 0 < l.tx_bytes
    → 0 < l.capacity_bytes / l.tx_bytes
    → l.capacity_bytes % l.tx_bytes ≡ 0
    → base_byte % l.internal_prefetch_size ≡ 0
    → stride_bytes % l.internal_prefetch_size ≡ 0
    → (chunks : List Chunk) × (host_address_chunks base_byte stride_bytes count max_repeat
          (some l)
          "bounded_surrogate_v1"
        ≡ ok chunks)
      × (expand chunks
          ≡ map
              (λ k.
                (base_byte + k * stride_bytes)
                / l.internal_prefetch_size
                % (l.capacity_bytes / l.tx_bytes)
                * l.tx_bytes)
              (range_from 0 count))
      × All (Fits max_repeat) chunks
unfolding host_address_chunks
host_address_chunks-bounded_surrogate b s count m l hc hm hp ht hn whole eb es =
    let p : Placement = record {
      base_byte = b;
      stride_bytes = s;
      max_repeat = m;
      prefetch = l.internal_prefetch_size;
      tx_bytes = l.tx_bytes;
      num_transactions = l.capacity_bytes / l.tx_bytes;
    } in
    let a : IsAligned p = record {
      prefetch_pos = hp;
      transactions_pos = hn;
      max_pos = hm;
      base_aligned = eb;
      stride_aligned = es;
    } in
    let capacity : 0 < l.capacity_bytes = grind (arith, div-add-mod l.capacity_bytes l.tx_bytes) in
    let (covers, fit) = bounded_from_lem count p count 0 a (omega arith) in
    (
      bounded_from count p count 0,
      rw (
        pos-==-zero count hc,
        pos-==-zero m hm,
        pos-==-zero l.internal_prefetch_size hp,
        pos-==-zero l.tx_bytes ht,
        pos-==-zero l.capacity_bytes capacity,
        whole,
        eb,
        es,
      ),
      covers,
      fit,
    )
