-- ===== src/Lowering/Host/Wrapped.antt =====
-- The host branch under "bounded_surrogate_v1": the addresses of the streams, wrapped.
use mathlib.Core.Path.{subst}
use native.Mathlib.Nat.{div-add-mod}
use ramulator.Prelude.{
  ℕ, ◌+◌, ◌*◌, ◌/◌, ◌%◌, ◌<◌, ◌≡◌, sym, ap, ◌∙◌, String, some, ◌++◌, map, ok, ok_inj, bind_elim,
  arith, str_eq, if◌then◌else◌,
}
use ramulator.PyValue.{Fields}
use ramulator.Addressing.Radix.{step-mod}
use ramulator.Addressing.Layout.{Layout, range_from}
use ramulator.Trace.Opcode.{write, read, max_repeat}
use ramulator.Lowering.Chunks.Cover.{map-range_from}
use ramulator.Lowering.Chunks.Wrap.{host_address_chunks-bounded_surrogate}
use ramulator.Lowering.Modes.{State, Target}
use ramulator.Lowering.Host.{Config, HostPolicy, host_policy, host_repeats, lower_host}
use ramulator.Lowering.Host.Policy.{host_policy-count}
use ramulator.Lowering.Host.Conserved.{host_addresses, Covers, host_repeats-addresses, host_opcode}

aligned : (b s c i f : ℕ) → 0 < f → b % f ≡ 0 → s % f ≡ 0 → (b + i * c * s) % f ≡ 0
aligned b s c i f hf hb hs =
    let eb : b ≡ f * (b / f) = omega (arith, div-add-mod b f) in
    let es : s ≡ f * (s / f) = omega (arith, div-add-mod s f) in
    let whole : b + i * c * s ≡ 0 + (b / f + i * c * (s / f)) * f =
      grind (arith, eb, ap (λ (y : ℕ). i * c * y) es) in
    ap (λ (x : ℕ). x % f) whole ∙ step-mod 0 (b / f + i * c * (s / f)) f hf

-- A byte address of the stream: its token in prefetch units, wrapped into the transactions.
abbrev pub wrapped_address : Layout → HostPolicy → ℕ → ℕ
wrapped_address l h k =
    (h.base_byte + k * h.stride_bytes)
    / l.internal_prefetch_size
    % (l.capacity_bytes / l.tx_bytes)
    * l.tx_bytes

-- The lowering's arguments at a layout, under the bounded policy.
abbrev pub bounded : ℕ → Layout → Target → Config
bounded size l t = record {
  addr_vec_size = size;
  address_layout = some l;
  synthetic_address_policy = "bounded_surrogate_v1";
  target = t;
}

-- The layout's numbers, and the alignment, that "bounded_surrogate_v1" asks for.
pub record IsBounded (l : Layout) (h : HostPolicy) : Type 0 where
  pub prefetch_pos : 0 < l.internal_prefetch_size
  pub tx_pos : 0 < l.tx_bytes
  pub transactions_pos : 0 < l.capacity_bytes / l.tx_bytes
  pub whole : l.capacity_bytes % l.tx_bytes ≡ 0
  pub base_aligned : h.base_byte % l.internal_prefetch_size ≡ 0
  pub stride_aligned : h.stride_bytes % l.internal_prefetch_size ≡ 0

bounded-Covers :
    (size : ℕ) (l : Layout) (t : Target) (h : HostPolicy)
    → IsBounded l h
    → 0 < h.count
    → Covers (bounded size l t) h (wrapped_address l h)
unfolding Covers
bounded-Covers size l t h b positive i =
    let start : ℕ = h.base_byte + i * h.count * h.stride_bytes in
    let (cs, es, covered, _) =
      host_address_chunks-bounded_surrogate start h.stride_bytes h.count max_repeat l positive
        (omega arith) b.prefetch_pos b.tx_pos b.transactions_pos b.whole
        (aligned h.base_byte h.stride_bytes h.count i l.internal_prefetch_size b.prefetch_pos
          b.base_aligned b.stride_aligned)
        b.stride_aligned in
    (
      cs,
      es,
      covered
          ∙ map-range_from
              (λ k.
                (start + k * h.stride_bytes)
                / l.internal_prefetch_size
                % (l.capacity_bytes / l.tx_bytes)
                * l.tx_bytes)
              (wrapped_address l h) 0 (i * h.count) h.count
              (λ k lt.
                ap
                  (λ (x : ℕ).
                    x / l.internal_prefetch_size % (l.capacity_bytes / l.tx_bytes) * l.tx_bytes)
                  (regroup h.base_byte h.stride_bytes (i * h.count) k)),
    )
  where
    regroup : (b s n k : ℕ) → b + n * s + (0 + k) * s ≡ b + (n + k) * s
    regroup b s n k = grind arith

-- Under "bounded_surrogate_v1", on a valid layout and an aligned stream, a host record that is
-- lowered adds the stream's tokens, `count` of them for each repeat, in order, each wrapped into the
-- layout's transactions.
pub lower_host-bounded_surrogate :
    (size : ℕ) (l : Layout) (t : Target) (kind : String) (semantic : Fields) (h : HostPolicy)
    (s s' : State)
    → IsBounded l h
    → host_policy semantic ≡ ok h
    → lower_host (bounded size l t) kind semantic s ≡ ok s'
    → host_addresses s'.records
      ≡ host_addresses s.records
        ++ map (wrapped_address l h) (range_from 0 (h.semantic_repeat * h.count))
unfolding lower_host
lower_host-bounded_surrogate size l t kind semantic h s s' b parsed e =
    bind_elim (host_policy semantic) _ e λ h' e1 e2.
      let cfg = bounded size l t in
      let op = if str_eq kind "HostWrite" then write else read in
      let same : h' ≡ h = ok_inj (sym e1 ∙ parsed) in
      let run : host_repeats cfg op h 0 h.semantic_repeat s ≡ ok s' =
        subst (λ (v : HostPolicy). host_repeats cfg op v 0 v.semantic_repeat s ≡ ok s') same e2 in
      host_repeats-addresses cfg op h (wrapped_address l h) 0 h.semantic_repeat s s'
        (host_opcode (str_eq kind "HostWrite"))
        (bounded-Covers size l t h b (host_policy-count semantic h parsed)) run
      ∙ ap
          (λ (i : ℕ).
            host_addresses s.records
            ++ map (wrapped_address l h) (range_from i (h.semantic_repeat * h.count)))
          {x = 0 * h.count} (omega arith)
