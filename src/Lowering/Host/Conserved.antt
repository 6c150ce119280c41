-- ===== src/Lowering/Host/Conserved.antt =====
-- The byte addresses that the host records of a lowering touch are those of the semantic streams.
use mathlib.Core.Path.{subst}
use mathlib.Core.List.{map-append, append_assoc, append-nil}
use ramulator.Prelude.{
  ℕ, zero, suc, ◌+◌, ◌*◌, ◌<◌, ◌≡◌, refl, sym, ap, ap₂, ◌∙◌, String, Bool, true, false, List, [],
  ◌∷◌, ◌++◌, map, ok, ok_inj, bind_elim, str_eq, ltb, arith, tests, if◌then◌else◌, Bool-cases, inl,
  inr,
}
use ramulator.PyValue.{Fields, get, get_or_default}
use ramulator.Addressing.Vector.{to_value}
use ramulator.Addressing.Layout.{range_from}
use ramulator.Trace.Opcode.{Opcode, read, write, is_host, max_repeat, natural}
use ramulator.Trace.Record.{map_address}
use ramulator.Trace.Sequence.{is_single}
use ramulator.Lowering.Chunks.{Chunk, host_address_chunks}
use ramulator.Lowering.Chunks.Cover.{
  addresses, expand, host_address_chunks-strict_bytes, range_from-add, map-range_from,
}
use ramulator.Lowering.Modes.{
  Target, State, Emitted, append, rank_id_for, transition_to_single_bank, access_single_bank,
}
use ramulator.Lowering.Host.Policy.{host_policy-count}
use ramulator.Lowering.Host.{
  Config, HostPolicy, host_policy, chunk_fields, host_chunk, host_chunks, host_repeats, lower_host,
}

-- A field as a number, 0 where it is missing
abbrev number_field : String → Fields → ℕ
number_field k r = natural (get_or_default k (to_value 0) r)

-- The byte addresses that a READ or a WRITE touches; other records touch none.
abbrev pub record_addresses : Emitted → List ℕ
record_addresses r =
    if is_host r.opcode
    then map
        (λ i.
          number_field "addr_byte" r.extra_fields
          + i * number_field "addr_byte_stride" r.extra_fields)
        (range_from 0 r.repeat)
    else []

abbrev pub host_addresses : List Emitted → List ℕ
host_addresses [] = []
host_addresses (r ∷ rs) = record_addresses r ++ host_addresses rs

host_addresses-append :
    (rs later : List Emitted)
    → host_addresses (rs ++ later) ≡ host_addresses rs ++ host_addresses later
host_addresses-append [] later = refl
host_addresses-append (r ∷ rs) later =
    ap (λ (xs : List ℕ). record_addresses r ++ xs) (host_addresses-append rs later)
    ∙ sym (append_assoc (record_addresses r) (host_addresses rs) (host_addresses later))

number_field-chunk_fields : (c : Chunk) → number_field "addr_byte" (chunk_fields c) ≡ c.base
unfolding chunk_fields get
number_field-chunk_fields c = refl

one_address :
    (b s t n : ℕ)
    → ltb 1 n ≡ false
    → map (λ i. b + i * s) (range_from 0 n) ≡ map (λ i. b + i * t) (range_from 0 n)
one_address b s t zero h = refl
one_address b s t (suc zero) h = ap (λ (x : ℕ). x ∷ []) (omega arith)
one_address b s t (suc (suc n)) h = absurd (ground arith)

chunk-record :
    (op : Opcode) (av : List ℕ) (c : Chunk)
    → is_host op ≡ true
    → record_addresses
        (record { opcode = op; repeat = c.repeat; addr_vec = av; extra_fields = chunk_fields c })
      ≡ addresses c
unfolding chunk_fields get
chunk-record op av c host = elim (Bool-cases (ltb 1 c.repeat)) [
  | inr one ↦ rw (host, one) (one_address c.base 0 c.stride c.repeat one)
  | inl many ↦ elim (Bool-cases (ltb 0 c.stride)) [
    | inl moves ↦ rw (host, many, moves)
    | inr still ↦ let z : c.stride ≡ 0 = omega tests in rw (host, many, still, z)
  ]
]

-- The return to single-bank mode touches no address.
transition-addresses :
    (t : Target) (av : List ℕ) (s s' : State)
    → transition_to_single_bank t av s ≡ ok s'
    → host_addresses s'.records ≡ host_addresses s.records
unfolding transition_to_single_bank append
transition-addresses t av s s' h = bind_elim (rank_id_for t av) _ h λ rank e h1.
    elim (Bool-cases (is_single (s.protocol.modes rank))) [
      | inl there ↦
          let q : s' ≡ s = sym (ok_inj (rw there at h1)) in
          ap (λ (v : State). host_addresses v.records) q
      | inr away ↦
          let q = sym (ok_inj (rw away at h1)) in
          ap (λ (v : State). host_addresses v.records) q
          ∙ host_addresses-append s.records _
          ∙ append-nil (host_addresses s.records)
    ]

host_chunk-addresses :
    (cfg : Config) (op : Opcode) (c : Chunk) (s s' : State)
    → is_host op ≡ true
    → host_chunk cfg op c s ≡ ok s'
    → host_addresses s'.records ≡ host_addresses s.records ++ addresses c
unfolding host_chunk access_single_bank append
host_chunk-addresses cfg op c s s' host h =
    bind_elim (map_address c.base cfg.addr_vec_size cfg.address_layout) _ h λ av e h1.
      bind_elim (transition_to_single_bank cfg.target av s) _ h1 λ m em h2.
        let q : s' ≡ append op av c.repeat (chunk_fields c) m = sym (ok_inj h2) in
        ap (λ (v : State). host_addresses v.records) q
        ∙ host_addresses-append m.records (
            record { opcode = op; repeat = c.repeat; addr_vec = av; extra_fields = chunk_fields c }
            ∷ [])
        ∙ ap₂ (λ (a b : List ℕ). a ++ b) (transition-addresses cfg.target av s m em)
            (append-nil _ ∙ chunk-record op av c host)

host_chunks-addresses :
    (cfg : Config) (op : Opcode) (cs : List Chunk) (s s' : State)
    → is_host op ≡ true
    → host_chunks cfg op cs s ≡ ok s'
    → host_addresses s'.records ≡ host_addresses s.records ++ expand cs
unfolding host_chunks
host_chunks-addresses cfg op [] s s' host h =
    ap (λ (v : State). host_addresses v.records) (sym (ok_inj h))
    ∙ sym (append-nil (host_addresses s.records))
host_chunks-addresses cfg op (c ∷ cs) s s' host h = bind_elim (host_chunk cfg op c s) _ h λ m em h1.
    host_chunks-addresses cfg op cs m s' host h1
    ∙ ap (λ (xs : List ℕ). xs ++ expand cs) (host_chunk-addresses cfg op c s m host em)
    ∙ append_assoc (host_addresses s.records) (addresses c) (expand cs)

-- A stream `g` that the chunks of every repeat cover.
unfoldable pub Covers : Config → HostPolicy → (ℕ → ℕ) → Type 0
Covers cfg h g =
    (i : ℕ)
    → (chunks : List Chunk) × (host_address_chunks (h.base_byte + i * h.count * h.stride_bytes)
          h.stride_bytes h.count max_repeat cfg.address_layout cfg.synthetic_address_policy
        ≡ ok chunks)
      × (expand chunks ≡ map g (range_from (i * h.count) h.count))

pub host_repeats-addresses :
    (cfg : Config) (op : Opcode) (h : HostPolicy) (g : ℕ → ℕ) (i n : ℕ) (s s' : State)
    → is_host op ≡ true
    → Covers cfg h g
    → host_repeats cfg op h i n s ≡ ok s'
    → host_addresses s'.records
      ≡ host_addresses s.records ++ map g (range_from (i * h.count) (n * h.count))
unfolding host_repeats Covers
host_repeats-addresses cfg op h g i zero s s' host c e =
    ap (λ (v : State). host_addresses v.records) (sym (ok_inj e))
    ∙ sym (append-nil (host_addresses s.records))
    ∙ ap (λ (k : ℕ). host_addresses s.records ++ map g (range_from (i * h.count) k)) {x = 0}
        (omega arith)
host_repeats-addresses cfg op h g i (suc n) s s' host c e = bind_elim _ _ e λ chunks ec e1.
    bind_elim (host_chunks cfg op chunks s) _ e1 λ m em e2.
      let (cs, es, covered) = c i in
      let same : chunks ≡ cs = ok_inj (sym ec ∙ es) in
      let here : expand chunks ≡ map g (range_from (i * h.count) h.count) =
        ap expand same ∙ covered in
      let next : suc i * h.count ≡ i * h.count + h.count = grind arith in
      let total : h.count + n * h.count ≡ suc n * h.count = grind arith in
      host_repeats-addresses cfg op h g (suc i) n m s' host c e2
      ∙ ap (λ (xs : List ℕ). xs ++ map g (range_from (suc i * h.count) (n * h.count)))
          (host_chunks-addresses cfg op chunks s m host em)
      ∙ append_assoc (host_addresses s.records) (expand chunks) _
      ∙ ap (λ (xs : List ℕ). host_addresses s.records ++ xs)
          (ap₂ (λ (xs : List ℕ) (k : ℕ). xs ++ map g (range_from k (n * h.count))) here next
            ∙ sym (
                map-append g (range_from (i * h.count) h.count)
                  (range_from (i * h.count + h.count) (n * h.count)))
            ∙ ap (map g) (
                sym (range_from-add (i * h.count) h.count (n * h.count))
                ∙ ap (range_from (i * h.count)) total))

pub host_opcode : (b : Bool) → is_host (if b then write else read) ≡ true
host_opcode true = refl
host_opcode false = refl

strict-Covers :
    (cfg : Config) (h : HostPolicy)
    → cfg.synthetic_address_policy ≡ "strict_bytes"
    → 0 < h.count
    → Covers cfg h (λ k. h.base_byte + k * h.stride_bytes)
unfolding Covers
strict-Covers cfg h strict positive i =
    let (cs, es, covered, _) =
      host_address_chunks-strict_bytes (h.base_byte + i * h.count * h.stride_bytes) h.stride_bytes
        h.count max_repeat cfg.address_layout positive (omega arith) in
    (
      cs,
      rw strict es,
      covered
          ∙ map-range_from (λ k. h.base_byte + i * h.count * h.stride_bytes + k * h.stride_bytes)
              (λ k. h.base_byte + k * h.stride_bytes) 0 (i * h.count) h.count (λ k lt. grind arith),
    )

-- Under "strict_bytes" a host record that is lowered adds exactly the byte addresses of its stream,
-- `count` of them for each repeat, in order; the mode changes add none.
pub lower_host-strict_bytes :
    (cfg : Config) (kind : String) (semantic : Fields) (h : HostPolicy) (s s' : State)
    → cfg.synthetic_address_policy ≡ "strict_bytes"
    → host_policy semantic ≡ ok h
    → lower_host cfg kind semantic s ≡ ok s'
    → host_addresses s'.records
      ≡ host_addresses s.records
        ++ map (λ k. h.base_byte + k * h.stride_bytes) (range_from 0 (h.semantic_repeat * h.count))
unfolding lower_host
lower_host-strict_bytes cfg kind semantic h s s' strict parsed e =
    bind_elim (host_policy semantic) _ e λ h' e1 e2.
      let op = if str_eq kind "HostWrite" then write else read in
      let same : h' ≡ h = ok_inj (sym e1 ∙ parsed) in
      let run : host_repeats cfg op h 0 h.semantic_repeat s ≡ ok s' =
        subst (λ (v : HostPolicy). host_repeats cfg op v 0 v.semantic_repeat s ≡ ok s') same e2 in
      host_repeats-addresses cfg op h (λ k. h.base_byte + k * h.stride_bytes) 0 h.semantic_repeat s
        s' (host_opcode (str_eq kind "HostWrite"))
        (strict-Covers cfg h strict (host_policy-count semantic h parsed)) run
      ∙ ap
          (λ (i : ℕ).
            host_addresses s.records
            ++ map (λ k. h.base_byte + k * h.stride_bytes)
                (range_from i (h.semantic_repeat * h.count)))
          {x = 0 * h.count} (omega arith)
