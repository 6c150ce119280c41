-- ===== src/Lowering/Chunks/Cover.antt =====
-- The chunks together are the stream that they were cut from.
use mathlib.Core.List.{map-append}
use ramulator.Prelude.{
  ℕ, zero, suc, ◌+◌, ◌-◌, ◌*◌, ◌≤◌, ◌<◌, ◌≡◌, refl, sym, ap, ap₂, ◌∙◌, min, Option, List, [], ◌∷◌,
  ◌++◌, map, ok, ltb, arith, tests, sum, All, Bool-cases, inl, inr, pos-==-zero,
}
use ramulator.Addressing.Layout.{Layout, range_from}
use ramulator.Lowering.Chunks.{
  split_from, split_repeat, Chunk, stride_of, strict_from, host_address_chunks,
}

-- The byte addresses that a concrete record with this base, stride and repeat touches, in order.
abbrev pub addresses : Chunk → List ℕ
addresses c = map (λ i. c.base + i * c.stride) (range_from 0 c.repeat)

abbrev pub expand : List Chunk → List ℕ
expand [] = []
expand (c ∷ cs) = addresses c ++ expand cs

abbrev pub Fits : ℕ → Chunk → Type 0
Fits max_repeat c = (0 < c.repeat) × (c.repeat ≤ max_repeat)

pub range_from-add : (lo a b : ℕ) → range_from lo (a + b) ≡ range_from lo a ++ range_from (lo + a) b
range_from-add lo zero b =
    ap₂ (λ (l n : ℕ). range_from l n) {x = lo} {y = lo + 0} {u = 0 + b} {v = b} (omega arith)
      (omega arith)
range_from-add lo (suc a) b =
    ap (range_from lo) (the_suc a b)
    ∙ ap (λ (xs : List ℕ). lo ∷ xs)
        (range_from-add (suc lo) a b
          ∙ ap (λ (m : ℕ). range_from (suc lo) a ++ range_from m b) (omega arith))
  where
    the_suc : (a b : ℕ) → suc a + b ≡ suc (a + b)
    the_suc a b = omega arith

pub map-range_from :
    (f g : ℕ → ℕ) (lo lo' n : ℕ)
    → ((i : ℕ) → i < n → f (lo + i) ≡ g (lo' + i))
    → map f (range_from lo n) ≡ map g (range_from lo' n)
map-range_from f g lo lo' zero h = refl
map-range_from f g lo lo' (suc n) h =
    ap₂ (λ (x : ℕ) (xs : List ℕ). x ∷ xs)
      (ap f (omega arith) ∙ h 0 (omega arith) ∙ ap g (omega arith))
      (map-range_from f g (suc lo) (suc lo') n
        (λ i lt. ap f (omega arith) ∙ h (suc i) (omega arith) ∙ ap g (omega arith)))

split_from_lem :
    (fuel max_repeat remaining : ℕ)
    → 0 < max_repeat
    → remaining ≤ fuel
    → (sum (split_from fuel max_repeat remaining) ≡ remaining)
      × All (λ c. (0 < c) × (c ≤ max_repeat)) (split_from fuel max_repeat remaining)
unfolding split_from
split_from_lem zero m r h e = (omega arith, tt)
split_from_lem (suc fuel) m zero h e = (refl, tt)
split_from_lem (suc fuel) m (suc r) h e =
    let (s, a) = split_from_lem fuel m (suc r - min m (suc r)) h (omega arith) in
    (omega (arith, s), ((omega arith, omega arith), a))

-- A positive repeat is split into positive chunks of at most `max_repeat` that sum to it.
pub split_repeat_lem :
    (repeat max_repeat : ℕ)
    → 0 < repeat
    → 0 < max_repeat
    → (chunks : List ℕ) × (split_repeat repeat max_repeat ≡ ok chunks)
      × (sum chunks ≡ repeat)
      × All (λ c. (0 < c) × (c ≤ max_repeat)) chunks
unfolding split_repeat
split_repeat_lem n m hn hm =
    let (s, a) = split_from_lem n m n hm (omega arith) in
    (split_from n m n, rw (pos-==-zero n hn, pos-==-zero m hm), s, a)

-- One record's addresses, against a stream `g` that it follows from `offset` on.
pub chunk-addresses :
    (g : ℕ → ℕ) (b s n offset : ℕ)
    → 0 < n
    → ((i : ℕ) → i < n → b + i * s ≡ g (offset + i))
    → addresses (record { base = b; stride = stride_of s n; repeat = n })
      ≡ map g (range_from offset n)
chunk-addresses g b s n offset hn h = elim (Bool-cases (ltb 1 n)) [
  | inl many ↦ rw many (
      map-range_from (λ (i : ℕ). b + i * s) g 0 offset n
        (λ i lt. ap (λ (x : ℕ). b + x * s) (omega arith) ∙ h i lt))
  | inr one ↦
      let q : n ≡ 1 = omega tests in
      let start : b + 0 * s ≡ g (offset + 0) = h 0 hn in
      let here : g (offset + 0) ≡ g offset = ap g (omega arith) in
      let line : b + 0 * 0 ≡ g offset = omega (arith, start, here) in
      rw (one, q) (ap (λ (x : ℕ). x ∷ []) line)
]

-- A chunk, and the rest of the stream.
pub then_rest :
    (g : ℕ → ℕ) (offset chunk remaining : ℕ) (xs ys : List ℕ)
    → chunk ≤ remaining
    → xs ≡ map g (range_from offset chunk)
    → ys ≡ map g (range_from (offset + chunk) (remaining - chunk))
    → xs ++ ys ≡ map g (range_from offset remaining)
then_rest g offset chunk remaining xs ys le ex ey =
    ap₂ (λ (a b : List ℕ). a ++ b) ex ey
    ∙ sym (map-append g (range_from offset chunk) (range_from (offset + chunk) (remaining - chunk)))
    ∙ ap (map g) (
        sym (range_from-add offset chunk (remaining - chunk))
        ∙ ap (range_from offset) (omega arith))

strict_from_lem :
    (fuel b s m remaining offset : ℕ)
    → 0 < m
    → remaining ≤ fuel
    → (expand (strict_from fuel b s m remaining offset)
        ≡ map (λ k. b + k * s) (range_from offset remaining))
      × All (Fits m) (strict_from fuel b s m remaining offset)
unfolding strict_from
strict_from_lem zero b s m r offset hm le = let q : r ≡ 0 = omega arith in (rw q, tt)
strict_from_lem (suc fuel) b s m zero offset hm le = (refl, tt)
strict_from_lem (suc fuel) b s m (suc r) offset hm le =
    let chunk = min m (suc r) in
    let (covers, fit) =
      strict_from_lem fuel b s m (suc r - chunk) (offset + chunk) hm (omega arith) in
    (
      then_rest (λ k. b + k * s) offset chunk (suc r) _ _ (omega arith)
          (chunk-addresses (λ k. b + k * s) (b + offset * s) s chunk offset (omega arith)
            (λ i lt. grind arith))
          covers,
      ((omega arith, omega arith), fit),
    )

-- Under "strict_bytes" the chunks exist, none is empty or longer than `max_repeat`, and together
-- they touch exactly the addresses of the stream, in order.
pub host_address_chunks-strict_bytes :
    (base_byte stride_bytes count max_repeat : ℕ) (layout : Option Layout)
    → 0 < count
    → 0 < max_repeat
    → (chunks : List Chunk) × (host_address_chunks base_byte stride_bytes count max_repeat layout
          "strict_bytes"
        ≡ ok chunks)
      × (expand chunks ≡ map (λ k. base_byte + k * stride_bytes) (range_from 0 count))
      × All (Fits max_repeat) chunks
unfolding host_address_chunks
host_address_chunks-strict_bytes b s count m layout hc hm =
    let (covers, fit) = strict_from_lem count b s m count 0 hm (omega arith) in
    (strict_from count b s m count 0, rw (pos-==-zero count hc, pos-==-zero m hm), covers, fit)
