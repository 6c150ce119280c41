-- ===== src/Addressing/Layout/Extract.antt =====
-- What a layout that `extract_dram_layout` returns guarantees: it meets all that
-- `addr_vec_from_byte_address` asks for, and its bank orders list the same banks.
use mathlib.Core.Path.{subst}
use ramulator.Prelude.{
  ok_inj, Option-cases, inl, inr, ℕ, zero, suc, ◌-◌, ◌*◌, ◌/◌, ◌%◌, ◌<◌, ◌≡◌, refl, sym, ap, ◌∙◌,
  String, true, Option, none, some, List, [], ◌∷◌, ok, bind_elim, then_elim, arith, length, prod,
  All, get_or, set, map,
}
use ramulator.Prelude.Int.{ℤ, pos, negsuc}
use ramulator.PyValue.{Fields}
use ramulator.Addressing.Vector.{is_last, last, divide_last, column_prefetch, or_value_error}
use ramulator.Addressing.Bijection.{IsLayout}
use ramulator.Addressing.Layout.{
  Dram, Layout, Positions, level_sizes_of, positive_counts, position, find_positions,
  transaction_bytes, build_layout, extract_dram_layout, range_from, rotate_level, check_subchannels,
  check_names,
}

-- The values that a successful call has computed on its way.
pub record Steps (d : Dram) (l : Layout) : Type 0 where
  pub sizes_of : List ℤ
  pub sizes : List ℕ
  pub p : Positions
  pub prefetch : ℕ
  pub tx : ℕ
  pub groups : List ℕ × List ℕ
  pub banks : List ℕ × List ℕ
  pub from_sizes : level_sizes_of d.organization d.level_names ≡ ok sizes_of
  pub from_counts : positive_counts sizes_of ≡ some sizes
  pub from_positions : find_positions d.level_names ≡ ok p
  pub from_prefetch :
      column_prefetch "DRAM Column count must be divisible by internal_prefetch_size"
        d.internal_prefetch_size
        (get_or sizes p.column 0)
      ≡ ok prefetch
  pub from_tx : transaction_bytes d prefetch ≡ ok tx
  pub from_groups :
      rotate_level d.level_names "BankGroup" (
        range_from p.rank (suc p.bank - p.rank),
        map (λ i. get_or sizes i 0) (range_from p.rank (suc p.bank - p.rank)),
      )
      ≡ ok groups
  pub from_banks : rotate_level d.level_names "PseudoChannel" groups ≡ ok banks
  pub result : build_layout d sizes p prefetch tx banks ≡ l

or_value_error-ok :
    {A : Type 0} (e : String) (o : Option A) {a : A} → or_value_error e o ≡ ok a → o ≡ some a
or_value_error-ok e none h = cc
or_value_error-ok e (some b) h = cc

pub steps : (d : Dram) (l : Layout) → extract_dram_layout d ≡ ok l → Steps d l
unfolding extract_dram_layout
steps d l h = bind_elim _ _ h λ sizes_of e1 h1. then_elim (check_names d.level_names) _ h1 λ e h4.
    bind_elim _ _ h4 λ sizes e2 h5. bind_elim _ _ h5 λ p e3 h6. bind_elim _ _ h6 λ prefetch e4 h7.
      bind_elim _ _ h7 λ tx e5 h8. bind_elim _ _ h8 λ groups e6 h9. bind_elim _ _ h9 λ banks e7 h10.
        then_elim (check_subchannels d.subchannel_model) _ h10 λ e8 h11. record {
          sizes_of = sizes_of;
          sizes = sizes;
          p = p;
          prefetch = prefetch;
          tx = tx;
          groups = groups;
          banks = banks;
          from_sizes = e1;
          from_counts = or_value_error-ok _ _ e2;
          from_positions = e3;
          from_prefetch = e4;
          from_tx = e5;
          from_groups = e6;
          from_banks = e7;
          result = ok_inj h11;
        }

length-level_sizes_of :
    (org : Fields) (names : List String) {zs : List ℤ}
    → level_sizes_of org names ≡ ok zs
    → length zs ≡ length names
unfolding level_sizes_of
length-level_sizes_of org [] {zs} h = let e : zs ≡ [] = cc in rw e
length-level_sizes_of org (name ∷ names) {zs} h = bind_elim _ _ h λ z e h1.
    bind_elim _ _ h1 λ zs' e' h2.
      let q : zs ≡ z ∷ zs' = sym (ok_inj h2) in rw q (ap suc (length-level_sizes_of org names e'))

positive_counts-pos :
    (zs : List ℤ) (ns : List ℕ)
    → positive_counts zs ≡ some ns
    → All (λ n. 0 < n) ns × (length ns ≡ length zs)
positive_counts-pos [] ns h = let e : ns ≡ [] = cc in rw e (tt, refl)
positive_counts-pos (negsuc z ∷ zs) ns h = cc
positive_counts-pos (pos zero ∷ zs) ns h = cc
positive_counts-pos (pos (suc z) ∷ zs) ns h = elim (Option-cases (positive_counts zs)) [
  | inl e ↦ absurd (ground arith)
  | inr (ms, e) ↦
      let (a, l) = positive_counts-pos zs ms e in
      let q : ns ≡ suc z ∷ ms = ground arith in rw q ((omega arith, a), ap suc l)
]

column_position :
    (names : List String) (p : Positions)
    → find_positions names ≡ ok p
    → position "Column" names ≡ some p.column
unfolding find_positions
column_position names p h = ground arith

column_prefetch-ok :
    (m : String) (z : ℤ) (c p : ℕ) → column_prefetch m z c ≡ ok p → (0 < p) × (c % p ≡ 0)
column_prefetch-ok m (negsuc n) c p h = cc
column_prefetch-ok m (pos zero) c p h = cc
column_prefetch-ok m (pos (suc n)) c p h = ground arith

transaction_bytes-pos : (d : Dram) (prefetch tx : ℕ) → transaction_bytes d prefetch ≡ ok tx → 0 < tx
unfolding transaction_bytes
transaction_bytes-pos d prefetch tx h = ground arith

position-is_last :
    (x : String) (names : List String) (i : ℕ)
    → position x names ≡ some i
    → suc i ≡ length names
    → is_last x names ≡ true
position-is_last x [] i h e = cc
position-is_last x (y ∷ []) i h e = ground arith
position-is_last x (y ∷ z ∷ zs) i h e = elim (Option-cases (position x (z ∷ zs))) [
  | inl missing ↦ absurd (ground arith)
  | inr (j, found) ↦ position-is_last x (z ∷ zs) j found (ground arith)
]

last-get_or : (xs : List ℕ) (i : ℕ) → suc i ≡ length xs → get_or xs i 0 ≡ last xs
last-get_or [] i e = refl
last-get_or (x ∷ []) i e = let z : i ≡ 0 = omega arith in rw z
last-get_or (x ∷ y ∷ xs) zero e = absurd (omega arith)
last-get_or (x ∷ y ∷ xs) (suc i) e = last-get_or (y ∷ xs) i (omega arith)

divide_last-set :
    (p : ℕ) (xs : List ℕ) (i : ℕ)
    → suc i ≡ length xs
    → set xs i (get_or xs i 0 / p) ≡ divide_last p xs
divide_last-set p [] i e = refl
divide_last-set p (x ∷ []) zero e = refl
divide_last-set p (x ∷ []) (suc i) e = absurd (omega arith)
divide_last-set p (x ∷ y ∷ xs) zero e = absurd (omega arith)
divide_last-set p (x ∷ y ∷ xs) (suc i) e =
    ap (λ (l : List ℕ). x ∷ l) (divide_last-set p (y ∷ xs) i (omega arith))

built :
    (d : Dram) (l : Layout) (s : Steps d l)
    → suc s.p.column ≡ length d.level_names
    → IsLayout d.level_names s.sizes s.prefetch s.tx
      × (s.tx * prod (set s.sizes s.p.column (get_or s.sizes s.p.column 0 / s.prefetch))
          ≡ s.tx * prod (divide_last s.prefetch s.sizes))
built d l s last_column =
    let (positive, same) = positive_counts-pos s.sizes_of s.sizes s.from_counts in
    let as_long : length s.sizes ≡ length d.level_names =
      same ∙ length-level_sizes_of d.organization d.level_names s.from_sizes in
    let at_end : suc s.p.column ≡ length s.sizes = last_column ∙ sym as_long in
    let (pos_prefetch, divides) =
      column_prefetch-ok _ d.internal_prefetch_size (get_or s.sizes s.p.column 0) s.prefetch
        s.from_prefetch in
    (
      record {
        same_length = sym as_long;
        column_last =
            position-is_last "Column" d.level_names s.p.column
              (column_position d.level_names s.p s.from_positions) last_column;
        positive = positive;
        prefetch_pos = pos_prefetch;
        divides = rw (last-get_or s.sizes s.p.column at_end) at divides;
        tx_pos = transaction_bytes-pos d s.prefetch s.tx s.from_tx;
      },
      ap (λ (xs : List ℕ). s.tx * prod xs) (divide_last-set s.prefetch s.sizes s.p.column at_end),
    )

finish :
    (d : Dram) (l : Layout)
    → Steps d l
    → suc l.col_pos ≡ length l.level_names
    → IsLayout l.level_names l.level_sizes l.internal_prefetch_size l.tx_bytes
      × (l.capacity_bytes ≡ l.tx_bytes * prod (divide_last l.internal_prefetch_size l.level_sizes))
unfolding build_layout
finish d l s =
    subst
      (λ (m : Layout).
        suc m.col_pos ≡ length m.level_names
        → IsLayout m.level_names m.level_sizes m.internal_prefetch_size m.tx_bytes
          × (m.capacity_bytes
              ≡ m.tx_bytes * prod (divide_last m.internal_prefetch_size m.level_sizes)))
      s.result (built d l s)

-- A layout that is extracted and has Column last is one that `addr_vec_from_byte_address` accepts,
-- and its `capacity_bytes` is the capacity at which that function raises.
pub extract_dram_layout-IsLayout :
    (d : Dram) (l : Layout)
    → extract_dram_layout d ≡ ok l
    → suc l.col_pos ≡ length l.level_names
    → IsLayout l.level_names l.level_sizes l.internal_prefetch_size l.tx_bytes
      × (l.capacity_bytes ≡ l.tx_bytes * prod (divide_last l.internal_prefetch_size l.level_sizes))
extract_dram_layout-IsLayout d l h = finish d l (steps d l h)
