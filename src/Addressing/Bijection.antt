-- ===== src/Addressing/Bijection.antt =====
-- `addr_vec_from_byte_address` is a bijection between the transactions below the capacity and the
-- vectors in range.
use native.Mathlib.Nat.{div-lt_iff_lt-mul, mul_comm, add_comm}
use ramulator.Prelude.{
  ok_inj, ℕ, zero, suc, ◌+◌, ◌*◌, ◌/◌, ◌%◌, ◌<◌, ◌≡◌, ◌↔◌, refl, sym, ap, ◌∙◌, String, true, false,
  not, List, [], ◌∷◌, map, Result, ok, err, value_error, ◌>>◌, inl, inr, arith, length, length-map,
  All, All₂, ==_refl, ◌==◌, leb, lt→leb, Bool-cases, raise_if, tests, pos-==-zero, prod,
  if◌then◌else◌,
}
use ramulator.Prelude.Int.{pos}
use ramulator.Addressing.Radix.{
  decompose, compose, decompose-lt, compose-decompose, decompose-rest, decompose-compose_zero,
  compose-lt, step-div,
}
use ramulator.Addressing.Vector.{
  addr_vec_from_byte_address, validate_addr_vec, to_value, is_last, last, divide_last,
  capacity_message, column_prefetch, positive_tx,
}
use ramulator.Addressing.Validation.{
  positive_sizes-map, divide_last-pos, below-divide_last, validate_addr_vec-ok,
}

-- What the mapper asks of its layout.
pub record IsLayout (names : List String) (sizes : List ℕ) (prefetch tx : ℕ) : Type 0 where
  pub same_length : length names ≡ length sizes
  pub column_last : is_last "Column" names ≡ true
  pub positive : All (λ s. 0 < s) sizes
  pub prefetch_pos : 0 < prefetch
  pub divides : last sizes % prefetch ≡ 0
  pub tx_pos : 0 < tx

column_prefetch-ok : (m : String) (p c : ℕ) → 0 < p → c % p ≡ 0 → column_prefetch m (pos p) c ≡ ok p
column_prefetch-ok m zero c h e = absurd (omega arith)
column_prefetch-ok m (suc p) c h e = rw e

positive_tx-ok : (t : ℕ) → 0 < t → positive_tx (pos t) ≡ ok t
positive_tx-ok zero h = absurd (omega arith)
positive_tx-ok (suc t) h = refl

is_last-nonempty : (c : String) (names : List String) → is_last c names ≡ true → 0 < length names
is_last-nonempty c [] h = cc
is_last-nonempty c (x ∷ names) h = omega arith

-- The two checks of the loop's outcome, both at once.
checked :
    (n : ℕ) (names : List String) (sizes radices : List ℕ)
    → length names ≡ length sizes
    → All₂ ◌<◌ (decompose n radices).0 sizes
    → (decompose n radices).1 ≡ 0
    → (raise_if (not ((decompose n radices).1 == 0)) capacity_message
        >> (validate_addr_vec
              (map to_value (decompose n radices).0)
              names
              (map to_value sizes)
              false
            >> ok (decompose n radices).0))
      ≡ ok (decompose n radices).0
checked n names sizes radices e below rest =
    rw (rest, validate_addr_vec-ok false names (decompose n radices).0 sizes e below)

module _ (names : List String) (sizes : List ℕ) (prefetch tx : ℕ)
    (h : IsLayout names sizes prefetch tx) where
  abbrev radices : List ℕ
  radices = divide_last prefetch sizes

  -- The mapper at a literal byte address of this layout.
  abbrev pub to_vector : ℕ → Result (List ℕ)
  to_vector n =
      addr_vec_from_byte_address (to_value n) names (map to_value sizes) (pos prefetch) (pos tx)

  radices_pos : All (λ s. 0 < s) radices
  radices_pos = divide_last-pos prefetch sizes h.prefetch_pos h.positive h.divides

  rest : (n : ℕ) → n < tx * prod radices → (decompose (n / tx) radices).1 ≡ 0
  rest n lt =
      decompose-rest (n / tx) radices radices_pos
        ((div-lt_iff_lt-mul {y = prod radices} h.tx_pos).1 (rw mul_comm lt))

  bounds : (n : ℕ) → All₂ ◌<◌ (decompose (n / tx) radices).0 sizes
  bounds n = below-divide_last prefetch _ sizes (decompose-lt (n / tx) radices radices_pos)

  -- Every check before the loop passes.
  reaches :
      (n : ℕ)
      → to_vector n ≡ (
          raise_if (leb (tx * prod radices) n) capacity_message
          >> (raise_if (not ((decompose (n / tx) radices).1 == 0)) capacity_message
              >> (validate_addr_vec
                    (map to_value (decompose (n / tx) radices).0)
                    names
                    (map to_value sizes)
                    false
                  >> ok (decompose (n / tx) radices).0)))
  unfolding addr_vec_from_byte_address
  reaches n = rw (
    pos-==-zero (length names) (is_last-nonempty "Column" names h.column_last),
    length-map sizes to_value,
    h.same_length,
    ==_refl (length sizes),
    h.column_last,
    positive_sizes-map sizes h.positive,
    column_prefetch-ok _ prefetch (last sizes) h.prefetch_pos h.divides,
    positive_tx-ok tx h.tx_pos,
  )

  -- The mapper, without the checks that cannot fail: below the capacity the loop's coordinates,
  -- and the capacity error from there on.
  pub addr_vec_from_byte_address_lem :
      (n : ℕ)
      → to_vector n ≡ (
          if leb (tx * prod radices) n
          then err (value_error capacity_message)
          else ok (decompose (n / tx) radices).0)
  addr_vec_from_byte_address_lem n = elim (Bool-cases (leb (tx * prod radices) n)) [
    | inl beyond ↦ rw (reaches, beyond)
    | inr within ↦
        rw (reaches, within)
          (checked (n / tx) names sizes radices h.same_length (bounds n) (rest n (omega tests)))
  ]

  -- Below the capacity the mapper returns, and its vector is in range and stands for the
  -- transaction that the address lies in.
  pub addr_vec_from_byte_address-in_range :
      (n : ℕ)
      → n < tx * prod radices
      → (vec : List ℕ) × (to_vector n ≡ ok vec)
        × All₂ ◌<◌ vec radices
        × (compose radices vec ≡ n / tx)
  addr_vec_from_byte_address-in_range n lt = (
    (decompose (n / tx) radices).0,
    addr_vec_from_byte_address_lem n ∙ rw (lt→leb n _ lt),
    decompose-lt (n / tx) radices radices_pos,
    omega (arith, compose-decompose (n / tx) radices, ap (λ (t : ℕ). t * prod radices) (rest n lt)),
  )

  -- Every vector in range is the image of each byte of its transaction.
  pub addr_vec_from_byte_address-onto :
      (vec : List ℕ) (offset : ℕ)
      → All₂ ◌<◌ vec radices
      → offset < tx
      → to_vector (compose radices vec * tx + offset) ≡ ok vec
  addr_vec_from_byte_address-onto vec offset below lt =
      let n : ℕ = compose radices vec * tx + offset in
      let inside : n < tx * prod radices = grind (arith, compose-lt radices vec below) in
      let quotient : n / tx ≡ compose radices vec =
        ap (λ (t : ℕ). t / tx) (add_comm (compose radices vec * tx) offset)
        ∙ step-div offset (compose radices vec) tx lt in
      addr_vec_from_byte_address_lem n
      ∙ rw (lt→leb n _ inside, quotient, decompose-compose_zero radices vec below)

  same :
      (n m : ℕ)
      → n < tx * prod radices
      → m < tx * prod radices
      → n / tx ≡ m / tx
      → to_vector n ≡ to_vector m
  same n m hn hm e =
      addr_vec_from_byte_address_lem n
      ∙ (rw (lt→leb n _ hn, lt→leb m _ hm, e))
      ∙ sym (addr_vec_from_byte_address_lem m)

  -- Two addresses in range have one vector exactly if they lie in one transaction.
  pub addr_vec_from_byte_address-eq_iff :
      (n m : ℕ)
      → n < tx * prod radices
      → m < tx * prod radices
      → (to_vector n ≡ to_vector m) ↔ (n / tx ≡ m / tx)
  addr_vec_from_byte_address-eq_iff n m hn hm =
      let (v, ev, bv, cv) = addr_vec_from_byte_address-in_range n hn in
      let (w, ew, bw, cw) = addr_vec_from_byte_address-in_range m hm in
      (λ e. sym cv ∙ ap (compose radices) (ok_inj (sym ev ∙ e ∙ ew)) ∙ cw, λ e. same n m hn hm e)
