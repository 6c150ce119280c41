-- ===== src/Lowering/Host/Policy.antt =====
-- What a host record's address policy guarantees once it is checked.
use ramulator.Prelude.{ℕ, ◌<◌, ◌≡◌, ap, String, ok, ok_inj, bind_elim, then_elim, arith}
use ramulator.Prelude.Int.{ℤ, pos, negsuc}
use ramulator.PyValue.{Fields}
use ramulator.Lowering.Host.{
  HostPolicy, host_policy, sub_dict, natural_or, positive_or, check_policy, check_fields, int_or,
}

pub positive_or-pos : (m : String) (z : ℤ) {n : ℕ} → positive_or m z ≡ ok n → 0 < n
positive_or-pos m (pos n) h = ground arith
positive_or-pos m (negsuc n) h = cc

check_policy-count :
    (base stride count repeat : ℤ) (h : HostPolicy)
    → check_policy base stride count repeat ≡ ok h
    → 0 < h.count
unfolding check_policy
check_policy-count base stride count repeat h e =
    bind_elim (natural_or "base_byte must be non-negative" base) _ e λ b e1 h1.
      bind_elim (positive_or "stride_bytes must be positive" stride) _ h1 λ s e2 h2.
        bind_elim (positive_or "address_policy.count must be positive" count) _ h2 λ c e3 h3.
          bind_elim (positive_or "repeat must be positive" repeat)
            (λ (r : ℕ).
              ok (record { base_byte = b; stride_bytes = s; count = c; semantic_repeat = r }))
            h3
            λ r e4 h4.
              let v : HostPolicy = record {
                base_byte = b;
                stride_bytes = s;
                count = c;
                semantic_repeat = r;
              } in
              let q : v ≡ h = ok_inj h4 in
              let n : c ≡ h.count = ap (λ (v : HostPolicy). v.count) q in
              rw n at (positive_or-pos "address_policy.count must be positive" count e3)

pub host_policy-count :
    (semantic : Fields) (h : HostPolicy) → host_policy semantic ≡ ok h → 0 < h.count
unfolding host_policy
host_policy-count semantic h e = bind_elim (sub_dict "address_policy" semantic) _ e λ policy e0 h0.
    then_elim (check_fields policy) _ h0 λ e1 h1.
      bind_elim (int_or "base_byte" 0 policy) _ h1 λ base e2 h2.
        bind_elim (int_or "stride_bytes" 0 policy) _ h2 λ stride e3 h3.
          bind_elim (int_or "count" 0 policy) _ h3 λ count e4 h4.
            bind_elim (int_or "repeat" 1 semantic) (check_policy base stride count) h4
              λ repeat e5 h5. check_policy-count base stride count repeat h h5
