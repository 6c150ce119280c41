-- ===== src/Semantic/Manifest/Accepted.antt =====
-- The manifests that `validate_manifest` accepts.
use ramulator.Prelude.{
  String, ◌≡◌, ◌⊎◌, refl, ap, ◌∙◌, Bool, true, false, not, some, List, [], ◌∷◌, ◌++◌, map, any, all,
  ok, ok_inj, All, raise_if, bind_elim, ◌>>=◌, if◌then◌else◌, Bool-cases, inl, inr,
}
use ramulator.PyValue.{
  Value, Fields, Items, null, bool, int, float, str, arr, obj, end, field, keyed, nil, cons, get,
  index, get_or_default, truthy, contains, equals_text, equals_nat,
}
use ramulator.Semantic.Kinds
use ramulator.Semantic.Membership.{le_zero, is_infix, is_suffix}
use ramulator.Semantic.Membership.Laws.{HasAll, index_value}
use ramulator.Semantic.Manifest.{
  scale_fields, scale_fields_of, scale_fields_in, as_set, same, overlap, texts_of, is_nil, is_mixed,
}

-- No key at any depth is a datatype scale.
mutual
  pub Clean : Value → Type 0
  Clean (obj d) = CleanFields d
  Clean (arr vs) = CleanItems vs
  Clean _ = Unit {0}

  pub CleanFields : Fields → Type 0
  CleanFields end = Unit {0}
  CleanFields (field k v d) =
      (contains k Kinds.forbidden_datatype_scale_fields ≡ false) × Clean v × CleanFields d
  CleanFields (keyed k v d) = Clean v × CleanFields d

  pub CleanItems : Items → Type 0
  CleanItems nil = Unit {0}
  CleanItems (cons v vs) = Clean v × CleanItems vs

-- No member of one list equals one of the other.
abbrev pub Disjoint : List Value → List Value → Type 0
Disjoint xs ys = All (λ x. All (λ y. same x y ≡ false) ys) xs

abbrev pub Classes : Fields → String → List Value → Type 0
Classes d k members = (v : Value) × (get k d ≡ some v) × (as_set v ≡ ok members)

pub record IsOperators (d : Fields) : Type 0 where
  pub pim : List Value
  pub host : List Value
  pub provenance : List Value
  pub pim_classes : Classes d "pim_compute_operator_classes" pim
  pub host_classes : Classes d "host_support_record_classes" host
  pub provenance_classes : Classes d "host_only_provenance_classes" provenance
  pub pim_host : Disjoint pim host
  pub pim_provenance : Disjoint pim provenance
  pub host_provenance : Disjoint host provenance
  pub reads_cache : All (λ op. any (equals_text op) host ≡ true) Kinds.kv_cache_read_ops
  pub ops : List String
  pub pim_texts : pim ≡ map (λ op. str op) ops
  pub gemv : All (λ op. (is_suffix "_gemv" op ≡ true) × (is_infix "cache_read" op ≡ false)) ops

-- One decoded token, or the approved mix of prefill and decode.
abbrev pub IsDecode : Fields → Type 0
IsDecode d =
    (tokens : Value) × (is_mixed d ≡ false)
    × (get "phase" d ≡ some (str "decode"))
    × (get "generated_tokens" d ≡ some tokens)
    × (equals_nat 1 tokens ≡ true)

abbrev pub IsMixed : Fields → Type 0
IsMixed d =
    (tokens : Value) × (is_mixed d ≡ true)
    × (get "phase" d ≡ some (str "mixed_prefill_decode"))
    × (get "generated_tokens" d ≡ some tokens)
    × (le_zero tokens ≡ ok false)
    × (get_or_default "mixed_phase_approval" null d ≡ str "P2.9c")

pub record IsManifest (d : Fields) : Type 0 where
  pub present : HasAll Kinds.required_manifest_fields d
  pub phase : IsDecode d ⊎ IsMixed d
  pub batch : (v : Value) × (get "batch" d ≡ some v) × (equals_nat 1 v ≡ true)
  pub all_bank :
      truthy (get_or_default "enable_all_bank_records" null d) ≡ true
      → get_or_default "all_bank_records_approval" null d ≡ str "P2.9b"
  pub clean : Clean (obj d)
  pub operators : IsOperators d

append_nil_left : {A : Type 0} (xs ys : List A) → xs ++ ys ≡ [] → xs ≡ []
append_nil_left [] ys h = refl
append_nil_left (x ∷ xs) ys h = cc

append_nil_right : {A : Type 0} (xs ys : List A) → xs ++ ys ≡ [] → ys ≡ []
append_nil_right [] ys h = h
append_nil_right (x ∷ xs) ys h = cc

pub nil_of : (xs : List String) → is_nil xs ≡ true → xs ≡ []
unfolding is_nil
nil_of [] h = refl
nil_of (x ∷ xs) h = cc

not_forbidden :
    (k : String)
    → (if contains k Kinds.forbidden_datatype_scale_fields then k ∷ [] else []) ≡ []
    → contains k Kinds.forbidden_datatype_scale_fields ≡ false
not_forbidden k h = elim (Bool-cases (contains k Kinds.forbidden_datatype_scale_fields)) [
  | inl bad ↦ absurd (cc (rw bad at h))
  | inr good ↦ good
]

mutual
  unfolding scale_fields scale_fields_of scale_fields_in Clean CleanFields CleanItems

  pub scale_fields-Clean : (v : Value) → scale_fields v ≡ [] → Clean v
  scale_fields-Clean (obj d) h = scale_fields_of-CleanFields d h
  scale_fields-Clean (arr vs) h = scale_fields_in-CleanItems vs h
  scale_fields-Clean null h = tt
  scale_fields-Clean (bool b) h = tt
  scale_fields-Clean (int z) h = tt
  scale_fields-Clean (float x) h = tt
  scale_fields-Clean (str s) h = tt

  scale_fields_of-CleanFields : (d : Fields) → scale_fields_of d ≡ [] → CleanFields d
  scale_fields_of-CleanFields end h = tt
  scale_fields_of-CleanFields (field k v d) h =
      let here = if contains k Kinds.forbidden_datatype_scale_fields then k ∷ [] else [] in
      let rest = append_nil_right here (scale_fields v ++ scale_fields_of d) h in
      (
        not_forbidden k (append_nil_left here (scale_fields v ++ scale_fields_of d) h),
        scale_fields-Clean v (append_nil_left (scale_fields v) (scale_fields_of d) rest),
        scale_fields_of-CleanFields d (append_nil_right (scale_fields v) (scale_fields_of d) rest),
      )
  scale_fields_of-CleanFields (keyed k v d) h = (
    scale_fields-Clean v (append_nil_left (scale_fields v) (scale_fields_of d) h),
    scale_fields_of-CleanFields d (append_nil_right (scale_fields v) (scale_fields_of d) h),
  )

  scale_fields_in-CleanItems : (vs : Items) → scale_fields_in vs ≡ [] → CleanItems vs
  scale_fields_in-CleanItems nil h = tt
  scale_fields_in-CleanItems (cons v vs) h = (
    scale_fields-Clean v (append_nil_left (scale_fields v) (scale_fields_in vs) h),
    scale_fields_in-CleanItems vs (append_nil_right (scale_fields v) (scale_fields_in vs) h),
  )

none_of {ℓ} :
    {A : Type ℓ} (p : A → Bool) (xs : List A) → any p xs ≡ false → All (λ x. p x ≡ false) xs
none_of p [] h = tt
none_of p (x ∷ xs) h = elim (Bool-cases (p x)) [
  | inl bad ↦ absurd (cc (rw bad at h))
  | inr good ↦ (good, none_of p xs (rw good at h))
]

pub every_one {ℓ} :
    {A : Type ℓ} (p : A → Bool) (xs : List A) → all p xs ≡ true → All (λ x. p x ≡ true) xs
every_one p [] h = tt
every_one p (x ∷ xs) h = elim (Bool-cases (p x)) [
  | inl good ↦ (good, every_one p xs (rw good at h))
  | inr bad ↦ absurd (cc (rw bad at h))
]

pub disjoint : (xs ys : List Value) → overlap xs ys ≡ false → Disjoint xs ys
unfolding overlap
disjoint [] ys h = tt
disjoint (x ∷ xs) ys h = elim (Bool-cases (any (same x) ys)) [
  | inl bad ↦ absurd (cc (rw bad at h))
  | inr good ↦ (none_of (same x) ys good, disjoint xs ys (rw good at h))
]

pub is_true : (b : Bool) (message : String) → raise_if (not b) message ≡ ok tt → b ≡ true
is_true true message h = refl
is_true false message h = cc

pub classes :
    (k : String) (d : Fields) {members : List Value}
    → (index k d >>= as_set) ≡ ok members
    → Classes d k members
classes k d h = bind_elim (index k d) as_set h λ v found e. (v, index_value k d found, e)

pub texts_of_lem :
    (vs : List Value) {ops : List String} → texts_of vs ≡ ok ops → vs ≡ map (λ op. str op) ops
unfolding texts_of
texts_of_lem [] {ops} h = ap (map (λ op. str op)) (ok_inj h)
texts_of_lem (str s ∷ vs) {ops} h =
    bind_elim (texts_of vs) (λ ts. ok (s ∷ ts)) h
      λ ts e same.
        ap (λ (ws : List Value). str s ∷ ws) (texts_of_lem vs e)
        ∙ ap (map (λ op. str op)) (ok_inj same)
texts_of_lem (null ∷ vs) h = cc
texts_of_lem (bool b ∷ vs) h = cc
texts_of_lem (int z ∷ vs) h = cc
texts_of_lem (float x ∷ vs) h = cc
texts_of_lem (arr ws ∷ vs) h = cc
texts_of_lem (obj d ∷ vs) h = cc

pub gemv_ops :
    (ops : List String)
    → any (is_infix "cache_read") ops ≡ false
    → any (λ op. not (is_suffix "_gemv" op)) ops ≡ false
    → All (λ op. (is_suffix "_gemv" op ≡ true) × (is_infix "cache_read" op ≡ false)) ops
gemv_ops [] h k = tt
gemv_ops (op ∷ ops) h k = elim (Bool-cases (is_infix "cache_read" op)) [
  | inl bad ↦ absurd (cc (rw bad at h))
  | inr clean ↦ elim (Bool-cases (is_suffix "_gemv" op)) [
    | inl gemv ↦ ((gemv, clean), gemv_ops ops (rw clean at h) (rw gemv at k))
    | inr bad ↦ absurd (cc (rw bad at k))
  ]
]
