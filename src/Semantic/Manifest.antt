-- ===== src/Semantic/Manifest.antt =====
-- python/ramulator/workload_surrogate/structured_trace.py: `validate_manifest`.
pub mod Accepted
pub mod Valid
use ramulator.Prelude.{
  ℕ, suc, ◌+◌, ◌-◌, ◌*◌, ◌^◌, String, Bool, true, false, not, ◌&&◌, ◌||◌, Option, none, some, List,
  [], ◌∷◌, ◌++◌, map, any, all, Result, Checked, ok, err, type_error, raise_if, ◌>>=◌, ◌>>◌, ◌==◌,
  str_eq, if◌then◌else◌,
}
use ramulator.Prelude.Int.{ℤ, pos, negsuc}
use ramulator.PyValue.{
  Value, Fields, Items, null, bool, int, float, str, arr, obj, end, field, keyed, nil, cons, dyadic,
  infinity, nan, get, has, index, get_or_default, truthy, contains, elements, equals_text,
  equals_nat,
}
use ramulator.Semantic.Kinds
use ramulator.Semantic.Membership.{le_zero, in_texts, is_infix, is_suffix}

-- The keys among the forbidden ones at any depth: `_find_forbidden_datatype_scale_fields` without the
-- paths to them.
mutual
  pub scale_fields : Value → List String
  scale_fields (obj d) = scale_fields_of d
  scale_fields (arr vs) = scale_fields_in vs
  scale_fields _ = []

  pub scale_fields_of : Fields → List String
  scale_fields_of end = []
  scale_fields_of (field k v d) =
      (if contains k Kinds.forbidden_datatype_scale_fields then k ∷ [] else [])
      ++ (scale_fields v ++ scale_fields_of d)
  scale_fields_of (keyed k v d) = scale_fields v ++ scale_fields_of d

  pub scale_fields_in : Items → List String
  scale_fields_in nil = []
  scale_fields_in (cons v vs) = scale_fields v ++ scale_fields_in vs

is_hashable : Value → Bool
is_hashable (arr vs) = false
is_hashable (obj d) = false
is_hashable _ = true

characters : String → List Value
characters String.[] = []
characters (String.◌∷◌ c s) = str (String.◌∷◌ c String.[]) ∷ characters s

hashed : List Value → Result (List Value)
unfolding is_hashable
hashed vs = if all is_hashable vs then ok vs else err type_error

-- `set(d)`
all_keys : Fields → List Value
all_keys end = []
all_keys (field k v d) = str k ∷ all_keys d
all_keys (keyed k v d) = k ∷ all_keys d

-- `set(value)`
pub as_set : Value → Result (List Value)
unfolding characters hashed all_keys
as_set (arr vs) = hashed (elements vs)
as_set (str s) = ok (characters s)
as_set (obj d) = ok (all_keys d)
as_set _ = err type_error

-- A number as m / 2 ^ k.
number_of : Value → Option (ℤ × ℕ)
number_of (bool true) = some (pos 1, 0)
number_of (bool false) = some (pos 0, 0)
number_of (int z) = some (z, 0)
number_of (float (dyadic z k)) = some (z, k)
number_of _ = none

scale : ℤ → ℕ → ℤ
scale (pos n) k = pos (n * 2 ^ k)
scale (negsuc n) k = negsuc (suc n * 2 ^ k - 1)

same_ℤ : ℤ → ℤ → Bool
same_ℤ (pos a) (pos b) = a == b
same_ℤ (negsuc a) (negsuc b) = a == b
same_ℤ _ _ = false

same_number : Option (ℤ × ℕ) → Option (ℤ × ℕ) → Bool
unfolding scale same_ℤ
same_number (some (a, j)) (some (b, k)) = same_ℤ (scale a k) (scale b j)
same_number _ _ = false

-- `a == b` for members of a set.
pub same : Value → Value → Bool
unfolding number_of same_number
same (str s) (str t) = str_eq s t
same null null = true
same (float (infinity true)) (float (infinity true)) = true
same (float (infinity false)) (float (infinity false)) = true
same a b = same_number (number_of a) (number_of b)

-- `a & b` is not empty.
pub overlap : List Value → List Value → Bool
unfolding same
overlap xs ys = any (λ x. any (same x) ys) xs

-- The members of a set that `in` and `endswith` are applied to.
pub texts_of : List Value → Result (List String)
texts_of [] = ok []
texts_of (str s ∷ vs) = texts_of vs >>= λ ts. ok (s ∷ ts)
texts_of (v ∷ vs) = err type_error

pub is_nil : List String → Bool
is_nil [] = true
is_nil (s ∷ ss) = false

-- The operator classes.
pub check_operators : Fields → Checked
unfolding as_set overlap texts_of
check_operators d = do
  pim ← (index "pim_compute_operator_classes" d >>= as_set)
  host ← (index "host_support_record_classes" d >>= as_set)
  raise_if (overlap pim host) "Operator classes overlap between pim_compute and host_support"
  provenance ← (index "host_only_provenance_classes" d >>= as_set)
  raise_if (overlap pim provenance)
      "Operator classes overlap between pim_compute and host_only_provenance"
  raise_if (overlap host provenance)
      "Operator classes overlap between host_support and host_only_provenance"
  raise_if (not (all (λ op. any (equals_text op) host) Kinds.kv_cache_read_ops))
      "host_support_record_classes must include KV cache reads"
  ops ← texts_of pim
  raise_if (any (is_infix "cache_read") ops) "KV cache reads must be in host_support_record_classes"
  raise_if (any (λ op. not (is_suffix Kinds.pim_compute_op_suffix op)) ops)
      "pim_compute_operator_classes must only contain GEMV operators"

-- `d.get(k) != text`
abbrev pub differs : String → String → Fields → Bool
differs k text d = not (equals_text text (get_or_default k null d))

abbrev pub is_mixed : Fields → Bool
is_mixed d = truthy (get_or_default "mixed_phase_extension" null d)

-- The phase, the batch and the number of tokens.
pub check_phase : Fields → Checked
check_phase d = do
  raise_if (is_mixed d && differs "mixed_phase_approval" "P2.9c" d)
      "Mixed prefill/decode generation requires mixed_phase_approval='P2.9c'"
  phase ← index "phase" d
  allowed ← in_texts phase ("decode" ∷ "mixed_prefill_decode" ∷ [])
  raise_if (not allowed) "Phase 2 semantic generator does not support the phase"
  raise_if (equals_text "mixed_prefill_decode" phase && not (is_mixed d))
      "phase='mixed_prefill_decode' requires mixed_phase_extension=True"
  raise_if (is_mixed d && not (equals_text "mixed_prefill_decode" phase))
      "mixed_phase_extension=True requires phase='mixed_prefill_decode'"
  batch ← index "batch" d
  raise_if (not (equals_nat 1 batch)) "Phase 2 semantic generator only supports batch=1"
  tokens ← index "generated_tokens" d
  not_positive ← le_zero tokens
  raise_if not_positive "generated_tokens must be positive"
  raise_if (not (is_mixed d) && not (equals_nat 1 tokens))
      "Decode-only generator only supports generated_tokens=1"

unfoldable pub validate_manifest : Fields → Checked
unfolding check_phase scale_fields scale_fields_of scale_fields_in is_nil check_operators
validate_manifest d = do
  raise_if (not (all (λ k. has k d) Kinds.required_manifest_fields))
      "Manifest missing required fields"
  check_phase d
  raise_if
      (truthy (get_or_default "enable_all_bank_records" null d)
        && differs "all_bank_records_approval" "P2.9b" d)
      "All-bank record generation requires all_bank_records_approval='P2.9b'"
  raise_if (not (is_nil (scale_fields (obj d)))) "Datatype scaling fields are not supported"
  check_operators d
