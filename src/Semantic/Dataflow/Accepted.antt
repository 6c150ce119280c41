-- ===== src/Semantic/Dataflow/Accepted.antt =====
-- The transformer dataflow records that pass.
use ramulator.Prelude.{
  String, ◌≡◌, refl, ap, ◌∙◌, Bool, true, false, not, some, List, [], ◌∷◌, ◌++◌, all, ok, All,
  raise_if, raise_if-ok, bind_elim, then_elim, ◌>>=◌,
}
use ramulator.Prelude.Int.{ℤ, is_positive}
use ramulator.PyValue.{
  contains_apart, equals_text-true, Value, Fields, Items, nil, cons, str, arr, obj, get,
  get_or_default, index, to_int, contains, elements,
}
use ramulator.Semantic.Kinds
use ramulator.Semantic.Membership.{
  in_texts, holds_text, require, map_entry, list_entry, is_text_value,
}
use ramulator.Semantic.Membership.Laws.{
  IsTextValue, HasTexts, HasMap, HasAll, require_sound, index_value, map_entry_value,
  list_entry_value, texts_sound, All-append_inv,
}
use ramulator.Semantic.Dataflow.{
  claims_listed, positive_field, family_is, context_required, validate_context, validate_metadata,
  is_empty, validate_compute, validate_data_move, validate_accounting, validate_operator,
  validate_dataflow,
}

-- `int()` of the entry is positive.
abbrev pub PositiveField : Fields → String → Type 0
PositiveField r k =
    (v : Value) × (z : ℤ) × (get k r ≡ some v) × (to_int v ≡ ok z) × (is_positive z ≡ true)

abbrev pub Claims : List String → Value → Type 0
Claims claims listed = All (λ c. holds_text c listed ≡ ok true) claims

pub record IsMetadata (r : Fields) : Type 0 where
  pub tensor_io : Fields
  pub has_tensor_io : get "tensor_io" r ≡ some (obj tensor_io)
  pub inputs : HasTexts tensor_io "inputs"
  pub outputs : HasTexts tensor_io "outputs"
  pub dependencies : HasTexts r "logical_dependencies"
  pub context : Fields
  pub has_context : get "operator_context" r ≡ some (obj context)
  pub context_fields : HasAll context_required context
  pub family : get "record_family" context ≡ some (str Kinds.required_p4_record_family)
  pub provenance : Fields
  pub has_provenance : get "provenance" r ≡ some (obj provenance)
  pub claims :
      Claims Kinds.required_p4_claim_boundary (get_or_default "claim_boundary" (arr nil) provenance)
  pub non_claims :
      Claims Kinds.required_p4_non_claims (get_or_default "non_claims" (arr nil) provenance)
  pub residency : HasMap r "residency"

pub record IsCompute (r : Fields) : Type 0 where
  pub fields : HasAll Kinds.compute_fields r
  pub requests : PositiveField r "num_requests"
  pub banks : (v : Value) × (vs : Items) × (get "bank_sequence" r ≡ some (arr (cons v vs)))
  pub burst : PositiveField r "burst_length"
  pub shape : Fields
  pub has_shape : get "compute_shape" r ≡ some (obj shape)
  pub shape_fields : HasAll Kinds.shape_fields shape

pub record IsDataMove (r : Fields) : Type 0 where
  pub fields : HasAll Kinds.data_move_fields r
  pub requests : PositiveField r "num_requests"
  pub policy : Fields
  pub has_policy : get "movement_policy" r ≡ some (obj policy)
  pub movement :
      (v : Value) × (get "movement_kind" policy ≡ some v)
      × (in_texts v Kinds.valid_movement_kinds ≡ ok true)

pub record IsDataflow (kind : String) (r : Fields) : Type 0 where
  pub metadata : IsMetadata r
  pub compute : contains kind Kinds.transformer_compute_record_kinds ≡ true → IsCompute r
  pub data_move : kind ≡ "PIMDataMove" → IsDataMove r
  pub accounting :
      contains kind Kinds.transformer_accounting_record_kinds ≡ true
      → HasMap r "accounting_metadata"

is_true : (b : Bool) (message : String) → raise_if (not b) message ≡ ok tt → b ≡ true
is_true true message h = refl
is_true false message h = cc

positive_field_value : (k : String) (r : Fields) → positive_field k r ≡ ok tt → PositiveField r k
positive_field_value k r h = bind_elim (index k r >>= to_int) _ h λ z ez good.
    bind_elim (index k r) to_int ez
      λ v found e. (v, z, index_value k r found, e, is_true (is_positive z) _ good)

claims_sound :
    (claims : List String) (listed : Value)
    → claims_listed claims listed ≡ ok tt
    → Claims claims listed
unfolding claims_listed
claims_sound [] listed h = tt
claims_sound (c ∷ claims) listed h = bind_elim (holds_text c listed) _ h λ found e h1.
    then_elim (raise_if (not found) "provenance misses a claim") (claims_listed claims listed) h1
      λ there h2. (e ∙ ap ok (is_true found _ there), claims_sound claims listed h2)

family_sound :
    (context : Fields)
    → (index "record_family" context >>= family_is) ≡ ok tt
    → get "record_family" context ≡ some (str Kinds.required_p4_record_family)
unfolding family_is
family_sound context h = bind_elim (index "record_family" context) family_is h λ v found good.
    index_value _ context found
    ∙ ap some ((equals_text-true Kinds.required_p4_record_family v).0 (is_true _ _ good))

banks_sound :
    (r : Fields) (banks : List Value)
    → list_entry "bank_sequence" r ≡ ok banks
    → is_empty banks ≡ false
    → (v : Value) × (vs : Items) × (get "bank_sequence" r ≡ some (arr (cons v vs)))
unfolding is_empty
banks_sound r banks e h =
    let (items, found, same) = list_entry_value "bank_sequence" r e in
    first items found (ap is_empty same ∙ h)
  where
    first :
        (items : Items)
        → get "bank_sequence" r ≡ some (arr items)
        → is_empty (elements items) ≡ false
        → (v : Value) × (vs : Items) × (get "bank_sequence" r ≡ some (arr (cons v vs)))
    first nil found g = absurd (cc)
    first (cons v vs) found g = (v, vs, found)

validate_compute-IsCompute : (r : Fields) → validate_compute r ≡ ok tt → IsCompute r
unfolding validate_compute
validate_compute-IsCompute r h =
    then_elim (require Kinds.compute_fields r "missing required compute field") _ h λ fields h1.
      then_elim (positive_field "num_requests" r) _ h1 λ requests h2.
        bind_elim (list_entry "bank_sequence" r) _ h2 λ banks eb h3.
          then_elim (raise_if (is_empty banks) "bank_sequence must be a non-empty list") _ h3
            λ some_bank h4. then_elim (positive_field "burst_length" r) _ h4 λ burst h5.
              bind_elim (map_entry "compute_shape" r) _ h5 λ shape es h6. record {
                fields = require_sound Kinds.compute_fields r _ fields;
                requests = positive_field_value "num_requests" r requests;
                banks = banks_sound r banks eb (raise_if-ok _ _ some_bank);
                burst = positive_field_value "burst_length" r burst;
                shape = shape;
                has_shape = map_entry_value "compute_shape" r es;
                shape_fields = require_sound Kinds.shape_fields shape _ h6;
              }

validate_data_move-IsDataMove : (r : Fields) → validate_data_move r ≡ ok tt → IsDataMove r
unfolding validate_data_move
validate_data_move-IsDataMove r h =
    then_elim (require Kinds.data_move_fields r "PIMDataMove missing required movement field") _ h
      λ fields h1. then_elim (positive_field "num_requests" r) _ h1 λ requests h2.
        bind_elim (map_entry "movement_policy" r) _ h2 λ policy ep h3.
          then_elim (require ("movement_kind" ∷ []) policy "movement_policy missing required field")
            _ h3
            λ _ h4. bind_elim (index "movement_kind" policy) _ h4 λ v ev h5.
              bind_elim (in_texts v Kinds.valid_movement_kinds) _ h5 λ known ek h6. record {
                fields = require_sound Kinds.data_move_fields r _ fields;
                requests = positive_field_value "num_requests" r requests;
                policy = policy;
                has_policy = map_entry_value "movement_policy" r ep;
                movement = (v, index_value _ policy ev, ek ∙ ap ok (is_true known _ h6));
              }

texts_entry :
    (k : String) (d : Fields) (vs : List Value)
    → list_entry k d ≡ ok vs
    → All IsTextValue vs
    → HasTexts d k
texts_entry k d vs e h =
    let (items, found, same) = list_entry_value k d e in (items, found, rw same h)

-- The second half of the metadata: the context, the claims and the entries of `tensor_io`.
record IsContext (r : Fields) (tensors : List Value) : Type 0 where
  pub context : Fields
  pub has_context : get "operator_context" r ≡ some (obj context)
  pub context_fields : HasAll context_required context
  pub family : get "record_family" context ≡ some (str Kinds.required_p4_record_family)
  pub provenance : Fields
  pub has_provenance : get "provenance" r ≡ some (obj provenance)
  pub claims :
      Claims Kinds.required_p4_claim_boundary (get_or_default "claim_boundary" (arr nil) provenance)
  pub non_claims :
      Claims Kinds.required_p4_non_claims (get_or_default "non_claims" (arr nil) provenance)
  pub residency : HasMap r "residency"
  pub tensors_texts : All IsTextValue tensors

validate_context-IsContext :
    (r : Fields) (tensors : List Value) → validate_context r tensors ≡ ok tt → IsContext r tensors
unfolding validate_context
validate_context-IsContext r tensors h =
    bind_elim (map_entry "operator_context" r) _ h λ context ec h1.
      then_elim (require context_required context "operator_context missing required field") _ h1
        λ fields h2. then_elim (index "record_family" context >>= family_is) _ h2 λ family h3.
          bind_elim (map_entry "provenance" r) _ h3 λ provenance ep h4.
            then_elim
              (claims_listed Kinds.required_p4_claim_boundary
                (get_or_default "claim_boundary" (arr nil) provenance))
              _ h4
              λ claims h5.
                then_elim
                  (claims_listed Kinds.required_p4_non_claims
                    (get_or_default "non_claims" (arr nil) provenance))
                  _ h5
                  λ non_claims h6. bind_elim (map_entry "residency" r) _ h6 λ residency er h7.
                    record {
                      context = context;
                      has_context = map_entry_value "operator_context" r ec;
                      context_fields = require_sound context_required context _ fields;
                      family = family_sound context family;
                      provenance = provenance;
                      has_provenance = map_entry_value "provenance" r ep;
                      claims =
                          claims_sound Kinds.required_p4_claim_boundary
                            (get_or_default "claim_boundary" (arr nil) provenance) claims;
                      non_claims =
                          claims_sound Kinds.required_p4_non_claims
                            (get_or_default "non_claims" (arr nil) provenance) non_claims;
                      residency = (residency, map_entry_value "residency" r er);
                      tensors_texts = texts_sound tensors _ h7;
                    }

validate_metadata-IsMetadata : (r : Fields) → validate_metadata r ≡ ok tt → IsMetadata r
unfolding validate_metadata
validate_metadata-IsMetadata r h =
    then_elim (require Kinds.metadata_fields r "missing required transformer dataflow field") _ h
      λ _ h1. bind_elim (map_entry "tensor_io" r) _ h1 λ tensor_io et h2.
        bind_elim (list_entry "inputs" tensor_io) _ h2 λ inputs ei h3.
          bind_elim (list_entry "outputs" tensor_io) _ h3 λ outputs eo h4.
            bind_elim (list_entry "logical_dependencies" r) _ h4 λ dependencies ed h5.
              then_elim
                (raise_if (not (all is_text_value dependencies))
                  "logical_dependencies entries must be strings")
                _ h5
                λ texts h6.
                  let c = validate_context-IsContext r (inputs ++ outputs) h6 in
                  let (left, right) = All-append_inv IsTextValue inputs outputs c.tensors_texts in
                  record {
                    tensor_io = tensor_io;
                    has_tensor_io = map_entry_value "tensor_io" r et;
                    inputs = texts_entry "inputs" tensor_io inputs ei left;
                    outputs = texts_entry "outputs" tensor_io outputs eo right;
                    dependencies =
                        texts_entry "logical_dependencies" r dependencies ed
                          (texts_sound dependencies _ texts);
                    context = c.context;
                    has_context = c.has_context;
                    context_fields = c.context_fields;
                    family = c.family;
                    provenance = c.provenance;
                    has_provenance = c.has_provenance;
                    claims = c.claims;
                    non_claims = c.non_claims;
                    residency = c.residency;
                  }

accounting_sound : (r : Fields) → validate_accounting r ≡ ok tt → HasMap r "accounting_metadata"
unfolding validate_accounting
accounting_sound r h =
    then_elim
      (require ("accounting_metadata" ∷ []) r "missing required field 'accounting_metadata'") _ h
      λ _ h1.
        bind_elim (map_entry "accounting_metadata" r) _ h1
          λ m e _. (m, map_entry_value "accounting_metadata" r e)

validate_operator-IsCompute :
    (kind : String) (r : Fields)
    → validate_operator kind r ≡ ok tt
    → contains kind Kinds.transformer_compute_record_kinds ≡ true
    → IsCompute r
unfolding validate_operator
validate_operator-IsCompute kind r h is_compute = validate_compute-IsCompute r (rw is_compute at h)

validate_operator-IsDataMove :
    (kind : String) (r : Fields)
    → validate_operator kind r ≡ ok tt
    → kind ≡ "PIMDataMove"
    → IsDataMove r
unfolding validate_operator
validate_operator-IsDataMove kind r h e = validate_data_move-IsDataMove r (rw e at h)

operator_accounting :
    (kind : String) (r : Fields)
    → validate_operator kind r ≡ ok tt
    → contains kind Kinds.transformer_accounting_record_kinds ≡ true
    → HasMap r "accounting_metadata"
unfolding validate_operator
operator_accounting kind r h is_accounting =
    let accounting = Kinds.transformer_accounting_record_kinds in
    let no_compute =
      contains_apart kind accounting Kinds.transformer_compute_record_kinds refl is_accounting in
    let no_move = contains_apart kind accounting ("PIMDataMove" ∷ []) refl is_accounting in
    accounting_sound r (rw (no_compute, no_move, is_accounting) at h)

pub validate_dataflow-IsDataflow :
    (kind : String) (r : Fields) → validate_dataflow kind r ≡ ok tt → IsDataflow kind r
unfolding validate_dataflow
validate_dataflow-IsDataflow kind r h =
    then_elim (validate_metadata r) (validate_operator kind r) h λ metadata operator. record {
      metadata = validate_metadata-IsMetadata r metadata;
      compute = validate_operator-IsCompute kind r operator;
      data_move = validate_operator-IsDataMove kind r operator;
      accounting = operator_accounting kind r operator;
    }
