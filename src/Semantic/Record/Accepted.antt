-- ===== src/Semantic/Record/Accepted.antt =====
-- The records that `validate_record` accepts.
use ramulator.Prelude.{
  String, ◌≡◌, refl, ap, sym, ◌∙◌, Bool, true, false, not, some, List, [], ◌∷◌, ok, ok_inj,
  raise_if, raise_if-ok, bind_elim, then_elim,
}
use ramulator.PyValue.{
  Value, Fields, null, bool, int, float, str, arr, obj, get, index, contains, equals_text,
  equals_text-true, contains_apart,
}
use ramulator.Semantic.Kinds
use ramulator.Semantic.Membership.{le_zero, in_texts, require}
use ramulator.Semantic.Membership.Laws.{HasAll, require_sound, index_value}
use ramulator.Semantic.Dataflow.Accepted.{IsDataflow, validate_dataflow-IsDataflow}
use ramulator.Semantic.Record.{validate_kind, text_in, validate_record}

-- What the kind asks of the fields.
pub record KindFits (kind : String) (r : Fields) : Type 0 where
  pub host : contains kind ("HostRead" ∷ "HostWrite" ∷ []) ≡ true → HasAll Kinds.host_fields r
  pub compute : kind ≡ "PIMCompute" → HasAll Kinds.pim_compute_fields r
  pub all_bank : contains kind Kinds.all_bank_record_kinds ≡ true → HasAll Kinds.all_bank_fields r
  pub barrier : kind ≡ "Barrier" → HasAll ("barrier_scope" ∷ []) r
  pub drain : kind ≡ "Drain" → HasAll ("drain_scope" ∷ []) r
  pub dataflow : contains kind Kinds.transformer_dataflow_record_kinds ≡ true → IsDataflow kind r

pub record IsRecord (r : Fields) : Type 0 where
  pub common : HasAll Kinds.required_common r
  pub version : get "schema_version" r ≡ some (str "v0.1")
  pub kind : String
  pub has_kind : get "kind" r ≡ some (str kind)
  pub known : contains kind Kinds.semantic_record_kinds ≡ true
  pub repeat : Value
  pub has_repeat : get "repeat" r ≡ some repeat
  pub positive : le_zero repeat ≡ ok false
  pub fits : KindFits kind r

kind_host :
    (kind : String) (r : Fields)
    → validate_kind kind r ≡ ok tt
    → contains kind ("HostRead" ∷ "HostWrite" ∷ []) ≡ true
    → HasAll Kinds.host_fields r
unfolding validate_kind
kind_host kind r h is_host = require_sound Kinds.host_fields r _ (rw is_host at h)

kind_compute :
    (kind : String) (r : Fields)
    → validate_kind kind r ≡ ok tt
    → kind ≡ "PIMCompute"
    → HasAll Kinds.pim_compute_fields r
unfolding validate_kind
kind_compute kind r h e = require_sound Kinds.pim_compute_fields r _ (rw e at h)

kind_all_bank :
    (kind : String) (r : Fields)
    → validate_kind kind r ≡ ok tt
    → contains kind Kinds.all_bank_record_kinds ≡ true
    → HasAll Kinds.all_bank_fields r
unfolding validate_kind
kind_all_bank kind r h is_all =
    let apart = λ (ys : List String). contains_apart kind Kinds.all_bank_record_kinds ys in
    require_sound Kinds.all_bank_fields r _ (
      rw
        (
          apart ("HostRead" ∷ "HostWrite" ∷ []) refl is_all,
          apart ("PIMCompute" ∷ []) refl is_all,
          is_all,
        )
        at h)

kind_barrier :
    (kind : String) (r : Fields)
    → validate_kind kind r ≡ ok tt
    → kind ≡ "Barrier"
    → HasAll ("barrier_scope" ∷ []) r
unfolding validate_kind
kind_barrier kind r h e = require_sound ("barrier_scope" ∷ []) r _ (rw e at h)

kind_drain :
    (kind : String) (r : Fields)
    → validate_kind kind r ≡ ok tt
    → kind ≡ "Drain"
    → HasAll ("drain_scope" ∷ []) r
unfolding validate_kind
kind_drain kind r h e = require_sound ("drain_scope" ∷ []) r _ (rw e at h)

validate_kind-IsDataflow :
    (kind : String) (r : Fields)
    → validate_kind kind r ≡ ok tt
    → contains kind Kinds.transformer_dataflow_record_kinds ≡ true
    → IsDataflow kind r
unfolding validate_kind
validate_kind-IsDataflow kind r h flows =
    let apart =
      λ (ys : List String). contains_apart kind Kinds.transformer_dataflow_record_kinds ys in
    validate_dataflow-IsDataflow kind r (
      rw
        (
          apart ("HostRead" ∷ "HostWrite" ∷ []) refl flows,
          apart ("PIMCompute" ∷ []) refl flows,
          apart Kinds.all_bank_record_kinds refl flows,
          apart ("Barrier" ∷ []) refl flows,
          apart ("Drain" ∷ []) refl flows,
          flows,
        )
        at h)

validate_kind-KindFits :
    (kind : String) (r : Fields) → validate_kind kind r ≡ ok tt → KindFits kind r
validate_kind-KindFits kind r h = record {
  host = kind_host kind r h;
  compute = kind_compute kind r h;
  all_bank = kind_all_bank kind r h;
  barrier = kind_barrier kind r h;
  drain = kind_drain kind r h;
  dataflow = validate_kind-IsDataflow kind r h;
}

is_true : (b : Bool) (message : String) → raise_if (not b) message ≡ ok tt → b ≡ true
is_true true message h = refl
is_true false message h = cc

text_in_value :
    (v : Value) (texts : List String) {t : String}
    → text_in v texts ≡ ok t
    → (v ≡ str t) × (contains t texts ≡ true)
unfolding text_in in_texts
text_in_value (str s) texts {t} h =
    then_elim (raise_if (not (contains s texts)) "Unsupported Phase 2 semantic record kind") (ok s)
      h
      λ found same.
        let e : s ≡ t = ok_inj same in
        (ap str e, ap (λ x. contains x texts) (sym e) ∙ is_true (contains s texts) _ found)
text_in_value null texts h = absurd (cc)
text_in_value (bool b) texts h = absurd (cc)
text_in_value (int z) texts h = absurd (cc)
text_in_value (float x) texts h = absurd (cc)
text_in_value (arr vs) texts h = absurd (cc)
text_in_value (obj d) texts h = absurd (cc)

-- A record that is accepted has the common fields, the schema version, a known kind, a repeat count
-- that is not `<= 0`, and what its kind asks for: the fields of host, compute, all-bank, barrier and drain records,
-- and for a transformer dataflow record lists of texts, claims and the operator's own fields.
pub validate_record-IsRecord : (r : Fields) → validate_record r ≡ ok tt → IsRecord r
unfolding validate_record
validate_record-IsRecord r h =
    then_elim (require Kinds.required_common r "Record missing required common fields") _ h
      λ common h1. bind_elim (index "schema_version" r) _ h1 λ version ev h2.
        then_elim (raise_if (not (equals_text "v0.1" version)) "Unsupported schema_version") _ h2
          λ is_version h3. bind_elim (index "kind" r) _ h3 λ value ek h4.
            bind_elim (text_in value Kinds.semantic_record_kinds) _ h4 λ kind et h5.
              bind_elim (index "repeat" r) _ h5 λ repeat er h6.
                bind_elim (le_zero repeat) _ h6 λ not_positive en h7.
                  then_elim (raise_if not_positive "Repeat must be positive") _ h7 λ positive h8.
                    let (named, known) = text_in_value value Kinds.semantic_record_kinds et in
                    record {
                      common = require_sound Kinds.required_common r _ common;
                      version =
                          index_value "schema_version" r ev
                          ∙ ap some ((equals_text-true "v0.1" version).0 (is_true _ _ is_version));
                      kind = kind;
                      has_kind = index_value "kind" r ek ∙ ap some named;
                      known = known;
                      repeat = repeat;
                      has_repeat = index_value "repeat" r er;
                      positive = en ∙ ap ok (raise_if-ok not_positive _ positive);
                      fits = validate_kind-KindFits kind r h8;
                    }
