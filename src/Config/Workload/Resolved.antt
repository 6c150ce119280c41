-- ===== src/Config/Workload/Resolved.antt =====
-- What `_resolve_workload` returns, and when.
use ramulator.Prelude.{
  ◌≡◌, ◌↔◌, refl, ap, sym, ◌∙◌, true, some, ok, ok_inj, all_checks, Option-cases, inl, inr,
  bind_elim, then_elim,
}
use ramulator.PyValue.{
  Value, Fields, end, field, keyed, str, obj, get, get_or_default, insert, update, index, has,
  insert_same, has-update,
}
use ramulator.Config.Check.{expect_mapping, reject_unknown}
use ramulator.Config.Check.Laws.{KnownKeys, reject_unknown-ok_iff, index_ok}
use ramulator.Config.Model.{resolve_model}
use ramulator.Config.Model.Accepted.{IsModel, resolve_model-ok_iff}
use ramulator.Config.Workload.{
  default_workload, supported_workload_fields, workload_checks, set_model, read_model,
  resolve_supplied, resolve_workload,
}
use ramulator.Config.Workload.Accepted.{IsWorkload, checks-ok_iff}

set_model_same :
    (model : Value) (d : Fields)
    → get "model" d ≡ some model
    → has "datatype" d ≡ true
    → set_model model d ≡ d
unfolding set_model
set_model_same model d found typed = elim (Option-cases (get "datatype" d)) [
  | inl missing ↦ absurd (cc (rw missing at typed))
  | inr (v, e) ↦
      rw (insert_same "model" model d found)
        (ap (λ u. insert "datatype" u d) (there v e) ∙ insert_same "datatype" v d e)
]
  where
    there : (v : Value) → get "datatype" d ≡ some v → get_or_default "datatype" (str "int8") d ≡ v
    there v e = rw (e, get_or_default) refl

-- What a dictionary of workload fields becomes, and when.
pub record Resolves (supplied w : Fields) : Type 0 where
  pub known : KnownKeys supported_workload_fields supplied
  pub merged : w ≡ update default_workload supplied
  pub model : Value
  pub names_model : get "model" w ≡ some model
  pub is_model : IsModel model
  pub is_workload : IsWorkload model supplied w

pub update_default-set_model :
    (s : Fields) (model : Value)
    → get "model" (update default_workload s) ≡ some model
    → set_model model (update default_workload s) ≡ update default_workload s
unfolding get default_workload
update_default-set_model s model found =
    set_model_same model (update default_workload s) found
      (has-update "datatype" default_workload s typed)
  where
    typed : has "datatype" default_workload ≡ true
    typed = refl

pub read_model_sound :
    (d : Fields) (model : Value)
    → read_model d ≡ ok model
    → (get "model" d ≡ some model) × IsModel model
unfolding read_model
read_model_sound d model h = bind_elim (index "model" d) resolve_model h λ v found resolved.
    let (same, good) = (resolve_model-ok_iff v model).0 resolved in
    (index_ok "model" d found ∙ ap some (sym same), rw same good)

read_model_complete :
    (d : Fields) (model : Value)
    → get "model" d ≡ some model
    → IsModel model
    → read_model d ≡ ok model
unfolding read_model
read_model_complete d model found good =
    rw (found, index) ((resolve_model-ok_iff model model).1 (refl, good))

pub resolve_supplied_sound : (s w : Fields) → resolve_supplied s ≡ ok w → Resolves s w
unfolding resolve_supplied
resolve_supplied_sound s w h =
    then_elim (reject_unknown s supported_workload_fields "workload") _ h λ known h1.
      bind_elim (read_model merged) _ h1 λ model read h2.
        then_elim (all_checks (workload_checks model s (set_model model merged))) _ h2 λ good h3.
          let (named, is_model) = read_model_sound merged model read in
          let whole : set_model model merged ≡ w = ok_inj h3 in
          let same : w ≡ merged = sym whole ∙ update_default-set_model s model named in
          record {
            known = (reject_unknown-ok_iff s _ _).0 known;
            merged = same;
            model = model;
            names_model = ap (get "model") same ∙ named;
            is_model = is_model;
            is_workload = (checks-ok_iff model s w is_model).0 (rw whole at good);
          }
  where
    merged : Fields
    merged = update default_workload s

pub resolve_supplied_complete : (s w : Fields) → Resolves s w → resolve_supplied s ≡ ok w
unfolding resolve_supplied
resolve_supplied_complete s w r =
    let named = ap (get "model") (sym r.merged) ∙ r.names_model in
    let same = update_default-set_model s r.model named ∙ sym r.merged in
    rw (
      (reject_unknown-ok_iff s supported_workload_fields "workload").1 r.known,
      read_model_complete (update default_workload s) r.model named r.is_model,
      same,
      (checks-ok_iff r.model s w r.is_model).1 r.is_workload,
    )

resolve_workload_obj : (s : Fields) → resolve_workload (obj s) ≡ resolve_supplied s
unfolding resolve_workload expect_mapping
resolve_workload_obj end = refl
resolve_workload_obj (field k v s) = refl
resolve_workload_obj (keyed k v s) = refl

-- `_resolve_workload` returns `w` for a dictionary exactly if the dictionary has known keys only, `w`
-- is the defaults updated by it, the model in `w` is one that `_resolve_model` takes, each setting of
-- `w` is one of its choices or in its range, prefill and a custom model come with the serialized
-- policy, and a built-in model supports the phase.
pub resolve_workload-ok_iff : (s w : Fields) → (resolve_workload (obj s) ≡ ok w) ↔ Resolves s w
resolve_workload-ok_iff s w =
    rw (resolve_workload_obj s) (resolve_supplied_sound s w, resolve_supplied_complete s w)
