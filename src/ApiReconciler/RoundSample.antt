-- ===== src/ApiReconciler/RoundSample.antt =====
-- Sample data of the reconciler of the API definitions: what is collected for the sample export.
use contrib_filteredapiexpor.Prelude.{String, false, [], ◌∷◌, refl, arith, eq_iff}
use contrib_filteredapiexpor.Error.{panics, is_not_found}
use contrib_filteredapiexpor.Api.{same_resource}
use contrib_filteredapiexpor.KeyMap.{get, put}
use contrib_filteredapiexpor.ApiReconciler.Schemas.{
  Collected, own_identities, own_only, add_schemas, schemas_from_export, collect_claim,
  collect_claims, collect,
}
use contrib_filteredapiexpor.ApiReconciler.Definitions.{
  put_fallback, claim_labels, add_claim_requirement, label_requirements, create_version,
  define_version, define_versions, define_schemas, fall_back_bindings, fall_back_slices, define_all,
  torn_down, has_nil,
}
use contrib_filteredapiexpor.ApiReconciler.Expected.{IsRound}
use contrib_filteredapiexpor.ApiReconciler.Handles.{CreatesAll}
use contrib_filteredapiexpor.ApiReconciler.Real.{HasHandlesAt}
use contrib_filteredapiexpor.ApiReconciler.Reachable.{new_state}
use contrib_filteredapiexpor.ApiReconciler.Reconcile.{
  process, replace_set, set_of, rebuild, reconcile,
}
use contrib_filteredapiexpor.ApiReconciler.Worker.{process_next_work_item, start_worker}
use contrib_filteredapiexpor.ApiReconciler.Samples.{
  widget_schema, config_schema, widget_export, sample_sources, sample_makers, export_of,
}
use contrib_filteredapiexpor.Samples.{sample_slice, config_claim}

unfoldable pub opened : Unit {0}
unfolding is_not_found same_resource get put own_identities own_only add_schemas schemas_from_export
    collect_claim collect_claims collect put_fallback claim_labels add_claim_requirement
    label_requirements create_version define_version define_versions define_schemas
    fall_back_bindings fall_back_slices define_all set_of rebuild reconcile process panics
    process_next_work_item start_worker replace_set torn_down has_nil
opened = tt

abbrev pub collected : Collected
collected = record {
  schemas =
      (record { group = "example.io"; resource = "widgets" }, widget_schema)
      ∷ (
        record { group = ""; resource = "configmaps" },
        record config_schema { cluster = "provider" },
      )
      ∷ [];
  identities = (record { group = "example.io"; resource = "widgets" }, "own") ∷ [];
  claims = (record { group = ""; resource = "configmaps" }, config_claim) ∷ [];
  claims_api_bindings = false;
  claims_endpoint_slices = false;
}

pub sample-IsRound : IsRound sample_sources export_of sample_slice widget_export collected
unfolding opened
sample-IsRound = record {
  export_found = refl;
  has_identity = λ p. ground (arith, (eq_iff "own" "").1 p);
  collected = refl;
}

pub sample-CreatesAll : CreatesAll sample_makers
sample-CreatesAll = record {
  schemas = λ s version identity reqs. refl;
  bindings = λ version cluster name. refl;
  slices = λ version cluster name. refl;
}

pub new_state-HasHandlesAt : (key : String) → HasHandlesAt new_state key
unfolding get
new_state-HasHandlesAt key set h = absurd (ground (arith, h))
