-- ===== src/ApiReconciler/Samples.antt =====
-- Sample data of the reconciler of the API definitions: an export that serves widgets and claims config
-- maps and its own widgets.
use contrib_filteredapiexpor.Prelude.{String, true, false, none, some, [], ◌∷◌, ◌==◌, if◌then◌else◌}
use contrib_filteredapiexpor.Error.{api, Result, ok, err}
use contrib_filteredapiexpor.Api.{ApiExport, EndpointSlice, PermissionClaim}
use contrib_filteredapiexpor.ApiReconciler.Enqueue.{Caches}
use contrib_filteredapiexpor.ApiReconciler.Schemas.{Schema, Sources}
use contrib_filteredapiexpor.ApiReconciler.Definitions.{Makers}
use contrib_filteredapiexpor.ApiReconciler.Worker.{World}
use contrib_filteredapiexpor.Samples.{sample_slice, config_claim}

abbrev pub widget_schema : Schema
widget_schema = record {
  uid = "u1";
  cluster = "provider";
  group = "example.io";
  plural = "widgets";
  versions = record { name = "v1"; served = true } ∷ record { name = "v0"; served = false } ∷ [];
}

abbrev pub config_schema : Schema
config_schema = record {
  uid = "u2";
  cluster = "";
  group = "";
  plural = "configmaps";
  versions = record { name = "v1"; served = true } ∷ [];
}

abbrev pub widget_claim : PermissionClaim
widget_claim = record {
  group = "example.io";
  resource = "widgets";
  verbs = "*" ∷ [];
  identity_hash = "own";
}

abbrev pub widget_export : ApiExport
widget_export = record {
  name = "widgets";
  cluster = "provider";
  identity_hash = "own";
  schemas = "widgets.v1" ∷ "gone" ∷ [];
  permission_claims = config_claim ∷ widget_claim ∷ [];
  maximal_permission_policy = none;
}

abbrev pub sample_sources : Sources
sample_sources = record {
  get_schema =
      λ cluster name. if name == "widgets.v1" then ok widget_schema else err (api true "no schema");
  built_in = λ gr. if gr.resource == "configmaps" then some config_schema else none;
  kcp_schema = λ resource. none;
  exports_by_identity = λ hash. ok [];
  sort_slice = λ less exports. exports;
  less = λ a b. false;
}

abbrev pub sample_makers : Makers
sample_makers = record {
  requirements = λ selector. ok (some selector.match_expressions);
  claim_label = λ cluster name pc. ok ("claimed.internal.apis.kcp.io/", name);
  reflexive_label = λ cluster name. name;
  new_requirement = λ key values. ok (record { key = key; operator = "in"; values = values });
  create = λ s version identity reqs. none;
  create_api_binding = λ version cluster name. none;
  create_endpoint_slice = λ version cluster name. none;
}

abbrev pub export_of : String → String → Result ApiExport
export_of cluster name = ok widget_export

abbrev pub sample_world : World
sample_world = record {
  sources = sample_sources;
  makers = sample_makers;
  get_export = export_of;
  split_key = λ key. ok ("org", "mine");
  get_slice = λ cluster name. ok sample_slice;
}

-- Caches with one export, in the workspace "provider" of its one endpoint slice, that claims itself.
abbrev pub near_slice : EndpointSlice
near_slice = record sample_slice { cluster = "provider" }

abbrev pub sample_caches : Caches
sample_caches = record {
  deletion_key = λ slice. ok "provider|mine";
  meta_key = λ slice. ok "provider|mine";
  split_key = λ key. ok ("provider", "widgets");
  get_export = λ path name. ok widget_export;
  exports_claiming = λ identity. ok (widget_export ∷ []);
  list_slices = λ cluster. ok (near_slice ∷ []);
}
