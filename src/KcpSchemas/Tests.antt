-- ===== src/KcpSchemas/Tests.antt =====
-- The schemas of kcp with a converter that keeps group, plural name and versions, and an export that
-- claims the endpoint slices.
use mathlib.Core.List.{map}
use contrib_filteredapiexpor.Prelude.{
  String, true, false, none, some, List, [], ◌∷◌, ◌≡◌, refl, ap, ◌∙◌, arith, eq_iff,
}
use contrib_filteredapiexpor.Error.{ok, is_not_found}
use contrib_filteredapiexpor.Api.{ApiExport, PermissionClaim, same_resource}
use contrib_filteredapiexpor.KeyMap.{get, put}
use contrib_filteredapiexpor.Builtin.Lookup.{add_apis, get_built_in_api_schema}
use contrib_filteredapiexpor.Builtin.Samples.{bare_maker, full_table, is_started}
use contrib_filteredapiexpor.ApiReconciler.Schemas.{
  Version, Sources, Collected, group_name, own_identities, own_only, add_schemas,
  schemas_from_export, claim_kcp, collect_claim, collect_claims, collect,
}
use contrib_filteredapiexpor.ApiReconciler.Definitions.{
  put_fallback, claim_labels, add_claim_requirement, label_requirements, create_version,
  define_version, define_versions, define_schemas, fall_back_bindings, fall_back_slices, define_all,
  torn_down, has_nil,
}
use contrib_filteredapiexpor.ApiReconciler.Serves.{HasEntry}
use contrib_filteredapiexpor.ApiReconciler.Expected.{IsRound}
use contrib_filteredapiexpor.ApiReconciler.Reconcile.{replace_set, set_of, rebuild, reconcile}
use contrib_filteredapiexpor.ApiReconciler.Reachable.{new_state}
use contrib_filteredapiexpor.ApiReconciler.Samples.{widget_export, sample_sources, sample_makers}
use contrib_filteredapiexpor.KcpSchemas.{
  Crd, RawVersion, RawSchema, Converters, Table, slices_resource, wipe, convert, load, load_config,
  init, kcp_schema, as_schema,
}
use contrib_filteredapiexpor.KcpSchemas.Traced.{HasTables, built_in_schema}
use contrib_filteredapiexpor.KcpSchemas.Mismatch.{claimed_slices_unserved}
use contrib_filteredapiexpor.Samples.{sample_slice}

opened : Unit {0}
unfolding wipe convert load load_config init put get kcp_schema
opened = tt

round_opened : Unit {0}
unfolding is_not_found same_resource get put own_identities own_only add_schemas schemas_from_export
    claim_kcp collect_claim collect_claims collect put_fallback claim_labels add_claim_requirement
    label_requirements create_version define_version define_versions define_schemas
    fall_back_bindings fall_back_slices define_all torn_down has_nil set_of rebuild reconcile
    replace_set add_apis built_in_schema get_built_in_api_schema kcp_schema
round_opened = tt

abbrev kcp_crd : String → Crd
kcp_crd resource = record {
  group = "apis.kcp.io";
  plural = resource;
  versions = record { name = "v1alpha1"; served = true } ∷ [];
}

abbrev raw_version : Version → RawVersion
raw_version v = record { version = v; raw = "{}" }

abbrev raw_schema : Crd → RawSchema
raw_schema crd = record {
  uid = "";
  cluster = "";
  group = crd.group;
  plural = crd.plural;
  versions = map raw_version crd.versions;
}

map-raw_version :
    (versions : List Version) → map (λ v. v.version) (map raw_version versions) ≡ versions
map-raw_version [] = refl
map-raw_version (v ∷ versions) = ap (λ l. v ∷ l) (map-raw_version versions)

abbrev sample_lib : Converters
sample_lib = record {
  unmarshal_crd = λ resource. ok (kcp_crd resource);
  unmarshal_config = none;
  crd_to_schema = λ crd. ok (raw_schema crd);
  open_schema = ok "open";
  crd_group = λ resource crd h.
      (let same : crd ≡ kcp_crd resource = ground (arith, h) in ap (λ c. c.group) same);
  converted = λ crd s h.
      (let same : s ≡ raw_schema crd = ground (arith, h) in
        (
          ap (λ x. x.group) same,
          ap (λ x. x.plural) same,
          ap (λ x. map (λ v. v.version) x.versions) same ∙ map-raw_version crd.versions,
        ));
}

abbrev open_raw : String → String → RawSchema
open_raw group plural = record {
  uid = "";
  cluster = "";
  group = group;
  plural = plural;
  versions = record { version = record { name = "v1alpha1"; served = true }; raw = "open" } ∷ [];
}

abbrev sample_table : Table
sample_table =
    ("apibindings", open_raw "apis.kcp.io" "apibindings")
    ∷ ("apiresourceschemas", open_raw "apis.kcp.io" "apiresourceschemas")
    ∷ ("apiexports", open_raw "apis.kcp.io" "apiexports")
    ∷ (slices_resource, open_raw "filteredapiexport.kcp.io" slices_resource)
    ∷ []

loaded : init sample_lib ≡ ok sample_table
unfolding opened
loaded = refl

abbrev slices_claim : PermissionClaim
slices_claim = record {
  group = group_name;
  resource = slices_resource;
  verbs = "*" ∷ [];
  identity_hash = "";
}

abbrev claiming : ApiExport
claiming = record widget_export { schemas = []; permission_claims = slices_claim ∷ [] }

abbrev table_sources : Sources
table_sources = record sample_sources {
  built_in = built_in_schema full_table;
  kcp_schema = kcp_schema sample_table;
}

abbrev tables : HasTables table_sources
tables = record {
  maker = bare_maker;
  built_in_table = full_table;
  built_in_started = is_started;
  built_in = λ gr. refl;
  lib = sample_lib;
  table = sample_table;
  started = loaded;
  kcp = λ resource. refl;
}

abbrev collected : Collected
collected = record {
  schemas =
      (
        record { group = group_name; resource = slices_resource },
        as_schema (open_raw "filteredapiexport.kcp.io" slices_resource),
      )
      ∷ [];
  identities = [];
  claims = (record { group = group_name; resource = slices_resource }, slices_claim) ∷ [];
  claims_api_bindings = false;
  claims_endpoint_slices = true;
}

is_round : IsRound table_sources (λ cluster name. ok claiming) sample_slice claiming collected
unfolding round_opened
is_round = record {
  export_found = refl;
  has_identity = λ p. ground (arith, (eq_iff "own" "").1 p);
  collected = refl;
}

claimed_slices_unserved_example :
    ¬ HasEntry
      (set_of
        (reconcile table_sources sample_makers
          (λ cluster name. ok claiming)
          new_state
          (some sample_slice)
          "org/mine").0
        "org/mine")
      (record { group = group_name; version = "v1alpha1"; resource = slices_resource })
unfolding round_opened
claimed_slices_unserved_example =
    claimed_slices_unserved table_sources tables sample_makers (λ cluster name. ok claiming)
      new_state sample_slice "org/mine" claiming collected (λ s version identity reqs. refl)
      is_round refl refl "v1alpha1" _ refl
