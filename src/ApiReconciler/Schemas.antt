-- ===== src/ApiReconciler/Schemas.antt =====
-- apiexport_apireconciler_reconcile.go: the schemas that an export serves, its own and the claimed ones.
use contrib_filteredapiexpor.Prelude.{
  String, Bool, true, false, Option, none, some, List, [], ◌∷◌, ◌==◌, ◌&&◌, ◌||◌, if◌then◌else◌,
}
use contrib_filteredapiexpor.Error.{Result, ok, err, is_not_found}
use contrib_filteredapiexpor.Api.{
  ApiExport, PermissionClaim, GroupResource, same_resource, same_resource_iff,
}
use contrib_filteredapiexpor.KeyMap.{Keys, get, put}

-- apisv1alpha1.APIResourceVersion, as far as it is read
pub record Version : Type 0 where
  pub name : String
  pub served : Bool

-- apisv1alpha1.APIResourceSchema: its UID, the annotation with its cluster, its group, its plural name
-- and its versions.
pub record Schema : Type 0 where
  pub uid : String
  pub cluster : String
  pub group : String
  pub plural : String
  pub versions : List Version

abbrev pub resource_keys : Keys
resource_keys = record { Key = GroupResource; same = same_resource; same_iff = same_resource_iff }

-- Spec.Group and Spec.Names.Plural
abbrev pub resource_of : Schema → GroupResource
resource_of s = record { group = s.group; resource = s.plural }

abbrev pub claimed : PermissionClaim → GroupResource
claimed pc = record { group = pc.group; resource = pc.resource }

-- The caches and tables that the reconciler reads; `sort_slice` is sort.Slice.
pub record Sources : Type 0 where
  pub get_schema : String → String → Result Schema
  pub built_in : GroupResource → Option Schema
  pub kcp_schema : String → Option Schema
  pub exports_by_identity : String → Result (List ApiExport)
  pub sort_slice : (ApiExport → ApiExport → Bool) → List ApiExport → List ApiExport
  pub less : String → String → Bool

-- What the loop over the claims fills in: the maps `apiResourceSchemas`, `identities` and `claims`, and
-- the two flags.
pub record Collected : Type 0 where
  pub schemas : List (GroupResource × Schema)
  pub identities : List (GroupResource × String)
  pub claims : List (GroupResource × PermissionClaim)
  pub claims_api_bindings : Bool
  pub claims_endpoint_slices : Bool

abbrev pub apis_group : String
apis_group = "apis.kcp.io"

abbrev pub group_name : String
group_name = "filteredvw.kcp.io"

-- `apiResourceSchemas[gr] = s`, `claims[gr] = pc`
abbrev pub claim_schema : PermissionClaim → Schema → Collected → Collected
claim_schema pc s c = record c {
  schemas = put resource_keys (claimed pc) s c.schemas;
  claims = put resource_keys (claimed pc) pc c.claims;
}

-- A candidate of an export with the claimed identity, where it is of the claimed resource.
unfoldable pub claim_candidate : PermissionClaim → Schema → Collected → Collected
claim_candidate pc s c =
    if s.group == pc.group && s.plural == pc.resource
    then record (claim_schema pc s c) {
      identities = put resource_keys (claimed pc) pc.identity_hash c.identities;
    }
    else c

unfoldable pub claim_candidates :
    PermissionClaim → List (GroupResource × Schema) → Collected → Collected
claim_candidates pc [] c = c
claim_candidates pc ((gr, s) ∷ rest) c = claim_candidates pc rest (claim_candidate pc s c)

-- identities[gr] = apiExport.Status.IdentityHash, for each gr of the schemas
unfoldable pub own_identities :
    String → List (GroupResource × Schema) → List (GroupResource × String)
own_identities hash [] = []
own_identities hash ((gr, s) ∷ rest) = (gr, hash) ∷ own_identities hash rest

-- What is collected before the loop over the claims.
unfoldable pub own_only : ApiExport → List (GroupResource × Schema) → Collected
own_only export own = record {
  schemas = own;
  identities = own_identities export.identity_hash own;
  claims = [];
  claims_api_bindings = false;
  claims_endpoint_slices = false;
}

module _ (src : Sources) where
  -- The loop of `getSchemasFromAPIExport`; a schema that is not found is passed over.
  unfoldable pub add_schemas :
      String → List String → List (GroupResource × Schema) → Result (List (GroupResource × Schema))
  add_schemas cluster [] m = ok m
  add_schemas cluster (name ∷ names) m = elim (src.get_schema cluster name) [
    | ok s ↦ add_schemas cluster names (put resource_keys (resource_of s) s m)
    | err e ↦ let rest = add_schemas cluster names m in if is_not_found e then rest else err e
  ]

  -- getSchemasFromAPIExport
  unfoldable pub schemas_from_export : ApiExport → Result (List (GroupResource × Schema))
  schemas_from_export export = add_schemas export.cluster export.schemas []

  -- The order of `sort.Slice`.
  unfoldable pub sorts_before : ApiExport → ApiExport → Bool
  sorts_before a b = src.less a.name b.name && src.less a.cluster b.cluster

  -- The loop over the exports of the claimed identity.
  unfoldable pub claim_exports : PermissionClaim → List ApiExport → Collected → Result Collected
  claim_exports pc [] c = ok c
  claim_exports pc (export ∷ exports) c = elim (schemas_from_export export) [
    | err e ↦ err e
    | ok candidates ↦ claim_exports pc exports (claim_candidates pc candidates c)
  ]

  -- The end of a round of the loop over the claims, for a claim with an identity.
  unfoldable pub claim_by_identity : PermissionClaim → Collected → Result Collected
  claim_by_identity pc c = elim (src.exports_by_identity pc.identity_hash) [
    | err e ↦ err e
    | ok exports ↦ claim_exports pc (src.sort_slice sorts_before exports) c
  ]

  -- A claim of a resource of kcp's own groups.
  unfoldable pub claim_kcp : PermissionClaim → Collected → Collected
  claim_kcp pc c = elim (src.kcp_schema pc.resource) [
    | none ↦ c
    | some s ↦ record (claim_schema pc s c) {
      claims_api_bindings =
          if pc.group == apis_group && pc.resource == "apibindings"
          then true
          else c.claims_api_bindings;
      claims_endpoint_slices =
          if pc.group == group_name && pc.resource == "filteredapiexportendpointslices"
          then true
          else c.claims_endpoint_slices;
    }
  ]

  -- One round of the loop over the claims of the export, in the cluster of the export.
  unfoldable pub collect_claim : String → PermissionClaim → Collected → Result Collected
  collect_claim cluster pc c = elim (get resource_keys (claimed pc) c.schemas) [
    | some shadowing ↦ ok c
    | none ↦ elim (src.built_in (claimed pc)) [
      | some s ↦ ok (claim_schema pc (record s { cluster = cluster }) c)
      | none ↦
          if pc.group == apis_group || pc.group == group_name
          then ok (claim_kcp pc c)
          else if pc.identity_hash == ""
          then ok c
          else claim_by_identity pc c
    ]
  ]

  unfoldable pub collect_claims : String → List PermissionClaim → Collected → Result Collected
  collect_claims cluster [] c = ok c
  collect_claims cluster (pc ∷ claims) c = elim (collect_claim cluster pc c) [
    | err e ↦ err e
    | ok c' ↦ collect_claims cluster claims c'
  ]

  -- The schemas of the export itself, and then those of its claims.
  unfoldable pub collect : ApiExport → Result Collected
  collect export = elim (schemas_from_export export) [
    | err e ↦ err e
    | ok own ↦ collect_claims export.cluster export.permission_claims (own_only export own)
  ]
