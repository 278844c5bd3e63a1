-- ===== src/Api.antt =====
-- The API objects: sdk/apis/filteredvw/v1alpha1/types_endpointslice.go, and of the types of kcp and
-- Kubernetes the fields that the program reads.
pub mod Validation
use contrib_filteredapiexpor.Prelude.{
  String, Bool, true, false, Option, List, ◌==◌, ◌&&◌, ◌≡◌, ◌↔◌, eq_iff, &&_iff, arith,
}

-- A Go map from text to text: its entries, in the order in which a loop meets them.
abbrev pub Labels : Type 0
Labels = List (String × String)

-- schema.GroupResource
pub record GroupResource : Type 0 where
  pub group : String
  pub resource : String

-- `==` on group and resource
unfoldable pub same_resource : GroupResource → GroupResource → Bool
same_resource a b = a.group == b.group && a.resource == b.resource

pub same_resource_iff : (a b : GroupResource) → (same_resource a b ≡ true) ↔ (a ≡ b)
unfolding same_resource
same_resource_iff a b = ground (arith, eq_iff a.group b.group, eq_iff a.resource b.resource)

-- metav1.LabelSelectorRequirement
pub record Requirement : Type 0 where
  pub key : String
  pub operator : String
  pub values : List String

-- metav1.LabelSelector
pub record LabelSelector : Type 0 where
  pub match_labels : Labels
  pub match_expressions : List Requirement

-- ExportBindingReference
pub record ExportBindingReference : Type 0 where
  pub path : String
  pub name : String

-- FilteredAPIExportObjectSelector
pub record ObjectSelector : Type 0 where
  pub label_selector : LabelSelector

-- FilteredAPIExportEndpointSliceSpec
pub record SliceSpec : Type 0 where
  pub api_export : ExportBindingReference
  pub object_selector : ObjectSelector

-- conditionsv1alpha1.Condition, without its time stamp
pub record Condition : Type 0 where
  pub kind : String
  pub status : String
  pub reason : String
  pub severity : String
  pub message : String

-- FilteredAPIExportEndpointSliceStatus
pub record SliceStatus : Type 0 where
  pub conditions : List Condition

-- FilteredAPIExportEndpointSlice; of the metadata, the name and the logical cluster.
pub record EndpointSlice : Type 0 where
  pub name : String
  pub cluster : String
  pub spec : SliceSpec
  pub status : SliceStatus

-- apisv1alpha2.PermissionClaim
pub record PermissionClaim : Type 0 where
  pub group : String
  pub resource : String
  pub verbs : List String
  pub identity_hash : String

pub data ClaimState : Type 0 where
  accepted : ClaimState
  other : String → ClaimState

-- The selector of a claim: `MatchAll` beside a label selector.
pub record ClaimSelector : Type 0 where
  pub match_all : Bool
  pub label_selector : LabelSelector

-- A claim of an APIBinding: the claim, its selector and its state.
pub record BindingClaim : Type 0 where
  pub claim : PermissionClaim
  pub selector : ClaimSelector
  pub state : ClaimState

abbrev pub is_accepted : ClaimState → Bool
is_accepted ClaimState.accepted = true
is_accepted (other s) = false

-- apisv1alpha2.APIBinding: the name in Spec.Reference.Export, if that is set,
-- Status.APIExportClusterName, Status.BoundResources and Spec.PermissionClaims.
pub record ApiBinding : Type 0 where
  pub export_name : Option String
  pub export_cluster : String
  pub bound_resources : List GroupResource
  pub permission_claims : List BindingClaim

-- MaximalPermissionPolicy, with whether its `Local` is set
pub record MaximalPermissionPolicy : Type 0 where
  pub has_local : Bool

-- apisv1alpha2.APIExport: the name, the logical cluster, Status.IdentityHash, and of the spec the names
-- of the schemas, the claims and the maximal permission policy.
pub record ApiExport : Type 0 where
  pub name : String
  pub cluster : String
  pub identity_hash : String
  pub schemas : List String
  pub permission_claims : List PermissionClaim
  pub maximal_permission_policy : Option MaximalPermissionPolicy
