-- ===== src/Request.antt =====
-- A request inside the virtual workspace: what its context carries, and who asks for what. The
-- types are those of k8s.io/apiserver; the listers are the informers' caches, as functions.
pub mod Bindings
use contrib_filteredapiexpor.Prelude.{
  String, Bool, true, false, Option, none, some, List, [], ◌∷◌, ◌==◌, ◌&&◌, find,
}
use contrib_filteredapiexpor.Text.{split}
use contrib_filteredapiexpor.Error.{Error, errorf, Result, ok, err}
use contrib_filteredapiexpor.Url.{Cluster}
use contrib_filteredapiexpor.Api.{EndpointSlice, ApiExport, ApiBinding, GroupResource}

-- What `ValidClusterFrom` and `APIDomainKeyFrom` return for the request's context.
pub record Context : Type 0 where
  pub valid_cluster : Result Cluster
  pub domain_key : String

-- user.Info; of the extra fields, their names and values
pub record User : Type 0 where
  pub name : String
  pub uid : String
  pub groups : List String
  pub extra : List (String × List String)

-- authorizer.Attributes
pub record Attributes : Type 0 where
  pub user : User
  pub verb : String
  pub namespace : String
  pub api_group : String
  pub api_version : String
  pub resource : String
  pub subresource : String
  pub name : String
  pub resource_request : Bool
  pub path : String

abbrev pub requested : Attributes → GroupResource
requested attr = record { group = attr.api_group; resource = attr.resource }

pub data Decision : Type 0 where
  deny allow no_opinion : Decision

-- The reason of a decision: a text, or a format with its arguments, the last of which may be the
-- reason of another decision.
pub data Reason : Type 0 where
  plain : String → Reason
  reasonf : (format : String) → (args : List String) → Reason
  because : (format : String) → (args : List String) → Reason → Reason

-- The three results of `Authorize`.
pub record Verdict : Type 0 where
  pub decision : Decision
  pub reason : Reason
  pub error : Option Error

-- `return decision, reason, nil`
abbrev pub verdict : Decision → Reason → Verdict
verdict d r = record { decision = d; reason = r; error = none }

-- `return authorizer.DecisionNoOpinion, "", err`
abbrev pub failure : Error → Verdict
failure e = record { decision = no_opinion; reason = plain ""; error = some e }

abbrev pub Authorizer : Type 0
Authorizer = Context → Attributes → Verdict

-- The caches that the authorizers and the admission read, by cluster and name.
pub record Listers : Type 0 where
  pub get_slice : String → String → Result EndpointSlice
  pub get_export : String → String → Result ApiExport
  pub list_bindings : String → Result (List (Option ApiBinding))
  pub exports_by_identity : String → Result (List ApiExport)

-- The first two parts of the API domain key: the cluster and the name of the endpoint slice.
unfoldable pub key_parts : String → Option (String × String)
key_parts key = elim (split "/" key) [ cluster ∷ name ∷ _ ↦ some (cluster, name) | _ ↦ none ]

-- The test of the loop in `getAPIBindingByExport`; a nil binding is passed over.
unfoldable pub binds_export : String → String → Option ApiBinding → Bool
binds_export name cluster none = false
binds_export name cluster (some binding) = elim binding.export_name [
  | none ↦ false
  | some export ↦ export == name && binding.export_cluster == cluster
]

-- The binding that the search found.
abbrev pub found_binding : String → Option (Option ApiBinding) → Result ApiBinding
found_binding message (some (some binding)) = ok binding
found_binding message _ = err (errorf message [])

-- getAPIBindingByExport, with the message of its error
unfoldable pub binding_by_export : Listers → String → String → String → String → Result ApiBinding
binding_by_export l message cluster name export_cluster = elim (l.list_bindings cluster) [
  | err e ↦ err e
  | ok bindings ↦ found_binding message (find (binds_export name export_cluster) bindings)
]
