-- ===== src/Builtin.antt =====
-- internal/virtual/filteredapiexport/schemas/builtin/builtin.go: the APIs of Kubernetes and kcp that an
-- export can claim without an identity.
pub mod Early
pub mod Late
pub mod Lookup
pub mod Samples
use contrib_filteredapiexpor.Prelude.{String, Bool}
use contrib_filteredapiexpor.Api.{GroupResource}

-- apiextensionsv1.ResourceScope
pub data Scope : Type 0 where
  cluster_scoped namespace_scoped : Scope

-- internalapis.InternalAPI, with the name of the type of its instance
pub record InternalApi : Type 0 where
  pub plural : String
  pub singular : String
  pub kind : String
  pub group : String
  pub version : String
  pub instance_type : String
  pub scope : Scope
  pub has_status : Bool

abbrev pub api_resource : InternalApi → GroupResource
api_resource a = record { group = a.group; resource = a.plural }
