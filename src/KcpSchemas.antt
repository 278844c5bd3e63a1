-- ===== src/KcpSchemas.antt =====
-- internal/virtual/filteredapiexport/schemas: apis.go and file.go, the schemas of the APIs of kcp and of
-- the endpoint slices, which an export can claim.
pub mod Loaded
pub mod Traced
pub mod Mismatch
mod Tests
use mathlib.Core.List.{map}
use contrib_filteredapiexpor.Prelude.{String, Bool, true, Option, none, some, List, [], ◌∷◌, ◌≡◌}
use contrib_filteredapiexpor.Error.{Error, wrap, Result, ok, err}
use contrib_filteredapiexpor.KeyMap.{text_keys, get, put}
use contrib_filteredapiexpor.ApiReconciler.Schemas.{Version, Schema}

-- apiextensionsv1.CustomResourceDefinition, as far as it is read
pub record Crd : Type 0 where
  pub group : String
  pub plural : String
  pub versions : List Version

-- The manifest in file.go.
abbrev pub config_file : Crd
config_file = record {
  group = "filteredapiexport.kcp.io";
  plural = "filteredapiexportendpointslices";
  versions = record { name = "v1alpha1"; served = true } ∷ [];
}

-- apisv1alpha1.APIResourceVersion with its schema, and apisv1alpha1.APIResourceSchema with such versions
pub record RawVersion : Type 0 where
  pub version : Version
  pub raw : String

pub record RawSchema : Type 0 where
  pub uid : String
  pub cluster : String
  pub group : String
  pub plural : String
  pub versions : List RawVersion

-- As the reconciler reads it.
abbrev pub as_schema : RawSchema → Schema
as_schema s = record {
  uid = s.uid;
  cluster = s.cluster;
  group = s.group;
  plural = s.plural;
  versions = map (λ v. v.version) s.versions;
}

-- The libraries: configcrds.Unmarshal by the resource of its file, the error of yaml.Unmarshal on the
-- manifest, CRDToAPIResourceSchema, and json.Marshal of the schema that admits every object. A file of kcp
-- holds a CRD of the group in its name; a conversion keeps group, plural name and versions.
pub record Converters : Type 0 where
  pub unmarshal_crd : String → Result Crd
  pub unmarshal_config : Option Error
  pub crd_to_schema : Crd → Result RawSchema
  pub open_schema : Result String
  pub crd_group :
      (resource : String) (crd : Crd) → unmarshal_crd resource ≡ ok crd → crd.group ≡ "apis.kcp.io"
  pub converted :
      (crd : Crd) (s : RawSchema)
      → crd_to_schema crd ≡ ok s
      → (s.group ≡ crd.group)
        × (s.plural ≡ crd.plural)
        × (map (λ v. v.version) s.versions ≡ crd.versions)

-- The loop over the versions: `v.Schema.Raw = bs`
unfoldable pub wipe : String → List RawVersion → List RawVersion
wipe bs [] = []
wipe bs (v ∷ versions) = record v { raw = bs } ∷ wipe bs versions

-- The resources of the loop of `init`.
abbrev pub apis_resources : List String
apis_resources = "apibindings" ∷ "apiresourceschemas" ∷ "apiexports" ∷ []

abbrev pub slices_resource : String
slices_resource = "filteredapiexportendpointslices"

-- ApisKcpDevSchemas
abbrev pub Table : Type 0
Table = List (String × RawSchema)

-- The converted CRD, with open schemas. An error is the text of a panic.
unfoldable pub convert : Converters → Crd → Result RawSchema
convert lib crd = elim (lib.crd_to_schema crd) [
  | err e ↦
      err (
        wrap "failed to convert CRD %s.%s to APIResourceSchema: %v" (crd.plural ∷ crd.group ∷ []) e)
  | ok s ↦ elim lib.open_schema [
    | err e ↦ err (wrap "failed to marshal JSONSchemaProps: %v" [] e)
    | ok bs ↦ ok (record s { versions = wipe bs s.versions })
  ]
]

-- The loop of `init`.
unfoldable pub load : Converters → List String → Table → Result Table
load lib [] table = ok table
load lib (resource ∷ resources) table = elim (lib.unmarshal_crd resource) [
  | err e ↦ err (wrap "failed to unmarshal apibindings resource: %v" [] e)
  | ok crd ↦ elim (convert lib crd) [
    | err e ↦ err e
    | ok s ↦ load lib resources (put text_keys resource s table)
  ]
]

-- The end of `init`, from the manifest on.
unfoldable pub load_config : Converters → Table → Result Table
load_config lib table = elim lib.unmarshal_config [
  | some e ↦ err (wrap "failed to unmarshal apibindings resource: %v" [] e)
  | none ↦ elim (convert lib config_file) [
    | err e ↦ err e
    | ok s ↦ ok (put text_keys slices_resource s table)
  ]
]

-- `init`
unfoldable pub init : Converters → Result Table
init lib = elim (load lib apis_resources []) [ err e ↦ err e | ok table ↦ load_config lib table ]

-- ApisKcpDevSchemas[resource], as the reconciler reads it
unfoldable pub kcp_schema : Table → String → Option Schema
kcp_schema table resource = elim (get text_keys resource table) [
  | none ↦ none
  | some s ↦ some (as_schema s)
]
