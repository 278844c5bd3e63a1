-- ===== src/Storage.antt =====
-- internal/virtual/filteredapiexport/builder: forwarding.go, and the constructors of API definitions in
-- build.go.
pub mod Shown
mod Tests
use mathlib.Core.List.{Memᴰ}
use contrib_filteredapiexpor.Prelude.{
  String, Bool, true, false, Option, none, some, List, [], ◌∷◌, ◌≡◌, ◌↔◌, All, if◌then◌else◌,
}
use contrib_filteredapiexpor.Error.{Error, errorf, Result, ok, err}
use contrib_filteredapiexpor.Api.{Labels, Requirement}
use contrib_filteredapiexpor.LabelMap.{lookup}
use contrib_filteredapiexpor.KeyMap.{text_keys, get}
use contrib_filteredapiexpor.ApiReconciler.Schemas.{Schema}
use contrib_filteredapiexpor.KcpSchemas.{Table, as_schema, slices_resource}

-- The functions that a storage can offer, by their types in the package forwardingregistry.
pub data Function : Type 0 where
  factory list_factory destroyer getter lister updater watcher creater : Function
  collection_deleter graceful_deleter table_convertor categories_provider : Function
  reset_fields_strategy : Function

-- What the storage of provideDelegatingRestStorage offers.
abbrev pub main_functions : List Function
main_functions =
    factory ∷ list_factory ∷ destroyer ∷ getter ∷ lister ∷ updater ∷ watcher ∷ creater
    ∷ collection_deleter ∷ graceful_deleter ∷ table_convertor ∷ categories_provider
    ∷ reset_fields_strategy ∷ []

-- And that of the subresource `status`.
abbrev pub status_functions : List Function
status_functions =
    factory ∷ destroyer ∷ getter ∷ updater ∷ table_convertor ∷ categories_provider
    ∷ reset_fields_strategy ∷ []

-- The storages of the subresources, by name.
abbrev pub subresource_storages : Bool → List (String × List Function)
subresource_storages status_enabled =
    if status_enabled then ("status", status_functions) ∷ [] else []

-- A builder of storages: one that only reads, with static label requirements, or one that forwards, for an
-- identity, with the label requirements of its wrapper, where it has one.
pub data Provider : Type 0 where
  read_only : (requirements : List Requirement) → Provider
  delegating : (identity_hash : String) (wrapper : Option (List Requirement)) → Provider

-- The libraries: permissionclaims.ToAPIBindingExportLabelValue; the requirements of
-- labels.SelectorFromSet for one label, `none` where it is not selectable; whether labels satisfy a
-- requirement; and the errors of registry.ProvideReadOnlyRestStorage and apiserver.CreateServingInfoFor.
-- The requirements of a set are satisfied by the labels that contain it.
pub record StorageLibrary : Type 0 where
  pub to_api_binding_export_label_value : String → String → String
  pub requirements_from_set : String → String → Option (List Requirement)
  pub satisfies : Requirement → Labels → Bool
  pub provide_read_only : List Requirement → Option Error
  pub create_serving_info_for : Schema → String → Provider → Option Error
  pub requirements_from_set_iff :
      (key value : String) (reqs : List Requirement) (labels : Labels)
      → requirements_from_set key value ≡ some reqs
      → All (λ r. satisfies r labels ≡ true) reqs ↔ (lookup key labels ≡ some value)

-- An API definition: its schema, its version, its storage, and whether its TearDown cancels the context of
-- the storage.
pub record ApiDefinition : Type 0 where
  pub schema : Schema
  pub version : String
  pub provider : Provider
  pub has_cancel : Bool

-- What is called on a definition.
pub data Called : Type 0 where
  cancel_fn tear_down : Called

-- apiDefinitionWithCancel.TearDown, or that of the definition alone
abbrev pub tear_down_calls : ApiDefinition → List Called
tear_down_calls d = if d.has_cancel then cancel_fn ∷ tear_down ∷ [] else tear_down ∷ []

-- `wrapper` of the constructor for schemas
unfoldable pub wrapper_of : List Requirement → Option (List Requirement)
wrapper_of [] = none
wrapper_of (r ∷ reqs) = some (r ∷ reqs)

-- `label_key` is InternalAPIBindingExportLabelKey of kcp.
module _ (lib : StorageLibrary) (label_key : String) where
  -- provideAPIExportFilteredRestStorage
  unfoldable pub provide_filtered : String → String → Result Provider
  provide_filtered cluster export =
      elim (lib.requirements_from_set label_key
        (lib.to_api_binding_export_label_value cluster export)) [
          | none ↦ err (errorf "unable to create a selector from the provided labels" [])
          | some reqs ↦ elim (lib.provide_read_only reqs) [
            | some e ↦ err e
            | none ↦ ok (read_only reqs)
          ]
        ]

  -- The constructor of the definitions of schemas: the definition, and what is called on the way.
  unfoldable pub create_api_definition :
      Schema → String → String → List Requirement → Result ApiDefinition × List Called
  create_api_definition s version identity reqs =
      let provider = delegating identity (wrapper_of reqs) in
      elim (lib.create_serving_info_for s version provider) [
        | some e ↦ (err e, cancel_fn ∷ [])
        | none ↦ (
          ok (record { schema = s; version = version; provider = provider; has_cancel = true }),
          [],
        )
      ]

  -- A constructor of a fallback, for the resource of the table. (Where the table has no such resource,
  -- CreateServingInfoFor is given a nil schema, and panics.)
  unfoldable pub create_fallback :
      Table → String → String → String → String → Option (Result ApiDefinition)
  create_fallback table resource version cluster export = elim (provide_filtered cluster export) [
    | err e ↦ some (err e)
    | ok provider ↦ elim (get text_keys resource table) [
      | none ↦ none
      | some raw ↦ elim (lib.create_serving_info_for (as_schema raw) version provider) [
        | some e ↦ some (err e)
        | none ↦ some (
            ok (record {
              schema = as_schema raw;
              version = version;
              provider = provider;
              has_cancel = false;
            }))
      ]
    ]
  ]

  -- The constructor of the definitions of API bindings.
  abbrev pub create_api_binding_definition :
      Table → String → String → String → Option (Result ApiDefinition)
  create_api_binding_definition table = create_fallback table "apibindings"

  -- The constructor of the definitions of endpoint slices.
  abbrev pub create_endpoint_slice_definition :
      Table → String → String → String → Option (Result ApiDefinition)
  create_endpoint_slice_definition table = create_fallback table slices_resource
