-- ===== src/ApiReconciler/Enqueue.antt =====
-- apiexport_apireconciler_controller.go: which keys the handlers of the informers' events put into the
-- queue.
use mathlib.Core.List.{◌++◌}
use contrib_filteredapiexpor.Prelude.{String, List, [], ◌∷◌, ◌==◌, if◌then◌else◌}
use contrib_filteredapiexpor.Error.{Error, Result, ok, err}
use contrib_filteredapiexpor.Api.{ApiExport, EndpointSlice}

-- The calls that the controller makes, in their order: of the queue, of utilruntime and of the logger.
pub data Call : Type 0 where
  add : (key : String) → Call
  handle_error log_error : Error → Call
  forget add_rate_limited done : (key : String) → Call

-- The lookups: the keys of objects (of kcpcache), their split, and the informers' caches. A lister
-- returns an object or an error, never neither.
pub record Caches : Type 0 where
  pub deletion_key : EndpointSlice → Result String
  pub meta_key : EndpointSlice → Result String
  pub split_key : String → Result (String × String)
  pub get_export : String → String → Result ApiExport
  pub exports_claiming : String → Result (List ApiExport)
  pub list_slices : String → Result (List EndpointSlice)

module _ (caches : Caches) where
  -- The inner loop of `enqueueFilteredAPIExportEndpointSlice`.
  unfoldable pub add_slices_of : String → List EndpointSlice → List Call
  add_slices_of name [] = []
  add_slices_of name (slice ∷ slices) =
      let rest = add_slices_of name slices in
      if slice.spec.api_export.name == name
      then elim (caches.meta_key slice) [ err e ↦ log_error e ∷ rest | ok key ↦ add key ∷ rest ]
      else rest

  -- Its outer loop, over the exports that claim the identity.
  unfoldable pub add_claimants : List ApiExport → List Call
  add_claimants [] = []
  add_claimants (other ∷ others) = elim (caches.list_slices other.cluster) [
    | err e ↦ log_error e ∷ []
    | ok slices ↦ add_slices_of other.name slices ++ add_claimants others
  ]

  -- The endpoint slices of the exports that claim the identity.
  unfoldable pub add_claiming : String → List Call
  add_claiming identity = elim (caches.exports_claiming identity) [
    | err e ↦ log_error e ∷ []
    | ok others ↦ add_claimants others
  ]

  -- What follows the key of the endpoint slice itself.
  unfoldable pub enqueue_claimants : EndpointSlice → List Call
  enqueue_claimants slice =
      elim (caches.get_export slice.spec.api_export.path slice.spec.api_export.name) [
        | err e ↦ handle_error e ∷ []
        | ok export ↦
            let claimants = add_claiming export.identity_hash in
            if export.identity_hash == "" then [] else claimants
      ]

  -- APIReconciler.enqueueFilteredAPIExportEndpointSlice
  unfoldable pub enqueue_slice : EndpointSlice → List Call
  enqueue_slice slice = elim (caches.deletion_key slice) [
    | err e ↦ handle_error e ∷ []
    | ok key ↦ add key ∷ enqueue_claimants slice
  ]

  -- The loop over the resources of an export, for the schema that has changed.
  unfoldable pub enqueue_for_each : EndpointSlice → String → List String → List Call
  enqueue_for_each slice name [] = []
  enqueue_for_each slice name (schema ∷ schemas) =
      let rest = enqueue_for_each slice name schemas in
      if schema == name then enqueue_slice slice ++ rest else rest

  -- The loop of `enqueueAPIResourceSchema`.
  unfoldable pub enqueue_users : String → List EndpointSlice → List Call
  enqueue_users name [] = []
  enqueue_users name (slice ∷ slices) =
      elim (caches.get_export slice.spec.api_export.path slice.spec.api_export.name) [
        | err e ↦ handle_error e ∷ []
        | ok export ↦ enqueue_for_each slice name export.schemas ++ enqueue_users name slices
      ]

  -- The loop of `enqueueAPIExport`.
  unfoldable pub enqueue_referring : String → List EndpointSlice → List Call
  enqueue_referring name [] = []
  enqueue_referring name (slice ∷ slices) =
      let rest = enqueue_referring name slices in
      if slice.spec.api_export.name == name then enqueue_slice slice ++ rest else rest

  -- How `enqueueAPIResourceSchema` and `enqueueAPIExport` begin: the endpoint slices of the object's
  -- cluster, from the object's key.
  unfoldable pub with_slices : Result String → (List EndpointSlice → List Call) → List Call
  with_slices object_key continue = elim object_key [
    | err e ↦ handle_error e ∷ []
    | ok key ↦ elim (caches.split_key key) [
      | err e ↦ handle_error e ∷ []
      | ok (cluster, name) ↦ elim (caches.list_slices cluster) [
        | err e ↦ handle_error e ∷ []
        | ok slices ↦ continue slices
      ]
    ]
  ]

  -- APIReconciler.enqueueAPIResourceSchema, for a schema with that key and name
  unfoldable pub enqueue_api_resource_schema : Result String → String → List Call
  enqueue_api_resource_schema object_key name = with_slices object_key (enqueue_users name)

  -- APIReconciler.enqueueAPIExport, for an export with that key and name
  unfoldable pub enqueue_api_export : Result String → String → List Call
  enqueue_api_export object_key name = with_slices object_key (enqueue_referring name)
