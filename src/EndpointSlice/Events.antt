-- ===== src/EndpointSlice/Events.antt =====
-- endpointslice_controller.go: the handlers that NewController adds to the informers.
use contrib_filteredapiexpor.Prelude.{String, List, [], ◌≡◌, ap}
use contrib_filteredapiexpor.Api.{ApiExport, EndpointSlice}
use contrib_filteredapiexpor.Informers.{
  Delivered, object, Event, added, updated, deleted, last_seen,
}
use contrib_filteredapiexpor.EndpointSlice.Reconcile.{ClusterPaths}
use contrib_filteredapiexpor.EndpointSlice.Enqueue.{
  Call, Informer, enqueue_slice, enqueue_for_api_export,
}

-- An export with its annotation of the path of its cluster.
pub record AnnotatedExport : Type 0 where
  pub annotation : String
  pub export : ApiExport

-- tombstone.Obj of kcp: the object that was delivered, or the one in the tombstone.
pub record Tombstones : Type 0 where
  pub slice_of : Delivered EndpointSlice → EndpointSlice
  pub slice_of_seen : (d : Delivered EndpointSlice) → slice_of d ≡ last_seen d
  pub export_of : Delivered AnnotatedExport → AnnotatedExport
  pub export_of_seen : (d : Delivered AnnotatedExport) → export_of d ≡ last_seen d

module _ (paths : ClusterPaths) (informer : Informer paths) (tombstones : Tombstones) where
  -- The handlers of the endpoint slices.
  unfoldable pub on_slice : Event EndpointSlice → List Call
  on_slice (added s) = enqueue_slice paths informer (tombstones.slice_of (object s))
  on_slice (updated old s) = enqueue_slice paths informer (tombstones.slice_of (object s))
  on_slice (deleted obj) = enqueue_slice paths informer (tombstones.slice_of obj)

  -- controller.enqueueFilteredAPIExportEndpointSlicesForAPIExport of what was delivered
  unfoldable pub enqueue_for : AnnotatedExport → List Call
  enqueue_for e = enqueue_for_api_export paths informer e.annotation e.export

  -- The handlers of the exports, which have no UpdateFunc.
  unfoldable pub on_export : Event AnnotatedExport → List Call
  on_export (added e) = enqueue_for (tombstones.export_of (object e))
  on_export (updated old e) = []
  on_export (deleted obj) = enqueue_for (tombstones.export_of obj)

  -- A deletion of an endpoint slice that the watch has missed is handled as the deletion of the object that
  -- was seen last.
  on_slice_deleted :
      (obj : Delivered EndpointSlice)
      → on_slice (deleted obj) ≡ enqueue_slice paths informer (last_seen obj)
  unfolding on_slice
  on_slice_deleted obj = ap (λ s. enqueue_slice paths informer s) (tombstones.slice_of_seen obj)

  -- So is a deletion of an export.
  on_export_deleted :
      (obj : Delivered AnnotatedExport)
      → on_export (deleted obj)
        ≡ enqueue_for_api_export paths informer (last_seen obj).annotation (last_seen obj).export
  unfolding on_export enqueue_for
  on_export_deleted obj =
      ap (λ e. enqueue_for_api_export paths informer e.annotation e.export)
        (tombstones.export_of_seen obj)
