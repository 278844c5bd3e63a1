-- ===== src/EndpointSlice/Tests.antt =====
-- The controller of the endpoint slices at the sample data.
use contrib_filteredapiexpor.Prelude.{some}
use contrib_filteredapiexpor.EndpointSlice.Reconcile.{
  reconcile, IsReconciled, reconcile-IsReconciled,
}
use contrib_filteredapiexpor.EndpointSlice.Worker.{process_next_work_item}
use contrib_filteredapiexpor.EndpointSlice.Handled.{Handled, process_next_work_item-Handled}
use contrib_filteredapiexpor.Samples.{
  text_cluster_paths, list_conditions, export_at, sample_slice, sample_controller,
}

reconcile-IsReconciled_example :
    IsReconciled text_cluster_paths list_conditions export_at sample_slice
      (reconcile text_cluster_paths list_conditions export_at sample_slice).0
      (reconcile text_cluster_paths list_conditions export_at sample_slice).1
reconcile-IsReconciled_example =
    reconcile-IsReconciled text_cluster_paths list_conditions export_at sample_slice

process_next_work_item-Handled_example :
    Handled sample_controller "mine" (process_next_work_item sample_controller (some "mine")).0
process_next_work_item-Handled_example = process_next_work_item-Handled sample_controller "mine"
