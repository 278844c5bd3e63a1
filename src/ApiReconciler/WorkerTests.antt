-- ===== src/ApiReconciler/WorkerTests.antt =====
-- The events and the worker of the API reconciler at the sample data.
use mathlib.Core.List.{Memᴰ}
use contrib_filteredapiexpor.Prelude.{true, none, some, [], ◌∷◌, ◌≡◌, ◌≢◌, ◌⊎◌, ◌↔◌, refl}
use contrib_filteredapiexpor.Error.{api, ok, err}
use contrib_filteredapiexpor.Api.{EndpointSlice}
use contrib_filteredapiexpor.ApiReconciler.Enqueue.{add, enqueue_slice, enqueue_api_export}
use contrib_filteredapiexpor.ApiReconciler.Queued.{
  IsClaimant, CanEnqueue, enqueue_slice_adds_iff, enqueue_api_export_adds_iff,
}
use contrib_filteredapiexpor.ApiReconciler.SchemaEvents.{
  IsUserAmong, enqueue_api_resource_schema_adds_iff,
}
use contrib_filteredapiexpor.ApiReconciler.Enqueue.{enqueue_api_resource_schema}
use contrib_filteredapiexpor.ApiReconciler.Worker.{World, start_worker}
use contrib_filteredapiexpor.ApiReconciler.Unique.{IsUnique}
use contrib_filteredapiexpor.ApiReconciler.Reachable.{
  start_worker-IsUnique, new_state, new_state-IsUnique,
}
use contrib_filteredapiexpor.ApiReconciler.Samples.{
  near_slice, sample_caches, sample_world, widget_export,
}

abbrev sample_lookups : CanEnqueue sample_caches "provider|mine" near_slice
sample_lookups = record {
  own = "provider|mine";
  own_key = refl;
  export = widget_export;
  export_found = refl;
  others = widget_export ∷ [];
  claiming = refl;
  listed = ((near_slice ∷ [], refl), tt);
}

enqueue_slice_adds_iff_example :
    Memᴰ (add "provider|mine") (enqueue_slice sample_caches near_slice) ↔ (
      (sample_lookups.own ≡ "provider|mine")
      ⊎ ((widget_export.identity_hash ≢ "") × IsClaimant sample_caches "provider|mine" "own"))
enqueue_slice_adds_iff_example =
    enqueue_slice_adds_iff sample_caches "provider|mine" near_slice sample_lookups

enqueue_api_export_adds_iff_example :
    Memᴰ (add "provider|mine") (enqueue_api_export sample_caches (ok "provider|widgets") "widgets")
    ↔ ((s : EndpointSlice) × Memᴰ s (near_slice ∷ [])
        × (s.spec.api_export.name ≡ "widgets")
        × Memᴰ (add "provider|mine") (enqueue_slice sample_caches s))
enqueue_api_export_adds_iff_example =
    enqueue_api_export_adds_iff sample_caches "provider|mine" "provider|widgets" "provider"
      "widgets" "widgets" (near_slice ∷ []) refl refl

enqueue_api_resource_schema_adds_iff_example :
    Memᴰ
      (add "provider|mine")
      (enqueue_api_resource_schema sample_caches (ok "provider|widgets.v1") "widgets.v1")
    ↔ IsUserAmong sample_caches "provider|mine" "widgets.v1" (near_slice ∷ [])
enqueue_api_resource_schema_adds_iff_example =
    enqueue_api_resource_schema_adds_iff sample_caches "provider|mine" "widgets.v1"
      "provider|widgets.v1" "provider" "widgets" (near_slice ∷ []) refl refl
      ((widget_export, refl), tt)

abbrev later_world : World
later_world = record sample_world { get_slice = λ cluster name. err (api true "gone") }

start_worker-IsUnique_example :
    IsUnique
      (start_worker new_state (
        (sample_world, some "org|mine")
        ∷ (sample_world, some "org|mine")
        ∷ (later_world, some "org|mine")
        ∷ (sample_world, none)
        ∷ [])).0
start_worker-IsUnique_example =
    start_worker-IsUnique new_state
      ((sample_world, some "org|mine")
        ∷ (sample_world, some "org|mine")
        ∷ (later_world, some "org|mine")
        ∷ (sample_world, none)
        ∷ [])
      new_state-IsUnique
