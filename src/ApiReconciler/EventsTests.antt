-- ===== src/ApiReconciler/EventsTests.antt =====
-- The notifications of the API reconciler at the sample data.
use mathlib.Core.List.{◌++◌}
use contrib_filteredapiexpor.Prelude.{String, true, false, [], ◌∷◌, ◌≡◌, refl}
use contrib_filteredapiexpor.Error.{Result, ok}
use contrib_filteredapiexpor.Api.{ApiExport}
use contrib_filteredapiexpor.Informers.{object, deleted_final_state_unknown, added, deleted}
use contrib_filteredapiexpor.ApiReconciler.Events.{Notification, slice, export, run, run-missed}
use contrib_filteredapiexpor.ApiReconciler.Samples.{widget_export, sample_caches}
use contrib_filteredapiexpor.Samples.{sample_slice}

abbrev widgets_key : ApiExport → Result String
widgets_key e = ok "provider|widgets"

abbrev missed_slice : Notification
missed_slice = slice (deleted (deleted_final_state_unknown "provider|mine" sample_slice))

run-missed_example :
    ((run sample_caches widgets_key (export (added widget_export) ∷ [])).1 ≡ true)
    × (run sample_caches widgets_key (
          (export (added widget_export) ∷ [])
          ++ missed_slice ∷ export (deleted (object widget_export)) ∷ [])
        ≡ ((run sample_caches widgets_key (export (added widget_export) ∷ [])).0, false))
run-missed_example =
    run-missed sample_caches widgets_key (export (added widget_export) ∷ [])
      (export (deleted (object widget_export)) ∷ []) missed_slice (refl, tt) refl
