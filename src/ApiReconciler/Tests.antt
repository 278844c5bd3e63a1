-- ===== src/ApiReconciler/Tests.antt =====
-- The reconciler of the API definitions at sample data: an export that serves widgets and claims config
-- maps and its own widgets.
use contrib_filteredapiexpor.Prelude.{false, some, List, [], ◌≡◌, refl, arith}
use contrib_filteredapiexpor.Error.{panics, ok}
use contrib_filteredapiexpor.Api.{GroupResource}
use contrib_filteredapiexpor.KeyMap.{get}
use contrib_filteredapiexpor.ApiReconciler.Schemas.{Schema, schemas_from_export}
use contrib_filteredapiexpor.ApiReconciler.Shadowing.{Respects, collect-Respects}
use contrib_filteredapiexpor.ApiReconciler.Reconcile.{State, reconcile}
use contrib_filteredapiexpor.ApiReconciler.Invariants.{IsSound}
use contrib_filteredapiexpor.ApiReconciler.Sound.{Cleans, reconcile-IsSound, reconcile-Cleans}
use contrib_filteredapiexpor.ApiReconciler.Samples.{
  widget_export, sample_sources, sample_makers, export_of,
}
use contrib_filteredapiexpor.ApiReconciler.RoundSample.{opened, collected}
use contrib_filteredapiexpor.Samples.{sample_slice}

collect-Respects_example :
    (own : List (GroupResource × Schema)) × (schemas_from_export sample_sources widget_export
      ≡ ok own)
    × Respects own collected
unfolding opened
collect-Respects_example = collect-Respects sample_sources widget_export collected refl

abbrev empty_state : State
empty_state = record { api_sets = []; next = 0; torn = [] }

empty_state-IsSound : IsSound empty_state
unfolding get
empty_state-IsSound = record {
  is_map = λ key set h. absurd (ground (arith, h));
  numbers = λ key set h. absurd (ground (arith, h));
}

-- The state after a first round.
abbrev first_state : State
first_state =
    (reconcile sample_sources sample_makers export_of empty_state (some sample_slice) "org/mine").0

first_state-IsSound : IsSound first_state
first_state-IsSound =
    reconcile-IsSound sample_sources sample_makers export_of empty_state (some sample_slice)
      "org/mine" empty_state-IsSound

survives :
    panics
      (reconcile sample_sources sample_makers export_of first_state
        (some sample_slice)
        "org/mine").1
    ≡ false
unfolding opened panics
survives = refl

reconcile-Cleans_example :
    Cleans first_state "org/mine"
      (reconcile sample_sources sample_makers export_of first_state
        (some sample_slice)
        "org/mine").0
reconcile-Cleans_example =
    reconcile-Cleans sample_sources sample_makers export_of first_state (some sample_slice)
      "org/mine" first_state-IsSound survives
