-- ===== src/ApiReconciler/ServesTests.antt =====
-- What the sample domain key serves after its first round.
use contrib_filteredapiexpor.Prelude.{List, Option, String, none, some, [], ◌∷◌, ◌≡◌, ◌↔◌, refl}
use contrib_filteredapiexpor.ApiReconciler.Definitions.{Gvr, DefinitionSet}
use contrib_filteredapiexpor.ApiReconciler.Handles.{Serves}
use contrib_filteredapiexpor.ApiReconciler.Expected.{IsExpected}
use contrib_filteredapiexpor.ApiReconciler.Real.{reconcile-Serves}
use contrib_filteredapiexpor.ApiReconciler.Reconcile.{reconcile, get_api_definition_set}
use contrib_filteredapiexpor.ApiReconciler.Reachable.{new_state}
use contrib_filteredapiexpor.ApiReconciler.Worker.{World, start_worker, stop}
use contrib_filteredapiexpor.ApiReconciler.Unique.{IsServed}
use contrib_filteredapiexpor.ApiReconciler.Leaks.{removed_leaks}
use mathlib.Core.List.{Memᴰ}
use contrib_filteredapiexpor.ApiReconciler.Samples.{
  sample_world, widget_export, sample_sources, sample_makers, export_of,
}
use contrib_filteredapiexpor.ApiReconciler.RoundSample.{
  opened, collected, sample-IsRound, sample-CreatesAll, new_state-HasHandlesAt,
}
use contrib_filteredapiexpor.Samples.{sample_slice}

succeeds :
    (reconcile sample_sources sample_makers export_of new_state (some sample_slice) "org/mine").1
    ≡ none
unfolding opened
succeeds = refl

abbrev widgets : Gvr
widgets = record { group = "example.io"; version = "v1"; resource = "widgets" }

reconcile-Serves_example :
    ((set : DefinitionSet) × (get_api_definition_set
          (reconcile sample_sources sample_makers export_of new_state
            (some sample_slice)
            "org/mine").0
          "org/mine"
        ≡ some set)
      × Serves set widgets)
    ↔ IsExpected sample_makers widget_export collected widgets
reconcile-Serves_example =
    reconcile-Serves sample_sources sample_makers export_of sample-CreatesAll new_state sample_slice
      "org/mine" widget_export collected (new_state-HasHandlesAt "org/mine") sample-IsRound succeeds
      widgets

-- The worker once it has taken the key of the sample slice.
abbrev one_key : List (World × Option String)
one_key = (sample_world, some "org|mine") ∷ []

IsServed-first : IsServed (start_worker new_state one_key).0 "org/mine" widgets 0
unfolding opened
IsServed-first =
    (_, record { handle = some 0; uid = "u1"; identity_hash = "own" }, refl, refl, refl)

removed_leaks_example :
    ¬ Memᴰ
      (some 0)
      (stop
        (start_worker
          (reconcile sample_sources sample_makers export_of
            (start_worker new_state one_key).0
            none
            "org/mine").0
          one_key).0).torn
removed_leaks_example =
    removed_leaks one_key one_key "org/mine" widgets 0 sample_sources sample_makers export_of
      IsServed-first
