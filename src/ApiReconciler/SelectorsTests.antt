-- ===== src/ApiReconciler/SelectorsTests.antt =====
-- A second round for the sample endpoint slice, and for one with another selector.
use contrib_filteredapiexpor.Prelude.{some, [], ◌≡◌, refl, arith}
use contrib_filteredapiexpor.Api.{EndpointSlice}
use contrib_filteredapiexpor.ApiReconciler.Reconcile.{State, set_of, reconcile}
use contrib_filteredapiexpor.ApiReconciler.Reachable.{new_state}
use contrib_filteredapiexpor.ApiReconciler.Selectors.{AreUpToDate, reconcile_selector}
use contrib_filteredapiexpor.ApiReconciler.Samples.{
  widget_export, sample_sources, sample_makers, export_of,
}
use contrib_filteredapiexpor.ApiReconciler.RoundSample.{opened, collected, sample-IsRound}
use contrib_filteredapiexpor.Samples.{sample_slice}

abbrev after_round : State
after_round =
    (reconcile sample_sources sample_makers export_of new_state (some sample_slice) "org/mine").0

-- The endpoint slice that is created again, without a selector.
abbrev recreated : EndpointSlice
recreated = record sample_slice {
  spec = record sample_slice.spec {
    object_selector = record {
      label_selector = record { match_labels = []; match_expressions = [] };
    };
  };
}

up_to_date :
    AreUpToDate sample_makers widget_export collected
      (set_of after_round "org/mine")
      collected.schemas
unfolding opened
up_to_date = (
  (
    λ h. (record { handle = some 0; uid = "u1"; identity_hash = "own" }, refl, refl),
    (λ h. absurd (ground (arith, h)), tt),
  ),
  ((λ h. (record { handle = some 1; uid = "u2"; identity_hash = "own" }, refl, refl), tt), tt),
)

reconcile_selector_example :
    reconcile sample_sources sample_makers export_of after_round (some sample_slice) "org/mine"
    ≡ reconcile sample_sources sample_makers export_of after_round (some recreated) "org/mine"
reconcile_selector_example =
    reconcile_selector sample_sources sample_makers export_of after_round "org/mine" sample_slice
      recreated widget_export collected sample-IsRound up_to_date refl refl
