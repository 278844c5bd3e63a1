-- ===== src/ApiReconciler/FiltersTests.antt =====
-- A constructor that refuses definitions without label requirements.
use contrib_filteredapiexpor.Prelude.{
  Bool, true, false, some, List, [], ◌∷◌, ◌≡◌, inl, inr, ap, ◌∙◌, arith,
}
use mathlib.Core.List.{◌++◌}
use contrib_filteredapiexpor.Error.{ok}
use contrib_filteredapiexpor.Api.{Requirement}
use contrib_filteredapiexpor.ApiReconciler.Definitions.{Makers}
use contrib_filteredapiexpor.ApiReconciler.Reconcile.{reconcile}
use contrib_filteredapiexpor.ApiReconciler.Reachable.{new_state}
use contrib_filteredapiexpor.ApiReconciler.Filters.{
  Guard, guarded, AdmitsRequired, reconcile-guarded,
}
use contrib_filteredapiexpor.ApiReconciler.Samples.{
  widget_export, sample_sources, sample_makers, export_of,
}
use contrib_filteredapiexpor.ApiReconciler.RoundSample.{collected, sample-IsRound}
use contrib_filteredapiexpor.Samples.{sample_slice}

abbrev of_team : Requirement
of_team = record { key = "team"; operator = "in"; values = "a" ∷ [] }

abbrev team_makers : Makers
team_makers = record sample_makers { requirements = λ selector. ok (some (of_team ∷ [])) }

abbrev is_filtered : List Requirement → Bool
is_filtered [] = false
is_filtered (r ∷ reqs) = true

abbrev filtered_only : Guard
filtered_only s version identity reqs = is_filtered reqs

admits_required :
    AdmitsRequired filtered_only team_makers widget_export collected
      sample_slice.spec.object_selector.label_selector
admits_required s v identity reqs r i =
    let own : r.own ≡ of_team ∷ [] = ground (arith, r.selected) in
    elim r.with_claim [
      | inl (_, same) ↦ ground (arith, same ∙ own)
      | inr (pc, req, _, _, same) ↦ ground (arith, same ∙ ap (λ l. l ++ (req ∷ [])) own)
    ]

reconcile-guarded_example :
    reconcile sample_sources
      (guarded filtered_only team_makers)
      export_of
      new_state
      (some sample_slice)
      "org/mine"
    ≡ reconcile sample_sources team_makers export_of new_state (some sample_slice) "org/mine"
reconcile-guarded_example =
    reconcile-guarded filtered_only sample_sources team_makers export_of new_state "org/mine"
      sample_slice widget_export collected sample-IsRound admits_required
