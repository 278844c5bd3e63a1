-- ===== src/ApiReconciler/SettledTests.antt =====
-- An endpoint slice that is added, queued and processed.
use contrib_filteredapiexpor.Prelude.{
  String, some, [], ◌==◌, ◌&&◌, &&_iff, true, subst, ◌≡◌, inl, inr, refl, arith, eq_iff, Bool-cases,
  if◌then◌else◌,
}
use contrib_filteredapiexpor.Error.{panics, api, Result, ok, err, is_not_found}
use contrib_filteredapiexpor.Api.{EndpointSlice}
use contrib_filteredapiexpor.Informers.{added}
use contrib_filteredapiexpor.Url.Shape.{IsPart}
use contrib_filteredapiexpor.ApiReconciler.Enqueue.{
  Caches, add_claimants, add_claiming, enqueue_claimants, enqueue_slice,
}
use contrib_filteredapiexpor.ApiReconciler.Events.{on_slice, notify, run}
use contrib_filteredapiexpor.ApiReconciler.Reconcile.{process, reconcile}
use contrib_filteredapiexpor.ApiReconciler.Reachable.{new_state}
use contrib_filteredapiexpor.ApiReconciler.Worker.{finish, process_calls, process_next_work_item}
use contrib_filteredapiexpor.ApiReconciler.Samples.{
  sample_sources, sample_makers, export_of, sample_caches,
}
use contrib_filteredapiexpor.ApiReconciler.RoundSample.{opened, sample-CreatesAll}
use contrib_filteredapiexpor.ApiReconciler.System.{
  Setting, System, queued, AnswersNotFound, changes, handles, works, IsReachable, initially,
  next_step,
}
use contrib_filteredapiexpor.ApiReconciler.Due.{IsDue}
use contrib_filteredapiexpor.ApiReconciler.Settled.{IsServedRight, settled-IsServedRight}
use contrib_filteredapiexpor.Samples.{sample_slice}

org_IsPart : IsPart "org" × IsPart "mine"
org_IsPart = (
  (ground (arith, eq_iff "org" ""), (refl, (refl, (refl, tt)))),
  (ground (arith, eq_iff "mine" ""), (refl, (refl, (refl, (refl, tt))))),
)

split_IsPart :
    (key cluster name : String)
    → ◌≡◌ {A = Result (String × String)} (ok ("org", "mine")) (ok (cluster, name))
    → IsPart cluster × IsPart name
split_IsPart key cluster name h =
    let same : ("org", "mine") ≡ (cluster, name) = ground (arith, h) in
    subst (λ (x : String × String). IsPart x.0 × IsPart x.1) same org_IsPart

abbrev fixed : Setting
fixed = record {
  sources = sample_sources;
  makers = sample_makers;
  get_export = export_of;
  export_key = λ e. ok "provider|widgets";
  slice_key = λ s. ok "org|mine";
  split_key = λ key. ok ("org", "mine");
  split_key-IsPart = split_IsPart;
}

abbrev empty : String → String → Result EndpointSlice
empty cluster name = err (api true "no slice")

abbrev one_slice : String → String → Result EndpointSlice
one_slice cluster name =
    if cluster == "org" && name == "mine" then ok sample_slice else err (api true "no slice")

empty-AnswersNotFound : AnswersNotFound empty
unfolding is_not_found
empty-AnswersNotFound cluster name e h = ground (arith, h)

one_slice-AnswersNotFound : AnswersNotFound one_slice
unfolding is_not_found
one_slice-AnswersNotFound cluster name e h =
    elim (Bool-cases (cluster == "org" && name == "mine")) [
      | inl y ↦ absurd (ground (arith, h, y))
      | inr n ↦ ground (arith, h, n)
    ]

elsewhere_same : (c n : String) → ¬ ((c ≡ "org") × (n ≡ "mine")) → one_slice c n ≡ empty c n
elsewhere_same c n other = elim (Bool-cases (c == "org" && n == "mine")) [
  | inl y ↦
      let (p, q) = (&&_iff (c == "org") (n == "mine")).0 y in
      absurd (other ((eq_iff c "org").0 p, (eq_iff n "mine").0 q))
  | inr z ↦ ground (arith, z)
]

abbrev org_caches : Caches
org_caches = record sample_caches {
  deletion_key = λ slice. ok "org|mine";
  exports_claiming = λ identity. ok [];
}

abbrev settled : System
settled = record {
  get_slice = one_slice;
  pending = [];
  queue = [];
  state =
      (reconcile sample_sources sample_makers export_of new_state (some sample_slice) "org/mine").0;
}

reached : IsReachable fixed empty settled
unfolding opened add_claimants add_claiming enqueue_claimants enqueue_slice on_slice notify run
    queued finish process_calls process panics process_next_work_item
reached =
    next_step
      (next_step
        (next_step initially (
          changes (added sample_slice) "org|mine" "org" "mine" one_slice refl refl refl
            one_slice-AnswersNotFound elsewhere_same))
        (handles org_caches [] [] (added sample_slice) refl (λ s. refl)))
      (works [] [] "org|mine" refl refl)

not-IsDue : ¬ IsDue fixed settled "org" "mine"
not-IsDue (key, is_split, inl m) = elim m [ ]
not-IsDue (key, is_split, inr (e, m, seen, keyed)) = elim m [ ]

settled-IsServedRight_example : IsServedRight fixed settled "org" "mine"
settled-IsServedRight_example =
    settled-IsServedRight fixed empty settled "org" "mine" sample-CreatesAll empty-AnswersNotFound
      (λ c n. refl) reached org_IsPart not-IsDue
