-- ===== src/Storage/Tests.antt =====
-- The definition of the claimed config maps of the sample export, and the fallback for endpoint slices.
use mathlib.Core.List.{Memᴰ, map, ◌++◌}
use mathlib.Core.List.Memᴰ
use contrib_filteredapiexpor.Prelude.{
  String, Bool, true, false, none, some, List, [], ◌∷◌, ◌==◌, ◌&&◌, ◌≡◌, ◌↔◌, inl, inr, refl, ap,
  subst, ◌∙◌, arith, any, All, &&_iff, contains_iff, Option-cases,
}
use contrib_filteredapiexpor.Error.{ok}
use contrib_filteredapiexpor.Api.{Labels, Requirement, LabelSelector, same_resource}
use contrib_filteredapiexpor.LabelMap.{lookup}
use contrib_filteredapiexpor.KeyMap.{get}
use contrib_filteredapiexpor.ApiReconciler.Definitions.{
  Gvr, Makers, claim_labels, add_claim_requirement, label_requirements,
}
use contrib_filteredapiexpor.ApiReconciler.Samples.{widget_export, config_schema, sample_makers}
use contrib_filteredapiexpor.ApiReconciler.RoundSample.{collected}
use contrib_filteredapiexpor.KcpSchemas.{Table}
use contrib_filteredapiexpor.Storage.{
  StorageLibrary, ApiDefinition, delegating, read_only, wrapper_of, provide_filtered,
  create_api_definition, create_fallback,
}
use contrib_filteredapiexpor.Storage.Shown.{
  Semantics, Shows, HasClaimLabel, created-Shows_iff, create_fallback-Shows_iff,
}
use contrib_filteredapiexpor.Samples.{sample_slice}

-- Every requirement is read as one with "in".
abbrev is_in : Requirement → Labels → Bool
is_in req labels = elim (lookup req.key labels) [
  | none ↦ false
  | some v ↦ any (λ y. y == v) req.values
]

is_in_iff :
    (req : Requirement) (labels : Labels)
    → (is_in req labels ≡ true)
      ↔ ((v : String) × (lookup req.key labels ≡ some v) × Memᴰ v req.values)
is_in_iff req labels = elim (Option-cases (lookup req.key labels)) [
  | inl e ↦ (λ h. absurd (ground (arith, h, e)), λ (v, f, m). absurd (ground (arith, e, f)))
  | inr (w, e) ↦ (
    λ h. (w, e, (contains_iff req.values w).0 (ground (arith, h, e))),
    λ (v, f, m).
        let same : v ≡ w = ground (arith, e, f) in
        ground (arith, e, (contains_iff req.values w).1 (subst (λ x. Memᴰ x req.values) same m)),
  )
]

abbrev is_one_of : String → List String → Requirement
is_one_of key values = record { key = key; operator = "in"; values = values }

abbrev all_satisfied : List Requirement → Labels → Bool
all_satisfied [] labels = true
all_satisfied (r ∷ reqs) labels = is_in r labels && all_satisfied reqs labels

all_satisfied_iff :
    (reqs : List Requirement) (labels : Labels)
    → All (λ r. is_in r labels ≡ true) reqs ↔ (all_satisfied reqs labels ≡ true)
all_satisfied_iff [] labels = (λ h. refl, λ h. tt)
all_satisfied_iff (r ∷ reqs) labels =
    let below = all_satisfied_iff reqs labels in
    let both = &&_iff (is_in r labels) (all_satisfied reqs labels) in
    (λ (p, h). both.1 (p, below.0 h), λ h. ((both.0 h).0, below.1 (both.0 h).1))

one_value_iff :
    (key value : String) (labels : Labels)
    → All (λ r. is_in r labels ≡ true) (is_one_of key (value ∷ []) ∷ [])
      ↔ (lookup key labels ≡ some value)
one_value_iff key value labels =
    let law = is_in_iff (is_one_of key (value ∷ [])) labels in
    (
      λ (h, _).
          let (v, found, m) = law.0 h in
          elim (Memᴰ.cases_cons m) [ inl p ↦ found ∙ ap some p | inr t ↦ elim t [ ] ],
      λ found. (law.1 (value, found, Memᴰ.head refl), tt),
    )

abbrev sample_storage : StorageLibrary
sample_storage = record {
  to_api_binding_export_label_value = λ cluster name. name;
  requirements_from_set = λ key value. some (is_one_of key (value ∷ []) ∷ []);
  satisfies = is_in;
  provide_read_only = λ reqs. none;
  create_serving_info_for = λ s version provider. none;
  requirements_from_set_iff = λ key value reqs labels h.
      (let same : (is_one_of key (value ∷ []) ∷ []) ≡ reqs = ground (arith, h) in
        subst (λ l. All (λ r. is_in r labels ≡ true) l ↔ (lookup key labels ≡ some value)) same
          (one_value_iff key value labels));
}

abbrev label_in : String × String → Requirement
label_in (key, value) = is_one_of key (value ∷ [])

abbrev requirements_of : LabelSelector → List Requirement
requirements_of selector = map label_in selector.match_labels ++ selector.match_expressions

abbrev storage_makers : Makers
storage_makers = record sample_makers {
  requirements = λ selector. ok (some (requirements_of selector));
}

abbrev sample_semantics : Semantics sample_storage storage_makers
sample_semantics = record {
  matches = λ selector labels. all_satisfied (requirements_of selector) labels;
  requirements_iff = λ selector reqs labels h.
      (let same : requirements_of selector ≡ reqs = ground (arith, h) in
        subst
          (λ l.
            All (λ r. is_in r labels ≡ true) l
            ↔ (all_satisfied (requirements_of selector) labels ≡ true))
          same (all_satisfied_iff (requirements_of selector) labels));
  new_requirement_iff = λ key values req labels h.
      (let same : is_one_of key values ≡ req = ground (arith, h) in
        subst
          (λ r.
            (is_in r labels ≡ true) ↔ ((v : String) × (lookup key labels ≡ some v) × Memᴰ v values))
          same (is_in_iff (is_one_of key values) labels));
}

abbrev config_maps : Gvr
config_maps = record { group = ""; version = "v1"; resource = "configmaps" }

abbrev config_requirements : List Requirement
config_requirements =
    is_one_of "team" ("a" ∷ []) ∷ is_one_of "claimed.internal.apis.kcp.io/" ("widgets" ∷ []) ∷ []

required :
    label_requirements storage_makers widget_export collected
      sample_slice.spec.object_selector.label_selector config_maps
    ≡ ok config_requirements
unfolding label_requirements add_claim_requirement claim_labels get same_resource
required = refl

abbrev config_definition : ApiDefinition
config_definition = record {
  schema = config_schema;
  version = "v1";
  provider = delegating "" (some config_requirements);
  has_cancel = true;
}

created :
    (create_api_definition sample_storage "export" config_schema "v1" "" config_requirements).0
    ≡ ok config_definition
unfolding create_api_definition wrapper_of
created = refl

created-Shows_iff_example : Shows sample_storage config_definition.provider (("team", "a") ∷ []) ↔ (
    (sample_semantics.matches sample_slice.spec.object_selector.label_selector (("team", "a") ∷ [])
      ≡ true)
    × HasClaimLabel sample_storage storage_makers sample_semantics widget_export collected
        config_maps
        (("team", "a") ∷ []))
created-Shows_iff_example =
    created-Shows_iff sample_storage storage_makers sample_semantics widget_export collected
      config_maps sample_slice.spec.object_selector.label_selector config_requirements "export"
      config_schema "v1" "" config_definition (("team", "a") ∷ []) required created

abbrev slices_table : Table
slices_table =
    (
      "filteredapiexportendpointslices",
      record {
        uid = "";
        cluster = "";
        group = "filteredapiexport.kcp.io";
        plural = "filteredapiexportendpointslices";
        versions = [];
      },
    )
    ∷ []

abbrev fallback : ApiDefinition
fallback = record {
  schema = record {
    uid = "";
    cluster = "";
    group = "filteredapiexport.kcp.io";
    plural = "filteredapiexportendpointslices";
    versions = [];
  };
  version = "v1alpha1";
  provider = read_only (is_one_of "export" ("widgets" ∷ []) ∷ []);
  has_cancel = false;
}

fallback_created :
    create_fallback sample_storage "export" slices_table "filteredapiexportendpointslices"
      "v1alpha1" "provider" "widgets"
    ≡ some (ok fallback)
unfolding create_fallback provide_filtered get
fallback_created = refl

create_fallback-Shows_iff_example :
    Shows sample_storage fallback.provider [] ↔ (lookup "export" [] ≡ some "widgets")
create_fallback-Shows_iff_example =
    create_fallback-Shows_iff sample_storage "export" slices_table "filteredapiexportendpointslices"
      "v1alpha1" "provider" "widgets" fallback [] fallback_created
