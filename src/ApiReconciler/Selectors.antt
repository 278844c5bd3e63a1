-- ===== src/ApiReconciler/Selectors.antt =====
-- apiexport_apireconciler_reconcile.go: what a round makes of the selector of its endpoint slice.
use contrib_filteredapiexpor.Prelude.{
  String, true, false, some, List, [], ◌∷◌, ◌==◌, ◌≡◌, inl, inr, refl, sym, ap, ◌∙◌, arith, eq_iff,
  Bool-cases, All,
}
use contrib_filteredapiexpor.Error.{Result, ok, Result-cases}
use contrib_filteredapiexpor.Api.{ApiExport, EndpointSlice, LabelSelector, GroupResource}
use contrib_filteredapiexpor.KeyMap.{get}
use contrib_filteredapiexpor.ApiReconciler.Schemas.{Version, Schema, Sources, Collected}
use contrib_filteredapiexpor.ApiReconciler.Definitions.{
  gvr_keys, Definition, DefinitionSet, Makers, Built, gvr_of, is_current, define_version,
  define_versions, define_schemas, define_all,
}
use contrib_filteredapiexpor.ApiReconciler.Expected.{IsRound}
use contrib_filteredapiexpor.ApiReconciler.Reconcile.{State, set_of, rebuild, reconcile}

module _ (mk : Makers) (export : ApiExport) (c : Collected) (old : DefinitionSet) where
  -- The version is not served, or has a definition of the current schema and identity.
  abbrev pub IsUpToDate : Schema → Version → Type 0
  IsUpToDate s v =
      v.served ≡ true
      → (d : Definition) × (get gvr_keys (gvr_of mk export c s v) old ≡ some d)
        × (is_current mk export c s d ≡ true)

  -- All versions of these schemas are.
  abbrev pub AreUpToDate : List (GroupResource × Schema) → Type 0
  AreUpToDate schemas = All (λ entry. All (λ v. IsUpToDate entry.1 v) entry.1.versions) schemas

  module _ (a b : LabelSelector) where
    define_version_selector :
        (s : Schema) (v : Version) (built : Built)
        → IsUpToDate s v
        → define_version mk export c a old s v built ≡ define_version mk export c b old s v built
    unfolding define_version
    define_version_selector s v built u = elim (Bool-cases v.served) [
      | inr n ↦ ground (arith, n)
      | inl y ↦ let (d, e, z) = u y in ground (arith, y, e, z)
    ]

    define_versions_selector :
        (s : Schema) (versions : List Version) (built : Built)
        → All (λ v. IsUpToDate s v) versions
        → define_versions mk export c a old s versions built
          ≡ define_versions mk export c b old s versions built
    unfolding define_versions
    define_versions_selector s [] built u = refl
    define_versions_selector s (v ∷ versions) built (u, later) =
        let first = define_version_selector s v built u in
        elim (Result-cases (define_version mk export c a old s v built)) [
          | inr (x, e) ↦ ground (arith, e, first)
          | inl (next, e) ↦ ground (arith, e, first, define_versions_selector s versions next later)
        ]

    define_schemas_selector :
        (schemas : List (GroupResource × Schema)) (built : Built)
        → AreUpToDate schemas
        → define_schemas mk export c a old schemas built
          ≡ define_schemas mk export c b old schemas built
    unfolding define_schemas
    define_schemas_selector [] built u = refl
    define_schemas_selector ((gr, s) ∷ schemas) built (u, later) =
        let first = define_versions_selector s s.versions built u in
        elim (Result-cases (define_versions mk export c a old s s.versions built)) [
          | inr (x, e) ↦ ground (arith, e, first)
          | inl (next, e) ↦ ground (arith, e, first, define_schemas_selector schemas next later)
        ]

-- Where every served version of what was collected already has a definition of its schema and of the
-- export's identity, a round does not depend on the selector: two endpoint slices of one cluster that name
-- the same export, whatever their selectors, lead to the same state and the same error.
pub reconcile_selector :
    (src : Sources) (mk : Makers) (get_export : String → String → Result ApiExport) (st : State)
    (key : String) (slice other : EndpointSlice) (export : ApiExport) (c : Collected)
    → IsRound src get_export slice export c
    → AreUpToDate mk export c (set_of st key) c.schemas
    → slice.cluster ≡ other.cluster
    → slice.spec.api_export.name ≡ other.spec.api_export.name
    → reconcile src mk get_export st (some slice) key
      ≡ reconcile src mk get_export st (some other) key
unfolding reconcile rebuild define_all
reconcile_selector src mk get_export st key slice other export c r u cluster name =
    let has : (export.identity_hash == "") ≡ false =
      ground (arith, r.has_identity, eq_iff export.identity_hash "") in
    let same_export : get_export other.cluster other.spec.api_export.name ≡ ok export =
      sym (
        ap (λ x. get_export x slice.spec.api_export.name) cluster
        ∙ ap (λ x. get_export other.cluster x) name)
      ∙ r.export_found in
    let same =
      define_schemas_selector mk export c (set_of st key) slice.spec.object_selector.label_selector
        other.spec.object_selector.label_selector c.schemas (record { next = st.next; set = [] })
        u in
    ground (arith, r.export_found, same_export, has, r.collected, same)
