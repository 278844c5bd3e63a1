-- ===== src/Storage/Shown.antt =====
-- Which objects a request sees through an API definition.
use mathlib.Core.List.{Memᴰ, ◌++◌}
use contrib_filteredapiexpor.Prelude.{
  String, Bool, true, none, some, List, [], ◌∷◌, ◌≡◌, ◌↔◌, inl, inr, sym, ap, subst, ◌∙◌, arith,
  All, Option-cases,
}
use contrib_filteredapiexpor.Error.{ok, Result-cases}
use contrib_filteredapiexpor.Api.{Labels, Requirement, LabelSelector, ApiExport, PermissionClaim}
use contrib_filteredapiexpor.LabelMap.{lookup}
use contrib_filteredapiexpor.KeyMap.{text_keys, get}
use contrib_filteredapiexpor.ApiReconciler.Schemas.{Schema, Collected, resource_keys}
use contrib_filteredapiexpor.ApiReconciler.Definitions.{
  Gvr, Makers, group_resource, claim_labels, add_claim_requirement, label_requirements,
}
use contrib_filteredapiexpor.KcpSchemas.{Table, as_schema}
use contrib_filteredapiexpor.Storage.{
  Provider, read_only, delegating, StorageLibrary, ApiDefinition, wrapper_of, provide_filtered,
  create_api_definition, create_fallback,
}

-- The selectors of apimachinery: what labels match a selector. Labels match it when they satisfy all its
-- requirements, and satisfy a requirement "in" when they have one of its values for its key.
pub record Semantics (lib : StorageLibrary) (mk : Makers) : Type 0 where
  pub matches : LabelSelector → Labels → Bool
  pub requirements_iff :
      (selector : LabelSelector) (reqs : List Requirement) (labels : Labels)
      → mk.requirements selector ≡ ok (some reqs)
      → All (λ r. lib.satisfies r labels ≡ true) reqs ↔ (matches selector labels ≡ true)
  pub new_requirement_iff :
      (key : String) (values : List String) (req : Requirement) (labels : Labels)
      → mk.new_requirement key values ≡ ok req
      → (lib.satisfies req labels ≡ true)
        ↔ ((v : String) × (lookup key labels ≡ some v) × Memᴰ v values)

All-append :
    (P : Requirement → Type 0) (xs ys : List Requirement) → All P (xs ++ ys) ↔ (All P xs × All P ys)
All-append P [] ys = (λ h. (tt, h), λ (_, h). h)
All-append P (x ∷ xs) ys =
    let below = All-append P xs ys in
    (λ (p, h). ((p, (below.0 h).0), (below.0 h).1), λ ((p, h), k). (p, below.1 (h, k)))

module _ (lib : StorageLibrary) where
  -- The storage lists an object with these labels.
  abbrev pub Shows : Provider → Labels → Type 0
  Shows (read_only reqs) labels = All (λ r. lib.satisfies r labels ≡ true) reqs
  Shows (delegating identity none) labels = Unit
  Shows (delegating identity (some reqs)) labels = All (λ r. lib.satisfies r labels ≡ true) reqs

  Shows-wrapper :
      (identity : String) (reqs : List Requirement) (labels : Labels)
      → Shows (delegating identity (wrapper_of reqs)) labels
        ↔ All (λ r. lib.satisfies r labels ≡ true) reqs
  unfolding wrapper_of
  Shows-wrapper identity [] labels = (λ h. h, λ h. h)
  Shows-wrapper identity (r ∷ reqs) labels = (λ h. h, λ h. h)

  module _ (label_key : String) where
    provider_of_created :
        (s : Schema) (version identity : String) (reqs : List Requirement) (d : ApiDefinition)
        → (create_api_definition lib label_key s version identity reqs).0 ≡ ok d
        → d.provider ≡ delegating identity (wrapper_of reqs)
    unfolding create_api_definition
    provider_of_created s version identity reqs d h =
        elim (Option-cases
          (lib.create_serving_info_for s version (delegating identity (wrapper_of reqs)))) [
            | inr (x, e) ↦ absurd (ground (arith, h, e))
            | inl e ↦ ground (arith, h, e)
          ]

    -- A fallback's definition shows exactly the objects that carry the label of the API bindings of the
    -- export.
    pub create_fallback-Shows_iff :
        (table : Table) (resource version cluster export : String) (d : ApiDefinition)
        (labels : Labels)
        → create_fallback lib label_key table resource version cluster export ≡ some (ok d)
        → Shows d.provider labels
          ↔ (lookup label_key labels ≡ some (lib.to_api_binding_export_label_value cluster export))
    unfolding create_fallback provide_filtered
    create_fallback-Shows_iff table resource version cluster export d labels h =
        let value = lib.to_api_binding_export_label_value cluster export in
        elim (Option-cases (lib.requirements_from_set label_key value)) [
          | inl e ↦ absurd (ground (arith, h, e))
          | inr (reqs, e) ↦ elim (Option-cases (lib.provide_read_only reqs)) [
            | inr (x, f) ↦ absurd (ground (arith, h, e, f))
            | inl f ↦ elim (Option-cases (get text_keys resource table)) [
              | inl g ↦ absurd (ground (arith, h, e, f, g))
              | inr (raw, g) ↦
                  elim (Option-cases
                    (lib.create_serving_info_for (as_schema raw) version (read_only reqs))) [
                      | inr (x, k) ↦ absurd (ground (arith, h, e, f, g, k))
                      | inl k ↦
                          let same : d.provider ≡ read_only reqs = ground (arith, h, e, f, g, k) in
                          subst (λ p. Shows p labels ↔ (lookup label_key labels ≡ some value))
                            (sym same) (lib.requirements_from_set_iff label_key value reqs labels e)
                    ]
            ]
          ]
        ]

  module _ (mk : Makers) (semantics : Semantics lib mk) (export : ApiExport) (c : Collected)
      (gvr : Gvr) where
    -- Where the resource is claimed: the object carries one of the labels of the claim.
    abbrev pub HasClaimLabel : Labels → Type 0
    HasClaimLabel labels =
        (pc : PermissionClaim)
        → get resource_keys (group_resource gvr) c.claims ≡ some pc
        → (key : String) × (label : String) × (value : String) × (mk.claim_label export.cluster
              export.name pc
            ≡ ok (key, label))
          × (lookup key labels ≡ some value)
          × Memᴰ value (claim_labels mk export c gvr label)

    add_claim_requirement_iff :
        (reqs all : List Requirement) (labels : Labels)
        → add_claim_requirement mk export c gvr reqs ≡ ok all
        → All (λ r. lib.satisfies r labels ≡ true) all
          ↔ (All (λ r. lib.satisfies r labels ≡ true) reqs × HasClaimLabel labels)
    unfolding add_claim_requirement
    add_claim_requirement_iff reqs all labels h =
        elim (Option-cases (get resource_keys (group_resource gvr) c.claims)) [
          | inl e ↦
              let same : reqs ≡ all = ground (arith, h, e) in
              (
                λ a. (
                  subst (λ l. All (λ r. lib.satisfies r labels ≡ true) l) (sym same) a,
                  λ pc k. absurd (ground (arith, k, e)),
                ),
                λ (a, _). subst (λ l. All (λ r. lib.satisfies r labels ≡ true) l) same a,
              )
          | inr (pc, e) ↦ elim (Result-cases (mk.claim_label export.cluster export.name pc)) [
            | inr (x, f) ↦ absurd (ground (arith, h, e, f))
            | inl ((key, label), f) ↦
                elim (Result-cases (mk.new_requirement key (claim_labels mk export c gvr label))) [
                  | inr (x, g) ↦ absurd (ground (arith, h, e, f, g))
                  | inl (req, g) ↦
                      let same : reqs ++ (req ∷ []) ≡ all = ground (arith, h, e, f, g) in
                      let one =
                        semantics.new_requirement_iff key (claim_labels mk export c gvr label) req
                          labels g in
                      let split = All-append (λ r. lib.satisfies r labels ≡ true) reqs (req ∷ []) in
                      (
                        λ a.
                            let (p, (q, _)) = split.0 (
                              subst (λ l. All (λ r. lib.satisfies r labels ≡ true) l) (sym same)
                                a) in
                            let (v, found, m) = one.0 q in
                            (p, λ pc' k. (key, label, v, ground (arith, k, e, f), found, m)),
                        λ (p, claim).
                            let (key', label', v, made, found, m) = claim pc e in
                            let both : (key', label') ≡ (key, label) = ground (arith, made, f) in
                            subst (λ l. All (λ r. lib.satisfies r labels ≡ true) l) same
                              (split.1 (
                                p,
                                (
                                  one.1 (
                                    v,
                                    ap (λ k. lookup k labels)
                                          (sym (ap (λ (x : String × String). x.0) both))
                                        ∙ found,
                                    subst (λ l. Memᴰ v (claim_labels mk export c gvr l))
                                        (ap (λ (x : String × String). x.1) both) m,
                                  ),
                                  tt,
                                ),
                              )),
                      )
                ]
          ]
        ]

    -- The API definition that the reconciler creates for a resource shows exactly the objects whose labels
    -- match the selector of the endpoint slice and, where the resource is claimed, carry one of the labels
    -- of the claim.
    pub created-Shows_iff :
        (selector : LabelSelector) (reqs : List Requirement) (label_key : String) (s : Schema)
        (version identity : String) (d : ApiDefinition) (labels : Labels)
        → label_requirements mk export c selector gvr ≡ ok reqs
        → (create_api_definition lib label_key s version identity reqs).0 ≡ ok d
        → Shows d.provider labels
          ↔ ((semantics.matches selector labels ≡ true) × HasClaimLabel labels)
    unfolding label_requirements
    created-Shows_iff selector reqs label_key s version identity d labels h made =
        let provider = provider_of_created label_key s version identity reqs d made in
        let shown = Shows-wrapper identity reqs labels in
        elim (Result-cases (mk.requirements selector)) [
          | inr (x, e) ↦ absurd (ground (arith, h, e))
          | inl (found, e) ↦ elim (Option-cases found) [
            | inl f ↦ absurd (ground (arith, h, e, f))
            | inr (own, f) ↦
                let law = semantics.requirements_iff selector own labels (e ∙ ap ok f) in
                let claim = add_claim_requirement_iff own reqs labels (ground (arith, h, e, f)) in
                (
                  λ t.
                      let (a, b) = claim.0 (shown.0 (subst (λ p. Shows p labels) provider t)) in
                      (law.0 a, b),
                  λ (a, b).
                      subst (λ p. Shows p labels) (sym provider) (shown.1 (claim.1 (law.1 a, b))),
                )
          ]
        ]
