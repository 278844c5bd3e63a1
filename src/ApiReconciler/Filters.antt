-- ===== src/ApiReconciler/Filters.antt =====
-- apiexport_apireconciler_reconcile.go: with which label requirements a round creates definitions.
use contrib_filteredapiexpor.Prelude.{
  ℕ, String, Bool, true, false, none, some, List, [], ◌∷◌, ◌==◌, ◌≡◌, ◌≢◌, ◌⊎◌, inl, inr, refl, sym,
  ap, ◌∙◌, Bool-cases, Option-cases, arith, eq_iff, if◌then◌else◌,
}
use contrib_filteredapiexpor.Error.{api, Result, ok, Result-cases}
use contrib_filteredapiexpor.Api.{
  ApiExport, EndpointSlice, LabelSelector, GroupResource, Requirement, PermissionClaim,
  same_resource, same_resource_iff,
}
use contrib_filteredapiexpor.ApiReconciler.Schemas.{
  Version, Schema, Sources, Collected, resource_keys,
}
use contrib_filteredapiexpor.KeyMap.{get}
use mathlib.Core.List.{◌++◌}
use contrib_filteredapiexpor.ApiReconciler.Definitions.{
  Gvr, group_resource, DefinitionSet, Makers, Built, claim_labels, add_claim_requirement,
  label_requirements, identity_of, gvr_of, create_version, define_version, define_versions,
  define_schemas, fall_back_bindings, fall_back_slices, define_all,
}
use contrib_filteredapiexpor.ApiReconciler.Expected.{IsRound}
use contrib_filteredapiexpor.ApiReconciler.Reconcile.{State, set_of, rebuild, reconcile}

-- A test of the arguments of the constructor for schemas.
abbrev pub Guard : Type 0
Guard = Schema → String → String → List Requirement → Bool

-- The constructors, where that for schemas fails on the arguments that do not pass.
abbrev pub guarded : Guard → Makers → Makers
guarded admits mk = record mk {
  create = λ s version identity reqs.
      (if admits s version identity reqs
        then mk.create s version identity reqs
        else some (api false "refused"));
}

module _ (mk : Makers) (export : ApiExport) (c : Collected) where
  -- The label requirement of a permission claim: the key and the label of the claim, and for API bindings
  -- the label also of the export's claim on its own bindings.
  pub record IsClaimRequirement (gr : GroupResource) (pc : PermissionClaim) (req : Requirement)
      : Type 0 where
    pub key : String
    pub label : String
    pub converted : mk.claim_label export.cluster export.name pc ≡ ok (key, label)
    pub made :
        ((gr ≡ record { group = "apis.kcp.io"; resource = "apibindings" })
          × (mk.new_requirement key (label ∷ mk.reflexive_label export.cluster export.name ∷ [])
              ≡ ok req))
        ⊎ ((gr ≢ record { group = "apis.kcp.io"; resource = "apibindings" })
            × (mk.new_requirement key (label ∷ []) ≡ ok req))

  -- The requirements that a resource's definition is to filter by: those of the selector, and after them
  -- that of the claim, where the resource is claimed.
  pub record IsRequired (selector : LabelSelector) (gr : GroupResource) (reqs : List Requirement)
      : Type 0 where
    pub own : List Requirement
    pub selected : mk.requirements selector ≡ ok (some own)
    pub with_claim :
        ((get resource_keys gr c.claims ≡ none) × (reqs ≡ own))
        ⊎ ((pc : PermissionClaim) × (req : Requirement) × (get resource_keys gr c.claims ≡ some pc)
            × IsClaimRequirement gr pc req
            × (reqs ≡ own ++ (req ∷ [])))

  -- The identity that was collected for the resource, and the empty one where there is none.
  abbrev pub IsIdentity : GroupResource → String → Type 0
  IsIdentity gr identity =
      ((get resource_keys gr c.identities ≡ none) × (identity ≡ ""))
      ⊎ (get resource_keys gr c.identities ≡ some identity)

module _ (admits : Guard) (mk : Makers) (export : ApiExport) (c : Collected)
    (selector : LabelSelector) where
  -- The arguments pass that the selector and the claims call for.
  abbrev pub AdmitsRequired : Type 0
  AdmitsRequired =
      (s : Schema) (v : Version) (identity : String) (reqs : List Requirement)
      → IsRequired mk export c selector (record { group = s.group; resource = s.plural }) reqs
      → IsIdentity mk export c (record { group = s.group; resource = s.plural }) identity
      → admits s v.name identity reqs ≡ true

  IsClaimRequirement-of_ok :
      (gr : GroupResource) (gvr : Gvr) (pc : PermissionClaim) (key label : String)
      (req : Requirement)
      → group_resource gvr ≡ gr
      → mk.claim_label export.cluster export.name pc ≡ ok (key, label)
      → mk.new_requirement key (claim_labels mk export c gvr label) ≡ ok req
      → IsClaimRequirement mk export c gr pc req
  unfolding claim_labels
  IsClaimRequirement-of_ok gr gvr pc key label req is_gr e f =
      elim (Bool-cases (
        same_resource (group_resource gvr)
          (record { group = "apis.kcp.io"; resource = "apibindings" }))) [
            | inl y ↦ record {
              key = key;
              label = label;
              converted = e;
              made = inl (
                sym is_gr ∙ (same_resource_iff (group_resource gvr) _).0 y,
                ground (arith, f, y),
              );
            }
            | inr n ↦ record {
              key = key;
              label = label;
              converted = e;
              made = inr (
                λ p. ground (arith, n, (same_resource_iff (group_resource gvr) _).1 (is_gr ∙ p)),
                ground (arith, f, n),
              );
            }
          ]

  -- Requirements that are computed without an error are those that are called for.
  label_requirements_sound :
      (gvr : Gvr) (reqs : List Requirement)
      → label_requirements mk export c selector gvr ≡ ok reqs
      → IsRequired mk export c selector (group_resource gvr) reqs
  unfolding label_requirements add_claim_requirement
  label_requirements_sound gvr reqs h = elim (Result-cases (mk.requirements selector)) [
    | inr (x, e) ↦ absurd (ground (arith, h, e))
    | inl (chosen, e) ↦ elim (Option-cases chosen) [
      | inl f ↦ absurd (ground (arith, h, e, f))
      | inr (own, f) ↦
          let selected : mk.requirements selector ≡ ok (some own) = e ∙ ap (λ x. ok x) f in
          elim (Option-cases (get resource_keys (group_resource gvr) c.claims)) [
            | inl g ↦ record {
              own = own;
              selected = selected;
              with_claim = inl (g, sym (ground (arith, h, selected, g)));
            }
            | inr (pc, g) ↦ elim (Result-cases (mk.claim_label export.cluster export.name pc)) [
              | inr (x, k) ↦ absurd (ground (arith, h, selected, g, k))
              | inl ((key, label), k) ↦
                  elim (Result-cases
                    (mk.new_requirement key (claim_labels mk export c gvr label))) [
                      | inr (x, m) ↦ absurd (ground (arith, h, selected, g, k, m))
                      | inl (req, m) ↦ record {
                        own = own;
                        selected = selected;
                        with_claim = inr (
                          pc,
                          req,
                          g,
                          IsClaimRequirement-of_ok (group_resource gvr) gvr pc key label req refl k
                              m,
                          sym (ground (arith, h, selected, g, k, m)),
                        );
                      }
                    ]
            ]
          ]
    ]
  ]

  IsIdentity-sound :
      (gvr : Gvr) → IsIdentity mk export c (group_resource gvr) (identity_of mk export c gvr)
  IsIdentity-sound gvr = elim (Option-cases (get resource_keys (group_resource gvr) c.identities)) [
    | inl e ↦ inl (e, ground (arith, e))
    | inr (hash, e) ↦ inr (e ∙ ap (λ x. some x) (sym (ground (arith, e))))
  ]

  same_requirements :
      (gvr : Gvr)
      → label_requirements (guarded admits mk) export c selector gvr
        ≡ label_requirements mk export c selector gvr
  unfolding label_requirements add_claim_requirement claim_labels
  same_requirements gvr = refl

  module _ (required : AdmitsRequired) (old : DefinitionSet) where
    create_version-guarded :
        (s : Schema) (v : Version) (b : Built)
        → create_version (guarded admits mk) export c selector s v b
          ≡ create_version mk export c selector s v b
    unfolding create_version
    create_version-guarded s v b =
        let gvr = gvr_of mk export c s v in
        elim (Result-cases (label_requirements mk export c selector gvr)) [
          | inr (x, e) ↦ ground (arith, e, same_requirements gvr)
          | inl (reqs, e) ↦ ground (
            arith,
            e,
            same_requirements gvr,
            required s v _ reqs (label_requirements_sound gvr reqs e) (IsIdentity-sound gvr),
          )
        ]

    define_version-guarded :
        (s : Schema) (v : Version) (b : Built)
        → define_version (guarded admits mk) export c selector old s v b
          ≡ define_version mk export c selector old s v b
    unfolding define_version
    define_version-guarded s v b = ground (arith, create_version-guarded s v b)

    define_versions-guarded :
        (s : Schema) (versions : List Version) (b : Built)
        → define_versions (guarded admits mk) export c selector old s versions b
          ≡ define_versions mk export c selector old s versions b
    unfolding define_versions
    define_versions-guarded s [] b = refl
    define_versions-guarded s (v ∷ versions) b =
        let first = define_version-guarded s v b in
        elim (Result-cases (define_version mk export c selector old s v b)) [
          | inr (x, e) ↦ ground (arith, e, first)
          | inl (next, e) ↦ ground (arith, e, first, define_versions-guarded s versions next)
        ]

    define_schemas-guarded :
        (schemas : List (GroupResource × Schema)) (b : Built)
        → define_schemas (guarded admits mk) export c selector old schemas b
          ≡ define_schemas mk export c selector old schemas b
    unfolding define_schemas
    define_schemas-guarded [] b = refl
    define_schemas-guarded ((gr, s) ∷ schemas) b =
        let first = define_versions-guarded s s.versions b in
        elim (Result-cases (define_versions mk export c selector old s s.versions b)) [
          | inr (x, e) ↦ ground (arith, e, first)
          | inl (next, e) ↦ ground (arith, e, first, define_schemas-guarded schemas next)
        ]

    define_all-guarded :
        (next : ℕ)
        → define_all (guarded admits mk) export c selector old next
          ≡ define_all mk export c selector old next
    unfolding define_all fall_back_bindings fall_back_slices
    define_all-guarded next =
        let first = define_schemas-guarded c.schemas (record { next = next; set = [] }) in
        elim (Result-cases
          (define_schemas mk export c selector old c.schemas (record { next = next; set = [] }))) [
            | inr (x, e) ↦ ground (arith, e, first)
            | inl (b, e) ↦ ground (arith, e, first)
          ]

-- A round for an export that is found and has an identity, and for which schemas and claims could be
-- collected, calls the constructor for schemas only with the requirements of the endpoint slice's selector,
-- followed, where the resource is claimed, by the claim's requirement (its key and label, and for API
-- bindings also the label of the export's own bindings), and with the identity that was collected for the
-- resource, or the empty one: a constructor that refuses all other calls leads to the same state and the
-- same error.
pub reconcile-guarded :
    (admits : Guard) (src : Sources) (mk : Makers) (get_export : String → String → Result ApiExport)
    (st : State) (key : String) (slice : EndpointSlice) (export : ApiExport) (c : Collected)
    → IsRound src get_export slice export c
    → AdmitsRequired admits mk export c slice.spec.object_selector.label_selector
    → reconcile src (guarded admits mk) get_export st (some slice) key
      ≡ reconcile src mk get_export st (some slice) key
unfolding reconcile rebuild
reconcile-guarded admits src mk get_export st key slice export c r required =
    let has : (export.identity_hash == "") ≡ false =
      ground (arith, r.has_identity, eq_iff export.identity_hash "") in
    let same =
      define_all-guarded admits mk export c slice.spec.object_selector.label_selector required
        (set_of st key) st.next in
    ground (arith, r.export_found, has, r.collected, same)
