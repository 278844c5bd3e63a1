-- ===== src/ApiReconciler/Definitions.antt =====
-- apiexport_apireconciler_reconcile.go: the API definitions of an API domain key, and their lives. A
-- definition that the program creates is a number, fresh each time; a nil definition is `none`.
use mathlib.Core.List.{◌++◌}
use contrib_filteredapiexpor.Prelude.{
  ℕ, suc, String, Bool, true, false, not, Option, none, some, List, [], ◌∷◌, ◌==◌, ◌&&◌, ◌≡◌, ◌↔◌,
  eqb, arith, eq_iff, if◌then◌else◌,
}
use contrib_filteredapiexpor.Error.{Error, errorf, wrap, Result, ok, err}
use contrib_filteredapiexpor.Api.{
  ApiExport, PermissionClaim, GroupResource, LabelSelector, Requirement, same_resource,
}
use contrib_filteredapiexpor.KeyMap.{Keys, get, put}
use contrib_filteredapiexpor.ApiReconciler.Schemas.{
  Version, Schema, Collected, resource_keys, apis_group, group_name,
}

-- schema.GroupVersionResource
pub record Gvr : Type 0 where
  pub group : String
  pub version : String
  pub resource : String

abbrev pub same_gvr : Gvr → Gvr → Bool
same_gvr a b = a.group == b.group && a.version == b.version && a.resource == b.resource

pub same_gvr_iff : (a b : Gvr) → (same_gvr a b ≡ true) ↔ (a ≡ b)
same_gvr_iff a b =
    ground (arith, eq_iff a.group b.group, eq_iff a.version b.version, eq_iff a.resource b.resource)

abbrev pub gvr_keys : Keys
gvr_keys = record { Key = Gvr; same = same_gvr; same_iff = same_gvr_iff }

abbrev pub group_resource : Gvr → GroupResource
group_resource g = record { group = g.group; resource = g.resource }

-- apiResourceSchemaApiDefinition
pub record Definition : Type 0 where
  pub handle : Option ℕ
  pub uid : String
  pub identity_hash : String

abbrev pub DefinitionSet : Type 0
DefinitionSet = List (Gvr × Definition)

-- What the reconciler calls: label selectors and their requirements (`none` where a selector is not
-- selectable), the package permissionclaims, labels.NewRequirement, and the constructors of definitions,
-- with the error of each.
pub record Makers : Type 0 where
  pub requirements : LabelSelector → Result (Option (List Requirement))
  pub claim_label : String → String → PermissionClaim → Result (String × String)
  pub reflexive_label : String → String → String
  pub new_requirement : String → List String → Result Requirement
  pub create : Schema → String → String → List Requirement → Option Error
  pub create_api_binding : String → String → String → Option Error
  pub create_endpoint_slice : String → String → String → Option Error

-- The new set while it is built, and the next fresh number.
pub record Built : Type 0 where
  pub next : ℕ
  pub set : DefinitionSet

-- The definition that a constructor returns beside its error.
abbrev pub made : Option Error → ℕ → Option ℕ
made none n = some n
made (some e) n = none

-- newSet[gvr] = apiResourceSchemaApiDefinition{APIDefinition: d}, whether or not d was created
unfoldable pub put_fallback : Gvr → Option Error → Built → Built
put_fallback gvr error b = record {
  next = suc b.next;
  set =
      put gvr_keys gvr (record { handle = made error b.next; uid = ""; identity_hash = "" }) b.set;
}

abbrev pub binding_gvr : String → Gvr
binding_gvr version = record { group = apis_group; version = version; resource = "apibindings" }

abbrev pub slice_gvr : Gvr
slice_gvr = record {
  group = group_name;
  version = "v1alpha1";
  resource = "filteredapiexportendpointslices";
}

module _ (mk : Makers) (export : ApiExport) (c : Collected) where
  -- The labels of a claim's requirement.
  unfoldable pub claim_labels : Gvr → String → List String
  claim_labels gvr label =
      if same_resource (group_resource gvr)
        (record { group = apis_group; resource = "apibindings" })
      then label ∷ mk.reflexive_label export.cluster export.name ∷ []
      else label ∷ []

  unfoldable pub add_claim_requirement : Gvr → List Requirement → Result (List Requirement)
  add_claim_requirement gvr reqs = elim (get resource_keys (group_resource gvr) c.claims) [
    | none ↦ ok reqs
    | some pc ↦ elim (mk.claim_label export.cluster export.name pc) [
      | err e ↦ err (wrap "failed to convert permission claim %v to label key and value: %w" [] e)
      | ok (key, label) ↦ elim (mk.new_requirement key (claim_labels gvr label)) [
        | err e ↦ err (wrap "failed to create label requirement for permission claim %v: %w" [] e)
        | ok req ↦ ok (reqs ++ (req ∷ []))
      ]
    ]
  ]

  unfoldable pub label_requirements : LabelSelector → Gvr → Result (List Requirement)
  label_requirements selector gvr = elim (mk.requirements selector) [
    | err e ↦ err e
    | ok none ↦ err (
        errorf
          "unable to create a selector from the provided labels in the FilteredAPIExportEndpointSlice"
          [])
    | ok (some reqs) ↦ add_claim_requirement gvr reqs
  ]

  -- identities[gr]
  abbrev pub identity_of : Gvr → String
  identity_of gvr = elim (get resource_keys (group_resource gvr) c.identities) [
    | none ↦ ""
    | some hash ↦ hash
  ]

  abbrev pub gvr_of : Schema → Version → Gvr
  gvr_of s v = record { group = s.group; version = v.name; resource = s.plural }

  -- The end of a round of the loop over the versions: a definition is created.
  unfoldable pub create_version : LabelSelector → Schema → Version → Built → Result Built
  create_version selector s v b = elim (label_requirements selector (gvr_of s v)) [
    | err e ↦ err e
    | ok reqs ↦ elim (mk.create s v.name (identity_of (gvr_of s v)) reqs) [
      | some e ↦ ok b
      | none ↦ ok (record {
        next = suc b.next;
        set =
            put gvr_keys (gvr_of s v)
              (record { handle = some b.next; uid = s.uid; identity_hash = export.identity_hash })
              b.set;
      })
    ]
  ]

  -- The old definition is of the same schema and identity.
  abbrev pub is_current : Schema → Definition → Bool
  is_current s d = d.uid == s.uid && d.identity_hash == export.identity_hash

  unfoldable pub define_version :
      LabelSelector → DefinitionSet → Schema → Version → Built → Result Built
  define_version selector old s v b =
      let create = create_version selector s v b in
      if not v.served then ok b else elim (get gvr_keys (gvr_of s v) old) [
        | none ↦ create
        | some d ↦
            if is_current s d
            then ok (record b { set = put gvr_keys (gvr_of s v) d b.set })
            else create
      ]

  unfoldable pub define_versions :
      LabelSelector → DefinitionSet → Schema → List Version → Built → Result Built
  define_versions selector old s [] b = ok b
  define_versions selector old s (v ∷ versions) b = elim (define_version selector old s v b) [
    | err e ↦ err e
    | ok b' ↦ define_versions selector old s versions b'
  ]

  unfoldable pub define_schemas :
      LabelSelector → DefinitionSet → List (GroupResource × Schema) → Built → Result Built
  define_schemas selector old [] b = ok b
  define_schemas selector old ((gr, s) ∷ schemas) b =
      elim (define_versions selector old s s.versions b) [
        | err e ↦ err e
        | ok b' ↦ define_schemas selector old schemas b'
      ]

  -- APIBindings in two versions, where they are not claimed.
  unfoldable pub fall_back_bindings : Built → Built
  fall_back_bindings b =
      if not c.claims_api_bindings
      then put_fallback (binding_gvr "v1alpha2")
          (mk.create_api_binding "v1alpha2" export.cluster export.name)
          (put_fallback (binding_gvr "v1alpha1")
            (mk.create_api_binding "v1alpha1" export.cluster export.name) b)
      else b

  unfoldable pub fall_back_slices : Built → Built
  fall_back_slices b =
      if not c.claims_endpoint_slices
      then put_fallback slice_gvr (mk.create_endpoint_slice "v1alpha1" export.cluster export.name) b
      else b

  -- The new set of the API domain key.
  unfoldable pub define_all : LabelSelector → DefinitionSet → ℕ → Result Built
  define_all selector old next =
      elim (define_schemas selector old c.schemas (record { next = next; set = [] })) [
        | err e ↦ err e
        | ok b ↦ ok (fall_back_slices (fall_back_bindings b))
      ]

-- `==` on definitions
abbrev pub same_handle : Option ℕ → Option ℕ → Bool
same_handle none none = true
same_handle (some a) (some b) = eqb a b
same_handle _ _ = false

-- The cleanup: the old definitions that its loop selects for TearDown. Where a nil one is among them, the
-- call panics, and `rebuild` ends the round there; the loop's order is arbitrary, and what it tore down
-- before the panic ends with the program.
unfoldable pub torn_down : DefinitionSet → DefinitionSet → List (Option ℕ)
torn_down new [] = []
torn_down new ((gvr, d) ∷ old) =
    let rest = torn_down new old in
    elim (get gvr_keys gvr new) [
      | none ↦ d.handle ∷ rest
      | some d' ↦ if same_handle d.handle d'.handle then rest else d.handle ∷ rest
    ]

-- A call of TearDown on one of these panics.
unfoldable pub has_nil : List (Option ℕ) → Bool
has_nil [] = false
has_nil (none ∷ handles) = true
has_nil (some n ∷ handles) = has_nil handles
