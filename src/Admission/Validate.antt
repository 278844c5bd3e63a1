-- ===== src/Admission/Validate.antt =====
-- `Validate` of internal/virtual/filteredapiexport/admission/selector.go.
use contrib_filteredapiexpor.Prelude.{
  String, Bool, true, false, not, Option, none, some, [], ◌∷◌, ◌≡◌, ◌↔◌, any, find, All,
  if◌then◌else◌,
}
use contrib_filteredapiexpor.Error.{Error, errorf, wrap, forbidden, Result, ok, err}
use contrib_filteredapiexpor.Url.{Cluster}
use contrib_filteredapiexpor.Api.{
  Labels, GroupResource, Requirement, LabelSelector, EndpointSlice, ApiBinding, same_resource,
}
use contrib_filteredapiexpor.Request.{Context, Listers}
use contrib_filteredapiexpor.LabelMap.{Contains}
use contrib_filteredapiexpor.Admission.{
  Operation, create, update, delete, Object, nil, unstructured, other, Attributes, labels_of,
  claims, failed, skipped, started, start, binding_of_slice,
}

-- metav1.LabelSelectorAsSelector and labels.Selector. A selector that can be built matches the labels
-- that have all of `matchLabels` and satisfy each of `matchExpressions`.
pub record Selectors : Type 1 where
  pub Selector : Type 0
  pub as_selector : LabelSelector → Result Selector
  pub matches : Selector → Labels → Bool
  pub satisfies : Requirement → Labels → Bool
  pub matches_iff :
      (s : LabelSelector) (sel : Selector) (lbls : Labels)
      → as_selector s ≡ ok sel
      → (matches sel lbls ≡ true)
        ↔ (Contains lbls s.match_labels × All (λ r. satisfies r lbls ≡ true) s.match_expressions)

-- The object that `Validate` looks at: the old one where there is no new one.
abbrev pub subject : Attributes → Object
subject a = elim a.object [
  | nil ↦ a.old_object
  | unstructured u ↦ unstructured u
  | other t ↦ other t
]

abbrev pub is_checked : Operation → Bool
is_checked create = true
is_checked update = true
is_checked delete = true
is_checked _ = false

abbrev pub slice_message : String
slice_message =
    "error building selector from provided FilteredAPIExportEndpointSlice label selector: %w"

abbrev pub claim_message : String
claim_message = "error building selector from provided label selector: %w"

module _ (sels : Selectors) where
  -- Building a selector and matching the labels, with the message for a selector that is not built.
  unfoldable pub check_selector : String → LabelSelector → Labels → Option Error
  check_selector message s lbls = elim (sels.as_selector s) [
    | err e ↦ some (forbidden (wrap message [] e))
    | ok sel ↦
        if not (sels.matches sel lbls)
        then some (forbidden (errorf "object does not match required labels" []))
        else none
  ]

  -- `Validate` once the labels match the selector of the endpoint slice: the loops over the bound
  -- resources and the claims.
  unfoldable pub validate_claims : ApiBinding → GroupResource → Labels → Option Error
  validate_claims binding gr lbls =
      if any (λ r. same_resource r gr) binding.bound_resources
      then none
      else elim (find (claims gr) binding.permission_claims) [
        | none ↦ none
        | some c ↦
            if c.selector.match_all
            then none
            else check_selector claim_message c.selector.label_selector lbls
      ]

  unfoldable pub validate_binding :
      Listers → Cluster → EndpointSlice → GroupResource → Labels → Option Error
  validate_binding l target slice gr lbls = elim (binding_of_slice l target slice) [
    | err e ↦
        some
          (forbidden (wrap "could not find suitable APIBinding in target logical cluster: %w" [] e))
    | ok binding ↦ validate_claims binding gr lbls
  ]

  -- `Validate` once the endpoint slice is known.
  unfoldable pub validate_object :
      Listers → Cluster → EndpointSlice → GroupResource → Object → Option Error
  validate_object l target slice gr nil =
      some (forbidden (errorf "unexpected type %T" ("<nil>" ∷ [])))
  validate_object l target slice gr (other t) =
      some (forbidden (errorf "unexpected type %T" (t ∷ [])))
  validate_object l target slice gr (unstructured u) =
      let lbls = labels_of u in
      elim (check_selector slice_message slice.spec.object_selector.label_selector lbls) [
        | some e ↦ some e
        | none ↦ validate_binding l target slice gr lbls
      ]

  -- selectorAdmission.Validate
  unfoldable pub validate : Listers → Context → Attributes → Option Error
  validate l ctx a = if not (is_checked a.operation) then none else elim (start l ctx a.resource) [
    | failed e ↦ some e
    | skipped ↦ none
    | started target slice ↦ validate_object l target slice a.resource (subject a)
  ]
