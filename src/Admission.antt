-- ===== src/Admission.antt =====
-- internal/virtual/filteredapiexport/admission/selector.go: objects written through the virtual
-- workspace get the labels of the view, and must match its selector.
pub mod Admit
pub mod Validate
pub mod Labelling
pub mod Writes
pub mod Visible
pub mod Order
mod Tests
mod OrderTests
use contrib_filteredapiexpor.Prelude.{
  String, Bool, true, false, not, Option, none, some, List, [], ◌∷◌, ◌==◌, ◌&&◌, ◌||◌, any, find,
  if◌then◌else◌,
}
use contrib_filteredapiexpor.Error.{Error, errorf, wrap, forbidden, Result, ok, err, is_not_found}
use contrib_filteredapiexpor.Url.{Cluster}
use contrib_filteredapiexpor.Api.{
  Labels, GroupResource, LabelSelector, EndpointSlice, ApiBinding, BindingClaim, is_accepted,
  same_resource,
}
use contrib_filteredapiexpor.Request.{Context, Listers, key_parts, binding_by_export}
use contrib_filteredapiexpor.LabelMap.{lookup, insert}

-- kubeadmission.Operation
pub data Operation : Type 0 where
  create update delete connect : Operation

-- An unstructured object: its labels, `none` where the object has none, and all that is not labels.
pub record Unstructured : Type 0 where
  pub labels : Option Labels
  pub content : String

-- A runtime.Object, as the code tells it apart.
pub data Object : Type 0 where
  nil : Object
  unstructured : Unstructured → Object
  other : (go_type : String) → Object

-- kubeadmission.Attributes
pub record Attributes : Type 0 where
  pub operation : Operation
  pub resource : GroupResource
  pub object : Object
  pub old_object : Object

-- u.GetLabels(), with the empty map for nil
abbrev pub labels_of : Unstructured → Labels
labels_of u = elim u.labels [ none ↦ [] | some m ↦ m ]

abbrev pub claim_resource : BindingClaim → GroupResource
claim_resource c = record { group = c.claim.group; resource = c.claim.resource }

-- The claim of the loops of `Admit` and `Validate`: accepted, and for the resource.
unfoldable pub claims : GroupResource → BindingClaim → Bool
claims gr c = is_accepted c.state && same_resource (claim_resource c) gr

-- The labels of the view: those of the endpoint slice.
abbrev pub slice_labels : EndpointSlice → Labels
slice_labels slice = slice.spec.object_selector.label_selector.match_labels

-- How `Admit` and `Validate` begin: they fail, have nothing to do, or know the target cluster and the
-- endpoint slice.
pub data Start : Type 0 where
  failed : Error → Start
  skipped : Start
  started : Cluster → EndpointSlice → Start

unfoldable pub start : Listers → Context → GroupResource → Start
start l ctx gr = elim ctx.valid_cluster [
  | err e ↦ failed (forbidden (wrap "error getting valid cluster from context: %w" [] e))
  | ok target ↦
      if target.wildcard || gr.resource == "" then skipped else elim (key_parts ctx.domain_key) [
        | none ↦ failed (forbidden (errorf "invalid API domain key" []))
        | some (cluster, name) ↦ elim (l.get_slice cluster name) [
          | err e ↦ failed (
              forbidden (
                if is_not_found e
                then wrap "FilteredAPIExportEndpointSlice not found: %w" [] e
                else wrap "error getting FilteredAPIExportEndpointSlice: %w" [] e))
          | ok slice ↦ started target slice
        ]
      ]
]

-- getAPIBindingByExport for the export of the endpoint slice
unfoldable pub binding_of_slice : Listers → Cluster → EndpointSlice → Result ApiBinding
binding_of_slice l target slice =
    binding_by_export l "no suitable binding found 1" target.name slice.spec.api_export.name
      slice.spec.api_export.path
