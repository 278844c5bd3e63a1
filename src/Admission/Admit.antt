-- ===== src/Admission/Admit.antt =====
-- `Admit` of internal/virtual/filteredapiexport/admission/selector.go.
use contrib_filteredapiexpor.Prelude.{
  String, Bool, true, false, not, Option, none, some, [], ◌∷◌, ◌==◌, any, find, if◌then◌else◌,
}
use contrib_filteredapiexpor.Error.{Error, errorf, wrap, forbidden, Result, ok, err}
use contrib_filteredapiexpor.Url.{Cluster}
use contrib_filteredapiexpor.Api.{Labels, GroupResource, EndpointSlice, ApiBinding, same_resource}
use contrib_filteredapiexpor.Request.{Context, Listers}
use contrib_filteredapiexpor.LabelMap.{lookup, insert}
use contrib_filteredapiexpor.Admission.{
  Operation, create, update, Object, nil, unstructured, other, Attributes, labels_of, claims,
  failed, skipped, started, start, binding_of_slice, slice_labels,
}

-- The loop over `MatchLabels` of the endpoint slice.
unfoldable pub copy_labels : Labels → Labels → Labels
copy_labels out [] = out
copy_labels out ((k, v) ∷ rest) = copy_labels (insert k v out) rest

-- The key has another value.
abbrev pub conflicts : Option String → String → Bool
conflicts none v = false
conflicts (some w) v = not (w == v)

-- v1 of `v1, ok := labelsToApply[k]`
abbrev pub value : Option String → String
value none = ""
value (some v) = v

-- The loop over `additionalLabels`.
unfoldable pub merge_labels : Labels → Labels → Result Labels
merge_labels out [] = ok out
merge_labels out ((k, v) ∷ rest) =
    let more = merge_labels (insert k v out) rest in
    if conflicts (lookup k out) v
    then err (
        errorf
          "APIBinding has different label value for %s from FilteredAPIExportEndpointSlice (expected %s, got: %s)"
          (k ∷ v ∷ value (lookup k out) ∷ []))
    else more

-- The loop over `labelsToApply`.
unfoldable pub apply_labels : Labels → Labels → Result Labels
apply_labels [] lbls = ok lbls
apply_labels ((k, v) ∷ rest) lbls = elim (lookup k lbls) [
  | none ↦ apply_labels rest (insert k v lbls)
  | some w ↦
      let more = apply_labels rest lbls in
      if not (w == v)
      then err (errorf "protected label %s must have value %s" (k ∷ v ∷ []))
      else more
]

-- The labels that the claims of the binding add, `none` where the resource is neither bound nor
-- claimed.
unfoldable pub additional_labels : ApiBinding → GroupResource → Option Labels
additional_labels binding gr =
    if any (λ r. same_resource r gr) binding.bound_resources
    then some []
    else elim (find (claims gr) binding.permission_claims) [
      | none ↦ none
      | some c ↦
          some (if not c.selector.match_all then c.selector.label_selector.match_labels else [])
    ]

unfoldable pub labels_to_apply : Labels → Labels → Result Labels
labels_to_apply view additional = merge_labels (copy_labels [] view) additional

-- The end of `Admit`: the object with the labels, or the object as it was and an error.
unfoldable pub label_object : Labels → Object → Object × Option Error
label_object expected nil = (nil, some (forbidden (errorf "unexpected type %T" ("<nil>" ∷ []))))
label_object expected (other t) = (other t, some (forbidden (errorf "unexpected type %T" (t ∷ []))))
label_object expected (unstructured u) = elim (apply_labels expected (labels_of u)) [
  | err e ↦ (unstructured u, some (forbidden e))
  | ok lbls ↦ (unstructured (record u { labels = some lbls }), none)
]

-- `Admit` once the binding is known.
unfoldable pub admit_bound :
    EndpointSlice → ApiBinding → GroupResource → Object → Object × Option Error
admit_bound slice binding gr obj = elim (additional_labels binding gr) [
  | none ↦ (obj, none)
  | some additional ↦ elim (labels_to_apply (slice_labels slice) additional) [
    | err e ↦ (obj, some (forbidden e))
    | ok expected ↦ label_object expected obj
  ]
]

unfoldable pub admit_started :
    Listers → Cluster → EndpointSlice → GroupResource → Object → Object × Option Error
admit_started l target slice gr obj = elim (binding_of_slice l target slice) [
  | err e ↦ (
    obj,
    some (forbidden (wrap "could not find suitable APIBinding in target logical cluster: %w" [] e)),
  )
  | ok binding ↦ admit_bound slice binding gr obj
]

abbrev pub is_write : Operation → Bool
is_write create = true
is_write update = true
is_write _ = false

-- selectorAdmission.Admit: the object that it leaves, and its error
unfoldable pub admit : Listers → Context → Attributes → Object × Option Error
admit l ctx a =
    if not (is_write a.operation) then (a.object, none) else elim (start l ctx a.resource) [
      | failed e ↦ (a.object, some e)
      | skipped ↦ (a.object, none)
      | started target slice ↦ admit_started l target slice a.resource a.object
    ]
