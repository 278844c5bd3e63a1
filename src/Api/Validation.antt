-- ===== src/Api/Validation.antt =====
-- sdk/apis/filteredvw/v1alpha1/validation.go: the validation of endpoint slices.
use contrib_filteredapiexpor.Prelude.{
  String, Bool, true, not, List, [], ◌∷◌, ◌==◌, ◌≡◌, ◌≢◌, ◌↔◌, arith, eq_iff, if◌then◌else◌,
}
use mathlib.Core.List.{◌++◌}
use contrib_filteredapiexpor.Api.{ExportBindingReference, ObjectSelector, EndpointSlice}

-- field.Error: its kind and the names of its path
pub data FieldError : Type 0 where
  required invalid : List String → FieldError

-- ValidateEndpointSliceReference
unfoldable pub validate_reference : ExportBindingReference → List String → List FieldError
validate_reference ref path =
    (if ref.path == "" then required (path ++ ("export" ∷ "path" ∷ [])) ∷ [] else [])
    ++ (if ref.name == "" then required (path ++ ("export" ∷ "name" ∷ [])) ∷ [] else [])

-- ValidateEndpointSlice
unfoldable pub validate_endpoint_slice : EndpointSlice → List FieldError
validate_endpoint_slice slice = validate_reference slice.spec.api_export ("spec" ∷ "apiExport" ∷ [])

-- ValidateEndpointSliceUpdate; `deep_equal` is reflect.DeepEqual at the selector.
unfoldable pub validate_endpoint_slice_update :
    (ObjectSelector → ObjectSelector → Bool) → EndpointSlice → EndpointSlice → List FieldError
validate_endpoint_slice_update deep_equal old new =
    validate_reference new.spec.api_export ("spec" ∷ "apiExport" ∷ [])
    ++ (if not (deep_equal old.spec.object_selector new.spec.object_selector)
        then invalid ("spec" ∷ "objectSelector" ∷ []) ∷ []
        else [])

-- A reference passes exactly when it has a path and a name.
validate_reference_iff :
    (ref : ExportBindingReference) (path : List String)
    → (validate_reference ref path ≡ []) ↔ ((ref.path ≢ "") × (ref.name ≢ ""))
unfolding validate_reference
validate_reference_iff ref path = ground (arith, eq_iff ref.path "", eq_iff ref.name "")

-- An update passes exactly when the new endpoint slice passes by itself and has the selector of the
-- old one.
validate_endpoint_slice_update_iff :
    (deep_equal : ObjectSelector → ObjectSelector → Bool) (old new : EndpointSlice)
    → (validate_endpoint_slice_update deep_equal old new ≡ []) ↔ (
        (validate_endpoint_slice new ≡ [])
        × (deep_equal old.spec.object_selector new.spec.object_selector ≡ true))
unfolding validate_endpoint_slice_update validate_endpoint_slice validate_reference
validate_endpoint_slice_update_iff deep_equal old new = ground arith

-- A new endpoint slice passes exactly when its reference has a path and a name.
validate_endpoint_slice_iff :
    (slice : EndpointSlice)
    → (validate_endpoint_slice slice ≡ [])
      ↔ ((slice.spec.api_export.path ≢ "") × (slice.spec.api_export.name ≢ ""))
unfolding validate_endpoint_slice
validate_endpoint_slice_iff slice = validate_reference_iff slice.spec.api_export _
