-- ===== src/Authorizer/Bound/Decides.antt =====
-- binding.go: the decision of the bound-API authorizer against the description in `Permits`.
use contrib_filteredapiexpor.Prelude.{
  false, ◌==◌, ◌||◌, ◌≡◌, ◌⊎◌, ◌↔◌, inl, inr, ap, ◌∙◌, arith, eq_iff, Bool-cases, Option-cases,
}
use contrib_filteredapiexpor.Error.{ok, Result-cases}
use contrib_filteredapiexpor.Url.{Cluster}
use contrib_filteredapiexpor.Api.{EndpointSlice, ApiExport, ApiBinding}
use contrib_filteredapiexpor.Request.{
  Context, Attributes, allow, Authorizer, Listers, key_parts, binding_by_export,
}
use contrib_filteredapiexpor.Request.Bindings.{binding_by_export-IsBindingOf}
use contrib_filteredapiexpor.Authorizer.Bound.{ClaimOps, check_binding, check_slice, authorize}
use contrib_filteredapiexpor.Authorizer.Bound.Permits.{
  IsSkipped, IsPermitted, check_binding-delegates, check_binding_sound,
}

module _ (ops : ClaimOps) (l : Listers) (delegate : Authorizer) (ctx : Context)
    (attr : Attributes) where
  -- A request that is skipped or permitted gets the delegate's verdict, reason and error included.
  bound-delegates :
      IsSkipped ctx attr ⊎ IsPermitted ops l ctx attr
      → authorize ops l delegate ctx attr ≡ delegate ctx attr
  unfolding authorize check_slice
  bound-delegates (inl (target, valid, inl w)) = ground (arith, valid, w)
  bound-delegates (inl (target, valid, inr r)) = ground (arith, valid, eq_iff attr.resource "")
  bound-delegates (inr p) = ground (
    arith,
    p.valid,
    p.key,
    p.slice_found,
    p.export_found,
    p.binding_found,
    check_binding-delegates ops delegate p.export p.binding ctx attr p.grants,
  )

  check_slice_sound :
      (target : Cluster) (slice : EndpointSlice)
      → (check_slice ops l delegate target slice ctx attr).decision ≡ allow
      → (export : ApiExport) × (binding : ApiBinding) × (l.get_export slice.spec.api_export.path
            slice.spec.api_export.name
          ≡ ok export)
        × (binding_by_export l "no suitable binding found 2" target.name export.name
              slice.spec.api_export.path
            ≡ ok binding)
        × ((check_binding ops delegate export binding ctx attr).decision ≡ allow)
  unfolding check_slice
  check_slice_sound target slice h =
      let ref = slice.spec.api_export in
      elim (Result-cases (l.get_export ref.path ref.name)) [
        | inr (x, e) ↦ absurd (ground (arith, e))
        | inl (export, e) ↦
            elim (Result-cases (
              binding_by_export l "no suitable binding found 2" target.name export.name ref.path)) [
                | inr (x, f) ↦ absurd (ground (arith, e, f))
                | inl (binding, f) ↦ (export, binding, e, f, ground (arith, e, f))
              ]
      ]

  -- The lookups of a request for a resource that is allowed.
  resource_request_sound :
      (target : Cluster)
      → ctx.valid_cluster ≡ ok target
      → (target.wildcard || attr.resource == "") ≡ false
      → (authorize ops l delegate ctx attr).decision ≡ allow
      → IsPermitted ops l ctx attr × ((delegate ctx attr).decision ≡ allow)
  unfolding authorize
  resource_request_sound target valid r h = elim (Option-cases (key_parts ctx.domain_key)) [
    | inl e ↦ absurd (ground (arith, valid, r, e))
    | inr ((cluster, name), key) ↦ elim (Result-cases (l.get_slice cluster name)) [
      | inr (x, e) ↦ absurd (ground (arith, valid, r, key, e))
      | inl (slice, found) ↦
          let (export, binding, e, b, c) =
            check_slice_sound target slice (ground (arith, valid, r, key, found)) in
          let (grants, passed) = check_binding_sound ops delegate export binding ctx attr c in
          (
            record {
              target = target;
              valid = valid;
              slice_cluster = cluster;
              slice_name = name;
              key = key;
              slice = slice;
              slice_found = found;
              export = export;
              export_found = e;
              binding = binding;
              binding_found = b;
              binds = binding_by_export-IsBindingOf l _ target.name export.name _ b;
              grants = grants;
            },
            passed,
          )
    ]
  ]

  authorize_sound :
      (authorize ops l delegate ctx attr).decision ≡ allow
      → (IsSkipped ctx attr ⊎ IsPermitted ops l ctx attr) × ((delegate ctx attr).decision ≡ allow)
  unfolding authorize
  authorize_sound h = elim (Result-cases ctx.valid_cluster) [
    | inr (x, e) ↦ absurd (ground (arith, e))
    | inl (target, valid) ↦ elim (Bool-cases (target.wildcard || attr.resource == "")) [
      | inl skip ↦ (
        inl (target, valid, ground (arith, skip, eq_iff attr.resource "")),
        ground (arith, valid, skip),
      )
      | inr r ↦ let (p, d) = resource_request_sound target valid r h in (inr p, d)
    ]
  ]

  -- The decision is "allow" exactly when the request is skipped or permitted and the delegate
  -- allows it.
  pub bound_allow_iff :
      ((authorize ops l delegate ctx attr).decision ≡ allow)
      ↔ ((IsSkipped ctx attr ⊎ IsPermitted ops l ctx attr) × ((delegate ctx attr).decision ≡ allow))
  bound_allow_iff = (authorize_sound, λ (p, d). ap (λ v. v.decision) (bound-delegates p) ∙ d)
