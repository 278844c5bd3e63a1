-- ===== src/Admission/Visible.antt =====
-- selector.go: the objects that `Validate` lets through, among them those that `Admit` has labelled.
use contrib_filteredapiexpor.Prelude.{
  String, true, none, some, [], ◌≡◌, ◌⊎◌, ◌↔◌, inl, inr, refl, arith, any, find, find_sound, All,
  All-mem, Bool-cases, Option-cases,
}
use contrib_filteredapiexpor.Error.{ok, Result-cases}
use contrib_filteredapiexpor.Url.{Cluster}
use contrib_filteredapiexpor.Api.{
  Labels, GroupResource, LabelSelector, EndpointSlice, ApiBinding, BindingClaim, same_resource,
}
use contrib_filteredapiexpor.Request.{Context, Listers}
use contrib_filteredapiexpor.LabelMap.{Contains, HasDistinctKeys}
use contrib_filteredapiexpor.Admission.{
  Unstructured, Object, nil, unstructured, other, Attributes, labels_of, claims, started, start,
  binding_of_slice, slice_labels,
}
use contrib_filteredapiexpor.Admission.Admit.{is_write, additional_labels, admit}
use contrib_filteredapiexpor.Admission.Writes.{IsViewWrite, admit-IsLabelled}
use contrib_filteredapiexpor.Admission.Validate.{
  Selectors, claim_message, slice_message, subject, is_checked, check_selector, validate_claims,
  validate_binding, validate_object, validate,
}

module _ (sels : Selectors) where
  -- The selector can be built, and the labels have what it asks for.
  pub record Fits (s : LabelSelector) (lbls : Labels) : Type 0 where
    pub selector : sels.Selector
    pub built : sels.as_selector s ≡ ok selector
    pub match_labels : Contains lbls s.match_labels
    pub match_expressions : All (λ r. sels.satisfies r lbls ≡ true) s.match_expressions

  check_selector_iff :
      (message : String) (s : LabelSelector) (lbls : Labels)
      → (check_selector sels message s lbls ≡ none) ↔ Fits s lbls
  unfolding check_selector
  check_selector_iff message s lbls = (
    λ h. elim (Result-cases (sels.as_selector s)) [
      | inr (x, e) ↦ absurd (ground (arith, e))
      | inl (sel, e) ↦
          let (c, x) = (sels.matches_iff s sel lbls e).0 (ground (arith, e)) in
          record { selector = sel; built = e; match_labels = c; match_expressions = x }
    ],
    λ f. ground (
      arith,
      f.built,
      (sels.matches_iff s f.selector lbls f.built).1 (f.match_labels, f.match_expressions),
    ),
  )

  -- The first accepted claim of the resource, if the resource is not bound, asks for no labels or
  -- for labels that the object has.
  abbrev pub FitsClaims : ApiBinding → GroupResource → Labels → Type 0
  FitsClaims binding gr lbls =
      (any (λ r. same_resource r gr) binding.bound_resources ≡ true)
      ⊎ (find (claims gr) binding.permission_claims ≡ none)
      ⊎ ((c : BindingClaim) × (find (claims gr) binding.permission_claims ≡ some c)
          × ((c.selector.match_all ≡ true) ⊎ Fits c.selector.label_selector lbls))

  validate_claims_iff :
      (binding : ApiBinding) (gr : GroupResource) (lbls : Labels)
      → (validate_claims sels binding gr lbls ≡ none) ↔ FitsClaims binding gr lbls
  unfolding validate_claims
  validate_claims_iff binding gr lbls = (
    λ h. elim (Bool-cases (any (λ r. same_resource r gr) binding.bound_resources)) [
      | inl b ↦ inl b
      | inr n ↦ elim (Option-cases (find (claims gr) binding.permission_claims)) [
        | inl e ↦ inr (inl e)
        | inr (c, e) ↦ elim (Bool-cases c.selector.match_all) [
          | inl m ↦ inr (inr (c, e, inl m))
          | inr m ↦ inr (
              inr (
                c,
                e,
                inr (
                    (check_selector_iff claim_message c.selector.label_selector lbls).0
                      (ground (arith, n, e, m))),
              ))
        ]
      ]
    ],
    λ f. elim f [
      | inl b ↦ ground (arith, b)
      | inr (inl e) ↦ ground (arith, e)
      | inr (inr (c, e, inl m)) ↦ ground (arith, e, m)
      | inr (inr (c, e, inr fits)) ↦
          ground
            (arith, e, (check_selector_iff claim_message c.selector.label_selector lbls).1 fits)
    ],
  )

  -- An object that is in the view: it is unstructured, fits the selector of the endpoint slice, and
  -- fits the claim of the binding of its cluster.
  pub record IsVisible (l : Listers) (target : Cluster) (slice : EndpointSlice) (gr : GroupResource)
      (obj : Object) : Type 0 where
    pub u : Unstructured
    pub is_unstructured : obj ≡ unstructured u
    pub in_view : Fits slice.spec.object_selector.label_selector (labels_of u)
    pub binding : ApiBinding
    pub binding_found : binding_of_slice l target slice ≡ ok binding
    pub in_claims : FitsClaims binding gr (labels_of u)

  validate_object_sound :
      (l : Listers) (target : Cluster) (slice : EndpointSlice) (gr : GroupResource) (obj : Object)
      → validate_object sels l target slice gr obj ≡ none
      → IsVisible l target slice gr obj
  unfolding validate_object validate_binding
  validate_object_sound l target slice gr nil h = absurd (ground arith)
  validate_object_sound l target slice gr (other t) h = absurd (ground arith)
  validate_object_sound l target slice gr (unstructured u) h =
      let s = slice.spec.object_selector.label_selector in
      elim (Option-cases (check_selector sels slice_message s (labels_of u))) [
        | inr (x, e) ↦ absurd (ground (arith, e))
        | inl fits ↦ elim (Result-cases (binding_of_slice l target slice)) [
          | inr (x, e) ↦ absurd (ground (arith, fits, e))
          | inl (binding, e) ↦ record {
            u = u;
            is_unstructured = refl;
            in_view = (check_selector_iff slice_message s (labels_of u)).0 fits;
            binding = binding;
            binding_found = e;
            in_claims = (validate_claims_iff binding gr (labels_of u)).0 (ground (arith, fits, e));
          }
        ]
      ]

  validate_object_complete :
      (l : Listers) (target : Cluster) (slice : EndpointSlice) (gr : GroupResource) (obj : Object)
      → IsVisible l target slice gr obj
      → validate_object sels l target slice gr obj ≡ none
  unfolding validate_object validate_binding
  validate_object_complete l target slice gr obj v = ground (
    arith,
    v.is_unstructured,
    v.binding_found,
    (check_selector_iff slice_message slice.spec.object_selector.label_selector (labels_of v.u)).1
        v.in_view,
    (validate_claims_iff v.binding gr (labels_of v.u)).1 v.in_claims,
  )

  -- For an operation that Validate checks, on a request with one target cluster whose endpoint slice is
  -- found: Validate passes exactly when the object, or the old object where there is no new one, is
  -- unstructured, matches the selector of the endpoint slice, has a binding, and matches the claim of its
  -- resource.
  pub validate_iff :
      (l : Listers) (ctx : Context) (a : Attributes) (target : Cluster) (slice : EndpointSlice)
      → is_checked a.operation ≡ true
      → start l ctx a.resource ≡ started target slice
      → (validate sels l ctx a ≡ none) ↔ IsVisible l target slice a.resource (subject a)
  unfolding validate
  validate_iff l ctx a target slice checked begun = (
    λ h.
        validate_object_sound l target slice a.resource (subject a)
          (ground (arith, checked, begun)),
    λ v.
        ground
          (arith, checked, begun, validate_object_complete l target slice a.resource (subject a) v),
  )

  -- The selector has only `matchLabels`, and can be built.
  abbrev pub IsLabelsOnly : LabelSelector → Type 0
  IsLabelsOnly s =
      (s.match_expressions ≡ []) × ((sel : sels.Selector) × (sels.as_selector s ≡ ok sel))

  Fits-of_Contains :
      (s : LabelSelector) (lbls : Labels)
      → IsLabelsOnly s
      → Contains lbls s.match_labels
      → Fits s lbls
  Fits-of_Contains s lbls (e, (sel, built)) c = record {
    selector = sel;
    built = built;
    match_labels = c;
    match_expressions = rw e tt;
  }

  -- The claim that `Admit` took its labels from asks for no others.
  FitsClaims-of_additional :
      (binding : ApiBinding) (gr : GroupResource) (lbls extra : Labels)
      → All (λ c. IsLabelsOnly c.selector.label_selector) binding.permission_claims
      → additional_labels binding gr ≡ some extra
      → Contains lbls extra
      → FitsClaims binding gr lbls
  unfolding additional_labels
  FitsClaims-of_additional binding gr lbls extra simple h c =
      elim (Bool-cases (any (λ r. same_resource r gr) binding.bound_resources)) [
        | inl b ↦ inl b
        | inr n ↦ elim (Option-cases (find (claims gr) binding.permission_claims)) [
          | inl e ↦ inr (inl e)
          | inr (claim, e) ↦ elim (Bool-cases claim.selector.match_all) [
            | inl m ↦ inr (inr (claim, e, inl m))
            | inr m ↦
                let only =
                  All-mem _ binding.permission_claims simple
                    (find_sound (claims gr) binding.permission_claims e).0 in
                let same : extra ≡ claim.selector.label_selector.match_labels =
                  ground (arith, n, e, m, h) in
                inr (
                  inr (
                    claim,
                    e,
                    inr (Fits-of_Contains claim.selector.label_selector lbls only (rw same at c)),
                  ))
          ]
        ]
      ]

  is_checked_of_write :
      (a : Attributes) → is_write a.operation ≡ true → is_checked a.operation ≡ true
  is_checked_of_write a h = ground (arith, h)

  subject_of_new :
      (a : Attributes) (obj' : Object) (u : Unstructured)
      → obj' ≡ unstructured u
      → subject (record a { object = obj' }) ≡ unstructured u
  subject_of_new a obj' u e = ground (arith, e)

  -- In one cluster, for a resource that the binding there binds or claims: what Admit has labelled in a
  -- create or an update passes Validate, where the selectors of the endpoint slice and of the claims have
  -- only matchLabels and can be built.
  pub validate-admit :
      (l : Listers) (ctx : Context) (a : Attributes) (slice : EndpointSlice) (extra : Labels)
      (obj' : Object)
      → (w : IsViewWrite l ctx a slice extra) → HasDistinctKeys (slice_labels slice)
      → IsLabelsOnly slice.spec.object_selector.label_selector
      → All (λ c. IsLabelsOnly c.selector.label_selector) w.binding.permission_claims
      → admit l ctx a ≡ (obj', none)
      → validate sels l ctx (record a { object = obj' }) ≡ none
  validate-admit l ctx a slice extra obj' w d view_only claims_only h =
      let (u, u', old, new, s) = admit-IsLabelled l ctx a slice extra w obj' d h in
      (validate_iff l ctx (record a { object = obj' }) w.target slice
          (is_checked_of_write a w.write) w.begun).1
        (record {
          u = u';
          is_unstructured = subject_of_new a obj' u' new;
          in_view = Fits-of_Contains _ (labels_of u') view_only s.has_view;
          binding = w.binding;
          binding_found = w.binding_found;
          in_claims =
              FitsClaims-of_additional w.binding a.resource (labels_of u') extra claims_only
                w.claimed s.has_extra;
        })
