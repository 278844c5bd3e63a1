-- ===== src/Authorizer/Content.antt =====
-- internal/virtual/filteredapiexport/authorizer/content.go: may the user do this to the content of
-- the endpoint slice? The delegated authorizer asks the slice's workspace.
use contrib_filteredapiexpor.Prelude.{
  String, none, some, [], ◌∷◌, ◌≡◌, ◌↔◌, ◌∙◌, ap, arith, inl, inr, true, Option-cases,
}
use contrib_filteredapiexpor.Error.{errorf, wrap, Result, ok, err, Result-cases}
use contrib_filteredapiexpor.Request.{
  Context, Attributes, Decision, allow, Reason, because, verdict, failure, Authorizer, key_parts,
}

-- The group and the version of SchemeGroupVersion
abbrev pub group_name : String
group_name = "filteredvw.kcp.io"

abbrev group_version : String
group_version = "v1alpha1"

-- SARAttributes: the same user and verb, on the subresource `content` of the endpoint slice.
unfoldable pub content_attributes : String → Attributes → Attributes
content_attributes slice_name attr = record {
  user = attr.user;
  verb = attr.verb;
  namespace = "";
  api_group = group_name;
  api_version = group_version;
  resource = "filteredapiexportendpointslices";
  subresource = "content";
  name = slice_name;
  resource_request = true;
  path = "";
}

-- The decision of the delegated authorizer, where it returned no error.
unfoldable pub after_review : Authorizer → String → String → Decision → Reason → Authorizer
after_review delegate name cluster allow reason ctx attr = delegate ctx attr
after_review delegate name cluster decision reason ctx attr = verdict decision (
    because "FilteredAPIExportEndpointSlice: %q, workspace: %q RBAC decision: %v"
      (name ∷ cluster ∷ []) reason)

-- The workspace of the endpoint slice lets the user do this to the slice's content.
pub record IsReviewed (new_delegated : String → Result Authorizer) (ctx : Context)
    (attr : Attributes) : Type 0 where
  pub cluster : String
  pub name : String
  pub key : key_parts ctx.domain_key ≡ some (cluster, name)
  pub authz : Authorizer
  pub created : new_delegated cluster ≡ ok authz
  pub no_error : (authz ctx (content_attributes name attr)).error ≡ none
  pub allowed : (authz ctx (content_attributes name attr)).decision ≡ allow

module _ (new_delegated : String → Result Authorizer) (delegate : Authorizer) where
  unfoldable pub review : Authorizer → String → String → Authorizer
  review authz cluster name ctx attr =
      let v = authz ctx (content_attributes name attr) in
      elim v.error [
        | some e ↦ failure (
            wrap "error authorizing RBAC in FilteredAPIExportEndpointSlice %q, workspace %q: %w"
              (name ∷ cluster ∷ []) e)
        | none ↦ after_review delegate name cluster v.decision v.reason ctx attr
      ]

  -- filteredAPIExportsContentAuthorizer.Authorize
  unfoldable pub authorize : Authorizer
  authorize ctx attr = elim (key_parts ctx.domain_key) [
    | none ↦ failure (errorf "invalid API domain key" [])
    | some (cluster, name) ↦ elim (new_delegated cluster) [
      | err e ↦ failure (
          wrap
            "error creating delegated authorizer for FilteredAPIExportEndpointSlice %q, workspace %q: %w"
            (name ∷ cluster ∷ []) e)
      | ok authz ↦ review authz cluster name ctx attr
    ]
  ]

  review_sound :
      (authz : Authorizer) (cluster name : String) (ctx : Context) (attr : Attributes)
      → (review authz cluster name ctx attr).decision ≡ allow
      → ((authz ctx (content_attributes name attr)).error ≡ none)
        × ((authz ctx (content_attributes name attr)).decision ≡ allow)
        × ((delegate ctx attr).decision ≡ allow)
  unfolding review after_review
  review_sound authz cluster name ctx attr h = (ground arith, ground arith, ground arith)

  content-delegates :
      (ctx : Context) (attr : Attributes)
      → IsReviewed new_delegated ctx attr
      → authorize ctx attr ≡ delegate ctx attr
  unfolding authorize review after_review
  content-delegates ctx attr r = ground (arith, r.key, r.created, r.no_error, r.allowed)

  -- The decision is "allow" exactly when the review allowed it without an error and the delegate
  -- allows it.
  pub content_allow_iff :
      (ctx : Context) (attr : Attributes)
      → ((authorize ctx attr).decision ≡ allow)
        ↔ (IsReviewed new_delegated ctx attr × ((delegate ctx attr).decision ≡ allow))
  unfolding authorize
  content_allow_iff ctx attr = (
    λ h. elim (Option-cases (key_parts ctx.domain_key)) [
      | inl e ↦ absurd (ground (arith, e))
      | inr ((cluster, name), key) ↦ elim (Result-cases (new_delegated cluster)) [
        | inr (x, e) ↦ absurd (ground (arith, key, e))
        | inl (authz, created) ↦
            let (no_error, allowed, passed) =
              review_sound authz cluster name ctx attr (ground (arith, key, created)) in
            (
              record {
                cluster = cluster;
                name = name;
                key = key;
                authz = authz;
                created = created;
                no_error = no_error;
                allowed = allowed;
              },
              passed,
            )
      ]
    ],
    λ (r, d). ap (λ v. v.decision) (content-delegates ctx attr r) ∙ d,
  )
