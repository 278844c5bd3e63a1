-- ===== src/Authorizer/Chain.antt =====
-- `newAuthorizer` of internal/virtual/filteredapiexport/builder/build.go: the bound-API authorizer
-- before the content authorizer before the maximal permission authorizer, each in a decorator.
use contrib_filteredapiexpor.Prelude.{String, ◌≡◌, ◌⊎◌, ◌↔◌, ◌∙◌, sym}
use contrib_filteredapiexpor.Error.{Result}
use contrib_filteredapiexpor.Request.{Context, Attributes, allow, Authorizer, Listers}
use contrib_filteredapiexpor.Authorizer.Bound
use contrib_filteredapiexpor.Authorizer.Bound.{ClaimOps}
use contrib_filteredapiexpor.Authorizer.Bound.Permits.{IsSkipped, IsPermitted}
use contrib_filteredapiexpor.Authorizer.Bound.Decides
use contrib_filteredapiexpor.Authorizer.Content
use contrib_filteredapiexpor.Authorizer.Content.{IsReviewed}
use contrib_filteredapiexpor.Authorizer.MaximalPermission
use contrib_filteredapiexpor.Authorizer.MaximalPermission.{PolicyOps}
use contrib_filteredapiexpor.Authorizer.MaximalPermission.Grants
use contrib_filteredapiexpor.Authorizer.MaximalPermission.Grants.{IsTolerated}

-- authorization.NewDecorator and its options. They log a decision, replace its reason or copy it to
-- an annotation; none changes the decision.
pub record Decorators : Type 1 where
  pub Decorator : Type 0
  pub new : String → Authorizer → Decorator
  pub add_audit_logging : Decorator → Decorator
  pub add_anonymization : Decorator → Decorator
  pub add_reason_annotation : Decorator → Decorator
  pub run : Decorator → Authorizer
  pub decision-new :
      (key : String) (a : Authorizer) (ctx : Context) (attr : Attributes)
      → (run (new key a) ctx attr).decision ≡ (a ctx attr).decision
  pub decision-add_audit_logging :
      (d : Decorator) (ctx : Context) (attr : Attributes)
      → (run (add_audit_logging d) ctx attr).decision ≡ (run d ctx attr).decision
  pub decision-add_anonymization :
      (d : Decorator) (ctx : Context) (attr : Attributes)
      → (run (add_anonymization d) ctx attr).decision ≡ (run d ctx attr).decision
  pub decision-add_reason_annotation :
      (d : Decorator) (ctx : Context) (attr : Attributes)
      → (run (add_reason_annotation d) ctx attr).decision ≡ (run d ctx attr).decision

-- What the authorizers take from outside: the packages that they call, the SAR clients and the
-- caches.
pub record Environment : Type 1 where
  pub claim_ops : ClaimOps
  pub policy_ops : PolicyOps
  pub new_delegated : String → Result Authorizer
  pub decorators : Decorators
  pub listers : Listers

module _ (env : Environment) where
  open env use {claim_ops, policy_ops, new_delegated, decorators, listers}
  open decorators use {
    new, add_audit_logging, add_anonymization, add_reason_annotation, run, decision-new,
    decision-add_audit_logging, decision-add_anonymization, decision-add_reason_annotation,
  }

  -- A decorator with audit logging and anonymization.
  unfoldable pub decorate : String → Authorizer → Authorizer
  decorate key a = run (add_anonymization (add_audit_logging (new key a)))

  unfoldable pub decorate_with_reason : String → Authorizer → Authorizer
  decorate_with_reason key a =
      run (add_reason_annotation (add_anonymization (add_audit_logging (new key a))))

  unfoldable pub maximal_permission_auth : Authorizer
  maximal_permission_auth =
      decorate_with_reason "virtual.filtered-apiexport.maxpermissionpolicy.authorization.kcp.io"
        (MaximalPermission.authorize policy_ops listers)

  unfoldable pub api_exports_content_auth : Authorizer
  api_exports_content_auth =
      decorate "virtual.filtered-apiexport.content.authorization.kcp.io"
        (Content.authorize new_delegated maximal_permission_auth)

  -- newAuthorizer
  unfoldable pub new_authorizer : Authorizer
  new_authorizer =
      decorate "virtual.filtered-apiexport.boundapi.authorization.kcp.io"
        (Bound.authorize claim_ops listers api_exports_content_auth)

  module _ (ctx : Context) (attr : Attributes) where
    decision-decorate :
        (key : String) (a : Authorizer) → (decorate key a ctx attr).decision ≡ (a ctx attr).decision
    unfolding decorate
    decision-decorate key a =
        decision-add_anonymization _ ctx attr
        ∙ decision-add_audit_logging _ ctx attr
        ∙ decision-new key a ctx attr

    decision-maximal_permission_auth :
        (maximal_permission_auth ctx attr).decision
        ≡ (MaximalPermission.authorize policy_ops listers ctx attr).decision
    unfolding maximal_permission_auth decorate_with_reason
    decision-maximal_permission_auth =
        decision-add_reason_annotation _ ctx attr
        ∙ decision-add_anonymization _ ctx attr
        ∙ decision-add_audit_logging _ ctx attr
        ∙ decision-new _ _ ctx attr

    content_auth_iff :
        ((api_exports_content_auth ctx attr).decision ≡ allow)
        ↔ (IsReviewed new_delegated ctx attr × IsTolerated policy_ops listers ctx attr)
    unfolding api_exports_content_auth
    content_auth_iff =
        let dec = decision-decorate _ (Content.authorize new_delegated maximal_permission_auth) in
        let step = Content.content_allow_iff new_delegated maximal_permission_auth ctx attr in
        let last = Grants.maximal_permission_allow_iff policy_ops listers ctx attr in
        (
          λ h.
              let (r, m) = step.0 (sym dec ∙ h) in
              (r, last.0 (sym decision-maximal_permission_auth ∙ m)),
          λ (r, t). dec ∙ step.1 (r, decision-maximal_permission_auth ∙ last.1 t),
        )

    -- The virtual workspace allows a request, one for all clusters included, exactly when all three
    -- authorizers do: it is skipped or permitted by a binding, the workspace of the endpoint slice lets
    -- the user reach the slice's content, and the maximal permission check, which is made for every
    -- request, succeeds with no policy objecting.
    pub new_authorizer_allow_iff : ((new_authorizer ctx attr).decision ≡ allow) ↔ (
        (IsSkipped ctx attr ⊎ IsPermitted claim_ops listers ctx attr)
        × IsReviewed new_delegated ctx attr
        × IsTolerated policy_ops listers ctx attr)
    unfolding new_authorizer
    new_authorizer_allow_iff =
        let dec =
          decision-decorate _ (Bound.authorize claim_ops listers api_exports_content_auth) in
        let step = Decides.bound_allow_iff claim_ops listers api_exports_content_auth ctx attr in
        (
          λ h. let (p, c) = step.0 (sym dec ∙ h) in let (r, t) = content_auth_iff.0 c in (p, r, t),
          λ (p, r, t). dec ∙ step.1 (p, content_auth_iff.1 (r, t)),
        )
