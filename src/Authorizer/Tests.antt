-- ===== src/Authorizer/Tests.antt =====
-- The authorizers at the sample data.
use contrib_filteredapiexpor.Prelude.{◌≡◌, ◌⊎◌, refl, find, any}
use contrib_filteredapiexpor.Text.{split, cons_head}
use contrib_filteredapiexpor.Api.{same_resource}
use contrib_filteredapiexpor.Request.{
  Attributes, key_parts, allow, deny, binding_by_export, binds_export,
}
use contrib_filteredapiexpor.Authorizer.Bound
use contrib_filteredapiexpor.Authorizer.Bound.{check_slice, check_binding, is_usable, export_verbs}
use contrib_filteredapiexpor.Authorizer.Bound.Permits.{IsSkipped, IsPermitted}
use contrib_filteredapiexpor.Authorizer.Bound.Decides.{bound_allow_iff}
use contrib_filteredapiexpor.Authorizer.Content
use contrib_filteredapiexpor.Authorizer.Content.{
  IsReviewed, content_attributes, review, content_allow_iff,
}
use contrib_filteredapiexpor.Authorizer.MaximalPermission
use contrib_filteredapiexpor.Authorizer.MaximalPermission.{
  prefix_attributes, get_claimed_identity, check_identity, check_policies, check_policy,
}
use contrib_filteredapiexpor.Authorizer.MaximalPermission.Grants.{IsTolerated}
use contrib_filteredapiexpor.Authorizer.Chain.{
  new_authorizer, new_authorizer_allow_iff, decorate, decorate_with_reason, maximal_permission_auth,
  api_exports_content_auth,
}
use contrib_filteredapiexpor.Samples.{
  alice_only, sample_claim_ops, sample_policy_ops, sample_listers, sample_env, sample_context,
  sample_request,
}

opened : Unit {0}
unfolding any find cons_head split same_resource key_parts binds_export binding_by_export
    export_verbs is_usable check_binding check_slice Bound.authorize content_attributes
    Content.after_review review Content.authorize get_claimed_identity prefix_attributes
    MaximalPermission.after_review check_policy check_policies check_identity
    MaximalPermission.authorize decorate decorate_with_reason maximal_permission_auth
    api_exports_content_auth new_authorizer
opened = tt

-- Alice may update the gadget.
alice_allowed : (new_authorizer sample_env sample_context sample_request).decision ≡ allow
unfolding opened
alice_allowed = refl

-- Bob may not.
abbrev bob_request : Attributes
bob_request = record sample_request { user = record sample_request.user { name = "bob" } }

bob_refused : (new_authorizer sample_env sample_context bob_request).decision ≡ deny
unfolding opened
bob_refused = refl

new_authorizer_allow_iff_example :
    (IsSkipped sample_context sample_request
      ⊎ IsPermitted sample_claim_ops sample_listers sample_context sample_request)
    × IsReviewed sample_env.new_delegated sample_context sample_request
    × IsTolerated sample_policy_ops sample_listers sample_context sample_request
new_authorizer_allow_iff_example =
    (new_authorizer_allow_iff sample_env sample_context sample_request).0 alice_allowed

bound_allow_iff_example :
    (IsSkipped sample_context sample_request
      ⊎ IsPermitted sample_claim_ops sample_listers sample_context sample_request)
    × ((alice_only sample_context sample_request).decision ≡ allow)
unfolding opened
bound_allow_iff_example =
    (bound_allow_iff sample_claim_ops sample_listers alice_only sample_context sample_request).0
      refl

alice-IsPermitted :
    IsSkipped sample_context sample_request
    ⊎ IsPermitted sample_claim_ops sample_listers sample_context sample_request
unfolding opened
alice-IsPermitted =
    ((bound_allow_iff sample_claim_ops sample_listers alice_only sample_context sample_request).0
      refl).0

content_allow_iff_example :
    IsReviewed (λ cluster. sample_env.new_delegated cluster) sample_context sample_request
    × ((alice_only sample_context sample_request).decision ≡ allow)
unfolding opened
content_allow_iff_example =
    (content_allow_iff sample_env.new_delegated alice_only sample_context sample_request).0 refl
