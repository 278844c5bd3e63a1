-- ===== src/Authorizer/MaximalPermission.antt =====
-- internal/virtual/filteredapiexport/authorizer/maximal_permission_policy.go: do all exports that
-- provide the claimed resource let the user do this?
pub mod Grants
use Prim.Native.String.{◌++◌}
use contrib_filteredapiexpor.Prelude.{
  String, Option, none, some, List, [], ◌∷◌, ◌==◌, ◌&&◌, map, find, if◌then◌else◌,
}
use contrib_filteredapiexpor.Error.{Error, errorf, wrap, Result, ok, err, is_not_found}
use contrib_filteredapiexpor.Api.{ApiExport, PermissionClaim, EndpointSlice}
use contrib_filteredapiexpor.Request.{
  Context, User, Attributes, Decision, deny, allow, no_opinion, Reason, plain, reasonf, because,
  Verdict, verdict, failure, Authorizer, Listers, key_parts,
}

-- getClaimedIdentity: the identity of the first claim of the resource.
unfoldable pub get_claimed_identity : ApiExport → Attributes → Option String
get_claimed_identity export attr =
    elim (find (λ c. c.resource == attr.resource && c.group == attr.api_group)
      export.permission_claims) [ none ↦ none | some c ↦ some c.identity_hash ]

-- What the program takes from the packages that it calls: the prefix
-- MaximalPermissionPolicyRBACUserGroupPrefix, and the deep SAR authorizer of a workspace.
pub record PolicyOps : Type 0 where
  pub prefix : String
  pub new_deep_sar : String → Result Authorizer

-- prefixAttributes
unfoldable pub prefix_attributes : String → Attributes → Attributes
prefix_attributes prefix attr = record attr {
  user = record {
    name = prefix ++ attr.user.name;
    uid = attr.user.uid;
    groups = map (λ g. prefix ++ g) attr.user.groups;
    extra = attr.user.extra;
  };
}

module _ (ops : PolicyOps) (l : Listers) where
  -- The end of a round of the loop: the verdict of the deep SAR authorizer, or the next rounds.
  unfoldable pub after_review : ApiExport → Verdict → Verdict → Verdict
  after_review export v rest = elim v.error [
    | some e ↦ failure (
        wrap "error authorizing against APIExport name: %q, workspace: %q: %w"
          (export.name ∷ export.cluster ∷ []) e)
    | none ↦ elim v.decision [
      | Decision.allow ↦ rest
      | _ ↦ verdict no_opinion (
          because "APIExport: %q, workspace: %q RBAC decision: %v"
            (export.name ∷ export.cluster ∷ []) v.reason)
    ]
  ]

  -- One round of the loop over the exports, for an export with a local policy.
  unfoldable pub check_policy : ApiExport → Context → Attributes → Verdict → Verdict
  check_policy export ctx attr rest = elim (ops.new_deep_sar export.cluster) [
    | err e ↦ failure (
        wrap "error executing deep SAR in APIExport name: %q, workspace: %q: %w"
          (export.name ∷ export.cluster ∷ []) e)
    | ok authz ↦ after_review export (authz ctx (prefix_attributes ops.prefix attr)) rest
  ]

  -- The loop over the exports that provide the claimed resource.
  unfoldable pub check_policies : List ApiExport → Authorizer
  check_policies [] ctx attr = verdict allow (plain "all claimed APIExports granted access")
  check_policies (export ∷ exports) ctx attr =
      let rest = check_policies exports ctx attr in
      elim export.maximal_permission_policy [
        | none ↦ rest
        | some policy ↦ if policy.has_local then check_policy export ctx attr rest else rest
      ]

  -- `Authorize` once the identity is known.
  unfoldable pub check_identity : ApiExport → Option String → Authorizer
  check_identity claiming none ctx attr = verdict allow (
      reasonf "unclaimed resource in APIExport: %q, workspace :%q"
        (claiming.name ∷ claiming.cluster ∷ []))
  check_identity claiming (some hash) ctx attr =
      if hash == ""
      then verdict allow (
          reasonf
            "unclaimable resource, identity hash not set in claiming APIExport: %q, workspace :%q"
            (claiming.name ∷ claiming.cluster ∷ []))
      else elim (l.exports_by_identity hash) [
        | err e ↦ failure (wrap "error getting APIExport identity: %q: %w" (hash ∷ []) e)
        | ok [] ↦ verdict deny (
            reasonf "no APIExport providing claimed resources found for identity hash: %q"
              (hash ∷ []))
        | ok (export ∷ exports) ↦ check_policies (export ∷ exports) ctx attr
      ]

  -- maximalPermissionAuthorizer.Authorize
  unfoldable pub authorize : Authorizer
  authorize ctx attr = elim (key_parts ctx.domain_key) [
    | none ↦ failure (errorf "invalid API domain key" [])
    | some (cluster, name) ↦ elim (l.get_slice cluster name) [
      | err e ↦
          failure
            (if is_not_found e then wrap "FilteredAPIExportEndpointSlice not found: %w" [] e else e)
      | ok slice ↦ elim (l.get_export slice.spec.api_export.path slice.spec.api_export.name) [
        | err e ↦ failure (if is_not_found e then wrap "APIExport not found: %w" [] e else e)
        | ok claiming ↦ check_identity claiming (get_claimed_identity claiming attr) ctx attr
      ]
    ]
  ]
