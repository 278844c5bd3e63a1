-- ===== src/Authorizer/Bound.antt =====
-- internal/virtual/filteredapiexport/authorizer/binding.go: is the requested resource bound, or
-- claimed with the requested verb, in the target logical cluster?
pub mod Permits
pub mod Decides
use contrib_filteredapiexpor.Prelude.{
  String, Bool, true, false, not, Option, none, some, List, [], ◌∷◌, ◌==◌, ◌&&◌, ◌||◌, ◌≡◌, any,
  find, if◌then◌else◌,
}
use contrib_filteredapiexpor.Error.{Error, errorf, wrap, Result, ok, err, is_not_found}
use contrib_filteredapiexpor.Url.{Cluster}
use contrib_filteredapiexpor.Api.{
  EndpointSlice, ApiExport, ApiBinding, GroupResource, PermissionClaim, BindingClaim, is_accepted,
  same_resource,
}
use contrib_filteredapiexpor.Request.{
  Context, Attributes, requested, deny, no_opinion, plain, Verdict, verdict, failure, Authorizer,
  Listers, key_parts, binding_by_export,
}

abbrev pub contains : List String → String → Bool
contains xs x = any (λ y. y == x) xs

-- sets.Set[string] of k8s.io/apimachinery, with what its documentation says of membership.
pub record VerbSets : Type 1 where
  pub Set : Type 0
  pub new : List String → Set
  pub insert : Set → List String → Set
  pub intersection : Set → Set → Set
  pub has : Set → String → Bool
  pub has_any : Set → List String → Bool
  pub has-new : (xs : List String) (x : String) → has (new xs) x ≡ contains xs x
  pub has-insert :
      (s : Set) (xs : List String) (x : String) → has (insert s xs) x ≡ (has s x || contains xs x)
  pub has-intersection : (s t : Set) (x : String) → has (intersection s t) x ≡ (has s x && has t x)
  pub has_any-any : (s : Set) (xs : List String) → has_any s xs ≡ any (has s) xs

abbrev pub wildcard_verb : String
wildcard_verb = "*"

abbrev pub read_only_verbs : List String
read_only_verbs = "get" ∷ "list" ∷ "watch" ∷ []

-- apisv1alpha2.SchemeGroupVersion.Group
abbrev pub apis_group : String
apis_group = "apis.kcp.io"

abbrev pub is_api_bindings : Attributes → Bool
is_api_bindings attr = attr.api_group == apis_group && attr.resource == "apibindings"

abbrev pub claimed_resource : PermissionClaim → GroupResource
claimed_resource claim = record { group = claim.group; resource = claim.resource }

-- What the program takes from the packages that it calls: the sets, and `EqualGRI`, which compares
-- the group, the resource and the identity of two claims.
pub record ClaimOps : Type 1 where
  pub sets : VerbSets
  pub equal_gri : PermissionClaim → PermissionClaim → Bool

module _ (ops : ClaimOps) where
  open ops use {sets, equal_gri}

  -- The verbs that the export claims: those of its first claim of the same group, resource and
  -- identity.
  unfoldable pub export_verbs : ApiExport → PermissionClaim → sets.Set
  export_verbs export claim = elim (find (λ c. equal_gri c claim) export.permission_claims) [
    | none ↦ sets.new []
    | some c ↦ sets.insert (sets.new []) c.verbs
  ]

  -- The tests of one round of the loop over the claims of the binding.
  unfoldable pub is_usable : ApiExport → Attributes → BindingClaim → Bool
  is_usable export attr c =
      is_accepted c.state
      && same_resource (claimed_resource c.claim) (requested attr)
      && sets.has_any (sets.intersection (sets.new c.claim.verbs) (export_verbs export c.claim))
          (attr.verb ∷ wildcard_verb ∷ [])

  -- `Authorize` once the binding and the export are known.
  unfoldable pub check_binding : Authorizer → ApiExport → ApiBinding → Authorizer
  check_binding delegate export binding ctx attr =
      if any (λ r. same_resource r (requested attr)) binding.bound_resources
      then delegate ctx attr
      else if any (is_usable export attr) binding.permission_claims
      then delegate ctx attr
      else if is_api_bindings attr
      then (if not (contains read_only_verbs attr.verb)
          then verdict no_opinion
              (plain "write access to APIBinding is not allowed from virtual workspace")
          else delegate ctx attr)
      else verdict deny (plain "failed to find suitable reason to allow access in APIBinding")

  -- `Authorize` once the endpoint slice is known.
  unfoldable pub check_slice : Listers → Authorizer → Cluster → EndpointSlice → Authorizer
  check_slice l delegate target slice ctx attr =
      let ref = slice.spec.api_export in
      elim (l.get_export ref.path ref.name) [
        | err e ↦ failure (if is_not_found e then wrap "APIExport not found: %w" [] e else e)
        | ok export ↦
            elim (binding_by_export l "no suitable binding found 2" target.name export.name
              ref.path) [
                | err e ↦
                    verdict deny
                      (plain "could not find suitable APIBinding in target logical cluster")
                | ok binding ↦ check_binding delegate export binding ctx attr
              ]
      ]

  -- boundAPIAuthorizer.Authorize
  unfoldable pub authorize : Listers → Authorizer → Authorizer
  authorize l delegate ctx attr = elim ctx.valid_cluster [
    | err e ↦ failure (wrap "error getting valid cluster from context: %w" [] e)
    | ok target ↦
        if target.wildcard || attr.resource == ""
        then delegate ctx attr
        else elim (key_parts ctx.domain_key) [
          | none ↦ failure (errorf "invalid API domain key" [])
          | some (cluster, name) ↦ elim (l.get_slice cluster name) [
            | err e ↦ failure (
                if is_not_found e
                then wrap "FilteredAPIExportEndpointSlice not found: %w" [] e
                else e)
            | ok slice ↦ check_slice l delegate target slice ctx attr
          ]
        ]
  ]
