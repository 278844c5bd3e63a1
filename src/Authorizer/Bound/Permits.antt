-- ===== src/Authorizer/Bound/Permits.antt =====
-- When the bound-API authorizer hands a request on, described without its loops.
use mathlib.Core.List.{Memᴰ}
use contrib_filteredapiexpor.Prelude.{
  String, Bool, true, false, none, some, [], ◌∷◌, ◌&&◌, ◌||◌, ◌≡◌, ◌⊎◌, ◌↔◌, inl, inr, refl, sym,
  subst, ap, ◌∙◌, arith, any, find, any_sound, any_complete, contains_iff, eq_iff, &&_iff,
  Bool-cases, Option-cases,
}
use contrib_filteredapiexpor.Error.{ok}
use contrib_filteredapiexpor.Url.{Cluster}
use contrib_filteredapiexpor.Api.{
  EndpointSlice, ApiExport, ApiBinding, PermissionClaim, BindingClaim, ClaimState, is_accepted,
  same_resource, same_resource_iff,
}
use contrib_filteredapiexpor.Request.{
  Context, Attributes, requested, allow, Authorizer, Listers, key_parts, binding_by_export,
}
use contrib_filteredapiexpor.Request.Bindings.{IsBindingOf}
use contrib_filteredapiexpor.Authorizer.Bound.{
  is_api_bindings, contains, ClaimOps, wildcard_verb, read_only_verbs, apis_group, claimed_resource,
  export_verbs, is_usable, check_binding,
}

||-cases : (a b : Bool) → (a || b) ≡ true → (a ≡ true) ⊎ (b ≡ true)
||-cases a b h = ground arith

is_accepted_sound : (s : ClaimState) → is_accepted s ≡ true → s ≡ ClaimState.accepted
is_accepted_sound ClaimState.accepted h = refl
is_accepted_sound (ClaimState.other t) h = cc

||-of_fits :
    (p : String → Bool) (asked verb : String)
    → (verb ≡ asked) ⊎ (verb ≡ wildcard_verb)
    → p verb ≡ true
    → (p asked || p wildcard_verb) ≡ true
||-of_fits p asked verb (inl e) h = rw (← e) (rw h)
||-of_fits p asked verb (inr e) h = ground (arith, ap p e)

-- Requests that the authorizer hands on unseen: for all clusters, or for no resource.
abbrev pub IsSkipped : Context → Attributes → Type 0
IsSkipped ctx attr =
    (target : Cluster) × (ctx.valid_cluster ≡ ok target)
    × ((target.wildcard ≡ true) ⊎ (attr.resource ≡ ""))

module _ (ops : ClaimOps) where
  -- The claim is accepted, is for the resource, and has the verb or the wildcard both in the binding
  -- and in the export's first claim of the same identity.
  pub record ClaimGrants (export : ApiExport) (attr : Attributes) (c : BindingClaim) : Type 0 where
    pub state : c.state ≡ ClaimState.accepted
    pub resource : claimed_resource c.claim ≡ requested attr
    pub export_claim : PermissionClaim
    pub claimed : find (λ e. ops.equal_gri e c.claim) export.permission_claims ≡ some export_claim
    pub verb : String
    pub fits : (verb ≡ attr.verb) ⊎ (verb ≡ wildcard_verb)
    pub in_binding : Memᴰ verb c.claim.verbs
    pub in_export : Memᴰ verb export_claim.verbs

  has-export_verbs-none :
      (export : ApiExport) (claim : PermissionClaim) (v : String)
      → find (λ e. ops.equal_gri e claim) export.permission_claims ≡ none
      → ops.sets.has (export_verbs ops export claim) v ≡ false
  unfolding export_verbs any
  has-export_verbs-none export claim v h = rw (h, export_verbs) (ops.sets.has-new [] v)

  has-export_verbs-some :
      (export : ApiExport) (claim e : PermissionClaim) (v : String)
      → find (λ c. ops.equal_gri c claim) export.permission_claims ≡ some e
      → ops.sets.has (export_verbs ops export claim) v ≡ contains e.verbs v
  unfolding export_verbs any
  has-export_verbs-some export claim e v h =
      rw (h, export_verbs)
        (ops.sets.has-insert (ops.sets.new []) e.verbs v
          ∙ ap (λ b. b || contains e.verbs v) (ops.sets.has-new [] v))

  -- The verb test of the loop, without the sets.
  has_any_verb :
      (a b : ops.sets.Set) (x y : String)
      → ops.sets.has_any (ops.sets.intersection a b) (x ∷ y ∷ [])
        ≡ (ops.sets.has a x && ops.sets.has b x || ops.sets.has a y && ops.sets.has b y)
  unfolding any
  has_any_verb a b x y =
      ops.sets.has_any-any (ops.sets.intersection a b) (x ∷ y ∷ [])
      ∙ rw (ops.sets.has-intersection a b x, ops.sets.has-intersection a b y) (ground arith)

  in_both_iff :
      (export : ApiExport) (claim e : PermissionClaim) (v : String)
      → find (λ c. ops.equal_gri c claim) export.permission_claims ≡ some e
      → ((ops.sets.has (ops.sets.new claim.verbs) v
            && ops.sets.has (export_verbs ops export claim) v)
          ≡ true)
        ↔ (Memᴰ v claim.verbs × Memᴰ v e.verbs)
  in_both_iff export claim e v h =
      rw (ops.sets.has-new claim.verbs v, has-export_verbs-some export claim e v h)
        (
          λ b. let (p, q) = (&&_iff _ _).0 b in ((contains_iff _ v).0 p, (contains_iff _ v).0 q),
          λ (p, q). (&&_iff _ _).1 ((contains_iff _ v).1 p, (contains_iff _ v).1 q),
        )

  -- The claim's verbs and the export's have the asked verb or the wildcard in common.
  verbs_sound :
      (export : ApiExport) (claim : PermissionClaim) (asked : String)
      → ops.sets.has_any
          (ops.sets.intersection (ops.sets.new claim.verbs) (export_verbs ops export claim))
          (asked ∷ wildcard_verb ∷ [])
        ≡ true
      → (e : PermissionClaim) × (verb : String) × (find
            (λ c. ops.equal_gri c claim)
            export.permission_claims
          ≡ some e)
        × ((verb ≡ asked) ⊎ (verb ≡ wildcard_verb))
        × Memᴰ verb claim.verbs
        × Memᴰ verb e.verbs
  verbs_sound export claim asked h =
      let common = sym (has_any_verb _ _ asked wildcard_verb) ∙ h in
      elim (Option-cases (find (λ c. ops.equal_gri c claim) export.permission_claims)) [
        | inl e ↦ absurd (
            ground (
              arith,
              common,
              has-export_verbs-none export claim asked e,
              has-export_verbs-none export claim wildcard_verb e,
            ))
        | inr (c, e) ↦ elim (||-cases _ _ common) [
          | inl p ↦
              let (m, n) = (in_both_iff export claim c asked e).0 p in (c, asked, e, inl refl, m, n)
          | inr p ↦
              let (m, n) = (in_both_iff export claim c wildcard_verb e).0 p in
              (c, wildcard_verb, e, inr refl, m, n)
        ]
      ]

  is_usable_sound :
      (export : ApiExport) (attr : Attributes) (c : BindingClaim)
      → is_usable ops export attr c ≡ true
      → ClaimGrants export attr c
  unfolding is_usable
  is_usable_sound export attr c h =
      let (first, verbs) = (&&_iff _ _).0 h in
      let (state, same) = (&&_iff _ _).0 first in
      let (e, verb, claimed, fits, m, n) = verbs_sound export c.claim attr.verb verbs in
      record {
        state = is_accepted_sound c.state state;
        resource = (same_resource_iff _ _).0 same;
        export_claim = e;
        claimed = claimed;
        verb = verb;
        fits = fits;
        in_binding = m;
        in_export = n;
      }

  is_usable_complete :
      (export : ApiExport) (attr : Attributes) (c : BindingClaim)
      → ClaimGrants export attr c
      → is_usable ops export attr c ≡ true
  unfolding is_usable
  is_usable_complete export attr c g =
      let both =
        (in_both_iff export c.claim g.export_claim g.verb g.claimed).1
          (g.in_binding, g.in_export) in
      let verbs =
        ||-of_fits
          (λ v.
            ops.sets.has (ops.sets.new c.claim.verbs) v
            && ops.sets.has (export_verbs ops export c.claim) v)
          attr.verb g.verb g.fits both in
      (&&_iff _ _).1 (
        (&&_iff (is_accepted c.state) _).1 (rw g.state refl, (same_resource_iff _ _).1 g.resource),
        has_any_verb _ _ attr.verb wildcard_verb ∙ verbs,
      )

  -- Why the authorizer hands a request on, once the binding and the export are known.
  abbrev pub Grants : ApiExport → ApiBinding → Attributes → Type 0
  Grants export binding attr =
      Memᴰ (requested attr) binding.bound_resources
      ⊎ ((c : BindingClaim) × Memᴰ c binding.permission_claims × ClaimGrants export attr c)
      ⊎ ((requested attr ≡ record { group = apis_group; resource = "apibindings" })
          × Memᴰ attr.verb read_only_verbs)

  bound_resource_iff :
      (binding : ApiBinding) (attr : Attributes)
      → (any (λ r. same_resource r (requested attr)) binding.bound_resources ≡ true)
        ↔ Memᴰ (requested attr) binding.bound_resources
  bound_resource_iff binding attr = (
    λ h.
        let (r, m, e) = any_sound _ binding.bound_resources h in
        subst (λ x. Memᴰ x binding.bound_resources) ((same_resource_iff _ _).0 e) m,
    λ m. any_complete _ m ((same_resource_iff _ _).1 refl),
  )

  is_api_bindings_iff :
      (attr : Attributes)
      → (is_api_bindings attr ≡ true)
        ↔ (requested attr ≡ record { group = apis_group; resource = "apibindings" })
  is_api_bindings_iff attr =
      ground (arith, eq_iff attr.api_group apis_group, eq_iff attr.resource "apibindings")

  module _ (delegate : Authorizer) (export : ApiExport) (binding : ApiBinding) (ctx : Context)
      (attr : Attributes) where
    pub check_binding-delegates :
        Grants export binding attr
        → check_binding ops delegate export binding ctx attr ≡ delegate ctx attr
    unfolding check_binding
    check_binding-delegates (inl m) = rw ((bound_resource_iff binding attr).1 m)
    check_binding-delegates (inr (inl (c, m, g))) =
        ground
          (arith, any_complete (is_usable ops export attr) m (is_usable_complete export attr c g))
    check_binding-delegates (inr (inr (e, m))) =
        ground (arith, (is_api_bindings_iff attr).1 e, (contains_iff read_only_verbs attr.verb).1 m)

    pub check_binding_sound :
        (check_binding ops delegate export binding ctx attr).decision ≡ allow
        → Grants export binding attr × ((delegate ctx attr).decision ≡ allow)
    unfolding check_binding
    check_binding_sound h =
        elim (Bool-cases (any (λ r. same_resource r (requested attr)) binding.bound_resources)) [
          | inl b ↦ (inl ((bound_resource_iff binding attr).0 b), ground (arith, b))
          | inr n ↦ elim (Bool-cases (any (is_usable ops export attr) binding.permission_claims)) [
            | inl u ↦
                let (c, m, e) = any_sound (is_usable ops export attr) binding.permission_claims u in
                (inr (inl (c, m, is_usable_sound export attr c e)), ground (arith, n, u))
            | inr o ↦
                let api : is_api_bindings attr ≡ true = ground (arith, n, o) in
                let reads : contains read_only_verbs attr.verb ≡ true = ground (arith, n, o, api) in
                (
                  inr (
                      inr (
                        (is_api_bindings_iff attr).0 api,
                        (contains_iff read_only_verbs attr.verb).0 reads,
                      )),
                  ground (arith, n, o, api, reads),
                )
          ]
        ]

  -- What the authorizer has looked up when it hands a request for a resource on.
  pub record IsPermitted (l : Listers) (ctx : Context) (attr : Attributes) : Type 0 where
    pub target : Cluster
    pub valid : ctx.valid_cluster ≡ ok target
    pub slice_cluster : String
    pub slice_name : String
    pub key : key_parts ctx.domain_key ≡ some (slice_cluster, slice_name)
    pub slice : EndpointSlice
    pub slice_found : l.get_slice slice_cluster slice_name ≡ ok slice
    pub export : ApiExport
    pub export_found :
        l.get_export slice.spec.api_export.path slice.spec.api_export.name ≡ ok export
    pub binding : ApiBinding
    pub binding_found :
        binding_by_export l "no suitable binding found 2" target.name export.name
          slice.spec.api_export.path
        ≡ ok binding
    pub binds : IsBindingOf l target.name export.name slice.spec.api_export.path binding
    pub grants : Grants export binding attr
