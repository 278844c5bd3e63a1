-- ===== src/Authorizer/MaximalPermission/Grants.antt =====
-- maximal_permission_policy.go: the decision of the maximal permission authorizer without its loops.
use contrib_filteredapiexpor.Prelude.{
  String, none, some, List, [], ◌∷◌, ◌≡◌, ◌≢◌, ◌⊎◌, ◌↔◌, ◌==◌, inl, inr, refl, arith, false, eq_iff,
  eq_refl, All, Bool-cases, Option-cases,
}
use contrib_filteredapiexpor.Error.{ok, Result-cases}
use contrib_filteredapiexpor.Api.{ApiExport, EndpointSlice, MaximalPermissionPolicy}
use contrib_filteredapiexpor.Request.{
  Context, Attributes, allow, Verdict, Authorizer, Listers, key_parts,
}
use contrib_filteredapiexpor.Authorizer.MaximalPermission.{
  PolicyOps, prefix_attributes, get_claimed_identity, after_review, check_policy, check_policies,
  check_identity, authorize,
}

module _ (ops : PolicyOps) (l : Listers) where
  -- The export's workspace lets the prefixed user do this, and says so without an error.
  pub record IsGranted (export : ApiExport) (ctx : Context) (attr : Attributes) : Type 0 where
    pub authz : Authorizer
    pub created : ops.new_deep_sar export.cluster ≡ ok authz
    pub no_error : (authz ctx (prefix_attributes ops.prefix attr)).error ≡ none
    pub allowed : (authz ctx (prefix_attributes ops.prefix attr)).decision ≡ allow

  -- The export has no local policy, or its policy grants the request.
  abbrev pub Tolerates : Context → Attributes → ApiExport → Type 0
  Tolerates ctx attr export =
      (export.maximal_permission_policy ≡ none)
      ⊎ ((p : MaximalPermissionPolicy) × (export.maximal_permission_policy ≡ some p)
          × ((p.has_local ≡ false) ⊎ IsGranted export ctx attr))

  -- The resource is not claimed, is claimed with no identity, or is claimed from exports that all
  -- tolerate the request, and there is one.
  abbrev pub NoObjection : ApiExport → Context → Attributes → Type 0
  NoObjection claiming ctx attr =
      (get_claimed_identity claiming attr ≡ none)
      ⊎ (get_claimed_identity claiming attr ≡ some "")
      ⊎ ((hash : String) × (exports : List ApiExport) × (get_claimed_identity claiming attr
            ≡ some hash)
          × (l.exports_by_identity hash ≡ ok exports)
          × (exports ≢ [])
          × All (Tolerates ctx attr) exports)

  check_policy_sound :
      (export : ApiExport) (ctx : Context) (attr : Attributes) (rest : Verdict)
      → (check_policy ops l export ctx attr rest).decision ≡ allow
      → IsGranted export ctx attr × (rest.decision ≡ allow)
  unfolding check_policy after_review
  check_policy_sound export ctx attr rest h =
      elim (Result-cases (ops.new_deep_sar export.cluster)) [
        | inr (x, e) ↦ absurd (ground (arith, e))
        | inl (authz, e) ↦ (
          record {
            authz = authz;
            created = e;
            no_error = ground (arith, e);
            allowed = ground (arith, e);
          },
          ground (arith, e),
        )
      ]

  check_policies_sound :
      (exports : List ApiExport) (ctx : Context) (attr : Attributes)
      → (check_policies ops l exports ctx attr).decision ≡ allow
      → All (Tolerates ctx attr) exports
  unfolding check_policies
  check_policies_sound [] ctx attr h = tt
  check_policies_sound (export ∷ exports) ctx attr h =
      elim (Option-cases export.maximal_permission_policy) [
        | inl e ↦ (inl e, check_policies_sound exports ctx attr (ground (arith, e)))
        | inr (p, e) ↦ elim (Bool-cases p.has_local) [
          | inr n ↦
              (inr (p, e, inl n), check_policies_sound exports ctx attr (ground (arith, e, n)))
          | inl y ↦
              let (g, r) =
                check_policy_sound export ctx attr (check_policies ops l exports ctx attr)
                  (ground (arith, e, y)) in
              (inr (p, e, inr g), check_policies_sound exports ctx attr r)
        ]
      ]

  check_policies_complete :
      (exports : List ApiExport) (ctx : Context) (attr : Attributes)
      → All (Tolerates ctx attr) exports
      → (check_policies ops l exports ctx attr).decision ≡ allow
  unfolding check_policies check_policy after_review
  check_policies_complete [] ctx attr h = refl
  check_policies_complete (export ∷ exports) ctx attr (inl e, h) =
      ground (arith, e, check_policies_complete exports ctx attr h)
  check_policies_complete (export ∷ exports) ctx attr (inr (p, e, inl n), h) =
      ground (arith, e, n, check_policies_complete exports ctx attr h)
  check_policies_complete (export ∷ exports) ctx attr (inr (p, e, inr g), h) =
      elim (Bool-cases p.has_local) [
        | inr n ↦ ground (arith, e, n, check_policies_complete exports ctx attr h)
        | inl y ↦ ground (
          arith,
          e,
          y,
          g.created,
          g.no_error,
          g.allowed,
          check_policies_complete exports ctx attr h,
        )
      ]

  check_identity_sound :
      (claiming : ApiExport) (ctx : Context) (attr : Attributes) (hash : String)
      → get_claimed_identity claiming attr ≡ some hash
      → hash ≢ ""
      → (check_identity ops l claiming (some hash) ctx attr).decision ≡ allow
      → NoObjection claiming ctx attr
  unfolding check_identity
  check_identity_sound claiming ctx attr hash found n h =
      elim (Result-cases (l.exports_by_identity hash)) [
        | inr (x, e) ↦ absurd (ground (arith, e, eq_iff hash ""))
        | inl ([], e) ↦ absurd (ground (arith, e, eq_iff hash ""))
        | inl (export ∷ exports, e) ↦ inr (
            inr (
              hash,
              export ∷ exports,
              found,
              e,
              cc,
              check_policies_sound (export ∷ exports) ctx attr (ground (arith, e, eq_iff hash "")),
            ))
      ]

  check_identity_complete :
      (claiming : ApiExport) (ctx : Context) (attr : Attributes) (hash : String)
      (exports : List ApiExport)
      → l.exports_by_identity hash ≡ ok exports
      → exports ≢ []
      → All (Tolerates ctx attr) exports
      → (check_identity ops l claiming (some hash) ctx attr).decision ≡ allow
  unfolding check_identity
  check_identity_complete claiming ctx attr hash [] e n a = absurd (n refl)
  check_identity_complete claiming ctx attr hash (export ∷ exports) e n a =
      ground (arith, e, check_policies_complete (export ∷ exports) ctx attr a)

  check_identity_iff :
      (claiming : ApiExport) (ctx : Context) (attr : Attributes)
      → ((check_identity ops l claiming (get_claimed_identity claiming attr) ctx attr).decision
          ≡ allow)
        ↔ NoObjection claiming ctx attr
  unfolding check_identity
  check_identity_iff claiming ctx attr = (
    λ h. elim (Option-cases (get_claimed_identity claiming attr)) [
      | inl e ↦ inl e
      | inr (hash, e) ↦ elim (Bool-cases (hash == "")) [
        | inl y ↦ inr (inl (ground (arith, e, y, eq_iff hash "")))
        | inr n ↦
            check_identity_sound claiming ctx attr hash e (ground (arith, n, eq_iff hash ""))
              (rw e at h)
      ]
    ],
    λ h. elim h [
      | inl e ↦ rw e
      | inr (inl e) ↦ rw e (ground (arith, eq_refl ""))
      | inr (inr (hash, exports, e, x, n, a)) ↦
          rw e (check_identity_complete claiming ctx attr hash exports x n a)
    ],
  )

  -- What the authorizer looks up, and that no policy objects.
  pub record IsTolerated (ctx : Context) (attr : Attributes) : Type 0 where
    pub cluster : String
    pub name : String
    pub key : key_parts ctx.domain_key ≡ some (cluster, name)
    pub slice : EndpointSlice
    pub slice_found : l.get_slice cluster name ≡ ok slice
    pub claiming : ApiExport
    pub export_found :
        l.get_export slice.spec.api_export.path slice.spec.api_export.name ≡ ok claiming
    pub no_objection : NoObjection claiming ctx attr

  pub maximal_permission_allow_iff :
      (ctx : Context) (attr : Attributes)
      → ((authorize ops l ctx attr).decision ≡ allow) ↔ IsTolerated ctx attr
  unfolding authorize
  maximal_permission_allow_iff ctx attr = (
    λ h. elim (Option-cases (key_parts ctx.domain_key)) [
      | inl e ↦ absurd (ground (arith, e))
      | inr ((cluster, name), key) ↦ elim (Result-cases (l.get_slice cluster name)) [
        | inr (x, e) ↦ absurd (ground (arith, key, e))
        | inl (slice, found) ↦
            elim (Result-cases
              (l.get_export slice.spec.api_export.path slice.spec.api_export.name)) [
                | inr (x, e) ↦ absurd (ground (arith, key, found, e))
                | inl (claiming, e) ↦ record {
                  cluster = cluster;
                  name = name;
                  key = key;
                  slice = slice;
                  slice_found = found;
                  claiming = claiming;
                  export_found = e;
                  no_objection =
                      (check_identity_iff claiming ctx attr).0 (ground (arith, key, found, e));
                }
              ]
      ]
    ],
    λ t. ground (
      arith,
      t.key,
      t.slice_found,
      t.export_found,
      (check_identity_iff t.claiming ctx attr).1 t.no_objection,
    ),
  )
