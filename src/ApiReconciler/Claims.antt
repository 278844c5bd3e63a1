-- ===== src/ApiReconciler/Claims.antt =====
-- apiexport_apireconciler_reconcile.go: the loop over the claims of an export, as steps.
use contrib_filteredapiexpor.Prelude.{
  String, false, none, some, List, [], ◌∷◌, ◌==◌, ◌||◌, ◌≡◌, inl, inr, subst, arith, Bool-cases,
  Option-cases,
}
use contrib_filteredapiexpor.Error.{ok, Result-cases}
use contrib_filteredapiexpor.Api.{ApiExport, PermissionClaim, GroupResource}
use contrib_filteredapiexpor.KeyMap.{get}
use contrib_filteredapiexpor.ApiReconciler.Schemas.{
  Schema, Sources, apis_group, group_name, Collected, resource_keys, claimed, claim_schema,
  own_only, schemas_from_export, sorts_before, claim_exports, claim_by_identity, claim_kcp,
  collect_claim, collect_claims, collect,
}

-- What a claim adds. Whatever it adds is for a resource for which there was no schema before.
pub data ClaimStep (src : Sources) (cluster : String) (pc : PermissionClaim) (c : Collected)
    : Collected → Type 0 where
  unchanged : ClaimStep src cluster pc c c
  built_in :
      (s : Schema)
      → get resource_keys (claimed pc) c.schemas ≡ none
      → src.built_in (claimed pc) ≡ some s
      → ClaimStep src cluster pc c (claim_schema pc (record s { cluster = cluster }) c)
  kcp :
      get resource_keys (claimed pc) c.schemas ≡ none
      → ClaimStep src cluster pc c (claim_kcp src pc c)
  by_identity :
      (exports : List ApiExport) (c' : Collected)
      → get resource_keys (claimed pc) c.schemas ≡ none
      → (pc.group == group_name) ≡ false
      → claim_exports src pc exports c ≡ ok c'
      → ClaimStep src cluster pc c c'

module _ (src : Sources) where
  collect_claim-ClaimStep :
      (cluster : String) (pc : PermissionClaim) (c c' : Collected)
      → collect_claim src cluster pc c ≡ ok c'
      → ClaimStep src cluster pc c c'
  unfolding collect_claim claim_by_identity
  collect_claim-ClaimStep cluster pc c c' h =
      let carry = λ (x : Collected) (q : ClaimStep src cluster pc c x) (p : x ≡ c').
        subst (λ y. ClaimStep src cluster pc c y) p q in
      elim (Option-cases (get resource_keys (claimed pc) c.schemas)) [
        | inr (s, e) ↦ carry c unchanged (ground (arith, h, e))
        | inl e ↦ elim (Option-cases (src.built_in (claimed pc))) [
          | inr (s, b) ↦ carry _ (built_in s e b) (ground (arith, h, e, b))
          | inl b ↦ elim (Bool-cases (pc.group == apis_group || pc.group == group_name)) [
            | inl k ↦ carry _ (kcp e) (ground (arith, h, e, b, k))
            | inr k ↦ elim (Bool-cases (pc.identity_hash == "")) [
              | inl i ↦ carry c unchanged (ground (arith, h, e, b, k, i))
              | inr i ↦ elim (Result-cases (src.exports_by_identity pc.identity_hash)) [
                | inr (x, f) ↦ absurd (ground (arith, h, e, b, k, i, f))
                | inl (exports, f) ↦
                    by_identity (src.sort_slice (sorts_before src) exports) c' e (ground (arith, k))
                      (ground (arith, h, e, b, k, i, f))
              ]
            ]
          ]
        ]
      ]

  -- What each claim keeps, the whole loop keeps.
  module _ (P : Collected → Type 0)
      (step : (cluster : String) (pc : PermissionClaim) (c c' : Collected)
        → P c
        → ClaimStep src cluster pc c c'
        → P c') where
    collect_claims_keeps :
        (cluster : String) (pcs : List PermissionClaim) (c c' : Collected)
        → P c
        → collect_claims src cluster pcs c ≡ ok c'
        → P c'
    unfolding collect_claims
    collect_claims_keeps cluster [] c c' p h =
        let same : c ≡ c' = ground (arith, h) in subst (λ x. P x) same p
    collect_claims_keeps cluster (pc ∷ pcs) c c' p h =
        elim (Result-cases (collect_claim src cluster pc c)) [
          | inr (x, e) ↦ absurd (ground (arith, h, e))
          | inl (next, e) ↦
              collect_claims_keeps cluster pcs next c'
                (step cluster pc c next p (collect_claim-ClaimStep cluster pc c next e))
                (ground (arith, h, e))
        ]

    pub collect_keeps :
        (export : ApiExport) (own : List (GroupResource × Schema)) (c : Collected)
        → schemas_from_export src export ≡ ok own
        → P (own_only export own)
        → collect src export ≡ ok c
        → P c
    unfolding collect
    collect_keeps export own c e p h =
        collect_claims_keeps export.cluster export.permission_claims (own_only export own) c p
          (ground (arith, h, e))
