-- ===== src/ApiReconciler/Shadowing.antt =====
-- apiexport_apireconciler_reconcile.go: the resources of an export and those that it claims.
use contrib_filteredapiexpor.Prelude.{
  String, none, some, List, [], ◌∷◌, ◌==◌, ◌&&◌, ◌≡◌, ◌≢◌, inl, inr, sym, ap, subst, ◌∙◌, arith,
  Bool-cases, Option-cases,
}
use contrib_filteredapiexpor.Error.{ok, Result-cases}
use contrib_filteredapiexpor.Api.{
  ApiExport, PermissionClaim, GroupResource, same_resource, same_resource_iff,
}
use contrib_filteredapiexpor.KeyMap.{get, put, get-put_same, get-put_other}
use contrib_filteredapiexpor.ApiReconciler.Claims.{
  ClaimStep, unchanged, built_in, kcp, by_identity, collect_keeps,
}
use contrib_filteredapiexpor.ApiReconciler.Schemas.{
  Schema, Sources, Collected, resource_keys, claimed, claim_schema, claim_candidate,
  claim_candidates, own_only, schemas_from_export, claim_exports, claim_kcp, collect,
}

abbrev SchemaMap : Type 0
SchemaMap = List (GroupResource × Schema)

-- Every schema of the export is there, unchanged. Every recorded claim is of its resource, which the
-- export does not serve itself and for which a schema was found.
pub record Respects (own : SchemaMap) (c : Collected) : Type 0 where
  pub keeps :
      (gr : GroupResource) (s : Schema)
      → get resource_keys gr own ≡ some s
      → get resource_keys gr c.schemas ≡ some s
  pub claim_resource :
      (gr : GroupResource) (pc : PermissionClaim)
      → get resource_keys gr c.claims ≡ some pc
      → (claimed pc ≡ gr)
        × (get resource_keys gr own ≡ none)
        × ((s : Schema) × (get resource_keys gr c.schemas ≡ some s))

module _ (own : SchemaMap) where
  claim_schema-Respects :
      (pc : PermissionClaim) (s : Schema) (c : Collected)
      → get resource_keys (claimed pc) own ≡ none
      → Respects own c
      → Respects own (claim_schema pc s c)
  claim_schema-Respects pc s c free r = record {
    keeps = λ gr old h. elim (Bool-cases (same_resource (claimed pc) gr)) [
      | inl e ↦
          let same = (same_resource_iff (claimed pc) gr).0 e in
          absurd (ground (arith, h, free, ap (λ k. get resource_keys k own) same))
      | inr e ↦
          get-put_other resource_keys (claimed pc) gr s c.schemas
            (λ p. ground (arith, e, (same_resource_iff (claimed pc) gr).1 p))
          ∙ r.keeps gr old h
    ];
    claim_resource = λ gr q h. elim (Bool-cases (same_resource (claimed pc) gr)) [
      | inl e ↦
          let same = (same_resource_iff (claimed pc) gr).0 e in
          let found =
            ap (λ k. get resource_keys k (put resource_keys (claimed pc) pc c.claims)) same ∙ h in
          let is_pc : pc ≡ q =
            ground (arith, found, get-put_same resource_keys (claimed pc) pc c.claims) in
          (
            ap claimed (sym is_pc) ∙ same,
            ap (λ k. get resource_keys k own) (sym same) ∙ free,
            (
              s,
              ap (λ k. get resource_keys k (put resource_keys (claimed pc) s c.schemas)) (sym same)
                  ∙ get-put_same resource_keys (claimed pc) s c.schemas,
            ),
          )
      | inr e ↦
          let n : claimed pc ≢ gr =
            λ p. ground (arith, e, (same_resource_iff (claimed pc) gr).1 p) in
          let (k, f, (old, o)) =
            r.claim_resource gr q
              (sym (get-put_other resource_keys (claimed pc) gr pc c.claims n) ∙ h) in
          (k, f, (old, get-put_other resource_keys (claimed pc) gr s c.schemas n ∙ o))
    ];
  }

  claim_candidates-Respects :
      (pc : PermissionClaim) (candidates : SchemaMap) (c : Collected)
      → get resource_keys (claimed pc) own ≡ none
      → Respects own c
      → Respects own (claim_candidates pc candidates c)
  unfolding claim_candidates claim_candidate
  claim_candidates-Respects pc [] c free r = r
  claim_candidates-Respects pc ((gr, s) ∷ rest) c free r =
      claim_candidates-Respects pc rest (claim_candidate pc s c) free
        (elim (Bool-cases (s.group == pc.group && s.plural == pc.resource)) [
          | inl e ↦
              let t = claim_schema-Respects pc s c free r in
              rw e (record { keeps = t.keeps; claim_resource = t.claim_resource })
          | inr e ↦ rw e r
        ])

  module _ (src : Sources) where
    claim_exports-Respects :
        (pc : PermissionClaim) (exports : List ApiExport) (c : Collected) {c' : Collected}
        → get resource_keys (claimed pc) own ≡ none
        → Respects own c
        → claim_exports src pc exports c ≡ ok c'
        → Respects own c'
    unfolding claim_exports
    claim_exports-Respects pc [] c free r h =
        let same : c ≡ _ = ground (arith, h) in subst (λ x. Respects own x) same r
    claim_exports-Respects pc (export ∷ exports) c free r h =
        elim (Result-cases (schemas_from_export src export)) [
          | inr (x, e) ↦ absurd (ground (arith, h, e))
          | inl (candidates, e) ↦
              claim_exports-Respects pc exports (claim_candidates pc candidates c) free
                (claim_candidates-Respects pc candidates c free r) (ground (arith, h, e))
        ]

    claim_kcp-Respects :
        (pc : PermissionClaim) (c : Collected)
        → get resource_keys (claimed pc) own ≡ none
        → Respects own c
        → Respects own (claim_kcp src pc c)
    unfolding claim_kcp
    claim_kcp-Respects pc c free r = elim (Option-cases (src.kcp_schema pc.resource)) [
      | inl e ↦ rw (e, claim_kcp) r
      | inr (s, e) ↦
          let t = claim_schema-Respects pc s c free r in
          rw (e, claim_kcp) (record { keeps = t.keeps; claim_resource = t.claim_resource })
    ]

    free_of_new :
        (pc : PermissionClaim) (c : Collected)
        → Respects own c
        → get resource_keys (claimed pc) c.schemas ≡ none
        → get resource_keys (claimed pc) own ≡ none
    free_of_new pc c r h = elim (Option-cases (get resource_keys (claimed pc) own)) [
      | inl e ↦ e
      | inr (s, e) ↦ absurd (ground (arith, h, r.keeps (claimed pc) s e))
    ]

    ClaimStep-Respects :
        (cluster : String) (pc : PermissionClaim) (c c' : Collected)
        → Respects own c
        → ClaimStep src cluster pc c c'
        → Respects own c'
    ClaimStep-Respects cluster pc c c' r unchanged = r
    ClaimStep-Respects cluster pc c c' r (built_in s absent e) =
        claim_schema-Respects pc (record s { cluster = cluster }) c (free_of_new pc c r absent) r
    ClaimStep-Respects cluster pc c c' r (kcp absent) =
        claim_kcp-Respects pc c (free_of_new pc c r absent) r
    ClaimStep-Respects cluster pc c c' r (by_identity exports c'' absent g h) =
        claim_exports-Respects pc exports c (free_of_new pc c r absent) r h

-- What is collected has every schema of the export itself, and records a claim only for a resource that
-- the export does not serve and for which a schema was found.
pub collect-Respects :
    (src : Sources) (export : ApiExport) (c : Collected)
    → collect src export ≡ ok c
    → (own : List (GroupResource × Schema)) × (schemas_from_export src export ≡ ok own)
      × Respects own c
unfolding collect own_only get
collect-Respects src export c h = elim (Result-cases (schemas_from_export src export)) [
  | inr (x, e) ↦ absurd (ground (arith, h, e))
  | inl (own, e) ↦ (
    own,
    e,
    collect_keeps src (λ x. Respects own x) (ClaimStep-Respects own src) export own c e
        (record { keeps = λ gr s k. k; claim_resource = λ gr pc k. absurd (ground (arith, k)) }) h,
  )
]
