-- ===== src/KcpSchemas/Traced.antt =====
-- apis.go and apiexport_apireconciler_reconcile.go: where the schemas come from that are collected for an
-- export.
use contrib_filteredapiexpor.Prelude.{
  String, true, false, Option, none, some, List, [], ◌∷◌, ◌==◌, ◌&&◌, ◌≡◌, ◌≢◌, ◌⊎◌, inl, inr, sym,
  ap, subst, ◌∙◌, arith, eq_iff, Bool-cases, Option-cases,
}
use contrib_filteredapiexpor.Error.{ok, err, Result-cases}
use contrib_filteredapiexpor.Api.{
  ApiExport, PermissionClaim, GroupResource, same_resource, same_resource_iff,
}
use contrib_filteredapiexpor.KeyMap.{
  text_keys, get, put, IsMap, put-IsMap, get-put_cases, get-put_other,
}
use contrib_filteredapiexpor.ApiReconciler.Schemas.{
  Schema, Sources, group_name, Collected, resource_keys, resource_of, claimed, claim_schema,
  claim_candidate, claim_candidates, add_schemas, schemas_from_export, claim_exports,
}
use contrib_filteredapiexpor.Builtin.Lookup.{
  SchemaMaker, init_table, get_built_in_api_schema, is_built_in_api, get_built_in_api_schema_iff,
}
use contrib_filteredapiexpor.Builtin.Lookup
use contrib_filteredapiexpor.KcpSchemas.{
  Converters, Table, init, kcp_schema, slices_resource, as_schema,
}
use contrib_filteredapiexpor.KcpSchemas.Loaded.{init-IsLoaded}

-- filteredapiexportendpointslices.filteredvw.kcp.io
abbrev pub endpoint_slices : GroupResource
endpoint_slices = record { group = group_name; resource = slices_resource }

-- IsBuiltInAPI and GetBuiltInAPISchema, as the loop over the claims calls them.
unfoldable pub built_in_schema : Lookup.Table → GroupResource → Option Schema
built_in_schema table gr = elim (get_built_in_api_schema table gr) [ err e ↦ none | ok s ↦ some s ]

-- The tables behind the reconciler, filled by the two functions `init`.
pub record HasTables (src : Sources) : Type 1 where
  pub maker : SchemaMaker
  pub built_in_table : Lookup.Table
  pub built_in_started : init_table maker ≡ ok built_in_table
  pub built_in : (gr : GroupResource) → src.built_in gr ≡ built_in_schema built_in_table gr
  pub lib : Converters
  pub table : Table
  pub started : init lib ≡ ok table
  pub kcp : (resource : String) → src.kcp_schema resource ≡ kcp_schema table resource

pub built_in_schema_sound :
    (maker : SchemaMaker) (table : Lookup.Table)
    → init_table maker ≡ ok table
    → (gr : GroupResource) (s : Schema) → built_in_schema table gr ≡ some s
    → resource_of s ≡ gr
unfolding built_in_schema get_built_in_api_schema is_built_in_api
built_in_schema_sound maker table started gr s h =
    elim (Option-cases (get resource_keys gr table)) [
      | inl e ↦ absurd (ground (arith, h, e))
      | inr (t, e) ↦
          let (u, got, same) =
            (get_built_in_api_schema_iff maker table started gr).1 (ground (arith, e)) in
          let is_s : u ≡ s = ground (arith, h, e, got) in ap resource_of (sym is_s) ∙ same
    ]

pub kcp_schema_group :
    (lib : Converters) (table : Table)
    → init lib ≡ ok table
    → (resource : String) (s : Schema) → kcp_schema table resource ≡ some s
    → s.group ≢ group_name
unfolding kcp_schema
kcp_schema_group lib table started resource s h same =
    elim (Option-cases (get text_keys resource table)) [
      | inl e ↦ ground (arith, h, e)
      | inr (raw, e) ↦
          let is_s : as_schema raw ≡ s = ground (arith, h, e) in
          let group : raw.group ≡ group_name = ap (λ x. x.group) is_s ∙ same in
          elim ((init-IsLoaded lib table started).origin resource raw e) [
            | inl (m, (crd, read, conv)) ↦
                let g : "apis.kcp.io" ≡ group_name =
                  sym (conv.group ∙ lib.crd_group resource crd read) ∙ group in
                ground (arith, (eq_iff "apis.kcp.io" group_name).1 g)
            | inr (p, conv) ↦
                let g : "filteredapiexport.kcp.io" ≡ group_name = sym conv.group ∙ group in
                ground (arith, (eq_iff "filteredapiexport.kcp.io" group_name).1 g)
          ]
    ]

-- Every schema has the resource that it is found for, or is not of the group of the endpoint slices. Where
-- the endpoint slices count as claimed, a schema of the latter kind is found for them.
pub record IsTraced (c : Collected) : Type 0 where
  pub is_map : IsMap resource_keys c.schemas
  pub named :
      (gr : GroupResource) (s : Schema)
      → get resource_keys gr c.schemas ≡ some s
      → (resource_of s ≡ gr) ⊎ (s.group ≢ group_name)
  pub flagged :
      c.claims_endpoint_slices ≡ true
      → (s : Schema) × (get resource_keys endpoint_slices c.schemas ≡ some s)
        × (s.group ≢ group_name)

-- A schema that is recorded for a claim of another resource than the endpoint slices.
pub claim_schema-IsTraced :
    (pc : PermissionClaim) (s : Schema) (c : Collected)
    → (resource_of s ≡ claimed pc) ⊎ (s.group ≢ group_name)
    → (c.claims_endpoint_slices ≡ true → claimed pc ≢ endpoint_slices)
    → IsTraced c
    → IsTraced (claim_schema pc s c)
claim_schema-IsTraced pc s c of other t = record {
  is_map = put-IsMap resource_keys (claimed pc) s c.schemas t.is_map;
  named = λ gr x h. elim (get-put_cases resource_keys (claimed pc) gr s x c.schemas h) [
    | inl (key, is_s) ↦ elim of [
      | inl r ↦ inl (ap resource_of (sym is_s) ∙ r ∙ key)
      | inr n ↦ inr (subst (λ z. z.group ≢ group_name) is_s n)
    ]
    | inr (_, found) ↦ t.named gr x found
  ];
  flagged = λ f.
      (let (x, found, n) = t.flagged f in
        (
          x,
          get-put_other resource_keys (claimed pc) endpoint_slices s c.schemas (other f) ∙ found,
          n,
        ));
}

not_slices :
    (pc : PermissionClaim) → (pc.group == group_name) ≡ false → claimed pc ≢ endpoint_slices
not_slices pc g p = ground (arith, g, (eq_iff pc.group group_name).1 (ap (λ r. r.group) p))

pub claim_candidates-IsTraced :
    (pc : PermissionClaim) (candidates : List (GroupResource × Schema)) (c : Collected)
    → (pc.group == group_name) ≡ false
    → IsTraced c
    → IsTraced (claim_candidates pc candidates c)
unfolding claim_candidates claim_candidate same_resource
claim_candidates-IsTraced pc [] c g t = t
claim_candidates-IsTraced pc ((gr, s) ∷ rest) c g t =
    claim_candidates-IsTraced pc rest (claim_candidate pc s c) g
      (elim (Bool-cases (s.group == pc.group && s.plural == pc.resource)) [
        | inl e ↦
            let same = (same_resource_iff (resource_of s) (claimed pc)).0 (ground (arith, e)) in
            let u = claim_schema-IsTraced pc s c (inl same) (λ f. not_slices pc g) t in
            rw e (record { is_map = u.is_map; named = u.named; flagged = u.flagged })
        | inr e ↦ rw e t
      ])

module _ (src : Sources) where
  pub claim_exports-IsTraced :
      (pc : PermissionClaim) (exports : List ApiExport) (c : Collected) {c' : Collected}
      → (pc.group == group_name) ≡ false
      → IsTraced c
      → claim_exports src pc exports c ≡ ok c'
      → IsTraced c'
  unfolding claim_exports
  claim_exports-IsTraced pc [] c g t h =
      let same : c ≡ _ = ground (arith, h) in subst (λ x. IsTraced x) same t
  claim_exports-IsTraced pc (export ∷ exports) c g t h =
      elim (Result-cases (schemas_from_export src export)) [
        | inr (x, e) ↦ absurd (ground (arith, h, e))
        | inl (candidates, e) ↦
            claim_exports-IsTraced pc exports (claim_candidates pc candidates c) g
              (claim_candidates-IsTraced pc candidates c g t) (ground (arith, h, e))
      ]

  pub add_schemas_named :
      (cluster : String) (names : List String) (m own : List (GroupResource × Schema))
      → IsMap resource_keys m
      → ((gr : GroupResource) (s : Schema) → get resource_keys gr m ≡ some s → resource_of s ≡ gr)
      → add_schemas src cluster names m ≡ ok own
      → IsMap resource_keys own
        × ((gr : GroupResource) (s : Schema)
            → get resource_keys gr own ≡ some s
            → resource_of s ≡ gr)
  unfolding add_schemas
  add_schemas_named cluster [] m own d n h =
      let same : m ≡ own = ground (arith, h) in
      (
        subst (λ x. IsMap resource_keys x) same d,
        λ gr s k. n gr s (ap (λ x. get resource_keys gr x) same ∙ k),
      )
  add_schemas_named cluster (name ∷ names) m own d n h =
      elim (Result-cases (src.get_schema cluster name)) [
        | inr (x, e) ↦ add_schemas_named cluster names m own d n (ground (arith, h, e))
        | inl (s, e) ↦
            add_schemas_named cluster names (put resource_keys (resource_of s) s m) own
              (put-IsMap resource_keys (resource_of s) s m d)
              (λ gr x k. elim (get-put_cases resource_keys (resource_of s) gr s x m k) [
                | inl (key, is_s) ↦ ap resource_of (sym is_s) ∙ key
                | inr (_, found) ↦ n gr x found
              ])
              (ground (arith, h, e))
      ]
