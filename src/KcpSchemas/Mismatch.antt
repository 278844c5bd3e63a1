-- ===== src/KcpSchemas/Mismatch.antt =====
-- file.go and apiexport_apireconciler_reconcile.go: an export that claims the endpoint slices themselves.
use contrib_filteredapiexpor.Prelude.{
  String, true, none, some, [], ◌==◌, ◌&&◌, ◌≡◌, ◌≢◌, inl, inr, refl, sym, ap, ◌∙◌, arith, eq_iff,
  Bool-cases, Option-cases,
}
use contrib_filteredapiexpor.Error.{Result, ok, Result-cases}
use contrib_filteredapiexpor.Api.{
  ApiExport, EndpointSlice, PermissionClaim, same_resource, same_resource_iff,
}
use contrib_filteredapiexpor.KeyMap.{get, put, get-mem, get-put_same}
use contrib_filteredapiexpor.ApiReconciler.Schemas.{
  Sources, apis_group, group_name, Collected, resource_keys, resource_of, claimed, own_only,
  schemas_from_export, claim_kcp, collect,
}
use contrib_filteredapiexpor.ApiReconciler.Claims.{
  ClaimStep, unchanged, built_in, kcp, by_identity, collect_keeps,
}
use contrib_filteredapiexpor.ApiReconciler.Definitions.{Gvr, DefinitionSet, Makers, group_resource}
use contrib_filteredapiexpor.ApiReconciler.Serves.{HasEntry}
use contrib_filteredapiexpor.ApiReconciler.Expected.{
  IsExpected, Creates, IsRound, reconcile-HasEntry,
}
use contrib_filteredapiexpor.ApiReconciler.Reconcile.{State, reconcile, get_api_definition_set}
use contrib_filteredapiexpor.KcpSchemas.{slices_resource}
use contrib_filteredapiexpor.KcpSchemas.Traced.{
  endpoint_slices, HasTables, built_in_schema_sound, kcp_schema_group, IsTraced,
  claim_schema-IsTraced, claim_exports-IsTraced, add_schemas_named,
}

module _ (src : Sources) (tables : HasTables src) where
  claim_kcp-IsTraced :
      (pc : PermissionClaim) (c : Collected)
      → (c.claims_endpoint_slices ≡ true → claimed pc ≢ endpoint_slices)
      → IsTraced c
      → IsTraced (claim_kcp src pc c)
  unfolding claim_kcp same_resource
  claim_kcp-IsTraced pc c other t = elim (Option-cases (src.kcp_schema pc.resource)) [
    | inl e ↦ rw (e, claim_kcp) t
    | inr (s, e) ↦
        let group =
          kcp_schema_group tables.lib tables.table tables.started pc.resource s
            (sym (tables.kcp pc.resource) ∙ e) in
        let u = claim_schema-IsTraced pc s c (inr group) other t in
        elim (Bool-cases
          (pc.group == group_name && pc.resource == "filteredapiexportendpointslices")) [
            | inl k ↦
                let same : claimed pc ≡ endpoint_slices =
                  (same_resource_iff (claimed pc) endpoint_slices).0 (ground (arith, k)) in
                rw (e, claim_kcp)
                  (rw k (record {
                    is_map = u.is_map;
                    named = u.named;
                    flagged = λ f. (
                      s,
                      ap (λ g. get resource_keys g (put resource_keys (claimed pc) s c.schemas))
                            (sym same)
                          ∙ get-put_same resource_keys (claimed pc) s c.schemas,
                      group,
                    );
                  }))
            | inr k ↦
                rw (e, claim_kcp)
                  (rw k (record { is_map = u.is_map; named = u.named; flagged = u.flagged }))
          ]
  ]

  -- A resource for which there is no schema yet is not a claimed endpoint slice.
  free_of_flag :
      (pc : PermissionClaim) (c : Collected)
      → IsTraced c
      → get resource_keys (claimed pc) c.schemas ≡ none
      → c.claims_endpoint_slices ≡ true
      → claimed pc ≢ endpoint_slices
  free_of_flag pc c t absent f p =
      let (s, found, _) = t.flagged f in
      ground (arith, ap (λ g. get resource_keys g c.schemas) p, absent, found)

  ClaimStep-IsTraced :
      (cluster : String) (pc : PermissionClaim) (c c' : Collected)
      → IsTraced c
      → ClaimStep src cluster pc c c'
      → IsTraced c'
  ClaimStep-IsTraced cluster pc c c' t unchanged = t
  ClaimStep-IsTraced cluster pc c c' t (built_in s absent e) =
      claim_schema-IsTraced pc (record s { cluster = cluster }) c
        (inl (
          built_in_schema_sound tables.maker tables.built_in_table tables.built_in_started
            (claimed pc) s (sym (tables.built_in (claimed pc)) ∙ e)))
        (free_of_flag pc c t absent) t
  ClaimStep-IsTraced cluster pc c c' t (kcp absent) =
      claim_kcp-IsTraced pc c (free_of_flag pc c t absent) t
  ClaimStep-IsTraced cluster pc c c' t (by_identity exports c'' absent g h) =
      claim_exports-IsTraced src pc exports c g t h

  collect-IsTraced : (export : ApiExport) (c : Collected) → collect src export ≡ ok c → IsTraced c
  unfolding collect own_only schemas_from_export get
  collect-IsTraced export c h = elim (Result-cases (schemas_from_export src export)) [
    | inr (x, e) ↦ absurd (ground (arith, h, e))
    | inl (own, e) ↦
        let (d, n) =
          add_schemas_named src export.cluster export.schemas [] own tt
            (λ gr s k. absurd (ground (arith, k))) e in
        collect_keeps src (λ x. IsTraced x) ClaimStep-IsTraced export own c e
          (record {
            is_map = d;
            named = λ gr s k. inl (n gr s k);
            flagged = λ f. absurd (ground (arith, f));
          })
          h
  ]

  not-IsExpected :
      (mk : Makers) (export : ApiExport) (c : Collected) (gvr : Gvr)
      → IsTraced c
      → c.claims_endpoint_slices ≡ true
      → group_resource gvr ≡ endpoint_slices
      → ¬ IsExpected mk export c gvr
  not-IsExpected mk export c gvr t f is_slices (inl ((gr, s), m, (v, _, _, q))) =
      let found = get-mem resource_keys c.schemas t.is_map m in
      let resource : resource_of s ≡ endpoint_slices = ap group_resource q ∙ is_slices in
      let group : s.group ≡ group_name = ap (λ r. r.group) resource in
      elim (t.named gr s found) [
        | inr n ↦ n group
        | inl same ↦
            let (x, at, n) = t.flagged f in
            let key : endpoint_slices ≡ gr = sym resource ∙ same in
            let is_s : x ≡ s =
              ground (arith, ap (λ g. get resource_keys g c.schemas) key, at, found) in
            n (ap (λ z. z.group) is_s ∙ group)
      ]
  not-IsExpected mk export c gvr t f is_slices (inr (inl (_, inl q))) =
      let group : apis_group ≡ group_name = ap (λ g. g.group) q ∙ ap (λ r. r.group) is_slices in
      ground (arith, (eq_iff apis_group group_name).1 group)
  not-IsExpected mk export c gvr t f is_slices (inr (inl (_, inr q))) =
      let group : apis_group ≡ group_name = ap (λ g. g.group) q ∙ ap (λ r. r.group) is_slices in
      ground (arith, (eq_iff apis_group group_name).1 group)
  not-IsExpected mk export c gvr t f is_slices (inr (inr (n, _))) = ground (arith, n, f)

  -- With the tables filled by the functions `init`, where no constructor of a schema's definition fails: a
  -- domain key whose export claims the endpoint slices of filteredvw.kcp.io serves, after a successful
  -- round, no version of them at all.
  pub claimed_slices_unserved :
      (mk : Makers) (get_export : String → String → Result ApiExport) (st : State)
      (slice : EndpointSlice) (key : String) (export : ApiExport) (c : Collected)
      → Creates mk
      → IsRound src get_export slice export c
      → (reconcile src mk get_export st (some slice) key).1 ≡ none
      → c.claims_endpoint_slices ≡ true
      → (version : String) (set : DefinitionSet)
      → get_api_definition_set (reconcile src mk get_export st (some slice) key).0 key ≡ some set
      → ¬ HasEntry set
          (record { group = group_name; version = version; resource = slices_resource })
  claimed_slices_unserved mk get_export st slice key export c creates r h f version set found
        serves =
      let gvr : Gvr = record {
        group = group_name;
        version = version;
        resource = slices_resource;
      } in
      not-IsExpected mk export c gvr (collect-IsTraced export c r.collected) f refl (
        (reconcile-HasEntry src mk get_export st slice key export c creates r h gvr).0
          (set, found, serves))
