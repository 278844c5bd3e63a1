-- ===== src/ApiReconciler/Expected.antt =====
-- What a domain key serves after a successful round, from the schemas that were collected.
use contrib_filteredapiexpor.Prelude.{
  ℕ, String, false, Option, none, some, List, [], ◌==◌, ◌≡◌, ◌≢◌, ◌⊎◌, ◌↔◌, inl, inr, sym, ap,
  subst, ◌∙◌, arith, eq_iff, Bool-cases,
}
use contrib_filteredapiexpor.Error.{Error, Result, ok, Result-cases}
use contrib_filteredapiexpor.Api.{ApiExport, EndpointSlice, LabelSelector, Requirement}
use contrib_filteredapiexpor.KeyMap.{text_keys, get, get-put_same}
use contrib_filteredapiexpor.ApiReconciler.Schemas.{Schema, Sources, Collected, collect}
use contrib_filteredapiexpor.ApiReconciler.Definitions.{
  Gvr, DefinitionSet, Makers, Built, put_fallback, binding_gvr, slice_gvr, define_schemas,
  fall_back_bindings, fall_back_slices, define_all,
}
use contrib_filteredapiexpor.ApiReconciler.Serves.{
  HasEntry, HasEntry-put, IsOfSchemas, define_schemas-HasEntry,
}
use contrib_filteredapiexpor.ApiReconciler.Reconcile.{
  State, set_of, replace_set, rebuild, reconcile, get_api_definition_set,
}

put_fallback-HasEntry :
    (k gvr : Gvr) (error : Option Error) (b : Built)
    → HasEntry (put_fallback k error b).set gvr ↔ (HasEntry b.set gvr ⊎ (k ≡ gvr))
unfolding put_fallback
put_fallback-HasEntry k gvr error b = HasEntry-put b.set k gvr _

module _ (mk : Makers) (export : ApiExport) (c : Collected) where
  -- What is to be served: the served versions of the collected schemas, both versions of the API bindings
  -- where these are not claimed, and the endpoint slices where they are not claimed.
  abbrev pub IsExpected : Gvr → Type 0
  IsExpected gvr =
      IsOfSchemas mk export c c.schemas gvr
      ⊎ ((c.claims_api_bindings ≡ false)
          × ((binding_gvr "v1alpha1" ≡ gvr) ⊎ (binding_gvr "v1alpha2" ≡ gvr)))
      ⊎ ((c.claims_endpoint_slices ≡ false) × (slice_gvr ≡ gvr))

-- No constructor of a definition for a schema fails.
abbrev pub Creates : Makers → Type 0
Creates mk =
    (s : Schema) (version identity : String) (reqs : List Requirement)
    → mk.create s version identity reqs ≡ none

module _ (mk : Makers) (export : ApiExport) (c : Collected) (creates : Creates mk) where
  fall_back_bindings-HasEntry :
      (b : Built) (gvr : Gvr)
      → HasEntry (fall_back_bindings mk export c b).set gvr ↔ (
          HasEntry b.set gvr
          ⊎ ((c.claims_api_bindings ≡ false)
              × ((binding_gvr "v1alpha1" ≡ gvr) ⊎ (binding_gvr "v1alpha2" ≡ gvr))))
  unfolding fall_back_bindings
  fall_back_bindings-HasEntry b gvr = elim (Bool-cases c.claims_api_bindings) [
    | inl y ↦
        rw (y, fall_back_bindings)
          (λ t. inl t, λ t. elim t [ inl z ↦ z | inr (n, q) ↦ absurd (ground (arith, n, y)) ])
    | inr n ↦
        let first =
          put_fallback (binding_gvr "v1alpha1")
            (mk.create_api_binding "v1alpha1" export.cluster export.name) b in
        let both =
          put_fallback (binding_gvr "v1alpha2")
            (mk.create_api_binding "v1alpha2" export.cluster export.name) first in
        let same : fall_back_bindings mk export c b ≡ both = ground (arith, n) in
        let one = put_fallback-HasEntry (binding_gvr "v1alpha1") gvr _ b in
        let two = put_fallback-HasEntry (binding_gvr "v1alpha2") gvr _ first in
        (
          λ t. elim (two.0 (subst (λ x. HasEntry x.set gvr) same t)) [
            | inr q ↦ inr (n, inr q)
            | inl z ↦ elim (one.0 z) [ inl was ↦ inl was | inr q ↦ inr (n, inl q) ]
          ],
          λ t.
              subst (λ x. HasEntry x.set gvr) (sym same)
                (elim t [
                  | inl was ↦ two.1 (inl (one.1 (inl was)))
                  | inr (_, q) ↦ elim q [
                    | inl v1 ↦ two.1 (inl (one.1 (inr v1)))
                    | inr v2 ↦ two.1 (inr v2)
                  ]
                ]),
        )
  ]

  fall_back_slices-HasEntry :
      (b : Built) (gvr : Gvr)
      → HasEntry (fall_back_slices mk export c b).set gvr
        ↔ (HasEntry b.set gvr ⊎ ((c.claims_endpoint_slices ≡ false) × (slice_gvr ≡ gvr)))
  unfolding fall_back_slices
  fall_back_slices-HasEntry b gvr = elim (Bool-cases c.claims_endpoint_slices) [
    | inl y ↦
        rw (y, fall_back_slices)
          (λ t. inl t, λ t. elim t [ inl z ↦ z | inr (n, q) ↦ absurd (ground (arith, n, y)) ])
    | inr n ↦
        let put_it =
          put_fallback slice_gvr (mk.create_endpoint_slice "v1alpha1" export.cluster export.name)
            b in
        let same : fall_back_slices mk export c b ≡ put_it = ground (arith, n) in
        let law = put_fallback-HasEntry slice_gvr gvr _ b in
        (
          λ t. elim (law.0 (subst (λ x. HasEntry x.set gvr) same t)) [
            | inl z ↦ inl z
            | inr q ↦ inr (n, q)
          ],
          λ t.
              subst (λ x. HasEntry x.set gvr) (sym same)
                (law.1 (elim t [ inl z ↦ inl z | inr (_, q) ↦ inr q ])),
        )
  ]

  define_all-HasEntry :
      (selector : LabelSelector) (old : DefinitionSet) (next : ℕ) (b : Built) (gvr : Gvr)
      → define_all mk export c selector old next ≡ ok b
      → HasEntry b.set gvr ↔ IsExpected mk export c gvr
  unfolding define_all get
  define_all-HasEntry selector old next b gvr h =
      let empty : Built = record { next = next; set = [] } in
      elim (Result-cases (define_schemas mk export c selector old c.schemas empty)) [
        | inr (x, e) ↦ absurd (ground (arith, h, e))
        | inl (mid, e) ↦
            let same : fall_back_slices mk export c (fall_back_bindings mk export c mid) ≡ b =
              ground (arith, h, e) in
            let schemas =
              define_schemas-HasEntry mk export c creates selector old c.schemas empty mid gvr e in
            let bindings = fall_back_bindings-HasEntry mid gvr in
            let slices = fall_back_slices-HasEntry (fall_back_bindings mk export c mid) gvr in
            (
              λ t. elim (slices.0 (subst (λ x. HasEntry x.set gvr) (sym same) t)) [
                | inr q ↦ inr (inr q)
                | inl z ↦ elim (bindings.0 z) [
                  | inr q ↦ inr (inl q)
                  | inl w ↦ elim (schemas.0 w) [
                    | inr q ↦ inl q
                    | inl (d, none_yet) ↦ absurd (ground (arith, none_yet))
                  ]
                ]
              ],
              λ t.
                  subst (λ x. HasEntry x.set gvr) same
                    (elim t [
                      | inl q ↦ slices.1 (inl (bindings.1 (inl (schemas.1 (inr q)))))
                      | inr (inl q) ↦ slices.1 (inl (bindings.1 (inr q)))
                      | inr (inr q) ↦ slices.1 (inr q)
                    ]),
            )
      ]

-- A round of the reconciler for an endpoint slice whose export is found and has an identity, and whose
-- schemas could be collected.
pub record IsRound (src : Sources) (get_export : String → String → Result ApiExport)
    (slice : EndpointSlice) (export : ApiExport) (c : Collected) : Type 0 where
  pub export_found : get_export slice.cluster slice.spec.api_export.name ≡ ok export
  pub has_identity : export.identity_hash ≢ ""
  pub collected : collect src export ≡ ok c

-- The entries of the domain key's set after a successful round, where no constructor of a schema's
-- definition fails.
pub reconcile-HasEntry :
    (src : Sources) (mk : Makers) (get_export : String → String → Result ApiExport) (st : State)
    (slice : EndpointSlice) (key : String) (export : ApiExport) (c : Collected)
    (creates : Creates mk)
    → IsRound src get_export slice export c
    → (reconcile src mk get_export st (some slice) key).1 ≡ none
    → (gvr : Gvr)
    → ((set : DefinitionSet) × (get_api_definition_set
            (reconcile src mk get_export st (some slice) key).0
            key
          ≡ some set)
        × HasEntry set gvr)
      ↔ IsExpected mk export c gvr
unfolding reconcile rebuild replace_set
reconcile-HasEntry src mk get_export st slice key export c creates r h gvr =
    let has : (export.identity_hash == "") ≡ false =
      ground (arith, r.has_identity, eq_iff export.identity_hash "") in
    let selector = slice.spec.object_selector.label_selector in
    elim (Result-cases (define_all mk export c selector (set_of st key) st.next)) [
      | inr (x, e) ↦ absurd (ground (arith, h, r.export_found, has, r.collected, e))
      | inl (b, e) ↦
          let law =
            define_all-HasEntry mk export c creates selector (set_of st key) st.next b gvr e in
          let same : (reconcile src mk get_export st (some slice) key).0 ≡ replace_set st key b =
            ground (arith, r.export_found, has, r.collected, e) in
          let here =
            ap (λ x. get_api_definition_set x key) same
            ∙ get-put_same text_keys key b.set st.api_sets in
          (
            λ (set, g, t).
                let is_b : set ≡ b.set = ground (arith, g, here) in
                law.0 (subst (λ x. HasEntry x gvr) is_b t),
            λ t. (b.set, here, law.1 t),
          )
    ]
