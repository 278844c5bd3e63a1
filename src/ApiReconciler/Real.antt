-- ===== src/ApiReconciler/Real.antt =====
-- apiexport_apireconciler_reconcile.go: the definitions, none of them nil, that a domain key serves after a
-- round whose constructors do not fail.
use contrib_filteredapiexpor.Prelude.{
  String, Option, none, some, ◌==◌, ◌≡◌, ◌↔◌, inl, inr, sym, subst, ◌∙◌, arith, eq_iff, Bool-cases,
  Option-cases,
}
use contrib_filteredapiexpor.Error.{Result, is_not_found, Result-cases}
use contrib_filteredapiexpor.Api.{ApiExport, EndpointSlice}
use contrib_filteredapiexpor.KeyMap.{text_keys, get, get-put_same}
use contrib_filteredapiexpor.ApiReconciler.Schemas.{Sources, Collected, collect}
use contrib_filteredapiexpor.ApiReconciler.Definitions.{
  Gvr, gvr_keys, DefinitionSet, Makers, define_all, torn_down, has_nil,
}
use contrib_filteredapiexpor.ApiReconciler.Expected.{IsExpected, IsRound, reconcile-HasEntry}
use contrib_filteredapiexpor.ApiReconciler.Handles.{
  Serves, AllHandles, CreatesAll, define_all-AllHandles,
}
use contrib_filteredapiexpor.ApiReconciler.Invariants.{
  IsSound, remove_domain_same, reconcile-Round, Round-other,
}
use contrib_filteredapiexpor.ApiReconciler.Reconcile.{
  State, set_of, remove_domain, rebuild, replace_set, reconcile, get_api_definition_set,
}

-- The set of the domain key, if there is one, has no nil definition.
abbrev pub HasHandlesAt : State → String → Type 0
HasHandlesAt st key =
    (set : DefinitionSet) → get text_keys key st.api_sets ≡ some set → AllHandles set

set_of-AllHandles : (st : State) (key : String) → HasHandlesAt st key → AllHandles (set_of st key)
unfolding set_of get
set_of-AllHandles st key were gvr d g = elim (Option-cases (get text_keys key st.api_sets)) [
  | inl e ↦ absurd (ground (arith, g, e))
  | inr (set, e) ↦
      let same : set_of st key ≡ set = ground (arith, e) in
      were set e gvr d (subst (λ x. get gvr_keys gvr x ≡ some d) same g)
]

module _ (src : Sources) (mk : Makers) (get_export : String → String → Result ApiExport)
    (creates : CreatesAll mk) where
  remove_domain-HasHandlesAt : (st : State) (key : String) → HasHandlesAt (remove_domain st key) key
  remove_domain-HasHandlesAt st key set h = absurd (ground (arith, h, remove_domain_same st key))

  rebuild-HasHandlesAt :
      (st : State) (slice : EndpointSlice) (export : ApiExport) (key : String)
      → HasHandlesAt st key
      → HasHandlesAt (rebuild src mk get_export st slice export key).0 key
  unfolding rebuild replace_set
  rebuild-HasHandlesAt st slice export key were = elim (Result-cases (collect src export)) [
    | inr (x, e) ↦ rw (e, rebuild) were
    | inl (c, e) ↦
        let selector = slice.spec.object_selector.label_selector in
        elim (Result-cases (define_all mk export c selector (set_of st key) st.next)) [
          | inr (x, f) ↦ rw (e, rebuild) (rw f were)
          | inl (b, f) ↦ elim (Bool-cases (has_nil (torn_down b.set (set_of st key)))) [
            | inl g ↦ rw (e, rebuild) (rw f (rw g were))
            | inr g ↦
                let real =
                  define_all-AllHandles mk export c creates selector (set_of st key)
                    (set_of-AllHandles st key were) st.next b f in
                let stored : HasHandlesAt (replace_set st key b) key = (λ set h.
                  let same : b.set ≡ set =
                    ground (arith, h, get-put_same text_keys key b.set st.api_sets) in
                  subst (λ x. AllHandles x) same real) in
                rw (e, rebuild) (rw f (rw g stored))
          ]
        ]
  ]

  reconcile-HasHandlesAt :
      (st : State) (slice : Option EndpointSlice) (key : String)
      → HasHandlesAt st key
      → HasHandlesAt (reconcile src mk get_export st slice key).0 key
  unfolding reconcile
  reconcile-HasHandlesAt st none key were = remove_domain-HasHandlesAt st key
  reconcile-HasHandlesAt st (some slice) key were =
      elim (Result-cases (get_export slice.cluster slice.spec.api_export.name)) [
        | inr (x, e) ↦ elim (Bool-cases (is_not_found x)) [
          | inl g ↦ rw (e, reconcile) (rw g (remove_domain-HasHandlesAt st key))
          | inr g ↦ rw (e, reconcile) (rw g were)
        ]
        | inl (export, e) ↦ elim (Bool-cases (export.identity_hash == "")) [
          | inl g ↦ rw (e, reconcile) (rw g (remove_domain-HasHandlesAt st key))
          | inr g ↦ rw (e, reconcile) (rw g (rebuild-HasHandlesAt st slice export key were))
        ]
      ]

  -- Where no set has a nil definition and no constructor fails, no set has one after a round.
  pub reconcile-HasHandles :
      (st : State) (slice : Option EndpointSlice) (key other : String)
      → IsSound st
      → ((k : String) → HasHandlesAt st k)
      → HasHandlesAt (reconcile src mk get_export st slice key).0 other
  reconcile-HasHandles st slice key other w were = elim (Bool-cases (key == other)) [
    | inl e ↦
        subst (λ k. HasHandlesAt (reconcile src mk get_export st slice key).0 k)
          ((eq_iff key other).0 e) (reconcile-HasHandlesAt st slice key (were key))
    | inr e ↦ λ set h. were other set (
        sym (
          Round-other st key _ _ other (reconcile-Round src mk get_export st slice key w)
            (λ p. ground (arith, e, (eq_iff key other).1 p)))
        ∙ h)
  ]

  -- Where no constructor fails and the domain key has no nil definition yet: after a round without error
  -- for an export that is found and has an identity, the domain key has a definition that is not nil for
  -- exactly the served versions of the schemas that were collected, API bindings in two versions where
  -- these are not claimed, and endpoint slices where they are not claimed.
  pub reconcile-Serves :
      (st : State) (slice : EndpointSlice) (key : String) (export : ApiExport) (c : Collected)
      → HasHandlesAt st key
      → IsRound src get_export slice export c
      → (reconcile src mk get_export st (some slice) key).1 ≡ none
      → (gvr : Gvr)
      → ((set : DefinitionSet) × (get_api_definition_set
              (reconcile src mk get_export st (some slice) key).0
              key
            ≡ some set)
          × Serves set gvr)
        ↔ IsExpected mk export c gvr
  reconcile-Serves st slice key export c were r h gvr =
      let law =
        reconcile-HasEntry src mk get_export st slice key export c creates.schemas r h gvr in
      (
        λ (set, g, (d, n, f, k)). law.0 (set, g, (d, f)),
        λ t.
            let (set, g, (d, f)) = law.1 t in
            let (n, k) = reconcile-HasHandlesAt st (some slice) key were set g gvr d f in
            (set, g, (d, n, f, k)),
      )
