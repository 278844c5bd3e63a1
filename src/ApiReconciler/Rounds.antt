-- ===== src/ApiReconciler/Rounds.antt =====
-- apiexport_apireconciler_reconcile.go: the set that a whole round builds, and where its definitions come
-- from.
use contrib_filteredapiexpor.Prelude.{ℕ, List, [], ◌∷◌, ◌≡◌, inl, inr, subst, arith, Bool-cases}
use contrib_filteredapiexpor.Error.{ok, Result-cases}
use contrib_filteredapiexpor.Api.{ApiExport, GroupResource, LabelSelector}
use contrib_filteredapiexpor.KeyMap.{get}
use contrib_filteredapiexpor.ApiReconciler.Schemas.{Version, Schema, Collected}
use contrib_filteredapiexpor.ApiReconciler.Definitions.{
  DefinitionSet, Makers, Built, binding_gvr, slice_gvr, put_fallback, define_version,
  define_versions, define_schemas, fall_back_bindings, fall_back_slices, define_all,
}
use contrib_filteredapiexpor.ApiReconciler.Lives.{
  HasOwnNumbers, IsBuilt, put_fallback-IsBuilt, define_version-IsBuilt, bounded_of_origin,
}

module _ (old : DefinitionSet) (export : ApiExport) (start : ℕ) (numbers : HasOwnNumbers old start)
    (mk : Makers) (c : Collected) (selector : LabelSelector) where
  define_versions-IsBuilt :
      (s : Schema) (versions : List Version) (b : Built) {b' : Built}
      → IsBuilt old export start b
      → define_versions mk export c selector old s versions b ≡ ok b'
      → IsBuilt old export start b'
  unfolding define_versions
  define_versions-IsBuilt s [] b {b'} w h =
      let same : b ≡ b' = ground (arith, h) in subst (λ x. IsBuilt old export start x) same w
  define_versions-IsBuilt s (v ∷ versions) b w h =
      elim (Result-cases (define_version mk export c selector old s v b)) [
        | inr (x, e) ↦ absurd (ground (arith, h, e))
        | inl (next, e) ↦
            define_versions-IsBuilt s versions next
              (define_version-IsBuilt old export start numbers mk c selector s v b w e)
              (ground (arith, h, e))
      ]

  define_schemas-IsBuilt :
      (schemas : List (GroupResource × Schema)) (b : Built) {b' : Built}
      → IsBuilt old export start b
      → define_schemas mk export c selector old schemas b ≡ ok b'
      → IsBuilt old export start b'
  unfolding define_schemas
  define_schemas-IsBuilt [] b {b'} w h =
      let same : b ≡ b' = ground (arith, h) in subst (λ x. IsBuilt old export start x) same w
  define_schemas-IsBuilt ((gr, s) ∷ schemas) b w h =
      elim (Result-cases (define_versions mk export c selector old s s.versions b)) [
        | inr (x, e) ↦ absurd (ground (arith, h, e))
        | inl (next, e) ↦
            define_schemas-IsBuilt schemas next (define_versions-IsBuilt s s.versions b w e)
              (ground (arith, h, e))
      ]

  fall_back_slices-IsBuilt :
      (x : Built)
      → IsBuilt old export start x
      → IsBuilt old export start (fall_back_slices mk export c x)
  unfolding fall_back_slices
  fall_back_slices-IsBuilt x q = elim (Bool-cases c.claims_endpoint_slices) [
    | inl p ↦
        let same : x ≡ fall_back_slices mk export c x = ground (arith, p) in
        subst (λ y. IsBuilt old export start y) same q
    | inr p ↦
        let stored =
          put_fallback slice_gvr (mk.create_endpoint_slice "v1alpha1" export.cluster export.name)
            x in
        let same : stored ≡ fall_back_slices mk export c x = ground (arith, p) in
        subst (λ y. IsBuilt old export start y) same
          (put_fallback-IsBuilt old export start numbers slice_gvr _ x q)
  ]

  fall_back_bindings-IsBuilt :
      (x : Built)
      → IsBuilt old export start x
      → IsBuilt old export start (fall_back_bindings mk export c x)
  unfolding fall_back_bindings
  fall_back_bindings-IsBuilt x q = elim (Bool-cases c.claims_api_bindings) [
    | inl p ↦
        let same : x ≡ fall_back_bindings mk export c x = ground (arith, p) in
        subst (λ y. IsBuilt old export start y) same q
    | inr p ↦
        let one =
          put_fallback (binding_gvr "v1alpha1")
            (mk.create_api_binding "v1alpha1" export.cluster export.name) x in
        let two =
          put_fallback (binding_gvr "v1alpha2")
            (mk.create_api_binding "v1alpha2" export.cluster export.name) one in
        let same : two ≡ fall_back_bindings mk export c x = ground (arith, p) in
        subst (λ y. IsBuilt old export start y) same
          (put_fallback-IsBuilt old export start numbers (binding_gvr "v1alpha2") _ one
            (put_fallback-IsBuilt old export start numbers (binding_gvr "v1alpha1") _ x q))
  ]

  -- Every definition of the new set is kept with the identity of the export, nil, or made in this round,
  -- and those made in this round have their numbers to themselves.
  pub define_all-IsBuilt :
      (b : Built) → define_all mk export c selector old start ≡ ok b → IsBuilt old export start b
  unfolding define_all get
  define_all-IsBuilt b h =
      elim (Result-cases
        (define_schemas mk export c selector old c.schemas (record { next = start; set = [] }))) [
          | inr (x, e) ↦ absurd (ground (arith, h, e))
          | inl (mid, e) ↦
              let w =
                define_schemas-IsBuilt c.schemas (record { next = start; set = [] })
                  (record {
                    order = omega arith;
                    is_map = tt;
                    origin = λ g d k. absurd (ground (arith, k));
                    distinct = λ g g' d d' n k k' i i' le. absurd (ground (arith, k));
                  })
                  e in
              let same : fall_back_slices mk export c (fall_back_bindings mk export c mid) ≡ b =
                ground (arith, h, e) in
              subst (λ x. IsBuilt old export start x) same
                (fall_back_slices-IsBuilt (fall_back_bindings mk export c mid)
                  (fall_back_bindings-IsBuilt mid w))
        ]

-- The set that a round builds gives each definition a number of its own.
pub HasOwnNumbers-of_IsBuilt :
    (old : DefinitionSet) (export : ApiExport) (start : ℕ) (b : Built)
    → HasOwnNumbers old start
    → IsBuilt old export start b
    → HasOwnNumbers b.set b.next
HasOwnNumbers-of_IsBuilt old export start b numbers w = record {
  bounded = λ g d n h k.
      bounded_of_origin old export start numbers b.next g d n w.order (w.origin g d h) k;
  distinct = λ g g' d d' n h h' k k'. elim (w.origin g d h) [
    | inr (inl z) ↦ absurd (ground (arith, z, k))
    | inr (inr (m, z, a, lt)) ↦
        let same : m ≡ n = ground (arith, z, k) in w.distinct g g' d d' n h h' k k' (omega arith)
    | inl (o, i) ↦ elim (w.origin g' d' h') [
      | inl (o', i') ↦ numbers.distinct g g' d d' n o o' k k'
      | inr (inl z) ↦ absurd (ground (arith, z, k'))
      | inr (inr (m, z, a, lt)) ↦
          let same : m ≡ n = ground (arith, z, k') in w.distinct g g' d d' n h h' k k' (omega arith)
    ]
  ];
}
