-- ===== src/Admission/Writes.antt =====
-- What `Admit` does to an object that is written through the virtual workspace.
use mathlib.Core.List.{Memᴰ}
use contrib_filteredapiexpor.Prelude.{
  String, true, none, some, ◌≡◌, ◌⊎◌, ◌↔◌, inl, inr, refl, subst, arith, All-of_mem, All-mem,
  Bool-cases, Option-cases,
}
use contrib_filteredapiexpor.Error.{forbidden, ok, err, Result-cases}
use contrib_filteredapiexpor.Url.{Cluster}
use contrib_filteredapiexpor.Api.{Labels, GroupResource, EndpointSlice, ApiBinding}
use contrib_filteredapiexpor.Request.{Context, Listers}
use contrib_filteredapiexpor.LabelMap.{lookup, HasDistinctKeys, Contains, lookup-mem, lookup-sound}
use contrib_filteredapiexpor.Admission.{
  Unstructured, Object, nil, unstructured, other, Attributes, labels_of, Start, failed, skipped,
  started, start, binding_of_slice, slice_labels,
}
use contrib_filteredapiexpor.Admission.Admit.{
  is_write, additional_labels, labels_to_apply, apply_labels, label_object, admit_bound,
  admit_started, admit,
}
use contrib_filteredapiexpor.Admission.Labelling.{
  Agrees, apply_labels-IsOverlay, apply_labels_of_Agrees, apply_labels_of_Contains,
  Agrees-of_IsOverlay, labels_to_apply_sound, labels_to_apply_of_Agrees, Agrees-of_labels_to_apply,
}

-- A write of a resource that is bound or claimed in the target cluster, with the endpoint slice of
-- the view, the binding, and the labels that the claim adds.
pub record IsViewWrite (l : Listers) (ctx : Context) (a : Attributes) (slice : EndpointSlice)
    (extra : Labels) : Type 0 where
  pub write : is_write a.operation ≡ true
  pub target : Cluster
  pub begun : start l ctx a.resource ≡ started target slice
  pub binding : ApiBinding
  pub binding_found : binding_of_slice l target slice ≡ ok binding
  pub claimed : additional_labels binding a.resource ≡ some extra

-- The object has the labels of the view and of the claim; no label that it had has changed, and no
-- other label is new.
pub record IsLabelled (view extra : Labels) (u u' : Unstructured) : Type 0 where
  pub has_view : Contains (labels_of u') view
  pub has_extra : Contains (labels_of u') extra
  pub keeps : (k v : String) → lookup k (labels_of u) ≡ some v → lookup k (labels_of u') ≡ some v
  pub only :
      (k v : String)
      → lookup k (labels_of u') ≡ some v
      → (lookup k (labels_of u) ≡ some v) ⊎ Memᴰ (k, v) view ⊎ Memᴰ (k, v) extra
  pub content : u'.content ≡ u.content

Contains-of_keeps :
    (m out entries : Labels)
    → Contains m entries
    → Contains out m
    → HasDistinctKeys m
    → Contains out entries
Contains-of_keeps m out entries c o d =
    All-of_mem _ entries (λ e t. All-mem _ m o (lookup-sound e.0 m (All-mem _ entries c t)))

label_object-inv :
    (expected : Labels) (obj : Object) {obj' : Object}
    → label_object expected obj ≡ (obj', none)
    → (u : Unstructured) × (out : Labels) × (obj ≡ unstructured u)
      × (apply_labels expected (labels_of u) ≡ ok out)
      × (obj' ≡ unstructured (record u { labels = some out }))
unfolding label_object
label_object-inv expected nil h = absurd (ground arith)
label_object-inv expected (other t) h = absurd (ground arith)
label_object-inv expected (unstructured u) h =
    elim (Result-cases (apply_labels expected (labels_of u))) [
      | inl (out, e) ↦ (u, out, refl, e, ground (arith, e))
      | inr (x, e) ↦ absurd (ground (arith, e))
    ]

module _ (l : Listers) (ctx : Context) (a : Attributes) (slice : EndpointSlice) (extra : Labels)
    (w : IsViewWrite l ctx a slice extra) where
  admit_view : admit l ctx a ≡ elim (labels_to_apply (slice_labels slice) extra) [
    | err e ↦ (a.object, some (forbidden e))
    | ok expected ↦ label_object expected a.object
  ]
  unfolding admit admit_started admit_bound
  admit_view = ground (arith, w.write, w.begun, w.binding_found, w.claimed)

  view_labels :
      {obj' : Object}
      → admit l ctx a ≡ (obj', none)
      → (m : Labels) × (labels_to_apply (slice_labels slice) extra ≡ ok m)
        × (label_object m a.object ≡ (obj', none))
  view_labels h = elim (Result-cases (labels_to_apply (slice_labels slice) extra)) [
    | inl (m, e) ↦ (m, e, ground (arith, admit_view, e))
    | inr (x, e) ↦ absurd (ground (arith, admit_view, e))
  ]

  -- Where an object is created or updated in one cluster under a domain key whose endpoint slice and
  -- binding are found, and its resource is one that the binding binds or claims: an object that Admit lets
  -- through has every label of the view and of the claim, keeps each label that it had, gains no other
  -- label, and keeps its content.
  pub admit-IsLabelled :
      (obj' : Object)
      → HasDistinctKeys (slice_labels slice)
      → admit l ctx a ≡ (obj', none)
      → (u : Unstructured) × (u' : Unstructured) × (a.object ≡ unstructured u)
        × (obj' ≡ unstructured u')
        × IsLabelled (slice_labels slice) extra u u'
  admit-IsLabelled obj' d h =
      let (m, formed, labelled) = view_labels h in
      let (u, out, old, applied, new) = label_object-inv m a.object labelled in
      let (has_view, has_extra, dm, only) =
        labels_to_apply_sound (slice_labels slice) extra d formed in
      let o = apply_labels-IsOverlay m (labels_of u) applied in
      (
        u,
        record u { labels = some out },
        old,
        new,
        record {
          has_view = Contains-of_keeps m out (slice_labels slice) has_view o.has_all dm;
          has_extra = Contains-of_keeps m out extra has_extra o.has_all dm;
          keeps = o.keeps;
          only = λ k v p. elim (o.only k v p) [
            | inl q ↦ inl q
            | inr t ↦ inr (only k v (lookup-mem m dm t))
          ];
          content = refl;
        },
      )

  -- The object's labels contradict no label to apply where they contradict neither source of them.
  Agrees-of_parts :
      (base m : Labels)
      → HasDistinctKeys (slice_labels slice)
      → labels_to_apply (slice_labels slice) extra ≡ ok m
      → Agrees base (slice_labels slice)
      → Agrees base extra
      → Agrees base m
  Agrees-of_parts base m d formed bv bx =
      let (v, x, dm, only) = labels_to_apply_sound (slice_labels slice) extra d formed in
      All-of_mem _ m (λ e t. elim (only e.0 e.1 (lookup-mem m dm t)) [
        | inl in_view ↦ All-mem _ (slice_labels slice) bv in_view
        | inr in_extra ↦ All-mem _ extra bx in_extra
      ])

  Agrees-of_admitted :
      (u : Unstructured)
      → a.object ≡ unstructured u
      → HasDistinctKeys (slice_labels slice)
      → (obj' : Object) → admit l ctx a ≡ (obj', none)
      → Agrees (slice_labels slice) extra
        × Agrees (labels_of u) (slice_labels slice)
        × Agrees (labels_of u) extra
  Agrees-of_admitted u object d obj' h =
      let (m, formed, labelled) = view_labels h in
      let (u0, u', old, new, s) = admit-IsLabelled obj' d h in
      let same : u0 ≡ u = cc in
      let keeps =
        subst
          (λ x. (k v : String) → lookup k (labels_of x) ≡ some v → lookup k (labels_of u') ≡ some v)
          same s.keeps in
      (
        Agrees-of_labels_to_apply (slice_labels slice) extra d formed,
        Agrees-of_IsOverlay (labels_of u) (labels_of u') (slice_labels slice) keeps s.has_view,
        Agrees-of_IsOverlay (labels_of u) (labels_of u') extra keeps s.has_extra,
      )

  -- Where an object is created or updated in one cluster under a domain key whose endpoint slice and
  -- binding are found, and its resource is one that the binding binds or claims: Admit accepts an
  -- unstructured object exactly when the labels of the view, of the claim and of the object contradict one
  -- another nowhere.
  pub admit_succeeds_iff :
      (u : Unstructured)
      → a.object ≡ unstructured u
      → HasDistinctKeys (slice_labels slice)
      → HasDistinctKeys extra
      → ((admit l ctx a).1 ≡ none) ↔ (
          Agrees (slice_labels slice) extra
          × Agrees (labels_of u) (slice_labels slice)
          × Agrees (labels_of u) extra)
  unfolding label_object
  admit_succeeds_iff u object d e = (
    λ h. Agrees-of_admitted u object d (admit l ctx a).0 (λ i. ((admit l ctx a).0, h i)),
    λ (av, uv, ux).
        let (m, formed) = labels_to_apply_of_Agrees (slice_labels slice) extra d e av in
        let dm = (labels_to_apply_sound (slice_labels slice) extra d formed).2 in
        let (out, applied) =
          apply_labels_of_Agrees m (labels_of u) dm
            (Agrees-of_parts (labels_of u) m d formed uv ux) in
        ground (arith, admit_view, formed, object, applied),
  )

label_object_idempotent :
    (expected : Labels) (obj obj' : Object)
    → label_object expected obj ≡ (obj', none)
    → label_object expected obj' ≡ (obj', none)
unfolding label_object
label_object_idempotent expected obj obj' h =
    let (u, out, old, applied, new) = label_object-inv expected obj h in
    let o = apply_labels-IsOverlay expected (labels_of u) applied in
    ground (arith, new, apply_labels_of_Contains expected out o.has_all)

admit_started_idempotent :
    (l : Listers) (target : Cluster) (slice : EndpointSlice) (gr : GroupResource)
    (obj obj' : Object)
    → admit_started l target slice gr obj ≡ (obj', none)
    → admit_started l target slice gr obj' ≡ (obj', none)
unfolding admit_started admit_bound
admit_started_idempotent l target slice gr obj obj' h =
    elim (Result-cases (binding_of_slice l target slice)) [
      | inr (x, e) ↦ absurd (ground (arith, e))
      | inl (binding, e) ↦ elim (Option-cases (additional_labels binding gr)) [
        | inl n ↦ ground (arith, e, n)
        | inr (extra, c) ↦ elim (Result-cases (labels_to_apply (slice_labels slice) extra)) [
          | inr (x, f) ↦ absurd (ground (arith, e, c, f))
          | inl (m, f) ↦
              ground (arith, e, c, f, label_object_idempotent m obj obj' (ground (arith, e, c, f)))
        ]
      ]
    ]

-- Admitting an admitted object again changes nothing.
pub admit_idempotent :
    (l : Listers) (ctx : Context) (a : Attributes) (obj' : Object)
    → admit l ctx a ≡ (obj', none)
    → admit l ctx (record a { object = obj' }) ≡ (obj', none)
unfolding admit
admit_idempotent l ctx a obj' h = elim (Bool-cases (is_write a.operation)) [
  | inr n ↦ ground (arith, n)
  | inl y ↦ go y (start l ctx a.resource) refl
]
  where
    go :
        is_write a.operation ≡ true
        → (s : Start) → start l ctx a.resource ≡ s
        → admit l ctx (record a { object = obj' }) ≡ (obj', none)
    go y (failed e) b = absurd (ground (arith, y, b))
    go y skipped b = ground (arith, y, b)
    go y (started target slice) b = ground (
      arith,
      y,
      b,
      admit_started_idempotent l target slice a.resource a.object obj' (ground (arith, y, b)),
    )
