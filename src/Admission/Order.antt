-- ===== src/Admission/Order.antt =====
-- The labels that `Admit` of internal/virtual/filteredapiexport/admission/selector.go leaves, seen as a
-- map, and the order of its loops over Go maps.
use contrib_filteredapiexpor.Prelude.{
  String, Option, none, some, ◌≡◌, inl, inr, sym, ap, ◌∙◌, arith, All-of_mem, All-mem, Option-cases,
}
use contrib_filteredapiexpor.Api.{Labels, EndpointSlice}
use contrib_filteredapiexpor.Request.{Context, Listers}
use contrib_filteredapiexpor.LabelMap.{lookup, HasDistinctKeys, lookup-mem, lookup-sound}
use contrib_filteredapiexpor.Admission.{
  Unstructured, Object, unstructured, Attributes, labels_of, slice_labels,
}
use contrib_filteredapiexpor.Admission.Admit.{admit}
use contrib_filteredapiexpor.Admission.Labelling.{Agrees}
use contrib_filteredapiexpor.Admission.Writes.{
  IsViewWrite, IsLabelled, admit-IsLabelled, admit_succeeds_iff,
}

-- The two lists are the same map, in any order.
abbrev pub SameMap : Labels → Labels → Type 0
SameMap m m' = (k : String) → lookup k m ≡ lookup k m'

-- The specification of labelling, on maps as functions: the first that has the key counts.
abbrev pub over : Option String → Option String → Option String
over none below = below
over (some v) below = some v

abbrev pub labels_spec : (old view extra : String → Option String) → String → Option String
labels_spec old view extra k = over (old k) (over (view k) (extra k))

lookup-labelled :
    (view extra : Labels) (u u' : Unstructured)
    → HasDistinctKeys view
    → HasDistinctKeys extra
    → IsLabelled view extra u u'
    → (k : String)
    → lookup k (labels_of u')
      ≡ over (lookup k (labels_of u)) (over (lookup k view) (lookup k extra))
lookup-labelled view extra u u' dv dx s k = elim (Option-cases (lookup k (labels_of u))) [
  | inr (v, e) ↦ ground (arith, e, s.keeps k v e)
  | inl e ↦ elim (Option-cases (lookup k view)) [
    | inr (v, f) ↦ ground (arith, e, f, All-mem _ view s.has_view (lookup-sound k view f))
    | inl f ↦ elim (Option-cases (lookup k extra)) [
      | inr (v, g) ↦ ground (arith, e, f, g, All-mem _ extra s.has_extra (lookup-sound k extra g))
      | inl g ↦ elim (Option-cases (lookup k (labels_of u'))) [
        | inl h ↦ ground (arith, e, f, g, h)
        | inr (v, h) ↦ elim (s.only k v h) [
          | inl q ↦ absurd (ground (arith, e, q))
          | inr (inl t) ↦ absurd (ground (arith, f, lookup-mem view dv t))
          | inr (inr t) ↦ absurd (ground (arith, g, lookup-mem extra dx t))
        ]
      ]
    ]
  ]
]

-- The labels of an admitted write through a view are, where no key comes twice in the labels of the view
-- or of the claim, key by key those of the object, over those of the view, over those of the claim.
pub admit-labels_spec :
    (l : Listers) (ctx : Context) (a : Attributes) (slice : EndpointSlice) (extra : Labels)
    → IsViewWrite l ctx a slice extra
    → (obj' : Object) → HasDistinctKeys (slice_labels slice)
    → HasDistinctKeys extra
    → admit l ctx a ≡ (obj', none)
    → (u : Unstructured) × (u' : Unstructured) × (a.object ≡ unstructured u)
      × (obj' ≡ unstructured u')
      × ((k : String)
          → lookup k (labels_of u')
            ≡ labels_spec
                (λ j. lookup j (labels_of u))
                (λ j. lookup j (slice_labels slice))
                (λ j. lookup j extra)
                k)
admit-labels_spec l ctx a slice extra w obj' dv dx h =
    let (u, u', old, new, s) = admit-IsLabelled l ctx a slice extra w obj' dv h in
    (u, u', old, new, lookup-labelled (slice_labels slice) extra u u' dv dx s)

Agrees-of_SameMap :
    (base base' entries entries' : Labels)
    → SameMap base base'
    → SameMap entries entries'
    → HasDistinctKeys entries'
    → Agrees base entries
    → Agrees base' entries'
Agrees-of_SameMap base base' entries entries' b e d a = All-of_mem _ entries' (λ p t.
    let here = e p.0 ∙ lookup-mem entries' d t in
    elim (All-mem _ entries a (lookup-sound p.0 entries here)) [
      | inl q ↦ inl (sym (b p.0) ∙ q)
      | inr q ↦ inr (sym (b p.0) ∙ q)
    ])

-- Two writes of the same labels through the same view and claim, whose maps, in which no key comes twice,
-- may list their entries in different orders.
pub record IsReordered (l l' : Listers) (ctx ctx' : Context) (a a' : Attributes)
    (slice slice' : EndpointSlice) (extra extra' : Labels) (u u' : Unstructured) : Type 0 where
  pub write : IsViewWrite l ctx a slice extra
  pub write' : IsViewWrite l' ctx' a' slice' extra'
  pub object : a.object ≡ unstructured u
  pub object' : a'.object ≡ unstructured u'
  pub view_is_map : HasDistinctKeys (slice_labels slice)
  pub view'_is_map : HasDistinctKeys (slice_labels slice')
  pub extra_is_map : HasDistinctKeys extra
  pub extra'_is_map : HasDistinctKeys extra'
  pub same_view : SameMap (slice_labels slice) (slice_labels slice')
  pub same_extra : SameMap extra extra'
  pub same_labels : SameMap (labels_of u) (labels_of u')

-- Where one of two writes of the same labels through the same view and claim, whose maps (in which no key
-- comes twice) may list their entries in different orders, is admitted, the other is, and both leave the
-- same labels.
pub admit_order :
    (l l' : Listers) (ctx ctx' : Context) (a a' : Attributes) (slice slice' : EndpointSlice)
    (extra extra' : Labels) (u u' : Unstructured)
    → IsReordered l l' ctx ctx' a a' slice slice' extra extra' u u'
    → (admit l ctx a).1 ≡ none
    → (out : Unstructured) × (out' : Unstructured) × (admit l ctx a ≡ (unstructured out, none))
      × (admit l' ctx' a' ≡ (unstructured out', none))
      × SameMap (labels_of out) (labels_of out')
admit_order l l' ctx ctx' a a' slice slice' extra extra' u u' r h =
    let (av, uv, ux) =
      (admit_succeeds_iff l ctx a slice extra r.write u r.object r.view_is_map r.extra_is_map).0
        h in
    let h' =
      (admit_succeeds_iff l' ctx' a' slice' extra' r.write' u' r.object' r.view'_is_map
          r.extra'_is_map).1
        (
          Agrees-of_SameMap (slice_labels slice) (slice_labels slice') extra extra' r.same_view
              r.same_extra r.extra'_is_map av,
          Agrees-of_SameMap (labels_of u) (labels_of u') (slice_labels slice) (slice_labels slice')
              r.same_labels r.same_view r.view'_is_map uv,
          Agrees-of_SameMap (labels_of u) (labels_of u') extra extra' r.same_labels r.same_extra
              r.extra'_is_map ux,
        ) in
    let (v, out, old, new, s) =
      admit-labels_spec l ctx a slice extra r.write (admit l ctx a).0 r.view_is_map r.extra_is_map
        (λ i. ((admit l ctx a).0, h i)) in
    let (v', out', old', new', s') =
      admit-labels_spec l' ctx' a' slice' extra' r.write' (admit l' ctx' a').0 r.view'_is_map
        r.extra'_is_map (λ i. ((admit l' ctx' a').0, h' i)) in
    let is_u : u ≡ v = ground (arith, sym r.object ∙ old) in
    let is_u' : u' ≡ v' = ground (arith, sym r.object' ∙ old') in
    (
      out,
      out',
      (λ i. (new i, h i)),
      (λ i. (new' i, h' i)),
      λ k.
          s k
          ∙ ap
              (λ x.
                over (lookup k (labels_of x))
                  (over (lookup k (slice_labels slice)) (lookup k extra)))
              (sym is_u)
          ∙ ground (arith, r.same_labels k, r.same_view k, r.same_extra k)
          ∙ ap
              (λ x.
                over (lookup k (labels_of x))
                  (over (lookup k (slice_labels slice')) (lookup k extra')))
              is_u'
          ∙ sym (s' k),
    )
