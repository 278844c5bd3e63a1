-- ===== src/Admission/Labelling.antt =====
-- What the loops of `Admit` over the label maps compute.
use mathlib.Core.List.{Memᴰ}
use contrib_filteredapiexpor.Prelude.{
  String, false, Option, none, some, [], ◌∷◌, ◌==◌, ◌≡◌, ◌⊎◌, inl, inr, refl, sym, ◌∙◌, arith, All,
  All-of_mem, All-mem, subst, eq_iff, eq_refl, Bool-cases, Option-cases, if◌then◌else◌,
}
use contrib_filteredapiexpor.Error.{ok}
use contrib_filteredapiexpor.Api.{Labels}
use contrib_filteredapiexpor.LabelMap.{
  lookup, insert, HasDistinctKeys, Contains, lookup-insert, lookup-mem, lookup-sound,
  insert-HasDistinctKeys,
}
use contrib_filteredapiexpor.Admission.Admit.{
  labels_to_apply, copy_labels, merge_labels, apply_labels, conflicts,
}

-- `out` is `base` with the entries: all are there, nothing of `base` has changed, and all else is
-- from `base` or an entry.
pub record IsOverlay (base entries out : Labels) : Type 0 where
  pub has_all : Contains out entries
  pub keeps : (k v : String) → lookup k base ≡ some v → lookup k out ≡ some v
  pub only : (k v : String) → lookup k out ≡ some v → (lookup k base ≡ some v) ⊎ Memᴰ (k, v) entries

-- The base agrees with each entry whose key it has.
abbrev pub Agrees : Labels → Labels → Type 0
Agrees base entries = All (λ e. (lookup e.0 base ≡ none) ⊎ (lookup e.0 base ≡ some e.1)) entries

IsOverlay-nil : (base : Labels) → IsOverlay base [] base
IsOverlay-nil base = record { has_all = tt; keeps = λ k v h. h; only = λ k v h. inl h }

-- An entry that is there already.
IsOverlay-old :
    (k v : String) (base rest out : Labels)
    → lookup k base ≡ some v
    → IsOverlay base rest out
    → IsOverlay base ((k, v) ∷ rest) out
IsOverlay-old k v base rest out h o = record {
  has_all = (o.keeps k v h, o.has_all);
  keeps = o.keeps;
  only = λ j w g. elim (o.only j w g) [ inl p ↦ inl p | inr m ↦ inr (Memᴰ.tail m) ];
}

-- An entry that is written, over nothing or over the same value.
IsOverlay-insert :
    (k v : String) (base rest out : Labels)
    → (lookup k base ≡ none) ⊎ (lookup k base ≡ some v)
    → IsOverlay (insert k v base) rest out
    → IsOverlay base ((k, v) ∷ rest) out
IsOverlay-insert k v base rest out fresh o = record {
  has_all = (o.keeps k v (rw lookup-insert (rw (eq_refl k))), o.has_all);
  keeps = λ j w h. o.keeps j w (rw lookup-insert (ground (arith, h, fresh, eq_iff k j)));
  only = λ j w g. elim (o.only j w g) [
    | inl p ↦ written j w (rw lookup-insert at p)
    | inr m ↦ inr (Memᴰ.tail m)
  ];
}
  where
    written :
        (j w : String)
        → (if k == j then some v else lookup j base) ≡ some w
        → (lookup j base ≡ some w) ⊎ Memᴰ (j, w) ((k, v) ∷ rest)
    written j w p = elim (Bool-cases (k == j)) [
      | inl e ↦ inr (Memᴰ.head (ground (arith, p, e, eq_iff k j)))
      | inr n ↦ inl (ground (arith, p, n))
    ]

pub apply_labels-IsOverlay :
    (entries base : Labels) {out : Labels}
    → apply_labels entries base ≡ ok out
    → IsOverlay base entries out
unfolding apply_labels
apply_labels-IsOverlay [] base {out} h = let e : base ≡ out = cc in rw (← e) (IsOverlay-nil base)
apply_labels-IsOverlay ((k, v) ∷ rest) base {out} h = elim (Option-cases (lookup k base)) [
  | inl e ↦
      IsOverlay-insert k v base rest out (inl e)
        (apply_labels-IsOverlay rest (insert k v base) (ground (arith, e)))
  | inr (w, e) ↦ elim (Bool-cases (w == v)) [
    | inl same ↦
        IsOverlay-old k v base rest out (ground (arith, e, same, eq_iff w v))
          (apply_labels-IsOverlay rest base (ground (arith, e, same)))
    | inr different ↦ absurd (ground (arith, e, different))
  ]
]

no_conflict : (o : Option String) (v : String) → conflicts o v ≡ false → (o ≡ none) ⊎ (o ≡ some v)
no_conflict none v h = inl refl
no_conflict (some w) v h = inr (ground (arith, h, eq_iff w v))

conflicts_of_fits :
    (o : Option String) (v : String) → (o ≡ none) ⊎ (o ≡ some v) → conflicts o v ≡ false
conflicts_of_fits o v (inl e) = rw e
conflicts_of_fits o v (inr e) = rw e (ground (arith, eq_refl v))

merge_labels-IsOverlay :
    (base entries : Labels) {out : Labels}
    → merge_labels base entries ≡ ok out
    → IsOverlay base entries out
unfolding merge_labels
merge_labels-IsOverlay base [] {out} h = let e : base ≡ out = cc in rw (← e) (IsOverlay-nil base)
merge_labels-IsOverlay base ((k, v) ∷ rest) {out} h =
    elim (Bool-cases (conflicts (lookup k base) v)) [
      | inl clash ↦ absurd (ground (arith, clash))
      | inr fine ↦
          IsOverlay-insert k v base rest out (no_conflict (lookup k base) v fine)
            (merge_labels-IsOverlay (insert k v base) rest (ground (arith, fine)))
    ]

-- Agreement with the other entries is not lost when an entry with another key is written.
Agrees-insert :
    (k v : String) (base entries : Labels)
    → lookup k entries ≡ none
    → Agrees base entries
    → Agrees (insert k v base) entries
unfolding lookup
Agrees-insert k v base [] h a = tt
Agrees-insert k v base ((j, w) ∷ rest) h (a, more) = (
  rw lookup-insert (ground (arith, a, h, eq_iff j k, eq_iff k j)),
  Agrees-insert k v base rest (ground (arith, h)) more,
)

-- The loops end without an error exactly when there is no conflict.
pub apply_labels_of_Agrees :
    (entries base : Labels)
    → HasDistinctKeys entries
    → Agrees base entries
    → (out : Labels) × (apply_labels entries base ≡ ok out)
unfolding apply_labels
apply_labels_of_Agrees [] base d a = (base, refl)
apply_labels_of_Agrees ((k, v) ∷ rest) base (fresh, d) (inl e, more) =
    let (out, h) =
      apply_labels_of_Agrees rest (insert k v base) d (Agrees-insert k v base rest fresh more) in
    (out, ground (arith, e, h))
apply_labels_of_Agrees ((k, v) ∷ rest) base (fresh, d) (inr e, more) =
    let (out, h) = apply_labels_of_Agrees rest base d more in (out, ground (arith, e, h, eq_refl v))

merge_labels_of_Agrees :
    (base entries : Labels)
    → HasDistinctKeys entries
    → Agrees base entries
    → (out : Labels) × (merge_labels base entries ≡ ok out)
unfolding merge_labels
merge_labels_of_Agrees base [] d a = (base, refl)
merge_labels_of_Agrees base ((k, v) ∷ rest) (fresh, d) (a, more) =
    let (out, h) =
      merge_labels_of_Agrees (insert k v base) rest d (Agrees-insert k v base rest fresh more) in
    (out, ground (arith, h, conflicts_of_fits (lookup k base) v a))

pub Agrees-of_IsOverlay :
    (base out : Labels) (entries : Labels)
    → ((k v : String) → lookup k base ≡ some v → lookup k out ≡ some v)
    → Contains out entries
    → Agrees base entries
Agrees-of_IsOverlay base out [] keeps c = tt
Agrees-of_IsOverlay base out ((k, v) ∷ rest) keeps (c, cs) = (
  elim (Option-cases (lookup k base)) [ inl e ↦ inl e | inr (w, e) ↦ inr (cc (keeps k w e, c, e)) ],
  Agrees-of_IsOverlay base out rest keeps cs,
)

-- A map that has all the entries is left as it is.
pub apply_labels_of_Contains :
    (entries lbls : Labels) → Contains lbls entries → apply_labels entries lbls ≡ ok lbls
unfolding apply_labels
apply_labels_of_Contains [] lbls c = refl
apply_labels_of_Contains ((k, v) ∷ rest) lbls (c, cs) =
    ground (arith, c, eq_refl v, apply_labels_of_Contains rest lbls cs)

-- Copying a map into an empty one keeps its lookups.
lookup-copy_labels :
    (out entries : Labels) (k : String)
    → HasDistinctKeys entries
    → lookup k (copy_labels out entries)
      ≡ elim (lookup k entries) [ none ↦ lookup k out | some v ↦ some v ]
unfolding copy_labels lookup
lookup-copy_labels out [] k d = refl
lookup-copy_labels out ((j, w) ∷ rest) k (fresh, d) =
    lookup-copy_labels (insert j w out) rest k d
    ∙ ground (arith, lookup-insert j k w out, eq_iff j k, fresh)

copy_labels-HasDistinctKeys :
    (out entries : Labels) → HasDistinctKeys out → HasDistinctKeys (copy_labels out entries)
unfolding copy_labels
copy_labels-HasDistinctKeys out [] d = d
copy_labels-HasDistinctKeys out ((k, v) ∷ rest) d =
    copy_labels-HasDistinctKeys (insert k v out) rest (insert-HasDistinctKeys k v out d)

merge_labels-HasDistinctKeys :
    (out entries : Labels) {m : Labels}
    → merge_labels out entries ≡ ok m
    → HasDistinctKeys out
    → HasDistinctKeys m
unfolding merge_labels
merge_labels-HasDistinctKeys out [] h d = subst HasDistinctKeys (cc) d
merge_labels-HasDistinctKeys out ((k, v) ∷ rest) h d =
    elim (Bool-cases (conflicts (lookup k out) v)) [
      | inl clash ↦ absurd (ground (arith, clash))
      | inr fine ↦
          merge_labels-HasDistinctKeys (insert k v out) rest (ground (arith, fine))
            (insert-HasDistinctKeys k v out d)
    ]

-- The labels to apply are those of the view and of the claim together.
module _ (view extra : Labels) (d : HasDistinctKeys view) where
  lookup-copied : (k : String) → lookup k (copy_labels [] view) ≡ lookup k view
  unfolding lookup
  lookup-copied k = lookup-copy_labels [] view k d ∙ ground arith

  pub labels_to_apply_sound :
      {m : Labels}
      → labels_to_apply view extra ≡ ok m
      → Contains m view
        × Contains m extra
        × HasDistinctKeys m
        × ((k v : String) → lookup k m ≡ some v → Memᴰ (k, v) view ⊎ Memᴰ (k, v) extra)
  unfolding labels_to_apply
  labels_to_apply_sound h =
      let o = merge_labels-IsOverlay (copy_labels [] view) extra h in
      (
        All-of_mem _ view (λ e t. o.keeps e.0 e.1 (lookup-copied e.0 ∙ lookup-mem view d t)),
        o.has_all,
        merge_labels-HasDistinctKeys (copy_labels [] view) extra h
            (copy_labels-HasDistinctKeys [] view tt),
        λ k v p. elim (o.only k v p) [
          | inl q ↦ inl (lookup-sound k view (sym (lookup-copied k) ∙ q))
          | inr t ↦ inr t
        ],
      )

  pub labels_to_apply_of_Agrees :
      HasDistinctKeys extra → Agrees view extra → (m : Labels) × (labels_to_apply view extra ≡ ok m)
  unfolding labels_to_apply
  labels_to_apply_of_Agrees e a = merge_labels_of_Agrees (copy_labels [] view) extra e (
      All-of_mem _ extra (λ p t. elim (All-mem _ extra a t) [
        | inl q ↦ inl (lookup-copied p.0 ∙ q)
        | inr q ↦ inr (lookup-copied p.0 ∙ q)
      ]))

  -- The view and the claim agree where the labels to apply could be formed.
  pub Agrees-of_labels_to_apply :
      {m : Labels} → labels_to_apply view extra ≡ ok m → Agrees view extra
  Agrees-of_labels_to_apply {m} h =
      let (v, e, dm, only) = labels_to_apply_sound h in
      Agrees-of_IsOverlay view m extra (λ k w p. All-mem _ view v (lookup-sound k view p)) e
