-- ===== src/ApiReconciler/TearDown.antt =====
-- What the cleanup tears down.
use mathlib.Core.List.{Memᴰ}
use contrib_filteredapiexpor.Prelude.{
  ℕ, true, false, Option, none, some, List, [], ◌∷◌, ◌≡◌, ◌⊎◌, ◌↔◌, inl, inr, refl, sym, ap, ◌∙◌,
  eqb_iff, arith, Bool-cases, Option-cases,
}
use contrib_filteredapiexpor.Api.{ApiExport}
use contrib_filteredapiexpor.KeyMap.{get, IsMap, get-mem}
use contrib_filteredapiexpor.ApiReconciler.Definitions.{
  Gvr, gvr_keys, Definition, DefinitionSet, Built, same_handle, torn_down,
}
use contrib_filteredapiexpor.ApiReconciler.Lives.{HasOwnNumbers, IsBuilt}

same_handle_iff : (a b : Option ℕ) → (same_handle a b ≡ true) ↔ (a ≡ b)
same_handle_iff none none = (λ h. refl, λ h. refl)
same_handle_iff (some a) (some b) = ground (arith, eqb_iff a b)
same_handle_iff none (some b) = ground arith
same_handle_iff (some a) none = ground arith

-- The new set has the definition where the old one had it.
abbrev pub IsKept : DefinitionSet → Gvr → Definition → Type 0
IsKept new gvr d = (d' : Definition) × (get gvr_keys gvr new ≡ some d') × (d.handle ≡ d'.handle)

-- Every old definition is kept or torn down.
pub torn_down_complete :
    (new old : DefinitionSet) (gvr : Gvr) (d : Definition)
    → Memᴰ (gvr, d) old
    → IsKept new gvr d ⊎ Memᴰ d.handle (torn_down new old)
unfolding torn_down
torn_down_complete new [] gvr d t = elim t [ ]
torn_down_complete new ((g, e) ∷ old) gvr d (Memᴰ.head p) =
    elim (Option-cases (get gvr_keys g new)) [
      | inl h ↦ inr (rw (h, torn_down) (Memᴰ.head same_d))
      | inr (d', h) ↦ elim (Bool-cases (same_handle e.handle d'.handle)) [
        | inl s ↦ inl (d', here ∙ h, same_d ∙ (same_handle_iff e.handle d'.handle).0 s)
        | inr s ↦ inr (rw (h, torn_down) (rw s (Memᴰ.head same_d)))
      ]
    ]
  where
    same_d : d.handle ≡ e.handle
    same_d = ap (λ (q : Gvr × Definition). q.1.handle) p

    here : get gvr_keys gvr new ≡ get gvr_keys g new
    here = ap (λ (q : Gvr × Definition). get gvr_keys q.0 new) p
torn_down_complete new ((g, e) ∷ old) gvr d (Memᴰ.tail t) =
    elim (torn_down_complete new old gvr d t) [
      | inl k ↦ inl k
      | inr m ↦ elim (Option-cases (get gvr_keys g new)) [
        | inl h ↦ inr (rw (h, torn_down) (Memᴰ.tail m))
        | inr (d', h) ↦ elim (Bool-cases (same_handle e.handle d'.handle)) [
          | inl s ↦ inr (rw (h, torn_down) (rw s m))
          | inr s ↦ inr (rw (h, torn_down) (rw s (Memᴰ.tail m)))
        ]
      ]
    ]

Mem-uncons : {x y : Option ℕ} {ys : List (Option ℕ)} → Memᴰ x (y ∷ ys) → (x ≡ y) ⊎ Memᴰ x ys
Mem-uncons (Memᴰ.head p) = inl p
Mem-uncons (Memᴰ.tail t) = inr t

-- The first entry of the old set, or a later one.
torn_down-uncons :
    (new old : DefinitionSet) (g : Gvr) (e : Definition) (x : Option ℕ)
    → Memᴰ x (torn_down new ((g, e) ∷ old))
    → ((¬ IsKept new g e) × (e.handle ≡ x)) ⊎ Memᴰ x (torn_down new old)
unfolding torn_down
torn_down-uncons new old g e x t = elim (Option-cases (get gvr_keys g new)) [
  | inl h ↦ elim (Mem-uncons (rw (h, torn_down) at t)) [
    | inl p ↦ inl (λ (d', k, s). ground (arith, h, k), sym p)
    | inr m ↦ inr m
  ]
  | inr (d', h) ↦ elim (Bool-cases (same_handle e.handle d'.handle)) [
    | inl s ↦ inr (rw s at (rw (h, torn_down) at t))
    | inr s ↦ elim (Mem-uncons (rw s at (rw (h, torn_down) at t))) [
      | inl p ↦ inl (moved_on d' h s, sym p)
      | inr m ↦ inr m
    ]
  ]
]
  where
    moved_on :
        (d' : Definition)
        → get gvr_keys g new ≡ some d'
        → same_handle e.handle d'.handle ≡ false
        → ¬ IsKept new g e
    moved_on d' h s (d'', k, q) =
        let same : d' ≡ d'' = ground (arith, h, k) in
        ground
          (arith, s, (same_handle_iff e.handle d'.handle).1 (q ∙ ap (λ y. y.handle) (sym same)))

-- What is torn down is an old definition that is not kept.
pub torn_down_sound :
    (new old : DefinitionSet) (x : Option ℕ)
    → Memᴰ x (torn_down new old)
    → (gvr : Gvr) × (d : Definition) × Memᴰ (gvr, d) old × (d.handle ≡ x) × (¬ IsKept new gvr d)
unfolding torn_down
torn_down_sound new [] x t = elim t [ ]
torn_down_sound new ((g, e) ∷ old) x t = elim (torn_down-uncons new old g e x t) [
  | inl (lost, h) ↦ (g, e, Memᴰ.head refl, h, lost)
  | inr m ↦
      let (gvr, d, mem, h, lost) = torn_down_sound new old x m in (gvr, d, Memᴰ.tail mem, h, lost)
]

-- No definition of the new set is torn down, where the old definitions have their numbers to themselves
-- and the new ones are those of a round.
pub torn_down-spares :
    (old : DefinitionSet) (export : ApiExport) (start : ℕ) (b : Built)
    → IsMap gvr_keys old
    → HasOwnNumbers old start
    → IsBuilt old export start b
    → (gvr : Gvr) (d : Definition) (n : ℕ) → get gvr_keys gvr b.set ≡ some d
    → d.handle ≡ some n
    → ¬ Memᴰ (some n) (torn_down b.set old)
torn_down-spares old export start b is_map numbers w gvr d n found h t =
    let (g, e, mem, k, lost) = torn_down_sound b.set old (some n) t in
    let got = get-mem gvr_keys old is_map mem in
    let low = numbers.bounded g e n got k in
    elim (w.origin gvr d found) [
      | inl (o, i) ↦
          let same = numbers.distinct gvr g d e n o got h k in
          lost (d, ap (λ x. get gvr_keys x b.set) (sym same) ∙ found, k ∙ sym h)
      | inr (inl z) ↦ ground (arith, z, h)
      | inr (inr (m, z, a, c)) ↦ let same : m ≡ n = ground (arith, z, h) in omega arith
    ]
