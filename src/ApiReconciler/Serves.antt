-- ===== src/ApiReconciler/Serves.antt =====
-- Which groups, versions and resources a domain key serves after a round.
use mathlib.Core.List.{Memᴰ}
use mathlib.Core.List.Memᴰ
use contrib_filteredapiexpor.Prelude.{
  ℕ, suc, String, true, false, none, some, List, [], ◌∷◌, ◌≡◌, ◌≢◌, ◌⊎◌, ◌↔◌, inl, inr, refl, sym,
  ap, subst, ◌∙◌, arith, Bool-cases, Option-cases,
}
use contrib_filteredapiexpor.Error.{ok, Result-cases}
use contrib_filteredapiexpor.Api.{GroupResource, ApiExport, LabelSelector, Requirement}
use contrib_filteredapiexpor.KeyMap.{get, put, get-put_same, get-put_other}
use contrib_filteredapiexpor.ApiReconciler.Schemas.{Schema, Version, Collected}
use contrib_filteredapiexpor.ApiReconciler.Definitions.{
  Gvr, gvr_keys, Definition, DefinitionSet, Makers, Built, label_requirements, identity_of, gvr_of,
  create_version, is_current, define_version, define_versions, define_schemas,
}

-- The set has an entry for it, a nil definition included.
abbrev pub HasEntry : DefinitionSet → Gvr → Type 0
HasEntry set gvr = (d : Definition) × (get gvr_keys gvr set ≡ some d)

pub HasEntry-put :
    (set : DefinitionSet) (k gvr : Gvr) (d : Definition)
    → HasEntry (put gvr_keys k d set) gvr ↔ (HasEntry set gvr ⊎ (k ≡ gvr))
HasEntry-put set k gvr d = elim (Bool-cases (gvr_keys.same k gvr)) [
  | inl y ↦
      let same = (gvr_keys.same_iff k gvr).0 y in
      (
        λ h. inr same,
        λ h. (
          d,
          ap (λ g. get gvr_keys g (put gvr_keys k d set)) (sym same)
              ∙ get-put_same gvr_keys k d set,
        ),
      )
  | inr n ↦
      let other : k ≢ gvr = λ p. ground (arith, n, (gvr_keys.same_iff k gvr).1 p) in
      let past = get-put_other gvr_keys k gvr d set other in
      (
        λ (e, h). inl (e, sym past ∙ h),
        λ h. elim h [ inl (e, f) ↦ (e, past ∙ f) | inr p ↦ absurd (other p) ],
      )
]

module _ (mk : Makers) (export : ApiExport) (c : Collected) where
  -- A version of the schema that is served, and has this name.
  abbrev pub IsVersion : Schema → List Version → Gvr → Type 0
  IsVersion s versions gvr =
      (v : Version) × Memᴰ v versions × (v.served ≡ true) × (gvr_of mk export c s v ≡ gvr)

  -- A served version of one of the schemas.
  abbrev pub IsOfSchemas : List (GroupResource × Schema) → Gvr → Type 0
  IsOfSchemas schemas gvr =
      (entry : GroupResource × Schema) × Memᴰ entry schemas × IsVersion entry.1 entry.1.versions gvr

module _ (mk : Makers) (export : ApiExport) (c : Collected)
    (creates : (s : Schema) (version identity : String) (reqs : List Requirement)
      → mk.create s version identity reqs ≡ none)
    (selector : LabelSelector) (old : DefinitionSet) where
  create_version-put :
      (s : Schema) (v : Version) (b b' : Built)
      → create_version mk export c selector s v b ≡ ok b'
      → (d : Definition) × (b'.set ≡ put gvr_keys (gvr_of mk export c s v) d b.set)
        × ((n : ℕ) × (d.handle ≡ some n))
  unfolding create_version
  create_version-put s v b b' h =
      elim (Result-cases (label_requirements mk export c selector (gvr_of mk export c s v))) [
        | inr (x, e) ↦ absurd (ground (arith, h, e))
        | inl (reqs, e) ↦
            let made = creates s v.name (identity_of mk export c (gvr_of mk export c s v)) reqs in
            let d : Definition = record {
              handle = some b.next;
              uid = s.uid;
              identity_hash = export.identity_hash;
            } in
            let new : Built = record {
              next = suc b.next;
              set = put gvr_keys (gvr_of mk export c s v) d b.set;
            } in
            let same : new ≡ b' = ground (arith, rw made at (rw (e, create_version) at h)) in
            (d, ap (λ x. x.set) (sym same), (b.next, refl))
      ]

  -- A version that is not served changes nothing; any other gets a new definition or the old one.
  pub define_version-put :
      (s : Schema) (v : Version) (b b' : Built)
      → define_version mk export c selector old s v b ≡ ok b'
      → ((v.served ≡ false) × (b ≡ b'))
        ⊎ ((v.served ≡ true)
            × ((d : Definition) × (b'.set ≡ put gvr_keys (gvr_of mk export c s v) d b.set)
                × (((n : ℕ) × (d.handle ≡ some n))
                    ⊎ (get gvr_keys (gvr_of mk export c s v) old ≡ some d))))
  unfolding define_version
  define_version-put s v b b' h = elim (Bool-cases v.served) [
    | inr n ↦ inl (n, ground (arith, h, n))
    | inl y ↦ elim (Option-cases (get gvr_keys (gvr_of mk export c s v) old)) [
      | inl e ↦ inr (y, created (create_version-put s v b b' (ground (arith, h, y, e))))
      | inr (d, e) ↦ elim (Bool-cases (is_current mk export c s d)) [
        | inr n ↦ inr (y, created (create_version-put s v b b' (ground (arith, h, y, e, n))))
        | inl z ↦
            let new : Built = record b { set = put gvr_keys (gvr_of mk export c s v) d b.set } in
            let same : new ≡ b' = ground (arith, h, y, e, z) in
            inr (y, (d, ap (λ x. x.set) (sym same), inr e))
      ]
    ]
  ]
    where
      created :
          (d : Definition) × (b'.set ≡ put gvr_keys (gvr_of mk export c s v) d b.set)
            × ((n : ℕ) × (d.handle ≡ some n))
          → (d : Definition) × (b'.set ≡ put gvr_keys (gvr_of mk export c s v) d b.set)
            × (((n : ℕ) × (d.handle ≡ some n))
                ⊎ (get gvr_keys (gvr_of mk export c s v) old ≡ some d))
      created (d, e, n) = (d, e, inl n)

  define_version-HasEntry :
      (s : Schema) (v : Version) (b b' : Built) (gvr : Gvr)
      → define_version mk export c selector old s v b ≡ ok b'
      → HasEntry b'.set gvr
        ↔ (HasEntry b.set gvr ⊎ ((v.served ≡ true) × (gvr_of mk export c s v ≡ gvr)))
  define_version-HasEntry s v b b' gvr h = elim (define_version-put s v b b' h) [
    | inl (n, same) ↦ (
      λ t. inl (subst (λ x. HasEntry x.set gvr) (sym same) t),
      λ t. elim t [
        | inl z ↦ subst (λ x. HasEntry x.set gvr) same z
        | inr (y, e) ↦ absurd (ground (arith, y, n))
      ],
    )
    | inr (y, (d, e, _)) ↦
        let law = HasEntry-put b.set (gvr_of mk export c s v) gvr d in
        (
          λ t. elim (law.0 (subst (λ x. HasEntry x gvr) e t)) [
            | inl z ↦ inl z
            | inr q ↦ inr (y, q)
          ],
          λ t.
              subst (λ x. HasEntry x gvr) (sym e)
                (law.1 (elim t [ inl z ↦ inl z | inr (_, q) ↦ inr q ])),
        )
  ]

  define_versions-HasEntry :
      (s : Schema) (versions : List Version) (b b' : Built) (gvr : Gvr)
      → define_versions mk export c selector old s versions b ≡ ok b'
      → HasEntry b'.set gvr ↔ (HasEntry b.set gvr ⊎ IsVersion mk export c s versions gvr)
  unfolding define_versions
  define_versions-HasEntry s [] b b' gvr h =
      let same : b ≡ b' = ground (arith, h) in
      (
        λ t. inl (subst (λ x. HasEntry x.set gvr) (sym same) t),
        λ t. elim t [
          | inl z ↦ subst (λ x. HasEntry x.set gvr) same z
          | inr (v, m, y, e) ↦ elim m [ ]
        ],
      )
  define_versions-HasEntry s (v ∷ versions) b b' gvr h =
      elim (Result-cases (define_version mk export c selector old s v b)) [
        | inr (x, e) ↦ absurd (ground (arith, h, e))
        | inl (mid, e) ↦
            let first = define_version-HasEntry s v b mid gvr e in
            let rest = define_versions-HasEntry s versions mid b' gvr (ground (arith, h, e)) in
            (
              λ t. elim (rest.0 t) [
                | inr (w, m, y, q) ↦ inr (w, Memᴰ.tail m, y, q)
                | inl z ↦ elim (first.0 z) [
                  | inl was ↦ inl was
                  | inr (y, q) ↦ inr (v, Memᴰ.head refl, y, q)
                ]
              ],
              λ t. elim t [
                | inl was ↦ rest.1 (inl (first.1 (inl was)))
                | inr (w, m, y, q) ↦ elim (Memᴰ.cases_cons m) [
                  | inr later ↦ rest.1 (inr (w, later, y, q))
                  | inl p ↦ rest.1 (
                      inl (
                        first.1 (
                          inr (
                            ap (λ x. x.served) (sym p) ∙ y,
                            ap (λ x. gvr_of mk export c s x) (sym p) ∙ q,
                          ))))
                ]
              ],
            )
      ]

  pub define_schemas-HasEntry :
      (schemas : List (GroupResource × Schema)) (b b' : Built) (gvr : Gvr)
      → define_schemas mk export c selector old schemas b ≡ ok b'
      → HasEntry b'.set gvr ↔ (HasEntry b.set gvr ⊎ IsOfSchemas mk export c schemas gvr)
  unfolding define_schemas
  define_schemas-HasEntry [] b b' gvr h =
      let same : b ≡ b' = ground (arith, h) in
      (
        λ t. inl (subst (λ x. HasEntry x.set gvr) (sym same) t),
        λ t. elim t [
          | inl z ↦ subst (λ x. HasEntry x.set gvr) same z
          | inr (entry, m, v) ↦ elim m [ ]
        ],
      )
  define_schemas-HasEntry ((gr, s) ∷ schemas) b b' gvr h =
      elim (Result-cases (define_versions mk export c selector old s s.versions b)) [
        | inr (x, e) ↦ absurd (ground (arith, h, e))
        | inl (mid, e) ↦
            let first = define_versions-HasEntry s s.versions b mid gvr e in
            let rest = define_schemas-HasEntry schemas mid b' gvr (ground (arith, h, e)) in
            (
              λ t. elim (rest.0 t) [
                | inr (entry, m, v) ↦ inr (entry, Memᴰ.tail m, v)
                | inl z ↦ elim (first.0 z) [
                  | inl was ↦ inl was
                  | inr v ↦ inr ((gr, s), Memᴰ.head refl, v)
                ]
              ],
              λ t. elim t [
                | inl was ↦ rest.1 (inl (first.1 (inl was)))
                | inr (entry, m, v) ↦ elim (Memᴰ.cases_cons m) [
                  | inr later ↦ rest.1 (inr (entry, later, v))
                  | inl p ↦ rest.1 (
                      inl (
                        first.1
                          (inr (subst (λ x. IsVersion mk export c x.1 x.1.versions gvr) p v))))
                ]
              ],
            )
      ]
