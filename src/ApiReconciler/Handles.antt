-- ===== src/ApiReconciler/Handles.antt =====
-- apiexport_apireconciler_reconcile.go: which definitions of a set are not nil.
use contrib_filteredapiexpor.Prelude.{
  ℕ, String, not, none, some, Option, List, [], ◌∷◌, ◌≡◌, inl, inr, refl, sym, ap, subst, ◌∙◌,
  arith, Bool-cases,
}
use contrib_filteredapiexpor.Error.{Error, ok, Result-cases}
use contrib_filteredapiexpor.Api.{GroupResource, ApiExport, LabelSelector}
use contrib_filteredapiexpor.KeyMap.{get, put, get-put_same, get-put_other}
use contrib_filteredapiexpor.ApiReconciler.Schemas.{Version, Schema, Collected}
use contrib_filteredapiexpor.ApiReconciler.Definitions.{
  Gvr, gvr_keys, Definition, DefinitionSet, Makers, Built, put_fallback, define_version,
  define_versions, define_schemas, fall_back_bindings, fall_back_slices, define_all,
}
use contrib_filteredapiexpor.ApiReconciler.Serves.{define_version-put}
use contrib_filteredapiexpor.ApiReconciler.Expected.{Creates}

-- The set has a definition for it that is not nil.
abbrev pub Serves : DefinitionSet → Gvr → Type 0
Serves set gvr = (d : Definition) × (n : ℕ) × (get gvr_keys gvr set ≡ some d) × (d.handle ≡ some n)

-- No definition of the set is nil.
abbrev pub AllHandles : DefinitionSet → Type 0
AllHandles set =
    (gvr : Gvr) (d : Definition) → get gvr_keys gvr set ≡ some d → (n : ℕ) × (d.handle ≡ some n)

-- No constructor of a definition fails.
pub record CreatesAll (mk : Makers) : Type 0 where
  pub schemas : Creates mk
  pub bindings : (version cluster name : String) → mk.create_api_binding version cluster name ≡ none
  pub slices :
      (version cluster name : String) → mk.create_endpoint_slice version cluster name ≡ none

AllHandles-put :
    (set : DefinitionSet) (k : Gvr) (d : Definition)
    → AllHandles set
    → (n : ℕ) × (d.handle ≡ some n)
    → AllHandles (put gvr_keys k d set)
AllHandles-put set k d all (n, h) gvr e g = elim (Bool-cases (gvr_keys.same k gvr)) [
  | inl y ↦
      let same = (gvr_keys.same_iff k gvr).0 y in
      let got = ap (λ x. get gvr_keys x (put gvr_keys k d set)) same ∙ g in
      let is_d : d ≡ e = ground (arith, got, get-put_same gvr_keys k d set) in
      (n, ap (λ x. x.handle) (sym is_d) ∙ h)
  | inr z ↦
      let past =
        get-put_other gvr_keys k gvr d set
          (λ p. ground (arith, z, (gvr_keys.same_iff k gvr).1 p)) in
      all gvr e (sym past ∙ g)
]

put_fallback-AllHandles :
    (k : Gvr) (error : Option Error) (b : Built)
    → error ≡ none
    → AllHandles b.set
    → AllHandles (put_fallback k error b).set
unfolding put_fallback
put_fallback-AllHandles k error b h all = AllHandles-put b.set k _ all (b.next, rw h refl)

module _ (mk : Makers) (export : ApiExport) (c : Collected) (creates : CreatesAll mk)
    (selector : LabelSelector) (old : DefinitionSet) (were : AllHandles old) where
  define_version-AllHandles :
      (s : Schema) (v : Version) (b b' : Built)
      → define_version mk export c selector old s v b ≡ ok b'
      → AllHandles b.set
      → AllHandles b'.set
  define_version-AllHandles s v b b' h all =
      elim (define_version-put mk export c creates.schemas selector old s v b b' h) [
        | inl (_, same) ↦ subst (λ x. AllHandles x.set) same all
        | inr (_, (d, e, o)) ↦
            subst (λ x. AllHandles x) (sym e)
              (AllHandles-put b.set _ d all (elim o [ inl n ↦ n | inr g ↦ were _ d g ]))
      ]

  define_versions-AllHandles :
      (s : Schema) (versions : List Version) (b b' : Built)
      → define_versions mk export c selector old s versions b ≡ ok b'
      → AllHandles b.set
      → AllHandles b'.set
  unfolding define_versions
  define_versions-AllHandles s [] b b' h all =
      let same : b ≡ b' = ground (arith, h) in subst (λ x. AllHandles x.set) same all
  define_versions-AllHandles s (v ∷ versions) b b' h all =
      elim (Result-cases (define_version mk export c selector old s v b)) [
        | inr (x, e) ↦ absurd (ground (arith, h, e))
        | inl (mid, e) ↦
            define_versions-AllHandles s versions mid b' (ground (arith, h, e))
              (define_version-AllHandles s v b mid e all)
      ]

  define_schemas-AllHandles :
      (schemas : List (GroupResource × Schema)) (b b' : Built)
      → define_schemas mk export c selector old schemas b ≡ ok b'
      → AllHandles b.set
      → AllHandles b'.set
  unfolding define_schemas
  define_schemas-AllHandles [] b b' h all =
      let same : b ≡ b' = ground (arith, h) in subst (λ x. AllHandles x.set) same all
  define_schemas-AllHandles ((gr, s) ∷ schemas) b b' h all =
      elim (Result-cases (define_versions mk export c selector old s s.versions b)) [
        | inr (x, e) ↦ absurd (ground (arith, h, e))
        | inl (mid, e) ↦
            define_schemas-AllHandles schemas mid b' (ground (arith, h, e))
              (define_versions-AllHandles s s.versions b mid e all)
      ]

  fall_back-AllHandles :
      (b : Built)
      → AllHandles b.set
      → AllHandles (fall_back_slices mk export c (fall_back_bindings mk export c b)).set
  unfolding fall_back_slices fall_back_bindings
  fall_back-AllHandles b all =
      let bindings : AllHandles (fall_back_bindings mk export c b).set =
        (elim (Bool-cases (not c.claims_api_bindings)) [
          | inr n ↦ rw (n, fall_back_bindings) all
          | inl y ↦
              rw (y, fall_back_bindings)
                (put_fallback-AllHandles _ _ _ (creates.bindings _ _ _)
                  (put_fallback-AllHandles _ _ _ (creates.bindings _ _ _) all))
        ]) in
      elim (Bool-cases (not c.claims_endpoint_slices)) [
        | inr n ↦ rw (n, fall_back_slices) bindings
        | inl y ↦
            rw (y, fall_back_slices) (put_fallback-AllHandles _ _ _ (creates.slices _ _ _) bindings)
      ]

  pub define_all-AllHandles :
      (start : ℕ) (b : Built) → define_all mk export c selector old start ≡ ok b → AllHandles b.set
  unfolding define_all get
  define_all-AllHandles start b h =
      let empty : Built = record { next = start; set = [] } in
      elim (Result-cases (define_schemas mk export c selector old c.schemas empty)) [
        | inr (x, e) ↦ absurd (ground (arith, h, e))
        | inl (mid, e) ↦
            let same : fall_back_slices mk export c (fall_back_bindings mk export c mid) ≡ b =
              ground (arith, h, e) in
            subst (λ x. AllHandles x.set) same
              (fall_back-AllHandles mid (
                define_schemas-AllHandles c.schemas empty mid e
                  (λ gvr d g. absurd (ground (arith, g)))))
      ]
