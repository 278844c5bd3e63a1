-- ===== src/ApiReconciler/Lives.antt =====
-- Which definitions a round of the reconciler keeps, makes and tears down.
use contrib_filteredapiexpor.Prelude.{
  ℕ, suc, ◌≤◌, ◌<◌, true, false, Option, none, some, ◌≡◌, ◌≢◌, ◌⊎◌, inl, inr, refl, sym, ap, subst,
  ◌∙◌, arith, eq_iff, Bool-cases, Option-cases,
}
use contrib_filteredapiexpor.Error.{Error, ok, Result-cases}
use contrib_filteredapiexpor.Api.{ApiExport, LabelSelector}
use contrib_filteredapiexpor.KeyMap.{get, put, IsMap, put-IsMap, get-put_same, get-put_other}
use contrib_filteredapiexpor.ApiReconciler.Schemas.{Version, Schema, Collected}
use contrib_filteredapiexpor.ApiReconciler.Definitions.{
  Gvr, same_gvr, same_gvr_iff, gvr_keys, Definition, DefinitionSet, Makers, Built, put_fallback,
  label_requirements, create_version, define_version, is_current, gvr_of, identity_of,
}

abbrev Found : DefinitionSet → Gvr → Definition → Type 0
Found set gvr d = get gvr_keys gvr set ≡ some d

-- The definition was kept from the old set with the identity of the export, is nil, or was made in
-- this round.
abbrev pub HasOrigin : DefinitionSet → ApiExport → (start end : ℕ) → Gvr → Definition → Type 0
HasOrigin old export start end gvr d =
    ((get gvr_keys gvr old ≡ some d) × (d.identity_hash ≡ export.identity_hash))
    ⊎ (d.handle ≡ none)
    ⊎ ((n : ℕ) × (d.handle ≡ some n) × (start ≤ n) × (n < end))

-- Each definition has its number to itself, and the numbers are below the next fresh one.
pub record HasOwnNumbers (set : DefinitionSet) (next : ℕ) : Type 0 where
  pub bounded :
      (gvr : Gvr) (d : Definition) (n : ℕ)
      → get gvr_keys gvr set ≡ some d
      → d.handle ≡ some n
      → n < next
  pub distinct :
      (gvr gvr' : Gvr) (d d' : Definition) (n : ℕ)
      → get gvr_keys gvr set ≡ some d
      → get gvr_keys gvr' set ≡ some d'
      → d.handle ≡ some n
      → d'.handle ≡ some n
      → gvr ≡ gvr'

-- The definitions that are built so far have an origin, and those made in this round have their
-- numbers to themselves.
pub record IsBuilt (old : DefinitionSet) (export : ApiExport) (start : ℕ) (b : Built) : Type 0 where
  pub order : start ≤ b.next
  pub is_map : IsMap gvr_keys b.set
  pub origin :
      (gvr : Gvr) (d : Definition)
      → get gvr_keys gvr b.set ≡ some d
      → HasOrigin old export start b.next gvr d
  pub distinct :
      (gvr gvr' : Gvr) (d d' : Definition) (n : ℕ)
      → get gvr_keys gvr b.set ≡ some d
      → get gvr_keys gvr' b.set ≡ some d'
      → d.handle ≡ some n
      → d'.handle ≡ some n
      → start ≤ n
      → gvr ≡ gvr'

module _ (old : DefinitionSet) (export : ApiExport) (start : ℕ)
    (numbers : HasOwnNumbers old start) where
  -- A number with an origin is below the end.
  pub bounded_of_origin :
      (end : ℕ) (gvr : Gvr) (d : Definition) (n : ℕ)
      → start ≤ end
      → HasOrigin old export start end gvr d
      → d.handle ≡ some n
      → n < end
  bounded_of_origin end gvr d n le (inl (k, i)) h =
      let lt = numbers.bounded gvr d n k h in omega arith
  bounded_of_origin end gvr d n le (inr (inl k)) h = absurd (ground (arith, k, h))
  bounded_of_origin end gvr d n le (inr (inr (m, k, a, z))) h =
      let same : m ≡ n = ground (arith, k, h) in omega arith

  HasOrigin-later :
      (end end' : ℕ) (gvr : Gvr) (d : Definition)
      → end ≤ end'
      → HasOrigin old export start end gvr d
      → HasOrigin old export start end' gvr d
  HasOrigin-later end end' gvr d le (inl k) = inl k
  HasOrigin-later end end' gvr d le (inr (inl k)) = inr (inl k)
  HasOrigin-later end end' gvr d le (inr (inr (n, h, a, z))) = inr (inr (n, h, a, omega arith))

  -- What is found at another key was there before.
  kept :
      (gvr : Gvr) (d : Definition) (b : Built) (g : Gvr) (e : Definition)
      → same_gvr gvr g ≡ false
      → get gvr_keys g (put gvr_keys gvr d b.set) ≡ some e
      → get gvr_keys g b.set ≡ some e
  kept gvr d b g e y h =
      let n : gvr ≢ g = λ p. ground (arith, y, (same_gvr_iff gvr g).1 p) in
      sym (get-put_other gvr_keys gvr g d b.set n) ∙ h

  stored :
      (gvr : Gvr) (d : Definition) (b : Built) (g : Gvr) (e : Definition)
      → same_gvr gvr g ≡ true
      → get gvr_keys g (put gvr_keys gvr d b.set) ≡ some e
      → d ≡ e
  stored gvr d b g e y h =
      let got =
        ap (λ k. get gvr_keys k (put gvr_keys gvr d b.set)) ((same_gvr_iff gvr g).0 y) ∙ h in
      ground (arith, got, get-put_same gvr_keys gvr d b.set)

  -- A fresh number is no other definition's.
  apart :
      (gvr : Gvr) (d : Definition) (b : Built) (end : ℕ) (g g' : Gvr) (e e' : Definition) (n : ℕ)
      → ((m : ℕ) → d.handle ≡ some m → start ≤ m → b.next ≤ m)
      → IsBuilt old export start b
      → same_gvr gvr g ≡ true
      → same_gvr gvr g' ≡ false
      → get gvr_keys g (put gvr_keys gvr d b.set) ≡ some e
      → get gvr_keys g' (put gvr_keys gvr d b.set) ≡ some e'
      → e.handle ≡ some n
      → e'.handle ≡ some n
      → start ≤ n
      → ⊥
  apart gvr d b end g g' e e' n fresh w y y' h h' k k' le =
      let is_d = stored gvr d b g e y h in
      let high = fresh n (ap (λ x. x.handle) is_d ∙ k) le in
      let low =
        bounded_of_origin b.next g' e' n w.order (w.origin g' e' (kept gvr d b g' e' y' h')) k' in
      omega arith

  -- Storing a definition that has an origin.
  put-IsBuilt :
      (gvr : Gvr) (d : Definition) (b : Built) (end : ℕ)
      → b.next ≤ end
      → HasOrigin old export start end gvr d
      → ((n : ℕ) → d.handle ≡ some n → start ≤ n → b.next ≤ n)
      → IsBuilt old export start b
      → IsBuilt old export start (record { next = end; set = put gvr_keys gvr d b.set })
  put-IsBuilt gvr d b end le o fresh w = record {
    order = (let lo = w.order in omega arith);
    is_map = put-IsMap gvr_keys gvr d b.set w.is_map;
    origin = λ g e h. elim (Bool-cases (same_gvr gvr g)) [
      | inl y ↦
          let same = (same_gvr_iff gvr g).0 y in
          let got = ap (λ k. get gvr_keys k (put gvr_keys gvr d b.set)) same ∙ h in
          let is_d : d ≡ e = ground (arith, got, get-put_same gvr_keys gvr d b.set) in
          subst (λ x. HasOrigin old export start end g x) is_d
            (subst (λ k. HasOrigin old export start end k d) same o)
      | inr y ↦
          let n : gvr ≢ g = λ p. ground (arith, y, (same_gvr_iff gvr g).1 p) in
          HasOrigin-later b.next end g e le
            (w.origin g e (sym (get-put_other gvr_keys gvr g d b.set n) ∙ h))
    ];
    distinct = λ g g' e e' n h h' k k' le'. elim (Bool-cases (same_gvr gvr g)) [
      | inl y ↦ elim (Bool-cases (same_gvr gvr g')) [
        | inl y' ↦ sym ((same_gvr_iff gvr g).0 y) ∙ (same_gvr_iff gvr g').0 y'
        | inr y' ↦ absurd (apart gvr d b end g g' e e' n fresh w y y' h h' k k' le')
      ]
      | inr y ↦ elim (Bool-cases (same_gvr gvr g')) [
        | inl y' ↦ absurd (apart gvr d b end g' g e' e n fresh w y' y h' h k' k le')
        | inr y' ↦ w.distinct g g' e e' n (kept gvr d b g e y h) (kept gvr d b g' e' y' h') k k' le'
      ]
    ];
  }

  pub put_fallback-IsBuilt :
      (gvr : Gvr) (error : Option Error) (b : Built)
      → IsBuilt old export start b
      → IsBuilt old export start (put_fallback gvr error b)
  unfolding put_fallback
  put_fallback-IsBuilt gvr (some e) b w =
      put-IsBuilt gvr _ b (suc b.next) (omega arith) (inr (inl refl))
        (λ n h le. absurd (ground (arith, h))) w
  put_fallback-IsBuilt gvr none b w =
      let lo = w.order in
      put-IsBuilt gvr _ b (suc b.next) (omega arith) (inr (inr (b.next, refl, lo, omega arith)))
        (λ n h le. (let same : b.next ≡ n = ground (arith, h) in omega arith)) w

  -- A definition that is kept has an old number.
  old_number :
      (gvr : Gvr) (d : Definition) (b : Built)
      → get gvr_keys gvr old ≡ some d
      → (n : ℕ) → d.handle ≡ some n
      → start ≤ n
      → b.next ≤ n
  old_number gvr d b k n h le = absurd (let lt = numbers.bounded gvr d n k h in omega arith)

  module _ (mk : Makers) (c : Collected) (selector : LabelSelector) where
    create_version-IsBuilt :
        (s : Schema) (v : Version) (b : Built) {b' : Built}
        → IsBuilt old export start b
        → create_version mk export c selector s v b ≡ ok b'
        → IsBuilt old export start b'
    unfolding create_version
    create_version-IsBuilt s v b {b'} w h =
        let carry = λ (x : Built) (q : IsBuilt old export start x) (p : x ≡ b').
          subst (λ y. IsBuilt old export start y) p q in
        elim (Result-cases (label_requirements mk export c selector (gvr_of mk export c s v))) [
          | inr (x, e) ↦ absurd (ground (arith, h, e))
          | inl (reqs, e) ↦
              elim (Option-cases
                (mk.create s v.name (identity_of mk export c (gvr_of mk export c s v)) reqs)) [
                  | inr (x, f) ↦ carry b w (ground (arith, h, e, f))
                  | inl f ↦
                      let lo = w.order in
                      carry _
                        (put-IsBuilt (gvr_of mk export c s v)
                          (record {
                            handle = some b.next;
                            uid = s.uid;
                            identity_hash = export.identity_hash;
                          })
                          b (suc b.next) (omega arith) (inr (inr (b.next, refl, lo, omega arith)))
                          (λ n k le. (let same : b.next ≡ n = ground (arith, k) in omega arith)) w)
                        (ground (arith, h, e, f))
                ]
        ]

    pub define_version-IsBuilt :
        (s : Schema) (v : Version) (b : Built) {b' : Built}
        → IsBuilt old export start b
        → define_version mk export c selector old s v b ≡ ok b'
        → IsBuilt old export start b'
    unfolding define_version
    define_version-IsBuilt s v b {b'} w h =
        let carry = λ (x : Built) (q : IsBuilt old export start x) (p : x ≡ b').
          subst (λ y. IsBuilt old export start y) p q in
        elim (Bool-cases v.served) [
          | inr u ↦ carry b w (ground (arith, h, u))
          | inl u ↦ elim (Option-cases (get gvr_keys (gvr_of mk export c s v) old)) [
            | inl e ↦ create_version-IsBuilt s v b w (ground (arith, h, u, e))
            | inr (d, e) ↦ elim (Bool-cases (is_current mk export c s d)) [
              | inr f ↦ create_version-IsBuilt s v b w (ground (arith, h, u, e, f))
              | inl f ↦
                  carry _
                    (put-IsBuilt (gvr_of mk export c s v) d b b.next (omega arith)
                      (inl (e, ground (arith, f, eq_iff d.identity_hash export.identity_hash)))
                      (old_number (gvr_of mk export c s v) d b e) w)
                    (ground (arith, h, u, e, f))
            ]
          ]
        ]
