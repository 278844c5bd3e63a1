-- ===== src/ApiReconciler/Queued.antt =====
-- Which keys the events put into the queue, without the loops.
use mathlib.Core.List.{Memᴰ}
use mathlib.Core.List.Memᴰ
use contrib_filteredapiexpor.Prelude.{
  String, false, List, [], ◌∷◌, ◌==◌, ◌≡◌, ◌≢◌, ◌⊎◌, ◌↔◌, inl, inr, refl, sym, ap, subst, ◌∙◌,
  arith, eq_iff, All, Bool-cases,
}
use contrib_filteredapiexpor.Error.{Error, ok, Result-cases}
use contrib_filteredapiexpor.Api.{ApiExport, EndpointSlice}
use contrib_filteredapiexpor.ApiReconciler.Enqueue.{
  Call, add, handle_error, log_error, Caches, add_slices_of, add_claimants, add_claiming,
  enqueue_claimants, enqueue_slice, enqueue_referring, with_slices, enqueue_api_export,
}

-- `add` among other calls.
Mem-cons_add :
    {k j : String} {calls : List Call} → Memᴰ (add k) (add j ∷ calls) → (j ≡ k) ⊎ Memᴰ (add k) calls
Mem-cons_add (Memᴰ.head e) = inl (ground (arith, e))
Mem-cons_add (Memᴰ.tail m) = inr m

Mem-cons_log :
    {k : String} {e : Error} {calls : List Call}
    → Memᴰ (add k) (log_error e ∷ calls)
    → Memᴰ (add k) calls
Mem-cons_log (Memᴰ.head e) = absurd (ground (arith, e))
Mem-cons_log (Memᴰ.tail m) = m

Mem-handle_error : {k : String} {e : Error} → ¬ Memᴰ (add k) (handle_error e ∷ [])
Mem-handle_error (Memᴰ.head e) = ground (arith, e)
Mem-handle_error (Memᴰ.tail m) = elim m [ ]

module _ (caches : Caches) (k : String) where
  -- An endpoint slice among these that names the export and has the key.
  abbrev pub IsSliceOf : String → List EndpointSlice → Type 0
  IsSliceOf name slices =
      (s : EndpointSlice) × Memᴰ s slices
      × (s.spec.api_export.name ≡ name)
      × (caches.meta_key s ≡ ok k)

  -- The key is that of an endpoint slice, in the cluster of an export that claims the identity, that
  -- names this export.
  abbrev pub IsClaimant : String → Type 0
  IsClaimant identity =
      (others : List ApiExport) × (other : ApiExport) × (slices : List EndpointSlice)
      × (caches.exports_claiming identity ≡ ok others)
      × Memᴰ other others
      × (caches.list_slices other.cluster ≡ ok slices)
      × IsSliceOf other.name slices

  abbrev pub CanList : ApiExport → Type 0
  CanList other = (slices : List EndpointSlice) × (caches.list_slices other.cluster ≡ ok slices)

  one_more :
      (name : String) (s : EndpointSlice) (slices : List EndpointSlice)
      → IsSliceOf name slices
      → IsSliceOf name (s ∷ slices)
  one_more name s slices (t, m, n, e) = (t, Memᴰ.tail m, n, e)

  add_slices_of_sound :
      (name : String) (slices : List EndpointSlice)
      → Memᴰ (add k) (add_slices_of caches name slices)
      → IsSliceOf name slices
  unfolding add_slices_of
  add_slices_of_sound name [] m = elim m [ ]
  add_slices_of_sound name (s ∷ slices) m = elim (Bool-cases (s.spec.api_export.name == name)) [
    | inr n ↦ one_more name s slices (add_slices_of_sound name slices (rw (n, add_slices_of) at m))
    | inl y ↦ elim (Result-cases (caches.meta_key s)) [
      | inr (x, e) ↦
          one_more name s slices
            (add_slices_of_sound name slices (Mem-cons_log (rw e at (rw (y, add_slices_of) at m))))
      | inl (key, e) ↦ elim (Mem-cons_add (rw e at (rw (y, add_slices_of) at m))) [
        | inl same ↦ (s, Memᴰ.head refl, (eq_iff s.spec.api_export.name name).0 y, e ∙ ap ok same)
        | inr later ↦ one_more name s slices (add_slices_of_sound name slices later)
      ]
    ]
  ]

  add_slices_of_complete :
      (name : String) (slices : List EndpointSlice)
      → IsSliceOf name slices
      → Memᴰ (add k) (add_slices_of caches name slices)
  unfolding add_slices_of
  add_slices_of_complete name [] (t, m, n, e) = elim m [ ]
  add_slices_of_complete name (s ∷ slices) (t, Memᴰ.head h, n, e) =
      let named =
        (eq_iff s.spec.api_export.name name).1 (ap (λ x. x.spec.api_export.name) (sym h) ∙ n) in
      let keyed = ap (λ x. caches.meta_key x) (sym h) ∙ e in
      rw (named, add_slices_of) (rw keyed (Memᴰ.head refl))
  add_slices_of_complete name (s ∷ slices) (t, Memᴰ.tail m, n, e) =
      let later = add_slices_of_complete name slices (t, m, n, e) in
      elim (Bool-cases (s.spec.api_export.name == name)) [
        | inr no_match ↦ rw (no_match, add_slices_of) later
        | inl y ↦ elim (Result-cases (caches.meta_key s)) [
          | inr (x, f) ↦ rw (y, add_slices_of) (rw f (Memᴰ.tail later))
          | inl (key, f) ↦ rw (y, add_slices_of) (rw f (Memᴰ.tail later))
        ]
      ]

  -- An export among these whose cluster has such an endpoint slice.
  abbrev IsAmong : List ApiExport → Type 0
  IsAmong others =
      (other : ApiExport) × (slices : List EndpointSlice) × Memᴰ other others
      × (caches.list_slices other.cluster ≡ ok slices)
      × IsSliceOf other.name slices

  add_claimants_sound :
      (others : List ApiExport) → Memᴰ (add k) (add_claimants caches others) → IsAmong others
  unfolding add_claimants
  add_claimants_sound [] m = elim m [ ]
  add_claimants_sound (other ∷ others) m = elim (Result-cases (caches.list_slices other.cluster)) [
    | inr (x, e) ↦ elim (Mem-cons_log (rw (e, add_claimants) at m)) [ ]
    | inl (slices, e) ↦
        elim (Memᴰ.append_cases (add_slices_of caches other.name slices)
          (rw (e, add_claimants) at m)) [
            | inl here ↦
                (other, slices, Memᴰ.head refl, e, add_slices_of_sound other.name slices here)
            | inr later ↦
                let (o, ss, t, l, s) = add_claimants_sound others later in
                (o, ss, Memᴰ.tail t, l, s)
          ]
  ]

  add_claimants_complete :
      (others : List ApiExport)
      → All CanList others
      → IsAmong others
      → Memᴰ (add k) (add_claimants caches others)
  unfolding add_claimants
  add_claimants_complete [] listed (o, ss, m, l, s) = elim m [ ]
  add_claimants_complete (other ∷ others) ((slices, e), listed) (o, ss, Memᴰ.head h, l, s) =
      let same : slices ≡ ss = ground (arith, e, ap (λ x. caches.list_slices x.cluster) h, l) in
      let here = subst (λ x. IsSliceOf x.name ss) h s in
      rw (e, add_claimants)
        (Memᴰ.append_left (add_claimants caches others) (
          add_slices_of_complete other.name slices
            (subst (λ x. IsSliceOf other.name x) (sym same) here)))
  add_claimants_complete (other ∷ others) ((slices, e), listed) (o, ss, Memᴰ.tail m, l, s) =
      rw (e, add_claimants)
        (Memᴰ.append_right (add_slices_of caches other.name slices)
          (add_claimants_complete others listed (o, ss, m, l, s)))

  -- The lookups that an endpoint slice's event makes, where none fails.
  pub record CanEnqueue (slice : EndpointSlice) : Type 0 where
    pub own : String
    pub own_key : caches.deletion_key slice ≡ ok own
    pub export : ApiExport
    pub export_found :
        caches.get_export slice.spec.api_export.path slice.spec.api_export.name ≡ ok export
    pub others : List ApiExport
    pub claiming : caches.exports_claiming export.identity_hash ≡ ok others
    pub listed : All CanList others

  -- Where no lookup fails, the event of an endpoint slice queues exactly its own key and, if its export
  -- has an identity, the keys of the endpoint slices that name an export of their cluster that claims it.
  pub enqueue_slice_adds_iff :
      (slice : EndpointSlice)
      → (c : CanEnqueue slice)
      → Memᴰ (add k) (enqueue_slice caches slice)
        ↔ ((c.own ≡ k) ⊎ ((c.export.identity_hash ≢ "") × IsClaimant c.export.identity_hash))
  unfolding enqueue_slice enqueue_claimants add_claiming
  enqueue_slice_adds_iff slice c = (
    λ m. elim (Mem-cons_add (rw (c.own_key, enqueue_slice) at m)) [
      | inl same ↦ inl same
      | inr more ↦ elim (Bool-cases (c.export.identity_hash == "")) [
        | inl y ↦ elim (rw y at (rw (c.export_found, enqueue_claimants) at more)) [ ]
        | inr n ↦
            let found =
              rw (c.claiming, add_claiming) at
                (rw n at (rw (c.export_found, enqueue_claimants) at more)) in
            let (o, ss, t, l, s) = add_claimants_sound c.others found in
            inr (
              λ p. ground (arith, n, (eq_iff c.export.identity_hash "").1 p),
              (c.others, o, ss, c.claiming, t, l, s),
            )
      ]
    ],
    λ h.
        rw (c.own_key, enqueue_slice)
          (elim h [
            | inl same ↦ Memᴰ.head (ap add (sym same))
            | inr (n, (others, o, ss, claiming, t, l, s)) ↦
                let same : others ≡ c.others = ground (arith, claiming, c.claiming) in
                let test : (c.export.identity_hash == "") ≡ false =
                  ground (arith, n, eq_iff c.export.identity_hash "") in
                Memᴰ.tail (
                  rw (c.export_found, enqueue_claimants)
                    (rw test (
                      rw (c.claiming, add_claiming)
                        (add_claimants_complete c.others c.listed
                          (o, ss, subst (λ x. Memᴰ o x) same t, l, s)))))
          ]),
  )

  enqueue_referring_iff :
      (name : String) (slices : List EndpointSlice)
      → Memᴰ (add k) (enqueue_referring caches name slices) ↔ (
          (s : EndpointSlice) × Memᴰ s slices
          × (s.spec.api_export.name ≡ name)
          × Memᴰ (add k) (enqueue_slice caches s))
  unfolding enqueue_referring
  enqueue_referring_iff name [] = (λ m. elim m [ ], λ (s, t, named, m). elim t [ ])
  enqueue_referring_iff name (slice ∷ slices) =
      let below = enqueue_referring_iff name slices in
      elim (Bool-cases (slice.spec.api_export.name == name)) [
        | inr n ↦
            rw (n, enqueue_referring)
              (
                λ m. let (s, t, named, r) = below.0 m in (s, Memᴰ.tail t, named, r),
                λ (s, t, named, m). elim (Memᴰ.cases_cons t) [
                  | inl h ↦ absurd (
                      ground (
                        arith,
                        n,
                        (eq_iff slice.spec.api_export.name name).1
                            (ap (λ x. x.spec.api_export.name) (sym h) ∙ named),
                      ))
                  | inr later ↦ below.1 (s, later, named, m)
                ],
              )
        | inl y ↦
            rw (y, enqueue_referring)
              (
                λ m. elim (Memᴰ.append_cases (enqueue_slice caches slice) m) [
                  | inl here ↦
                      (slice, Memᴰ.head refl, (eq_iff slice.spec.api_export.name name).0 y, here)
                  | inr more ↦ let (s, t, named, r) = below.0 more in (s, Memᴰ.tail t, named, r)
                ],
                λ (s, t, named, m). elim (Memᴰ.cases_cons t) [
                  | inl h ↦
                      Memᴰ.append_left _ (subst (λ x. Memᴰ (add k) (enqueue_slice caches x)) h m)
                  | inr later ↦
                      Memᴰ.append_right (enqueue_slice caches slice) (below.1 (s, later, named, m))
                ],
              )
      ]

  -- The event of an export queues exactly what the events of those endpoint slices queue that lie in
  -- the export's own cluster and name it.
  pub enqueue_api_export_adds_iff :
      (object_key cluster name other_name : String) (slices : List EndpointSlice)
      → caches.split_key object_key ≡ ok (cluster, other_name)
      → caches.list_slices cluster ≡ ok slices
      → Memᴰ (add k) (enqueue_api_export caches (ok object_key) name) ↔ (
          (s : EndpointSlice) × Memᴰ s slices
          × (s.spec.api_export.name ≡ name)
          × Memᴰ (add k) (enqueue_slice caches s))
  unfolding enqueue_api_export with_slices
  enqueue_api_export_adds_iff object_key cluster name other_name slices split listed =
      rw (split, with_slices) (rw listed (enqueue_referring_iff name slices))
