-- ===== src/EndpointSlice/Queued.antt =====
-- Which keys the event of an export queues, and which endpoint slices are reconciled by that export.
use mathlib.Core.List.{Memᴰ, ◌++◌}
use mathlib.Core.List.Memᴰ
use contrib_filteredapiexpor.Prelude.{
  String, false, some, List, [], ◌∷◌, ◌≡◌, ◌⊎◌, ◌↔◌, inl, inr, refl, sym, ap, subst, ◌∙◌, arith,
  Bool-cases, Option-cases,
}
use contrib_filteredapiexpor.Error.{ok, Result-cases}
use contrib_filteredapiexpor.Api.{ApiExport, EndpointSlice}
use contrib_filteredapiexpor.EndpointSlice.Reconcile.{ClusterPaths, export_path}
use contrib_filteredapiexpor.EndpointSlice.Enqueue.{
  add, joined, index_values, index_by_api_export, Informer, enqueue_slice, enqueue_keys, path_keys,
  enqueue_for_api_export,
}

module _ (paths : ClusterPaths) (informer : Informer paths) where
  -- The lookups of the export's event, where none fails.
  pub record CanLookUp (annotation : String) (export : ApiExport) : Type 0 where
    pub keys : List String
    pub by_path : path_keys paths informer annotation export.name ≡ ok keys
    pub more : List String
    pub by_cluster :
        informer.index_keys
          (paths.to_string (paths.join (paths.name_path export.cluster) export.name))
        ≡ ok more

  -- The path under which the event looks for endpoint slices: that of the annotation, or that of the
  -- cluster.
  abbrev pub IsPathOf : String → ApiExport → paths.LogicalPath → Type 0
  IsPathOf annotation export path =
      ((path ≡ paths.new_path annotation) × (paths.is_empty path ≡ false))
      ⊎ (path ≡ paths.name_path export.cluster)

  enqueue_keys_sound :
      (keys : List String) (k : String)
      → Memᴰ (add k) (enqueue_keys paths informer keys)
      → (key : String) × (slice : EndpointSlice) × Memᴰ key keys
        × (informer.get_by_key key ≡ ok (some slice))
        × (k ≡ key)
  unfolding enqueue_keys enqueue_slice
  enqueue_keys_sound [] k m = elim m [ ]
  enqueue_keys_sound (key ∷ keys) k m = elim (Result-cases (informer.get_by_key key)) [
    | inr (x, e) ↦ elim (Memᴰ.cases_cons (rw (e, enqueue_keys) at m)) [
      | inl p ↦ absurd (ground (arith, p))
      | inr later ↦ further (enqueue_keys_sound keys k later)
    ]
    | inl (o, e) ↦ elim (Option-cases o) [
      | inl z ↦ further (enqueue_keys_sound keys k (rw z at (rw (e, enqueue_keys) at m)))
      | inr (slice, z) ↦
          elim (Memᴰ.append_cases (enqueue_slice paths informer slice)
            (rw z at (rw (e, enqueue_keys) at m))) [
              | inr later ↦ further (enqueue_keys_sound keys k later)
              | inl here ↦
                  let stored : informer.get_by_key key ≡ ok (some slice) = e ∙ ap ok z in
                  elim (Memᴰ.cases_cons
                    (rw (informer.slice_key-get_by_key key slice stored, enqueue_slice) at here)) [
                      | inl p ↦ (key, slice, Memᴰ.head refl, stored, ground (arith, p))
                      | inr past ↦ elim past [ ]
                    ]
            ]
    ]
  ]
    where
      further :
          ((j : String) × (s : EndpointSlice) × Memᴰ j keys
            × (informer.get_by_key j ≡ ok (some s))
            × (k ≡ j))
          → (j : String) × (s : EndpointSlice) × Memᴰ j (key ∷ keys)
            × (informer.get_by_key j ≡ ok (some s))
            × (k ≡ j)
      further (j, s, m', g, p) = (j, s, Memᴰ.tail m', g, p)

  enqueue_keys_complete :
      (keys : List String) (k : String) (slice : EndpointSlice)
      → Memᴰ k keys
      → informer.get_by_key k ≡ ok (some slice)
      → Memᴰ (add k) (enqueue_keys paths informer keys)
  unfolding enqueue_keys enqueue_slice
  enqueue_keys_complete [] k slice m g = elim m [ ]
  enqueue_keys_complete (key ∷ keys) k slice (Memᴰ.head p) g =
      let here = ap (λ x. informer.get_by_key x) (sym p) ∙ g in
      rw (here, enqueue_keys)
        (Memᴰ.append_left (enqueue_keys paths informer keys)
          (rw (informer.slice_key-get_by_key key slice here, enqueue_slice) (Memᴰ.head (ap add p))))
  enqueue_keys_complete (key ∷ keys) k slice (Memᴰ.tail m) g =
      let later = enqueue_keys_complete keys k slice m g in
      elim (Result-cases (informer.get_by_key key)) [
        | inr (x, e) ↦ rw (e, enqueue_keys) (Memᴰ.tail later)
        | inl (o, e) ↦ elim (Option-cases o) [
          | inl z ↦ rw (e, enqueue_keys) (rw z later)
          | inr (s, z) ↦
              rw (e, enqueue_keys) (rw z (Memᴰ.append_right (enqueue_slice paths informer s) later))
        ]
      ]

  -- The index leads to the endpoint slices that have the value.
  index_keys_of :
      (value k : String) (keys : List String)
      → informer.index_keys value ≡ ok keys
      → Memᴰ k keys ↔ (
          (slice : EndpointSlice) × (informer.get_by_key k ≡ ok (some slice))
          × Memᴰ value (index_values paths slice))
  unfolding index_by_api_export
  index_keys_of value k keys h =
      let law = informer.index_keys_iff value k keys h in
      (
        λ m.
            let (slice, values, stored, indexed, v) = law.0 m in
            let same : index_values paths slice ≡ values = ground (arith, indexed) in
            (slice, stored, subst (λ l. Memᴰ value l) (sym same) v),
        λ (slice, stored, v). law.1 (slice, index_values paths slice, stored, refl, v),
      )

  abbrev pub Mentions : String → ApiExport → EndpointSlice → Type 0
  Mentions annotation export slice =
      (path : paths.LogicalPath) × IsPathOf annotation export path
      × Memᴰ (paths.to_string (paths.join path export.name)) (index_values paths slice)

  module _ (annotation : String) (export : ApiExport) (c : CanLookUp annotation export)
      (k : String) where
    path_keys_iff : Memᴰ k c.keys ↔ (
        (paths.is_empty (paths.new_path annotation) ≡ false)
        × ((slice : EndpointSlice) × (informer.get_by_key k ≡ ok (some slice))
            × Memᴰ
                (paths.to_string (paths.join (paths.new_path annotation) export.name))
                (index_values paths slice)))
    unfolding path_keys
    path_keys_iff = elim (Bool-cases (paths.is_empty (paths.new_path annotation))) [
      | inl e ↦
          let nothing : c.keys ≡ [] = ground (arith, c.by_path, e) in
          (λ m. elim (subst (λ l. Memᴰ k l) nothing m) [ ], λ (n, r). absurd (ground (arith, n, e)))
      | inr n ↦
          let found = rw (n, path_keys) at c.by_path in
          let law =
            index_keys_of (paths.to_string (paths.join (paths.new_path annotation) export.name)) k
              c.keys found in
          (λ m. (n, law.0 m), λ (z, r). law.1 r)
    ]

    -- Where the lookups of an export's event succeed, it queues exactly the keys of the endpoint slices
    -- that are indexed under the export's name and a path of its workspace.
    pub enqueue_for_api_export_adds_iff :
        Memᴰ (add k) (enqueue_for_api_export paths informer annotation export) ↔ (
          (slice : EndpointSlice) × (informer.get_by_key k ≡ ok (some slice))
          × Mentions annotation export slice)
    unfolding enqueue_for_api_export
    enqueue_for_api_export_adds_iff =
        let law =
          index_keys_of (paths.to_string (paths.join (paths.name_path export.cluster) export.name))
            k c.more c.by_cluster in
        rw (c.by_path, enqueue_for_api_export)
          (rw c.by_cluster (
            λ m.
                let (key, slice, among, stored, same) = enqueue_keys_sound _ k m in
                let here =
                  subst (λ x. Memᴰ x (informer.sorted (c.keys ++ c.more))) (sym same) among in
                elim (Memᴰ.append_cases c.keys
                  ((informer.sorted_iff (c.keys ++ c.more) k).0 here)) [
                    | inl p ↦
                        let (n, (s, g, v)) = path_keys_iff.0 p in
                        (s, g, (paths.new_path annotation, inl (refl, n), v))
                    | inr p ↦
                        let (s, g, v) = law.0 p in
                        (s, g, (paths.name_path export.cluster, inr refl, v))
                  ],
            λ (slice, stored, (path, is_path, v)).
                enqueue_keys_complete _ k slice
                  ((informer.sorted_iff (c.keys ++ c.more) k).1 (elim is_path [
                    | inl (p, n) ↦ Memᴰ.append_left c.more (
                        path_keys_iff.1 (
                          ap paths.is_empty (sym p) ∙ n,
                          (
                            slice,
                            stored,
                            subst
                                (λ x.
                                  Memᴰ (paths.to_string (paths.join x export.name))
                                    (index_values paths slice))
                                p v,
                          ),
                        ))
                    | inr p ↦ Memᴰ.append_right c.keys (
                        law.1 (
                          slice,
                          stored,
                          subst
                              (λ x.
                                Memᴰ (paths.to_string (paths.join x export.name))
                                  (index_values paths slice))
                              p v,
                        ))
                  ]))
                  stored,
          ))

  -- An endpoint slice is indexed under the path by which it is reconciled.
  Mem-index_values :
      (slice : EndpointSlice)
      → paths.is_empty (export_path paths slice) ≡ false
      → Memᴰ
          (paths.to_string (paths.join (export_path paths slice) slice.spec.api_export.name))
          (index_values paths slice)
  unfolding index_values joined export_path
  Mem-index_values slice n =
      elim (Bool-cases (paths.is_empty (paths.new_path slice.spec.api_export.path))) [
        | inr given ↦
            let same : export_path paths slice ≡ paths.new_path slice.spec.api_export.path =
              ground (arith, given) in
            rw same (rw given (Memᴰ.head refl))
        | inl empty ↦
            let same : export_path paths slice ≡ paths.name_path slice.cluster =
              ground (arith, empty) in
            let full = ap paths.is_empty (sym same) ∙ n in
            rw same (rw empty (rw full (Memᴰ.head refl)))
      ]

  -- Where the lookups of an export's event succeed, it queues every endpoint slice that is reconciled by
  -- a lookup of this export: one whose reference resolves to a path of the export's workspace, and to its
  -- name.
  pub enqueue_for_api_export-reconcile :
      (annotation : String) (export : ApiExport) (k : String) (slice : EndpointSlice)
      → CanLookUp annotation export
      → informer.get_by_key k ≡ ok (some slice)
      → slice.spec.api_export.name ≡ export.name
      → IsPathOf annotation export (export_path paths slice)
      → paths.is_empty (export_path paths slice) ≡ false
      → Memᴰ (add k) (enqueue_for_api_export paths informer annotation export)
  enqueue_for_api_export-reconcile annotation export k slice c stored named is_path full =
      (enqueue_for_api_export_adds_iff annotation export c k).1 (
        slice,
        stored,
        (
          export_path paths slice,
          is_path,
          subst
              (λ x.
                Memᴰ (paths.to_string (paths.join (export_path paths slice) x))
                  (index_values paths slice))
              named (Mem-index_values slice full),
        ),
      )
