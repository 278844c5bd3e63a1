-- ===== src/KcpSchemas/Loaded.antt =====
-- apis.go: what the table holds once `init` has run.
use mathlib.Core.List.{Memᴰ, map}
use mathlib.Core.List.Memᴰ
use contrib_filteredapiexpor.Prelude.{
  String, some, List, [], ◌∷◌, ◌≡◌, ◌⊎◌, inl, inr, refl, sym, ap, subst, ◌∙◌, arith, All,
  Option-cases,
}
use contrib_filteredapiexpor.Error.{ok, Result-cases}
use contrib_filteredapiexpor.KeyMap.{text_keys, get, put, get-put_cases, found-put}
use contrib_filteredapiexpor.KcpSchemas.{
  Crd, config_file, RawVersion, RawSchema, Converters, wipe, apis_resources, slices_resource, Table,
  convert, load, load_config, init,
}

map-wipe :
    (bs : String) (versions : List RawVersion)
    → map (λ v. v.version) (wipe bs versions) ≡ map (λ v. v.version) versions
unfolding wipe
map-wipe bs [] = refl
map-wipe bs (v ∷ versions) = ap (λ l. v.version ∷ l) (map-wipe bs versions)

All-wipe : (bs : String) (versions : List RawVersion) → All (λ v. v.raw ≡ bs) (wipe bs versions)
unfolding wipe
All-wipe bs [] = tt
All-wipe bs (v ∷ versions) = (refl, All-wipe bs versions)

module _ (lib : Converters) where
  -- The schema has the CRD's group, plural name and versions, and each of its versions admits every
  -- object.
  pub record IsConverted (crd : Crd) (s : RawSchema) : Type 0 where
    pub group : s.group ≡ crd.group
    pub plural : s.plural ≡ crd.plural
    pub versions : map (λ v. v.version) s.versions ≡ crd.versions
    pub open_text : String
    pub marshaled : lib.open_schema ≡ ok open_text
    pub is_open : All (λ v. v.raw ≡ open_text) s.versions

  convert-IsConverted : (crd : Crd) (s : RawSchema) → convert lib crd ≡ ok s → IsConverted crd s
  unfolding convert
  convert-IsConverted crd s h = elim (Result-cases (lib.crd_to_schema crd)) [
    | inr (x, e) ↦ absurd (ground (arith, h, e))
    | inl (t, e) ↦ elim (Result-cases lib.open_schema) [
      | inr (x, f) ↦ absurd (ground (arith, h, e, f))
      | inl (bs, f) ↦
          let wiped : RawSchema = record t { versions = wipe bs t.versions } in
          let same : wiped ≡ s = ground (arith, h, e, f) in
          let (g, p, v) = lib.converted crd t e in
          subst (λ x. IsConverted crd x) same
            (record {
              group = g;
              plural = p;
              versions = map-wipe bs t.versions ∙ v;
              open_text = bs;
              marshaled = f;
              is_open = All-wipe bs t.versions;
            })
    ]
  ]

  -- Where the schema of a resource comes from: its file of kcp, or the manifest.
  abbrev pub ComesFrom : String → RawSchema → Type 0
  ComesFrom resource s =
      (Memᴰ resource apis_resources
        × ((crd : Crd) × (lib.unmarshal_crd resource ≡ ok crd) × IsConverted crd s))
      ⊎ ((resource ≡ slices_resource) × IsConverted config_file s)

  -- What is found before the manifest is read.
  record IsTable (found : List String) (table : Table) : Type 0 where
    origin :
        (resource : String) (s : RawSchema)
        → get text_keys resource table ≡ some s
        → Memᴰ resource found
          × ((crd : Crd) × (lib.unmarshal_crd resource ≡ ok crd) × IsConverted crd s)
    complete :
        (resource : String)
        → Memᴰ resource found
        → (s : RawSchema) × (get text_keys resource table ≡ some s)

  put-IsTable :
      (found : List String) (table : Table) (resource : String) (crd : Crd) (s : RawSchema)
      → lib.unmarshal_crd resource ≡ ok crd
      → IsConverted crd s
      → IsTable found table
      → IsTable (resource ∷ found) (put text_keys resource s table)
  put-IsTable found table resource crd s read conv t = record {
    origin = λ r x h. elim (get-put_cases text_keys resource r s x table h) [
      | inl (same, is_s) ↦ (
        Memᴰ.head (sym same),
        (crd, ap lib.unmarshal_crd (sym same) ∙ read, subst (λ z. IsConverted crd z) is_s conv),
      )
      | inr (other, found_x) ↦ let (m, o) = t.origin r x found_x in (Memᴰ.tail m, o)
    ];
    complete = λ r m.
        found-put text_keys resource r s table
          (elim (Memᴰ.cases_cons m) [ inl p ↦ inl (sym p) | inr later ↦ inr (t.complete r later) ]);
  }

  -- The resources read, the latest first.
  abbrev push : List String → List String → List String
  push [] found = found
  push (r ∷ resources) found = push resources (r ∷ found)

  load-IsTable :
      (resources found : List String) (table : Table) {table' : Table}
      → IsTable found table
      → load lib resources table ≡ ok table'
      → IsTable (push resources found) table'
  unfolding load
  load-IsTable [] found table t h = subst (λ x. IsTable found x) (ground (arith, h)) t
  load-IsTable (r ∷ resources) found table t h = elim (Result-cases (lib.unmarshal_crd r)) [
    | inr (x, e) ↦ absurd (ground (arith, h, e))
    | inl (crd, e) ↦ elim (Result-cases (convert lib crd)) [
      | inr (x, f) ↦ absurd (ground (arith, h, e, f))
      | inl (s, f) ↦
          load-IsTable resources (r ∷ found) (put text_keys r s table)
            (put-IsTable found table r crd s e (convert-IsConverted crd s f) t)
            (ground (arith, h, e, f))
    ]
  ]

  turned : (r : String) → Memᴰ r (push apis_resources []) → Memᴰ r apis_resources
  turned r (Memᴰ.head e) = Memᴰ.tail (Memᴰ.tail (Memᴰ.head e))
  turned r (Memᴰ.tail (Memᴰ.head e)) = Memᴰ.tail (Memᴰ.head e)
  turned r (Memᴰ.tail (Memᴰ.tail (Memᴰ.head e))) = Memᴰ.head e
  turned r (Memᴰ.tail (Memᴰ.tail (Memᴰ.tail m))) = elim m [ ]

  turned_back : (r : String) → Memᴰ r apis_resources → Memᴰ r (push apis_resources [])
  turned_back r (Memᴰ.head e) = Memᴰ.tail (Memᴰ.tail (Memᴰ.head e))
  turned_back r (Memᴰ.tail (Memᴰ.head e)) = Memᴰ.tail (Memᴰ.head e)
  turned_back r (Memᴰ.tail (Memᴰ.tail (Memᴰ.head e))) = Memᴰ.head e
  turned_back r (Memᴰ.tail (Memᴰ.tail (Memᴰ.tail m))) = elim m [ ]

  -- The table has the resources of kcp and the endpoint slices, each with the schema of its own CRD, and no
  -- other.
  pub record IsLoaded (table : Table) : Type 0 where
    pub origin :
        (resource : String) (s : RawSchema)
        → get text_keys resource table ≡ some s
        → ComesFrom resource s
    pub complete :
        (resource : String)
        → Memᴰ resource (slices_resource ∷ apis_resources)
        → (s : RawSchema) × (get text_keys resource table ≡ some s)

  load_config-IsLoaded :
      (table : Table) {table' : Table}
      → IsTable (push apis_resources []) table
      → load_config lib table ≡ ok table'
      → IsLoaded table'
  unfolding load_config
  load_config-IsLoaded table {table'} t h = elim (Option-cases lib.unmarshal_config) [
    | inr (x, e) ↦ absurd (ground (arith, h, e))
    | inl e ↦ elim (Result-cases (convert lib config_file)) [
      | inr (x, f) ↦ absurd (ground (arith, h, e, f))
      | inl (s, f) ↦
          let same : put text_keys slices_resource s table ≡ table' = ground (arith, h, e, f) in
          subst (λ x. IsLoaded x) same
            (record {
              origin = λ r x g. elim (get-put_cases text_keys slices_resource r s x table g) [
                | inl (key, is_s) ↦ inr (
                  sym key,
                  subst (λ z. IsConverted config_file z) is_s (convert-IsConverted config_file s f),
                )
                | inr (other, found_x) ↦ let (m, o) = t.origin r x found_x in inl (turned r m, o)
              ];
              complete = λ r m.
                  found-put text_keys slices_resource r s table (elim (Memᴰ.cases_cons m) [
                    | inl p ↦ inl (sym p)
                    | inr later ↦ inr (t.complete r (turned_back r later))
                  ]);
            })
    ]
  ]

  -- Where `init` does not panic, the table has the three resources of kcp and the endpoint slices and no
  -- other, each with the group, the plural name and the versions of its own CRD, and with schemas that
  -- admit every object.
  pub init-IsLoaded : (table : Table) → init lib ≡ ok table → IsLoaded table
  unfolding init get
  init-IsLoaded table h = elim (Result-cases (load lib apis_resources [])) [
    | inr (x, e) ↦ absurd (ground (arith, h, e))
    | inl (mid, e) ↦
        let empty : IsTable [] [] = record {
          origin = λ r s g. absurd (ground (arith, g));
          complete = λ r m. elim m [ ];
        } in
        load_config-IsLoaded mid (load-IsTable apis_resources [] [] empty e) (ground (arith, h, e))
  ]
