-- ===== src/Builtin/Lookup.antt =====
-- builtin.go: the table of the schemas of the built-in APIs, and its two lookups.
use mathlib.Core.List.{Memᴰ, map, ◌++◌}
use contrib_filteredapiexpor.Prelude.{
  Bool, true, false, none, some, List, [], ◌∷◌, ◌≡◌, ◌≢◌, ◌⊎◌, ◌↔◌, inl, inr, sym, ap, subst, ◌∙◌,
  arith, Bool-cases, Option-cases,
}
use contrib_filteredapiexpor.Error.{errorf, Result, ok, err, Result-cases}
use contrib_filteredapiexpor.Api.{GroupResource, same_resource, same_resource_iff}
use contrib_filteredapiexpor.KeyMap.{get, put, get-put_same, get-put_other}
use contrib_filteredapiexpor.ApiReconciler.Schemas.{Schema, resource_keys, resource_of}
use contrib_filteredapiexpor.Builtin.{InternalApi, api_resource}
use contrib_filteredapiexpor.Builtin.Early.{early_apis}
use contrib_filteredapiexpor.Builtin.Late.{late_apis}

-- internalapis.CreateAPIResourceSchemas: it makes one schema for each API, of the API's group and plural
-- name.
pub record SchemaMaker : Type 0 where
  pub create_schemas : List InternalApi → Result (List Schema)
  pub resources :
      (apis : List InternalApi) (schemas : List Schema)
      → create_schemas apis ≡ ok schemas
      → map resource_of schemas ≡ map api_resource apis

-- BuiltInAPIs
abbrev pub built_in_apis : List InternalApi
built_in_apis = early_apis ++ late_apis

-- builtInAPIResourceSchemas
abbrev pub Table : Type 0
Table = List (GroupResource × Schema)

-- The loop of `init`.
unfoldable pub add_apis : List Schema → Table → Table
add_apis [] table = table
add_apis (s ∷ schemas) table = add_apis schemas (put resource_keys (resource_of s) s table)

-- `init`; an error is its panic.
unfoldable pub init_table : SchemaMaker → Result Table
init_table maker = elim (maker.create_schemas built_in_apis) [
  | err e ↦ err e
  | ok schemas ↦ ok (add_apis schemas [])
]

-- IsBuiltInAPI
unfoldable pub is_built_in_api : Table → GroupResource → Bool
is_built_in_api table gr = elim (get resource_keys gr table) [ none ↦ false | some s ↦ true ]

-- GetBuiltInAPISchema
unfoldable pub get_built_in_api_schema : Table → GroupResource → Result Schema
get_built_in_api_schema table gr = elim (get resource_keys gr table) [
  | none ↦ err (errorf "no schema found for built-in API %s.%s" (gr.resource ∷ gr.group ∷ []))
  | some s ↦ ok s
]

-- What is found was added, or was there before.
get-add_apis :
    (schemas : List Schema) (table : Table) (gr : GroupResource) (s : Schema)
    → get resource_keys gr (add_apis schemas table) ≡ some s
    → (Memᴰ gr (map resource_of schemas) × (resource_of s ≡ gr))
      ⊎ (get resource_keys gr table ≡ some s)
unfolding add_apis
get-add_apis [] table gr s h = inr h
get-add_apis (t ∷ schemas) table gr s h =
    let added = put resource_keys (resource_of t) t table in
    elim (get-add_apis schemas added gr s h) [
      | inl (m, r) ↦ inl (Memᴰ.tail m, r)
      | inr found ↦ elim (Bool-cases (same_resource (resource_of t) gr)) [
        | inl e ↦
            let same = (same_resource_iff (resource_of t) gr).0 e in
            let here = ap (λ k. get resource_keys k added) same ∙ found in
            let is_t : t ≡ s =
              ground (arith, here, get-put_same resource_keys (resource_of t) t table) in
            inl (Memᴰ.head (sym same), ap resource_of (sym is_t) ∙ same)
        | inr e ↦
            let n : resource_of t ≢ gr =
              λ p. ground (arith, e, (same_resource_iff (resource_of t) gr).1 p) in
            inr (sym (get-put_other resource_keys (resource_of t) gr t table n) ∙ found)
      ]
    ]

abbrev IsFound : GroupResource → Table → Type 0
IsFound gr table = (s : Schema) × (get resource_keys gr table ≡ some s)

-- Adding a schema keeps what was found, and makes its resource found.
IsFound-put :
    (t : Schema) (table : Table) (gr : GroupResource)
    → (resource_of t ≡ gr) ⊎ IsFound gr table
    → IsFound gr (put resource_keys (resource_of t) t table)
IsFound-put t table gr h = elim (Bool-cases (same_resource (resource_of t) gr)) [
  | inl e ↦
      let same = (same_resource_iff (resource_of t) gr).0 e in
      (
        t,
        ap (λ k. get resource_keys k (put resource_keys (resource_of t) t table)) (sym same)
            ∙ get-put_same resource_keys (resource_of t) t table,
      )
  | inr e ↦
      let n : resource_of t ≢ gr =
        λ p. ground (arith, e, (same_resource_iff (resource_of t) gr).1 p) in
      elim h [
        | inl same ↦ absurd (n same)
        | inr (s, found) ↦ (s, get-put_other resource_keys (resource_of t) gr t table n ∙ found)
      ]
]

IsFound-add_apis :
    (schemas : List Schema) (table : Table) (gr : GroupResource)
    → IsFound gr table ⊎ Memᴰ gr (map resource_of schemas)
    → IsFound gr (add_apis schemas table)
unfolding add_apis
IsFound-add_apis [] table gr (inl h) = h
IsFound-add_apis [] table gr (inr t) = elim t [ ]
IsFound-add_apis (t ∷ schemas) table gr (inl h) =
    IsFound-add_apis schemas _ gr (inl (IsFound-put t table gr (inr h)))
IsFound-add_apis (t ∷ schemas) table gr (inr (Memᴰ.head e)) =
    IsFound-add_apis schemas _ gr (inl (IsFound-put t table gr (inl (sym e))))
IsFound-add_apis (t ∷ schemas) table gr (inr (Memᴰ.tail m)) = IsFound-add_apis schemas _ gr (inr m)

-- The table's lookups, once `init` has succeeded.
module _ (maker : SchemaMaker) (table : Table) (started : init_table maker ≡ ok table) where
  made :
      (schemas : List Schema) × (maker.create_schemas built_in_apis ≡ ok schemas)
      × (add_apis schemas [] ≡ table)
  unfolding init_table
  made = elim (Result-cases (maker.create_schemas built_in_apis)) [
    | inr (x, e) ↦ absurd (ground (arith, started, e))
    | inl (schemas, e) ↦ (schemas, e, ground (arith, started, e))
  ]

  -- After init has succeeded, a resource is built in exactly when BuiltInAPIs lists it.
  is_built_in_api_iff :
      (gr : GroupResource)
      → (is_built_in_api table gr ≡ true) ↔ Memᴰ gr (map api_resource built_in_apis)
  unfolding is_built_in_api get
  is_built_in_api_iff gr =
      let (schemas, created, filled) = made in
      let listed = maker.resources built_in_apis schemas created in
      (
        λ h. elim (Option-cases (get resource_keys gr table)) [
          | inl e ↦ absurd (ground (arith, h, e))
          | inr (s, e) ↦
              elim (get-add_apis schemas [] gr s (ap (λ t. get resource_keys gr t) filled ∙ e)) [
                | inl (m, r) ↦ subst (λ l. Memᴰ gr l) listed m
                | inr z ↦ absurd (ground (arith, z))
              ]
        ],
        λ m.
            let (s, e) =
              IsFound-add_apis schemas [] gr (inr (subst (λ l. Memᴰ gr l) (sym listed) m)) in
            ground (arith, ap (λ t. get resource_keys gr t) (sym filled) ∙ e),
      )

  -- After init has succeeded, GetBuiltInAPISchema returns a schema of the resource that was asked for
  -- exactly where that resource is built in.
  pub get_built_in_api_schema_iff :
      (gr : GroupResource)
      → ((s : Schema) × (get_built_in_api_schema table gr ≡ ok s) × (resource_of s ≡ gr))
        ↔ (is_built_in_api table gr ≡ true)
  unfolding get_built_in_api_schema is_built_in_api get
  get_built_in_api_schema_iff gr =
      let (schemas, created, filled) = made in
      (
        λ (s, h, r). elim (Option-cases (get resource_keys gr table)) [
          | inl e ↦ absurd (ground (arith, h, e))
          | inr (t, e) ↦ ground (arith, e)
        ],
        λ h. elim (Option-cases (get resource_keys gr table)) [
          | inl e ↦ absurd (ground (arith, h, e))
          | inr (s, e) ↦
              elim (get-add_apis schemas [] gr s (ap (λ t. get resource_keys gr t) filled ∙ e)) [
                | inl (m, r) ↦ (s, ground (arith, e), r)
                | inr z ↦ absurd (ground (arith, z))
              ]
        ],
      )
