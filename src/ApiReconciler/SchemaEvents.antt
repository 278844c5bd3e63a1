-- ===== src/ApiReconciler/SchemaEvents.antt =====
-- Which keys the event of an APIResourceSchema puts into the queue, without the loops.
use mathlib.Core.List.{Memᴰ}
use mathlib.Core.List.Memᴰ
use contrib_filteredapiexpor.Prelude.{
  String, List, [], ◌∷◌, ◌==◌, ◌≡◌, ◌↔◌, inl, inr, refl, sym, ap, subst, ◌∙◌, arith, eq_iff, All,
  Bool-cases,
}
use contrib_filteredapiexpor.Error.{ok}
use contrib_filteredapiexpor.Api.{ApiExport, EndpointSlice}
use contrib_filteredapiexpor.ApiReconciler.Enqueue.{
  add, Caches, enqueue_slice, enqueue_for_each, enqueue_users, with_slices,
  enqueue_api_resource_schema,
}

module _ (caches : Caches) (k : String) (name : String) where
  -- The export of the endpoint slice is found.
  abbrev pub CanFind : EndpointSlice → Type 0
  CanFind s =
      (export : ApiExport) × (caches.get_export s.spec.api_export.path s.spec.api_export.name
        ≡ ok export)

  -- The endpoint slice is among these, its export uses the schema, and its own event queues the key.
  abbrev pub IsUserAmong : List EndpointSlice → Type 0
  IsUserAmong slices =
      (s : EndpointSlice) × (export : ApiExport) × Memᴰ s slices
      × (caches.get_export s.spec.api_export.path s.spec.api_export.name ≡ ok export)
      × Memᴰ name export.schemas
      × Memᴰ (add k) (enqueue_slice caches s)

  enqueue_for_each_iff :
      (slice : EndpointSlice) (schemas : List String)
      → Memᴰ (add k) (enqueue_for_each caches slice name schemas)
        ↔ (Memᴰ name schemas × Memᴰ (add k) (enqueue_slice caches slice))
  unfolding enqueue_for_each
  enqueue_for_each_iff slice [] = (λ m. elim m [ ], λ (t, m). elim t [ ])
  enqueue_for_each_iff slice (schema ∷ schemas) =
      let below = enqueue_for_each_iff slice schemas in
      elim (Bool-cases (schema == name)) [
        | inr n ↦
            rw (n, enqueue_for_each)
              (
                λ m. (Memᴰ.tail (below.0 m).0, (below.0 m).1),
                λ (t, m). elim (Memᴰ.cases_cons t) [
                  | inl e ↦ absurd (ground (arith, n, (eq_iff schema name).1 (sym e)))
                  | inr later ↦ below.1 (later, m)
                ],
              )
        | inl y ↦
            rw (y, enqueue_for_each)
              (
                λ m. elim (Memᴰ.append_cases (enqueue_slice caches slice) m) [
                  | inl here ↦ (Memᴰ.head (sym ((eq_iff schema name).0 y)), here)
                  | inr more ↦ (Memᴰ.tail (below.0 more).0, (below.0 more).1)
                ],
                λ (t, m). Memᴰ.append_left (enqueue_for_each caches slice name schemas) m,
              )
      ]

  enqueue_users_iff :
      (slices : List EndpointSlice)
      → All CanFind slices
      → Memᴰ (add k) (enqueue_users caches name slices) ↔ IsUserAmong slices
  unfolding enqueue_users
  enqueue_users_iff [] found = (λ m. elim m [ ], λ (s, x, t, f, u, m). elim t [ ])
  enqueue_users_iff (slice ∷ slices) ((export, e), found) =
      let below = enqueue_users_iff slices found in
      let here = enqueue_for_each_iff slice export.schemas in
      rw (e, enqueue_users)
        (
          λ m. elim (Memᴰ.append_cases (enqueue_for_each caches slice name export.schemas) m) [
            | inl now ↦ (slice, export, Memᴰ.head refl, e, (here.0 now).0, (here.0 now).1)
            | inr later ↦ let (s, x, t, f, u, m') = below.0 later in (s, x, Memᴰ.tail t, f, u, m')
          ],
          λ (s, x, t, f, u, m). elim (Memᴰ.cases_cons t) [
            | inr later ↦
                Memᴰ.append_right (enqueue_for_each caches slice name export.schemas)
                  (below.1 (s, x, later, f, u, m))
            | inl h ↦
                let same : x ≡ export = ground (
                  arith,
                  sym f
                      ∙ ap (λ z. caches.get_export z.spec.api_export.path z.spec.api_export.name) h
                      ∙ e,
                ) in
                Memᴰ.append_left (enqueue_users caches name slices) (
                  here.1 (
                    subst (λ z. Memᴰ name z.schemas) same u,
                    subst (λ z. Memᴰ (add k) (enqueue_slice caches z)) h m,
                  ))
          ],
        )

  -- Where the schema's key can be split, the endpoint slices be listed and their exports be found, the
  -- event of a schema queues exactly what the events of those endpoint slices queue that lie in the
  -- schema's cluster and whose export uses it.
  pub enqueue_api_resource_schema_adds_iff :
      (object_key cluster other_name : String) (slices : List EndpointSlice)
      → caches.split_key object_key ≡ ok (cluster, other_name)
      → caches.list_slices cluster ≡ ok slices
      → All CanFind slices
      → Memᴰ (add k) (enqueue_api_resource_schema caches (ok object_key) name) ↔ IsUserAmong slices
  unfolding enqueue_api_resource_schema with_slices
  enqueue_api_resource_schema_adds_iff object_key cluster other_name slices split listed found =
      rw (split, with_slices) (rw listed (enqueue_users_iff slices found))
