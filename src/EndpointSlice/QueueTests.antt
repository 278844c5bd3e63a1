-- ===== src/EndpointSlice/QueueTests.antt =====
-- The events of the exports at an informer with one endpoint slice.
use mathlib.Core.List.{Memᴰ}
use mathlib.Core.List.Memᴰ
use contrib_filteredapiexpor.Prelude.{
  String, Bool, true, Option, none, some, List, [], ◌∷◌, ◌==◌, ◌≡◌, ◌↔◌, inl, inr, refl, sym, ap,
  subst, arith, eq_iff, any, any_sound, any_complete, Bool-cases, if◌then◌else◌,
}
use contrib_filteredapiexpor.EndpointSlice.Reconcile.{export_path}
use contrib_filteredapiexpor.Error.{Result, ok}
use contrib_filteredapiexpor.Api.{EndpointSlice}
use contrib_filteredapiexpor.EndpointSlice.Enqueue.{
  add, endpoint_slice, joined, index_values, index_by_api_export, Informer, enqueue_for_api_export,
  path_keys,
}
use contrib_filteredapiexpor.EndpointSlice.Queued.{
  CanLookUp, Mentions, enqueue_for_api_export_adds_iff, enqueue_for_api_export-reconcile,
}
use contrib_filteredapiexpor.Samples.{text_cluster_paths, sample_slice, sample_export}

-- What the sample slice is indexed under.
abbrev sample_values : List String
sample_values = "provider:widgets" ∷ "org:widgets" ∷ []

indexed : index_by_api_export text_cluster_paths (endpoint_slice sample_slice) ≡ ok sample_values
unfolding index_by_api_export index_values joined
indexed = refl

abbrev is_sample_key : String → Bool
is_sample_key key = key == "org|mine"

abbrev stored_at : String → Result (Option EndpointSlice)
stored_at key = if is_sample_key key then ok (some sample_slice) else ok none

abbrev sample_index_keys : String → Result (List String)
sample_index_keys value =
    if any (λ v. v == value) sample_values then ok ("org|mine" ∷ []) else ok []

stored_at-some :
    (key : String) (slice : EndpointSlice)
    → stored_at key ≡ ok (some slice)
    → ("org|mine" ≡ key) × (sample_slice ≡ slice)
stored_at-some key slice h = elim (Bool-cases (is_sample_key key)) [
  | inr n ↦ absurd (ground (arith, h, n))
  | inl y ↦ (sym ((eq_iff key "org|mine").0 y), ground (arith, h, y))
]

sample_value_iff :
    (value : String) → (any (λ v. v == value) sample_values ≡ true) ↔ Memᴰ value sample_values
sample_value_iff value = (
  λ h.
      let (v, m, e) = any_sound (λ v. v == value) sample_values h in
      subst (λ x. Memᴰ x sample_values) ((eq_iff v value).0 e) m,
  λ m. any_complete (λ v. v == value) m ((eq_iff value value).1 refl),
)

sample_index_keys_iff :
    (value key : String) (keys : List String)
    → sample_index_keys value ≡ ok keys
    → Memᴰ key keys ↔ (
        (slice : EndpointSlice) × (values : List String) × (stored_at key ≡ ok (some slice))
        × (index_by_api_export text_cluster_paths (endpoint_slice slice) ≡ ok values)
        × Memᴰ value values)
sample_index_keys_iff value key keys h = elim (Bool-cases (any (λ v. v == value) sample_values)) [
  | inl y ↦
      let same : ("org|mine" ∷ []) ≡ keys = ground (arith, h, y) in
      (
        λ m. elim (Memᴰ.cases_cons (subst (λ l. Memᴰ key l) (sym same) m)) [
          | inl e ↦ (
            sample_slice,
            sample_values,
            ground (arith, (eq_iff key "org|mine").1 e),
            indexed,
            (sample_value_iff value).0 y,
          )
          | inr none_left ↦ elim none_left [ ]
        ],
        λ (slice, values, stored, i, v).
            subst (λ l. Memᴰ key l) same (Memᴰ.head (sym (stored_at-some key slice stored).0)),
      )
  | inr n ↦
      let same : [] ≡ keys = ground (arith, h, n) in
      (
        λ m. elim (subst (λ l. Memᴰ key l) (sym same) m) [ ],
        λ (slice, values, stored, i, v).
            let one =
              ap (λ s. index_by_api_export text_cluster_paths (endpoint_slice s))
                (stored_at-some key slice stored).1 in
            let all : sample_values ≡ values = ground (arith, one, indexed, i) in
            absurd (
              ground
                (arith, n, (sample_value_iff value).1 (subst (λ l. Memᴰ value l) (sym all) v))),
      )
]

abbrev sample_informer : Informer text_cluster_paths
sample_informer = record {
  index_keys = sample_index_keys;
  get_by_key = stored_at;
  slice_key = λ slice. ok "org|mine";
  sorted = λ xs. xs;
  sorted_iff = λ xs x. (λ m. m, λ m. m);
  index_keys_iff = sample_index_keys_iff;
  slice_key-get_by_key = λ key slice h. ap ok (stored_at-some key slice h).0;
}

opened : Unit {0}
unfolding path_keys any
opened = tt

sample_lookups : CanLookUp text_cluster_paths sample_informer "provider" sample_export
unfolding opened
sample_lookups = record {
  keys = "org|mine" ∷ [];
  by_path = refl;
  more = "org|mine" ∷ [];
  by_cluster = refl;
}

enqueue_for_api_export_adds_iff_example :
    Memᴰ
      (add "org|mine")
      (enqueue_for_api_export text_cluster_paths sample_informer "provider" sample_export)
    ↔ ((slice : EndpointSlice) × (stored_at "org|mine" ≡ ok (some slice))
        × Mentions text_cluster_paths sample_informer "provider" sample_export slice)
enqueue_for_api_export_adds_iff_example =
    enqueue_for_api_export_adds_iff text_cluster_paths sample_informer "provider" sample_export
      sample_lookups "org|mine"

enqueue_for_api_export-reconcile_example :
    Memᴰ
      (add "org|mine")
      (enqueue_for_api_export text_cluster_paths sample_informer "provider" sample_export)
unfolding export_path
enqueue_for_api_export-reconcile_example =
    enqueue_for_api_export-reconcile text_cluster_paths sample_informer "provider" sample_export
      "org|mine" sample_slice sample_lookups refl refl (inl (refl, refl)) refl
