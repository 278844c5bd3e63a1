-- ===== src/Admission/OrderTests.antt =====
-- Two admissions of one config map, through a view whose labels come in two orders.
use contrib_filteredapiexpor.Prelude.{
  String, ◌≡◌, refl, none, some, [], ◌∷◌, arith, eq_iff, Bool-cases, find, any, ◌==◌, false, inl,
  inr,
}
use contrib_filteredapiexpor.Error.{ok}
use contrib_filteredapiexpor.Text.{split, cons_head}
use contrib_filteredapiexpor.Api.{Labels, EndpointSlice, same_resource}
use contrib_filteredapiexpor.Request.{Listers, key_parts, binding_by_export, binds_export}
use contrib_filteredapiexpor.LabelMap.{lookup, insert, HasDistinctKeys}
use contrib_filteredapiexpor.Admission.{
  update, Unstructured, Object, nil, unstructured, Attributes, labels_of, claims, start,
  binding_of_slice,
}
use contrib_filteredapiexpor.Admission.Admit.{
  copy_labels, merge_labels, apply_labels, additional_labels, labels_to_apply, label_object,
  admit_bound, admit_started, admit,
}
use contrib_filteredapiexpor.Admission.Writes.{IsViewWrite}
use contrib_filteredapiexpor.Admission.Order.{
  SameMap, labels_spec, admit-labels_spec, IsReordered, admit_order,
}
use contrib_filteredapiexpor.Samples.{sample_slice, sample_binding, sample_listers, sample_context}

opened : Unit {0}
unfolding any find cons_head split same_resource key_parts binds_export binding_by_export lookup
    insert claims start binding_of_slice copy_labels merge_labels apply_labels additional_labels
    labels_to_apply label_object admit_bound admit_started admit
opened = tt

abbrev slice_with : Labels → EndpointSlice
slice_with labels = record sample_slice {
  spec = record {
    api_export = record { path = "provider"; name = "widgets" };
    object_selector = record {
      label_selector = record { match_labels = labels; match_expressions = [] };
    };
  };
}

abbrev listers_with : Labels → Listers
listers_with labels = record sample_listers { get_slice = λ cluster name. ok (slice_with labels) }

abbrev one_order : Labels
one_order = ("team", "a") ∷ ("zone", "b") ∷ []

abbrev other_order : Labels
other_order = ("zone", "b") ∷ ("team", "a") ∷ []

abbrev config_map : Unstructured
config_map = record { labels = some (("app", "web") ∷ []); content = "data" }

abbrev config_write : Attributes
config_write = record {
  operation = update;
  resource = record { group = ""; resource = "configmaps" };
  object = unstructured config_map;
  old_object = nil;
}

abbrev claim_labels : Labels
claim_labels = ("tier", "low") ∷ []

one_order-IsViewWrite :
    IsViewWrite
      (listers_with one_order)
      sample_context
      config_write
      (slice_with one_order)
      claim_labels
unfolding opened
one_order-IsViewWrite = record {
  write = refl;
  target = record { name = "consumer"; wildcard = false };
  begun = refl;
  binding = sample_binding;
  binding_found = refl;
  claimed = refl;
}

other_order-IsViewWrite :
    IsViewWrite
      (listers_with other_order)
      sample_context
      config_write
      (slice_with other_order)
      claim_labels
unfolding opened
other_order-IsViewWrite = record {
  write = refl;
  target = record { name = "consumer"; wildcard = false };
  begun = refl;
  binding = sample_binding;
  binding_found = refl;
  claimed = refl;
}

one_order-HasDistinctKeys : HasDistinctKeys one_order
unfolding opened
one_order-HasDistinctKeys = (refl, (refl, tt))

other_order-HasDistinctKeys : HasDistinctKeys other_order
unfolding opened
other_order-HasDistinctKeys = (refl, (refl, tt))

claim_labels-HasDistinctKeys : HasDistinctKeys claim_labels
unfolding opened
claim_labels-HasDistinctKeys = (refl, tt)

orders-SameMap : SameMap one_order other_order
unfolding lookup
orders-SameMap k = elim (Bool-cases ("team" == k)) [
  | inr n ↦ ground (arith, n)
  | inl y ↦
      let no_zone : ("zone" == k) ≡ false = elim (Bool-cases ("zone" == k)) [
        | inr n ↦ n
        | inl z ↦
            absurd
              (ground (arith, eq_iff "team" "zone", (eq_iff "team" k).0 y, (eq_iff "zone" k).0 z))
      ] in
      ground (arith, y, no_zone)
]

abbrev labelled : Unstructured
labelled = record {
  labels = some (("app", "web") ∷ ("team", "a") ∷ ("zone", "b") ∷ ("tier", "low") ∷ []);
  content = "data";
}

is_admitted :
    admit (listers_with one_order) sample_context config_write ≡ (unstructured labelled, none)
unfolding opened
is_admitted = refl

admit-labels_spec_example :
    (u : Unstructured) × (u' : Unstructured) × (◌≡◌ {A = Object}
      (unstructured config_map)
      (unstructured u))
    × (◌≡◌ {A = Object} (unstructured labelled) (unstructured u'))
    × ((k : String)
        → lookup k (labels_of u')
          ≡ labels_spec
              (λ j. lookup j (labels_of u))
              (λ j. lookup j one_order)
              (λ j. lookup j claim_labels)
              k)
admit-labels_spec_example =
    admit-labels_spec (listers_with one_order) sample_context config_write (slice_with one_order)
      claim_labels one_order-IsViewWrite (unstructured labelled) one_order-HasDistinctKeys
      claim_labels-HasDistinctKeys is_admitted

reordered :
    IsReordered
      (listers_with one_order)
      (listers_with other_order)
      sample_context
      sample_context
      config_write
      config_write
      (slice_with one_order)
      (slice_with other_order)
      claim_labels
      claim_labels
      config_map
      config_map
reordered = record {
  write = one_order-IsViewWrite;
  write' = other_order-IsViewWrite;
  object = refl;
  object' = refl;
  view_is_map = one_order-HasDistinctKeys;
  view'_is_map = other_order-HasDistinctKeys;
  extra_is_map = claim_labels-HasDistinctKeys;
  extra'_is_map = claim_labels-HasDistinctKeys;
  same_view = orders-SameMap;
  same_extra = λ k. refl;
  same_labels = λ k. refl;
}

admit_order_example :
    (out : Unstructured) × (out' : Unstructured) × (admit
        (listers_with one_order)
        sample_context
        config_write
      ≡ (unstructured out, none))
    × (admit (listers_with other_order) sample_context config_write ≡ (unstructured out', none))
    × SameMap (labels_of out) (labels_of out')
admit_order_example =
    admit_order (listers_with one_order) (listers_with other_order) sample_context sample_context
      config_write config_write (slice_with one_order) (slice_with other_order) claim_labels
      claim_labels config_map config_map reordered (λ i. (is_admitted i).1)
