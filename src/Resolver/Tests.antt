-- ===== src/Resolver/Tests.antt =====
-- The resolver at a concrete path.
use contrib_filteredapiexpor.Prelude.{none, some, [], ◌∷◌, any, find, ◌≡◌, refl, arith, eq_iff}
use contrib_filteredapiexpor.Text.{split, cons_head}
use contrib_filteredapiexpor.Api.{Labels, same_resource}
use contrib_filteredapiexpor.Request.{key_parts, binding_by_export, binds_export}
use contrib_filteredapiexpor.LabelMap.{lookup, insert, HasDistinctKeys}
use contrib_filteredapiexpor.Admission.{
  update, Unstructured, Object, nil, unstructured, Attributes, claims, start, binding_of_slice,
  slice_labels,
}
use contrib_filteredapiexpor.Admission.Admit.{
  copy_labels, merge_labels, apply_labels, additional_labels, labels_to_apply, label_object,
  admit_bound, admit_started, admit,
}
use contrib_filteredapiexpor.Admission.Writes.{IsLabelled}
use contrib_filteredapiexpor.Resolver.Writes.{IsServedWrite, admit-resolve-IsLabelled}
use contrib_filteredapiexpor.Resolver.{resolve}
use contrib_filteredapiexpor.Resolver.Samples.{
  opened, no_context, vw_url, consumer, names, named_head, named_tail,
}
use contrib_filteredapiexpor.Samples.{text_paths, sample_slice, sample_binding, sample_listers}

admission_opened : Unit {0}
unfolding any find cons_head split same_resource key_parts binds_export binding_by_export lookup
    insert claims start binding_of_slice copy_labels merge_labels apply_labels additional_labels
    labels_to_apply label_object admit_bound admit_started admit
admission_opened = tt

-- A config map that is updated under the path.
abbrev config_map : Unstructured
config_map = record { labels = some (("app", "web") ∷ []); content = "data" }

abbrev labelled : Unstructured
labelled = record {
  labels = some (("app", "web") ∷ ("team", "a") ∷ ("tier", "low") ∷ []);
  content = "data";
}

abbrev config_write : Attributes
config_write = record {
  operation = update;
  resource = record { group = ""; resource = "configmaps" };
  object = unstructured config_map;
  old_object = nil;
}

abbrev claim_labels : Labels
claim_labels = ("tier", "low") ∷ []

config_write-IsServedWrite :
    IsServedWrite text_paths "/vw" vw_url no_context "org" "mine" consumer names named_head
      named_tail sample_listers config_write sample_slice claim_labels
unfolding admission_opened
config_write-IsServedWrite = record {
  one_cluster = refl;
  has_resource = λ p. ground (arith, (eq_iff "configmaps" "").1 p);
  write = refl;
  slice_found = refl;
  binding = sample_binding;
  binding_found = refl;
  claimed = refl;
}

slice_labels-HasDistinctKeys : HasDistinctKeys (slice_labels sample_slice)
unfolding lookup
slice_labels-HasDistinctKeys = (refl, tt)

is_admitted :
    admit sample_listers (resolve text_paths "/vw" vw_url no_context).completed_context config_write
    ≡ (unstructured labelled, none)
unfolding opened admission_opened
is_admitted = refl

admit-resolve-IsLabelled_example :
    (u : Unstructured) × (u' : Unstructured) × (◌≡◌ {A = Object}
      (unstructured config_map)
      (unstructured u))
    × (◌≡◌ {A = Object} (unstructured labelled) (unstructured u'))
    × IsLabelled (slice_labels sample_slice) claim_labels u u'
admit-resolve-IsLabelled_example =
    admit-resolve-IsLabelled text_paths "/vw" vw_url no_context "org" "mine" consumer names
      named_head named_tail sample_listers config_write sample_slice claim_labels
      config_write-IsServedWrite (unstructured labelled) slice_labels-HasDistinctKeys is_admitted
