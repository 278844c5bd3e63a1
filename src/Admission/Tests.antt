-- ===== src/Admission/Tests.antt =====
-- The admission of a config map that is written through the virtual workspace.
use contrib_filteredapiexpor.Prelude.{◌≡◌, ◌↔◌, refl, false, none, some, [], ◌∷◌, find, any}
use contrib_filteredapiexpor.Text.{split, cons_head}
use contrib_filteredapiexpor.Api.{Labels, same_resource}
use contrib_filteredapiexpor.Request.{key_parts, binding_by_export, binds_export}
use contrib_filteredapiexpor.LabelMap.{lookup, insert, HasDistinctKeys}
use contrib_filteredapiexpor.Admission.{
  update, delete, Unstructured, Object, nil, unstructured, Attributes, labels_of, claims, start,
  binding_of_slice, slice_labels,
}
use contrib_filteredapiexpor.Admission.Admit.{
  copy_labels, merge_labels, apply_labels, additional_labels, labels_to_apply, label_object,
  admit_bound, admit_started, admit,
}
use contrib_filteredapiexpor.Admission.Validate.{validate}
use contrib_filteredapiexpor.Admission.Labelling.{Agrees}
use contrib_filteredapiexpor.Admission.Writes.{
  IsViewWrite, IsLabelled, admit-IsLabelled, admit_succeeds_iff, admit_idempotent,
}
use contrib_filteredapiexpor.Admission.Visible.{IsVisible, validate_iff, validate-admit}
use contrib_filteredapiexpor.Samples.{
  key_selectors, sample_slice, sample_binding, sample_listers, sample_context,
}

opened : Unit {0}
unfolding any find cons_head split same_resource key_parts binds_export binding_by_export lookup
    insert claims start binding_of_slice copy_labels merge_labels apply_labels additional_labels
    labels_to_apply label_object admit_bound admit_started admit key_selectors
opened = tt

abbrev config_map : Unstructured
config_map = record { labels = some (("app", "web") ∷ []); content = "data" }

-- The config map with the labels of the view and of the claim.
abbrev labelled : Unstructured
labelled = record {
  labels = some (("app", "web") ∷ ("team", "a") ∷ ("tier", "low") ∷ []);
  content = "data";
}

abbrev config_write : Attributes
config_write = record {
  operation = update;
  resource = record { group = ""; resource = "configmaps" };
  object = unstructured config_map;
  old_object = nil;
}

abbrev claim_labels : Labels
claim_labels = ("tier", "low") ∷ []

abbrev is_view_write :
    IsViewWrite sample_listers sample_context config_write sample_slice claim_labels
unfolding opened
is_view_write = record {
  write = refl;
  target = record { name = "consumer"; wildcard = false };
  begun = refl;
  binding = sample_binding;
  binding_found = refl;
  claimed = refl;
}

is_admitted : admit sample_listers sample_context config_write ≡ (unstructured labelled, none)
unfolding opened
is_admitted = refl

slice_labels-HasDistinctKeys : HasDistinctKeys (slice_labels sample_slice)
unfolding opened
slice_labels-HasDistinctKeys = (refl, tt)

claim_labels-HasDistinctKeys : HasDistinctKeys claim_labels
unfolding opened
claim_labels-HasDistinctKeys = (refl, tt)

admit-IsLabelled_example :
    (u : Unstructured) × (u' : Unstructured) × (◌≡◌ {A = Object}
      (unstructured config_map)
      (unstructured u))
    × (◌≡◌ {A = Object} (unstructured labelled) (unstructured u'))
    × IsLabelled (slice_labels sample_slice) claim_labels u u'
admit-IsLabelled_example =
    admit-IsLabelled sample_listers sample_context config_write sample_slice claim_labels
      is_view_write (unstructured labelled) slice_labels-HasDistinctKeys is_admitted

admit_succeeds_iff_example : ((admit sample_listers sample_context config_write).1 ≡ none) ↔ (
    Agrees (slice_labels sample_slice) claim_labels
    × Agrees (labels_of config_map) (slice_labels sample_slice)
    × Agrees (labels_of config_map) claim_labels)
admit_succeeds_iff_example =
    admit_succeeds_iff sample_listers sample_context config_write sample_slice claim_labels
      is_view_write config_map refl slice_labels-HasDistinctKeys claim_labels-HasDistinctKeys

admit_idempotent_example :
    admit sample_listers sample_context (record config_write { object = unstructured labelled })
    ≡ (unstructured labelled, none)
admit_idempotent_example =
    admit_idempotent sample_listers sample_context config_write (unstructured labelled) is_admitted

abbrev config_delete : Attributes
config_delete = record {
  operation = delete;
  resource = record { group = ""; resource = "configmaps" };
  object = nil;
  old_object = unstructured labelled;
}

validate_iff_example :
    (validate key_selectors sample_listers sample_context config_delete ≡ none)
    ↔ IsVisible key_selectors sample_listers
        (record { name = "consumer"; wildcard = false })
        sample_slice
        (record { group = ""; resource = "configmaps" })
        (unstructured labelled)
unfolding opened
validate_iff_example =
    validate_iff key_selectors sample_listers sample_context config_delete
      (record { name = "consumer"; wildcard = false }) sample_slice refl refl

validate-admit_example :
    validate key_selectors sample_listers sample_context
      (record config_write { object = unstructured labelled })
    ≡ none
unfolding opened
validate-admit_example =
    validate-admit key_selectors sample_listers sample_context config_write sample_slice
      claim_labels (unstructured labelled) is_view_write slice_labels-HasDistinctKeys
      (refl, (sample_slice.spec.object_selector.label_selector, refl))
      (
        (refl, (record { match_labels = ("tier", "low") ∷ []; match_expressions = [] }, refl)),
        ((refl, (record { match_labels = []; match_expressions = [] }, refl)), tt),
      )
      is_admitted
