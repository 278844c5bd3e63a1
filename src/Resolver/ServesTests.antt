-- ===== src/Resolver/ServesTests.antt =====
-- The sample endpoint slice, from its event to a request for it.
use contrib_filteredapiexpor.Error.{ok}
use contrib_filteredapiexpor.ApiReconciler.Enqueue.{Caches}
use contrib_filteredapiexpor.ApiReconciler.Events.{slice}
use contrib_filteredapiexpor.ApiReconciler.Samples.{sample_caches}

abbrev org_caches : Caches
org_caches = record sample_caches {
  deletion_key = λ slice. ok "org|mine";
  split_key = λ key. ok ("org", "mine");
}
