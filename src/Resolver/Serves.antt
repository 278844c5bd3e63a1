-- ===== src/Resolver/Serves.antt =====
-- From the event of an endpoint slice to the API definitions that a request for it finds.
use contrib_filteredapiexpor.Prelude.{String, some, ◌≡◌}
use contrib_filteredapiexpor.Url.{Cluster, Paths}
use contrib_filteredapiexpor.Url.Shape.{IsPart, IsTail}
use contrib_filteredapiexpor.Request.{Context}
use contrib_filteredapiexpor.ApiReconciler.Definitions.{Gvr, DefinitionSet}
use contrib_filteredapiexpor.ApiReconciler.Handles.{Serves}
use contrib_filteredapiexpor.ApiReconciler.Reconcile.{State, get_api_definition_set}
use contrib_filteredapiexpor.Resolver.{resolve}
use contrib_filteredapiexpor.Resolver.Leads.{Names}

module _ (paths : Paths) (prefix url_path : String) (ctx : Context)
    (slice_cluster slice_name : String) (target : Cluster)
    (n : Names paths prefix url_path slice_cluster slice_name target) (head_part : IsPart n.head)
    (tail_part : IsTail n.tail) where
  -- The API definitions that a request under the path finds.
  abbrev pub Finds : State → Gvr → Type 0
  Finds st gvr =
      (set : DefinitionSet) × (get_api_definition_set st
          (resolve paths prefix url_path ctx).completed_context.domain_key
        ≡ some set)
      × Serves set gvr
