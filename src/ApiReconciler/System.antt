-- ===== src/ApiReconciler/System.antt =====
-- apiexport_apireconciler_controller.go: the informer of the endpoint slices, the queue and the worker
-- together, step by step, while the exports and the schemas stay as they are.
use mathlib.Core.List.{◌++◌}
use contrib_filteredapiexpor.Prelude.{String, true, false, some, List, [], ◌∷◌, ◌≡◌}
use contrib_filteredapiexpor.Error.{Error, Result, ok, err, is_not_found}
use contrib_filteredapiexpor.Api.{ApiExport, EndpointSlice}
use contrib_filteredapiexpor.Informers.{Event, is_missed_event, subject_of}
use contrib_filteredapiexpor.Url.Shape.{IsPart}
use contrib_filteredapiexpor.ApiReconciler.Schemas.{Sources}
use contrib_filteredapiexpor.ApiReconciler.Definitions.{Makers}
use contrib_filteredapiexpor.ApiReconciler.Enqueue.{
  Call, add, handle_error, log_error, forget, add_rate_limited, done, Caches,
}
use contrib_filteredapiexpor.ApiReconciler.Events.{slice, run}
use contrib_filteredapiexpor.ApiReconciler.Reconcile.{State}
use contrib_filteredapiexpor.ApiReconciler.Worker.{World, process_next_work_item}

-- What stays: the sources, the constructors, the lookup of exports, and the keys of endpoint slices with
-- their split, whose parts hold no slash.
pub record Setting : Type 0 where
  pub sources : Sources
  pub makers : Makers
  pub get_export : String → String → Result ApiExport
  pub export_key : ApiExport → Result String
  pub slice_key : EndpointSlice → Result String
  pub split_key : String → Result (String × String)
  pub split_key-IsPart :
      (key cluster name : String)
      → split_key key ≡ ok (cluster, name)
      → IsPart cluster × IsPart name

-- The informer's store, the events that the handlers have not had yet, the keys in the queue, and the
-- reconciler.
pub record System : Type 0 where
  pub get_slice : String → String → Result EndpointSlice
  pub pending : List (Event EndpointSlice)
  pub queue : List String
  pub state : State

-- The keys that calls put into the queue, at once or later.
unfoldable pub queued : List Call → List String
queued [] = []
queued (add key ∷ calls) = key ∷ queued calls
queued (add_rate_limited key ∷ calls) = key ∷ queued calls
queued (handle_error e ∷ calls) = queued calls
queued (log_error e ∷ calls) = queued calls
queued (forget key ∷ calls) = queued calls
queued (done key ∷ calls) = queued calls

-- What the store of an informer answers for an endpoint slice that it does not have.
abbrev pub AnswersNotFound : (String → String → Result EndpointSlice) → Type 0
AnswersNotFound get_slice =
    (cluster name : String) (e : Error) → get_slice cluster name ≡ err e → is_not_found e ≡ true

module _ (fixed : Setting) where
  -- What the worker is given.
  abbrev pub world_of : System → World
  world_of s = record {
    sources = fixed.sources;
    makers = fixed.makers;
    get_export = fixed.get_export;
    split_key = fixed.split_key;
    get_slice = s.get_slice;
  }

  -- The steps, in any order. An endpoint slice changes in the informer's store, with an event that is no
  -- missed deletion; a handler gets an event, with the caches of the moment; handlers of other events put
  -- any keys into the queue; the worker takes a key from the queue,
  -- without a panic (which would end the program).
  pub data Step (s : System) : System → Type 0 where
    changes :
        (e : Event EndpointSlice) (key cluster name : String)
        (get_slice : String → String → Result EndpointSlice)
        → is_missed_event e ≡ false
        → fixed.slice_key (subject_of e) ≡ ok key
        → fixed.split_key key ≡ ok (cluster, name)
        → AnswersNotFound get_slice
        → ((c n : String) → ¬ ((c ≡ cluster) × (n ≡ name)) → get_slice c n ≡ s.get_slice c n)
        → Step s (record s { get_slice = get_slice; pending = e ∷ s.pending })
    handles :
        (caches : Caches) (before rest : List (Event EndpointSlice)) (e : Event EndpointSlice)
        → s.pending ≡ before ++ e ∷ rest
        → ((slice : EndpointSlice) → caches.deletion_key slice ≡ fixed.slice_key slice)
        → Step s (record s {
          pending = before ++ rest;
          queue = queued (run caches fixed.export_key (slice e ∷ [])).0 ++ s.queue;
        })
    others : (keys : List String) → Step s (record s { queue = keys ++ s.queue })
    works :
        (before rest : List String) (key : String)
        → s.queue ≡ before ++ key ∷ rest
        → (process_next_work_item (world_of s) s.state (some key)).2 ≡ true
        → Step s (record s {
          queue =
              queued (process_next_work_item (world_of s) s.state (some key)).1 ++ (before ++ rest);
          state = (process_next_work_item (world_of s) s.state (some key)).0;
        })

  -- From a reconciler without sets and a store without endpoint slices on.
  pub data IsReachable (empty : String → String → Result EndpointSlice) : System → Type 0 where
    initially : IsReachable empty (record {
      get_slice = empty;
      pending = [];
      queue = [];
      state = record { api_sets = []; next = 0; torn = [] };
    })
    next_step : {s s' : System} → IsReachable empty s → Step s s' → IsReachable empty s'
