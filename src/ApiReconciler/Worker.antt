-- ===== src/ApiReconciler/Worker.antt =====
-- apiexport_apireconciler_controller.go: the worker of the reconciler's queue, and the end of `Start`.
use mathlib.Core.List.{◌++◌}
use contrib_filteredapiexpor.Prelude.{
  ℕ, String, Bool, false, not, Option, none, some, List, [], ◌∷◌, if◌then◌else◌,
}
use contrib_filteredapiexpor.Error.{Error, wrap, panics, Result, ok, err, is_not_found}
use contrib_filteredapiexpor.Api.{ApiExport, EndpointSlice}
use contrib_filteredapiexpor.ApiReconciler.Schemas.{Sources}
use contrib_filteredapiexpor.ApiReconciler.Definitions.{DefinitionSet, Makers}
use contrib_filteredapiexpor.ApiReconciler.Reconcile.{State, process}
use contrib_filteredapiexpor.ApiReconciler.Enqueue.{
  Call, handle_error, log_error, forget, add_rate_limited, done,
}

abbrev pub controller_name : String
controller_name = "kcp-virtual-filtered-apiexport-api-reconciler"

-- What the reconciler is given. The caches may change between two keys: `get_slice` and the others are
-- those of the moment.
pub record World : Type 0 where
  pub sources : Sources
  pub makers : Makers
  pub get_export : String → String → Result ApiExport
  pub split_key : String → Result (String × String)
  pub get_slice : String → String → Result EndpointSlice

-- The end of `processNextWorkItem`, the deferred `Done` included.
unfoldable pub finish : String → Option Error → List Call
finish key none = forget key ∷ done key ∷ []
finish key (some e) =
    handle_error (wrap "%s: failed to sync %q, err: %w" (controller_name ∷ key ∷ []) e)
    ∷ add_rate_limited key
    ∷ done key
    ∷ []

-- The errors that `process` reports itself: of a key that cannot be split, and of the lookup of the
-- endpoint slice.
unfoldable pub process_calls : World → String → List Call
process_calls w key = elim (w.split_key key) [
  | err e ↦ handle_error e ∷ []
  | ok (cluster, name) ↦ elim (w.get_slice cluster name) [
    | ok slice ↦ []
    | err e ↦ if is_not_found e then [] else log_error e ∷ []
  ]
]

-- APIReconciler.processNextWorkItem, on what `queue.Get` returned; `none` where the queue shut down. Where
-- `process` panics, only the deferred `Done` is called, and the worker does not go on.
unfoldable pub process_next_work_item : World → State → Option String → State × List Call × Bool
process_next_work_item w st none = (st, [], false)
process_next_work_item w st (some key) =
    let r = process w.sources w.makers w.get_export w.split_key w.get_slice st key in
    let end = if panics r.1 then done key ∷ [] else finish key r.1 in
    (r.0, process_calls w key ++ end, not (panics r.1))

-- APIReconciler.startWorker, on what `queue.Get` returns time after time, each with the caches as they
-- are then
unfoldable pub start_worker : State → List (World × Option String) → State × List Call
start_worker st [] = (st, [])
start_worker st ((w, item) ∷ items) =
    let r = process_next_work_item w st item in
    let rest = start_worker r.0 items in if r.2 then (rest.0, r.1 ++ rest.1) else (r.0, r.1)

-- The loops of the deferred function of `Start`: the definitions of a set, and of all sets.
unfoldable pub handles_of : DefinitionSet → List (Option ℕ)
handles_of [] = []
handles_of ((gvr, d) ∷ set) = d.handle ∷ handles_of set

unfoldable pub handles_of_all : List (String × DefinitionSet) → List (Option ℕ)
handles_of_all [] = []
handles_of_all ((key, set) ∷ sets) = handles_of set ++ handles_of_all sets

-- A call of TearDown on a nil definition panics, and nothing is torn down from there on.
unfoldable pub until_nil : List (Option ℕ) → List (Option ℕ)
until_nil [] = []
until_nil (none ∷ handles) = []
until_nil (some n ∷ handles) = some n ∷ until_nil handles

unfoldable pub stop : State → State
stop st = record st { torn = until_nil (handles_of_all st.api_sets) ++ st.torn }
