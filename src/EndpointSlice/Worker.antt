-- ===== src/EndpointSlice/Worker.antt =====
-- endpointslice_controller.go: what a worker does with the keys that it takes from the queue.
use mathlib.Core.List.{◌++◌}
use contrib_filteredapiexpor.Prelude.{
  String, Bool, true, false, Option, none, some, List, [], ◌∷◌, ◌≡◌, ◌↔◌, if◌then◌else◌,
}
use contrib_filteredapiexpor.Error.{Error, wrap, Result, ok, err, is_not_found}
use contrib_filteredapiexpor.Api.{EndpointSlice, ApiExport}
use contrib_filteredapiexpor.EndpointSlice.Reconcile.{ClusterPaths, Conditions, reconcile}

-- The calls that a worker makes, in their order: of the API server, of utilruntime, of the queue.
pub data Effect : Type 0 where
  commit : (old new : EndpointSlice) → Effect
  handle_error : Error → Effect
  forget add_rate_limited done : (key : String) → Effect

abbrev pub controller_name : String
controller_name = "kcp-filteredapiexport-endpointslice"

-- What the controller is given: the lookups, the answer of the API server to a commit, and
-- `NewAggregate`, which is nil exactly for no errors.
pub record Controller : Type 1 where
  pub paths : ClusterPaths
  pub conditions : Conditions
  pub get_api_export : paths.LogicalPath → String → Result ApiExport
  pub split_key : String → Result (String × String)
  pub get_slice : paths.LogicalPath → String → Result EndpointSlice
  pub commit_answer : EndpointSlice → EndpointSlice → Option Error
  pub new_aggregate : List Error → Option Error
  pub new_aggregate_iff : (errors : List Error) → (new_aggregate errors ≡ none) ↔ (errors ≡ [])

-- `if err != nil { errs = append(errs, err) }`
abbrev pub append_error : List Error → Option Error → List Error
append_error errors none = errors
append_error errors (some e) = errors ++ (e ∷ [])

module _ (c : Controller) where
  -- The end of `process`, for an endpoint slice that is there.
  unfoldable pub process_slice : EndpointSlice → List Effect × Option Error
  process_slice old =
      let r = reconcile c.paths c.conditions c.get_api_export old in
      (
        commit old r.0 ∷ [],
        c.new_aggregate (append_error (append_error [] r.1) (c.commit_answer old r.0)),
      )

  -- controller.process
  unfoldable pub process : String → List Effect × Option Error
  process key = elim (c.split_key key) [
    | err e ↦ (handle_error e ∷ [], none)
    | ok (cluster, name) ↦ elim (c.get_slice (c.paths.name_path cluster) name) [
      | err e ↦ if is_not_found e then ([], none) else ([], some e)
      | ok slice ↦ process_slice slice
    ]
  ]

  -- The end of `processNextWorkItem`, the deferred `Done` included.
  unfoldable pub finish : String → Option Error → List Effect
  finish key none = forget key ∷ done key ∷ []
  finish key (some e) =
      handle_error (wrap "%q controller failed to sync %q, err: %w" (controller_name ∷ key ∷ []) e)
      ∷ add_rate_limited key
      ∷ done key
      ∷ []

  -- controller.processNextWorkItem on what `queue.Get` returned, `none` where the queue shut down
  unfoldable pub process_next_work_item : Option String → List Effect × Bool
  process_next_work_item none = ([], false)
  process_next_work_item (some key) = ((process key).0 ++ finish key (process key).1, true)

  -- controller.startWorker, on what `queue.Get` returns time after time
  unfoldable pub start_worker : List (Option String) → List Effect
  start_worker [] = []
  start_worker (item ∷ items) =
      let rest = start_worker items in
      let r = process_next_work_item item in if r.1 then r.0 ++ rest else r.0
