-- ===== src/EndpointSlice/Enqueue.antt =====
-- endpointslice_controller.go: which keys the events of the informers put into the queue; and the index
-- that they use, internal/indexers/indexers.go.
use mathlib.Core.List.{Memᴰ, ◌++◌}
use contrib_filteredapiexpor.Prelude.{
  String, not, Option, none, some, List, [], ◌∷◌, ◌≡◌, ◌↔◌, if◌then◌else◌,
}
use contrib_filteredapiexpor.Error.{Error, errorf, Result, ok, err}
use contrib_filteredapiexpor.Api.{ApiExport, EndpointSlice}
use contrib_filteredapiexpor.EndpointSlice.Reconcile.{ClusterPaths}

-- The calls of a handler: of the queue and of utilruntime.
pub data Call : Type 0 where
  add : (key : String) → Call
  handle_error : Error → Call

-- What the index function is given.
pub data Indexed : Type 0 where
  endpoint_slice : EndpointSlice → Indexed
  other : (go_type : String) → Indexed

module _ (paths : ClusterPaths) where
  -- `path.Join(name).String()`, if the path is not empty
  unfoldable pub joined : paths.LogicalPath → String → List String
  joined path name =
      if not (paths.is_empty path) then paths.to_string (paths.join path name) ∷ [] else []

  unfoldable pub index_values : EndpointSlice → List String
  index_values slice =
      joined (paths.new_path slice.spec.api_export.path) slice.spec.api_export.name
      ++ joined (paths.name_path slice.cluster) slice.spec.api_export.name

  -- IndexFilteredAPIExportEndpointSliceByAPIExportFunc
  unfoldable pub index_by_api_export : Indexed → Result (List String)
  index_by_api_export (other t) =
      err (errorf "obj %T is not a FilteredAPIExportEndpointSlice" (t ∷ []))
  index_by_api_export (endpoint_slice slice) = ok (index_values slice)

-- The informer of the endpoint slices: the keys with an index value, the object of a key, and the key of
-- an object. `sorted` is `sets.List` of the set of these texts. The laws are those of client-go's
-- indexer: an index value leads to the keys of the objects that have it.
pub record Informer (paths : ClusterPaths) : Type 0 where
  pub index_keys : String → Result (List String)
  pub get_by_key : String → Result (Option EndpointSlice)
  pub slice_key : EndpointSlice → Result String
  pub sorted : List String → List String
  pub sorted_iff : (xs : List String) (x : String) → Memᴰ x (sorted xs) ↔ Memᴰ x xs
  pub index_keys_iff :
      (value key : String) (keys : List String)
      → index_keys value ≡ ok keys
      → Memᴰ key keys ↔ (
          (slice : EndpointSlice) × (values : List String) × (get_by_key key ≡ ok (some slice))
          × (index_by_api_export paths (endpoint_slice slice) ≡ ok values)
          × Memᴰ value values)
  pub slice_key-get_by_key :
      (key : String) (slice : EndpointSlice)
      → get_by_key key ≡ ok (some slice)
      → slice_key slice ≡ ok key

module _ (paths : ClusterPaths) (informer : Informer paths) where
  -- controller.enqueueFilteredAPIExportEndpointSlice
  unfoldable pub enqueue_slice : EndpointSlice → List Call
  enqueue_slice slice = elim (informer.slice_key slice) [
    | err e ↦ handle_error e ∷ []
    | ok key ↦ add key ∷ []
  ]

  -- The loop of `enqueueFilteredAPIExportEndpointSlicesForAPIExport`.
  unfoldable pub enqueue_keys : List String → List Call
  enqueue_keys [] = []
  enqueue_keys (key ∷ keys) = elim (informer.get_by_key key) [
    | err e ↦ handle_error e ∷ enqueue_keys keys
    | ok none ↦ enqueue_keys keys
    | ok (some slice) ↦ enqueue_slice slice ++ enqueue_keys keys
  ]

  -- The keys under the path of the annotation, where there is one.
  unfoldable pub path_keys : String → String → Result (List String)
  path_keys annotation name =
      let keys =
        informer.index_keys (paths.to_string (paths.join (paths.new_path annotation) name)) in
      if not (paths.is_empty (paths.new_path annotation)) then keys else ok []

  -- controller.enqueueFilteredAPIExportEndpointSlicesForAPIExport, for an export and its annotation with
  -- the path of its cluster
  unfoldable pub enqueue_for_api_export : String → ApiExport → List Call
  enqueue_for_api_export annotation export = elim (path_keys annotation export.name) [
    | err e ↦ handle_error e ∷ []
    | ok keys ↦
        elim (informer.index_keys
          (paths.to_string (paths.join (paths.name_path export.cluster) export.name))) [
            | err e ↦ handle_error e ∷ []
            | ok more ↦ enqueue_keys (informer.sorted (keys ++ more))
          ]
  ]
