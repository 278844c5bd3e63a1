-- ===== src/Command/Startup.antt =====
-- cmd/filtered-apiexport-vw/command/cmd.go: `Run`, as the sequence of its calls. The values that the calls
-- hand on to one another are left out, and so are the constructors that neither fail nor start anything.
use mathlib.Core.List.{◌++◌}
use contrib_filteredapiexpor.Prelude.{
  String, Bool, not, Option, none, some, List, [], ◌∷◌, ◌==◌, if◌then◌else◌,
}
use contrib_filteredapiexpor.Error.{Error, wrap}
use contrib_filteredapiexpor.Command.Options.{Options}

pub data Kubeconfig : Type 0 where
  local_shard front_proxy virtual_workspace : Kubeconfig

-- The factories of informers: of kcp's objects in the local shard, of the endpoint slices, and of kcp's
-- objects in the cache server.
pub data Informers : Type 0 where
  local_kcp filtered cache_kcp : Informers

pub data Part : Type 0 where
  secure_serving authentication audit authorization admission : Part

-- The calls of `Run`.
pub data Action : Type 0 where
  read_kube_config client_config parse_host : Kubeconfig → Action
  cache_rest_config : Action
  new_cluster_client : Informers → Action
  new_kube_client resolve_identities : Action
  install_indexers install_controllers : Action
  apply : Part → Action
  new_root_config new_virtual_workspaces new_server prepare_run add_open_api : Action
  serve_profiler : Action
  start wait_for_cache_sync : Informers → Action
  start_controllers run_server : Action

-- A call without an error, a call whose error is returned, and one whose error is wrapped first.
pub data Step : Type 0 where
  call : Action → Step
  try : Action → Step
  try_as : (format : String) → Action → Step

abbrev pub action_of : Step → Action
action_of (call a) = a
action_of (try a) = a
action_of (try_as format a) = a

-- cacheEnabled
abbrev pub cache_enabled : Options → Bool
cache_enabled o = not (o.cache_kubeconfig_file == "")

abbrev pub only_if : Bool → List Step → List Step
only_if test steps = if test then steps else []

-- The configurations, until the identities are resolved.
abbrev pub connect_steps : Bool → List Step
connect_steps cache =
    try (read_kube_config local_shard)
      ∷ try (client_config local_shard)
      ∷ try (read_kube_config front_proxy)
      ∷ try (client_config front_proxy)
      ∷ try (read_kube_config virtual_workspace)
      ∷ try (client_config virtual_workspace)
      ∷ try (new_cluster_client filtered)
      ∷ only_if cache (
          try (client_config front_proxy)
          ∷ try cache_rest_config
          ∷ try (new_cluster_client cache_kcp)
          ∷ [])
    ++ try (parse_host local_shard)
      ∷ try (parse_host front_proxy)
      ∷ try new_kube_client
      ∷ try_as "failed to get or create identities: %w" resolve_identities
      ∷ try (new_cluster_client local_kcp)
      ∷ []

-- The reconciler with its indexers and controllers (the format is that of `InstallControllers` of
-- internal/reconciler/reconciler.go), and the API server.
abbrev pub build_steps : List Step
build_steps =
    call install_indexers
    ∷ try_as "failed to install FilteredAPIExportEndpointSlice controller: %w" install_controllers
    ∷ try (apply secure_serving)
    ∷ try (apply authentication)
    ∷ try (apply audit)
    ∷ try new_root_config
    ∷ try (apply authorization)
    ∷ try (apply admission)
    ∷ try new_virtual_workspaces
    ∷ try new_server
    ∷ call prepare_run
    ∷ try add_open_api
    ∷ []

-- What is started, from the profiler on.
abbrev pub launch_steps : Bool → Bool → List Step
launch_steps cache profiler =
    only_if profiler (call serve_profiler ∷ [])
    ++ call (start local_kcp) ∷ call (start filtered) ∷ only_if cache (call (start cache_kcp) ∷ [])
    ++ call (wait_for_cache_sync local_kcp)
      ∷ call (wait_for_cache_sync filtered)
      ∷ only_if cache (call (wait_for_cache_sync cache_kcp) ∷ [])
    ++ call start_controllers ∷ try run_server ∷ []

unfoldable pub run_steps : Options → List Step
run_steps o =
    connect_steps (cache_enabled o)
    ++ build_steps
    ++ launch_steps (cache_enabled o) (not (o.profiler_address == ""))

-- The steps one after the other, up to the first error: the calls that are made, and the error.
unfoldable pub perform : (Action → Option Error) → List Step → List Action × Option Error
perform answer [] = ([], none)
perform answer (call a ∷ steps) = let rest = perform answer steps in (a ∷ rest.0, rest.1)
perform answer (try a ∷ steps) = elim (answer a) [
  | some e ↦ (a ∷ [], some e)
  | none ↦ let rest = perform answer steps in (a ∷ rest.0, rest.1)
]
perform answer (try_as format a ∷ steps) = elim (answer a) [
  | some e ↦ (a ∷ [], some (wrap format [] e))
  | none ↦ let rest = perform answer steps in (a ∷ rest.0, rest.1)
]

-- Run, for the error that each of its calls returns
unfoldable pub run : (Action → Option Error) → Options → List Action × Option Error
run answer o = perform answer (run_steps o)
