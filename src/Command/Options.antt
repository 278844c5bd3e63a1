-- ===== src/Command/Options.antt =====
-- cmd/filtered-apiexport-vw/options/options.go and internal/virtual/filteredapiexport/options/options.go:
-- the options and their validation.
use mathlib.Core.List.{◌++◌}
use contrib_filteredapiexpor.Prelude.{
  String, Bool, not, Option, none, some, List, [], ◌∷◌, ◌==◌, ◌≡◌, ◌↔◌, if◌then◌else◌,
}
use contrib_filteredapiexpor.Text.{has_prefix}
use contrib_filteredapiexpor.Error.{Error, errorf}

-- DefaultRootPathPrefix
abbrev pub default_root_path_prefix : String
default_root_path_prefix = "/services"

-- FilteredAPIExport of the virtual workspace
pub record WorkspaceOptions : Type 0 where
  pub kubeconfig_file : String

-- Options, the fields that the program itself reads
pub record Options : Type 0 where
  pub shard_name : String
  pub local_shard_kubeconfig_file : String
  pub front_proxy_kubeconfig_file : String
  pub context : String
  pub root_path_prefix : String
  pub shard_external_url : String
  pub cache_kubeconfig_file : String
  pub virtual_workspace : WorkspaceOptions
  pub profiler_address : String

-- The errors that the options of kcp and Kubernetes find in themselves, and utilerrors.NewAggregate.
pub record Validators : Type 0 where
  pub cache_errors : List Error
  pub secure_serving_errors : List Error
  pub authentication_errors : List Error
  pub new_aggregate : List Error → Option Error
  pub new_aggregate_iff : (errors : List Error) → (new_aggregate errors ≡ none) ↔ (errors ≡ [])

-- NewOptions, with the defaults that are this repository's
abbrev pub new_options : Options
new_options = record {
  shard_name = "";
  local_shard_kubeconfig_file = "";
  front_proxy_kubeconfig_file = "";
  context = "";
  root_path_prefix = default_root_path_prefix;
  shard_external_url = "";
  cache_kubeconfig_file = "";
  virtual_workspace = record { kubeconfig_file = "" };
  profiler_address = "";
}

-- `if test { errs = append(errs, e) }`
abbrev pub error_if : Bool → Error → List Error
error_if test e = if test then e ∷ [] else []

-- FilteredAPIExport.Validate, for `none` where the pointer is nil
unfoldable pub validate_workspace : Option WorkspaceOptions → List Error
validate_workspace none = []
validate_workspace (some o) =
    error_if (o.kubeconfig_file == "")
      (errorf "kubeconfig is required for the FilteredAPIExport virtual workspace" [])

-- The tests of `Options.Validate` on its own fields.
unfoldable pub own_errors : Options → List Error
own_errors o =
    error_if (o.shard_name == "") (errorf "--shard-name is required" [])
    ++ error_if (o.shard_external_url == "") (errorf "--shard-external-url is required" [])
    ++ error_if (o.local_shard_kubeconfig_file == "")
        (errorf "--local-shard-kubeconfig is required for this command" [])
    ++ error_if (not (has_prefix o.root_path_prefix "/"))
        (errorf "RootPathPrefix %q must start with /" (o.root_path_prefix ∷ []))

-- Options.Validate
unfoldable pub validate : Validators → Options → Option Error
validate v o = v.new_aggregate (
    v.cache_errors
    ++ v.secure_serving_errors
    ++ v.authentication_errors
    ++ validate_workspace (some o.virtual_workspace)
    ++ own_errors o)
