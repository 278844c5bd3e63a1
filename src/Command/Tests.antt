-- ===== src/Command/Tests.antt =====
-- The command with sample options, without and with a cache server.
use contrib_filteredapiexpor.Prelude.{false, Option, none, some, [], ◌≡◌, ◌⊎◌, ◌↔◌, refl, any}
use contrib_filteredapiexpor.Error.{Error, errorf}
use contrib_filteredapiexpor.Samples.{first_error, first_error_iff}
use contrib_filteredapiexpor.Command.Options.{Options, Validators, new_options, validate}
use contrib_filteredapiexpor.Command.Valid.{IsValid, validate_options_iff}
use contrib_filteredapiexpor.Command.Startup.{
  Action, resolve_identities, run_server, run_steps, perform, run,
}
use contrib_filteredapiexpor.Command.Order.{IsOrdered, is_launch, run-IsOrdered}
use contrib_filteredapiexpor.Command.Failures.{run_fails}

abbrev sample_options : Options
sample_options = record new_options {
  shard_name = "root";
  shard_external_url = "https://shard";
  local_shard_kubeconfig_file = "local.kubeconfig";
  front_proxy_kubeconfig_file = "proxy.kubeconfig";
  cache_kubeconfig_file = "cache.kubeconfig";
  virtual_workspace = record { kubeconfig_file = "vw.kubeconfig" };
}

abbrev sample_validators : Validators
sample_validators = record {
  cache_errors = [];
  secure_serving_errors = [];
  authentication_errors = [];
  new_aggregate = first_error;
  new_aggregate_iff = first_error_iff;
}

validate_options_iff_example :
    (validate sample_validators sample_options ≡ none) ↔ IsValid sample_validators sample_options
validate_options_iff_example = validate_options_iff sample_validators sample_options

-- Every call succeeds, but the server.
abbrev server_down : Action → Option Error
server_down run_server = some (errorf "closed" [])
server_down _ = none

run-IsOrdered_example : IsOrdered server_down sample_options
run-IsOrdered_example = run-IsOrdered server_down sample_options

abbrev no_identities : Action → Option Error
no_identities resolve_identities = some (errorf "cancelled" [])
no_identities _ = none

is_stopped :
    (run no_identities sample_options).1
    ≡ some (Error.wrap "failed to get or create identities: %w" [] (errorf "cancelled" []))
unfolding run run_steps perform
is_stopped = refl

run_fails_example :
    (no_identities run_server
      ≡ some (Error.wrap "failed to get or create identities: %w" [] (errorf "cancelled" [])))
    ⊎ (any is_launch (run no_identities sample_options).0 ≡ false)
run_fails_example =
    run_fails no_identities sample_options
      (Error.wrap "failed to get or create identities: %w" [] (errorf "cancelled" [])) is_stopped
