-- ===== src/Controllers.antt =====
-- internal/reconciler/reconciler.go: the controllers that the program installs and starts, by name.
pub mod Started
use mathlib.Core.List.{◌++◌}
use contrib_filteredapiexpor.Prelude.{String, Option, none, some, List, [], ◌∷◌}
use contrib_filteredapiexpor.Error.{Error, errorf, wrap, Result, ok, err}
use contrib_filteredapiexpor.KeyMap.{text_keys, get, put}

-- controllerWrapper: of the wait function what it returns, `none` where there is none; the runner is
-- known by the name.
pub record Controller : Type 0 where
  pub name : String
  pub wait : Option (Option Error)

-- Reconciler.controllers
abbrev pub Registry : Type 0
Registry = List (String × Controller)

-- Reconciler.registerController
unfoldable pub register_controller : Registry → Controller → Result Registry
register_controller r c = elim (get text_keys c.name r) [
  | some old ↦ err (errorf "controller %s is already registered" (c.name ∷ []))
  | none ↦ ok (put text_keys c.name c r)
]

-- Reconciler.runController: the names of the controllers whose runner is called
unfoldable pub run_controller : Controller → List String
run_controller c = elim c.wait [ none ↦ c.name ∷ [] | some none ↦ c.name ∷ [] | some (some e) ↦ [] ]

-- Reconciler.StartControllers; the controllers run beside one another.
unfoldable pub start_controllers : Registry → List String
start_controllers [] = []
start_controllers ((name, c) ∷ r) = run_controller c ++ start_controllers r

-- apiexportendpointslice.ControllerName of kcp, the errors of the clients' and of the controller's
-- constructors, and what waiting for the caches returns.
pub record Installation : Type 0 where
  pub controller_name : String
  pub new_client : Option Error
  pub new_controller : Option Error
  pub wait : Option Error

-- Reconciler.installFilteredAPIExportEndpointSliceController
unfoldable pub install_endpoint_slice_controller : Installation → Registry → Result Registry
install_endpoint_slice_controller i r = elim i.new_client [
  | some e ↦ err e
  | none ↦ elim i.new_controller [
    | some e ↦ err e
    | none ↦ register_controller r (record { name = i.controller_name; wait = some i.wait })
  ]
]

-- Reconciler.InstallControllers
unfoldable pub install_controllers : Installation → Registry → Result Registry
install_controllers i r = elim (install_endpoint_slice_controller i r) [
  | err e ↦ err (wrap "failed to install FilteredAPIExportEndpointSlice controller: %w" [] e)
  | ok r' ↦ ok r'
]
