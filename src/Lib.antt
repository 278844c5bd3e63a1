-- ===== src/Lib.antt =====
-- A verification of the filtered APIExport virtual workspace.
--
-- The virtual workspace serves the objects of an APIExport's consumers, seen through the label selector
-- of a FilteredAPIExportEndpointSlice. A request's path is digested to a target cluster and an API domain
-- key (the endpoint slice's cluster and name); three authorizers decide on the request; an admission
-- plugin labels what is written and refuses what is not in the view; controllers keep the API definitions
-- of each domain key and the condition of each endpoint slice.
--
-- Which file models which part of the repository:
--   Text           the functions of Go's package strings that the program calls (split, prefixes)
--   Url            internal/virtual/filteredapiexport/builder/build.go: digestUrl is digest_url
--   Api            sdk/apis/filteredvw/v1alpha1/types_endpointslice.go, with the fields of kcp's types that
--                  are read; Api/Validation is validation.go
--   Request        what a request's context carries, and getAPIBindingByExport
--   Authorizer     internal/virtual/filteredapiexport/authorizer: Bound is binding.go, Content is
--                  content.go, MaximalPermission is maximal_permission_policy.go; Chain is newAuthorizer of
--                  builder/build.go. Each authorize is the method Authorize.
--   Admission      internal/virtual/filteredapiexport/admission/selector.go: admit and validate
--   EndpointSlice  internal/reconciler/endpointslice: Reconcile is endpointslice_reconcile.go, Worker is
--                  process, processNextWorkItem and startWorker of endpointslice_controller.go, Enqueue
--                  its enqueue functions, with the index of internal/indexers/indexers.go, Events its
--                  handlers of the informers' events
--   ApiReconciler  internal/virtual/filteredapiexport/controllers/apireconciler: Schemas is the first half of
--                  reconcile (the schemas of the export and of its claims), Definitions the second, and
--                  Reconcile puts them together and adds process and GetAPIDefinitionSet; Enqueue is the
--                  enqueue functions of the events, Events the handlers that call them, Worker the loop over
--                  the queue and the end of Start; System puts the informer's store, the
--                  events, the queue and the worker together as steps in any order.
--                  A definition is a fresh number, and the state keeps the numbers on which TearDown was
--                  called.
--   Builtin        internal/virtual/filteredapiexport/schemas/builtin/builtin.go: Early and Late are the
--                  table of the built-in APIs, Lookup is init and the two lookups.
--   Resolver       builder/build.go: RootPathResolver is resolve, which hands what digestUrl found to the
--                  authorizers, the admission and the sets of the reconciler
--   Impersonation  builder/build.go: impersonatedDynamicClientGetter is get_client, which also returns the map
--                  of the user's extra fields as the call leaves it (user.GetExtra returns that map itself)
--   Storage        builder/forwarding.go and the constructors of API definitions of builder/build.go: what a
--                  definition's storage offers, and by which label requirements it lists
--   Readiness      builder/build.go: the post-start hook as a step relation, with the ready check
--   KcpSchemas     internal/virtual/filteredapiexport/schemas: apis.go and the manifest in file.go, as init
--                  makes a table of them; Mismatch joins that table to the reconciler
--   Informers      the events of client-go's informers, as the handlers of both controllers get them
--   Command        cmd/filtered-apiexport-vw: Options is options/options.go, with the options of
--                  internal/virtual/filteredapiexport/options; Startup is Run of command/cmd.go
--   Controllers    internal/reconciler/reconciler.go: the registry of the controllers, and which of them run
--   LabelMap       Go's map[string]string as the list of its entries in the order of a loop
--   KeyMap         Go's maps with other keys, in the same way
--   Samples        data and concrete parameters for the tests
--
-- Stateful code is explicit: admit returns the object that it leaves beside its error, and a worker
-- returns the calls that it makes, in their order; the caches of the API reconciler may change between two
-- keys of its worker. Errors are values (Error), with the format and the arguments of a message in place of
-- the formatted text. A call of TearDown on a nil definition panics: the round then ends in the value
-- panicked, the worker stops after the deferred Done, and the state beside it stands for no state of the
-- program, which has ended. The informers' caches, delegated authorizers, clients, decorators, verb sets,
-- cluster paths, conditions and label selectors are code of other repositories, and parameters here; where
-- something is assumed of them, the record that holds them says it.
-- A loop over a slice or a map is structural recursion, so nothing runs on fuel.
--
-- Not modelled: flags and wiring (what the calls of Run and of BuildVirtualWorkspace hand on), logging, the
-- schema part of the embedded manifest and the conversion of a CRD, what the storages of kcp do with a
-- request, scheme registration, generated clients.
pub mod Prelude
pub mod Text
pub mod Url
pub mod Error
pub mod Api
pub mod Request
pub mod Authorizer
pub mod LabelMap
pub mod Admission
pub mod EndpointSlice
pub mod KeyMap
pub mod Informers
pub mod ApiReconciler
pub mod Builtin
pub mod KcpSchemas
pub mod Resolver
pub mod Impersonation
pub mod Storage
pub mod Readiness
pub mod Command
pub mod Controllers
pub mod Samples
