-- ===== src/ApiReconciler/Reconcile.antt =====
-- apiexport_apireconciler_reconcile.go: `reconcile`, and apiexport_apireconciler_controller.go: `process`
-- and `GetAPIDefinitionSet`.
use mathlib.Core.List
use Prim.Native.String.{◌++◌}
use contrib_filteredapiexpor.Prelude.{ℕ, String, Option, none, some, List, [], ◌==◌, if◌then◌else◌}
use contrib_filteredapiexpor.Error.{Error, panicked, Result, ok, err, is_not_found}
use contrib_filteredapiexpor.Api.{ApiExport, EndpointSlice}
use contrib_filteredapiexpor.KeyMap.{text_keys, get, put, remove}
use contrib_filteredapiexpor.ApiReconciler.Schemas.{Sources, collect}
use contrib_filteredapiexpor.ApiReconciler.Definitions.{
  DefinitionSet, Makers, Built, define_all, torn_down, has_nil,
}

-- The state of the reconciler: the sets by API domain key, the next fresh number of a definition, and
-- the definitions on which TearDown has been called, the latest round first.
pub record State : Type 0 where
  pub api_sets : List (String × DefinitionSet)
  pub next : ℕ
  pub torn : List (Option ℕ)

-- c.apiSets[apiDomainKey]: the empty set where there is none
unfoldable pub set_of : State → String → DefinitionSet
set_of st key = elim (get text_keys key st.api_sets) [ none ↦ [] | some set ↦ set ]

-- The API domain is removed, if it is there.
unfoldable pub remove_domain : State → String → State
remove_domain st key = elim (get text_keys key st.api_sets) [
  | none ↦ st
  | some set ↦ record st { api_sets = remove text_keys key st.api_sets }
]

-- The end of a successful round: the cleanup, where it calls TearDown on no nil definition, and the new
-- set in place of the old one.
unfoldable pub replace_set : State → String → Built → State
replace_set st key b = record {
  api_sets = put text_keys key b.set st.api_sets;
  next = b.next;
  torn = List.◌++◌ (torn_down b.set (set_of st key)) st.torn;
}

module _ (src : Sources) (mk : Makers) (get_export : String → String → Result ApiExport) where
  -- `reconcile` once the export is known. (The definitions of a round that fails are lost, and their
  -- numbers are given again.) Where the cleanup calls TearDown on a nil definition, the call panics: the
  -- program ends with it, and no state is left for anything to read.
  unfoldable pub rebuild : State → EndpointSlice → ApiExport → String → State × Option Error
  rebuild st slice export key = elim (collect src export) [
    | err e ↦ (st, some e)
    | ok c ↦
        elim (define_all mk export c slice.spec.object_selector.label_selector (set_of st key)
          st.next) [
            | err e ↦ (st, some e)
            | ok b ↦
                if has_nil (torn_down b.set (set_of st key))
                then (st, some (panicked "invalid memory address or nil pointer dereference"))
                else (replace_set st key b, none)
          ]
  ]

  -- APIReconciler.reconcile
  unfoldable pub reconcile : State → Option EndpointSlice → String → State × Option Error
  reconcile st none key = (remove_domain st key, none)
  reconcile st (some slice) key = elim (get_export slice.cluster slice.spec.api_export.name) [
    | err e ↦ if is_not_found e then (remove_domain st key, none) else (st, some e)
    | ok export ↦
        let built = rebuild st slice export key in
        if export.identity_hash == "" then (remove_domain st key, none) else built
  ]

  -- APIReconciler.process, with the lookups that it makes. An error of the lookup of the endpoint slice
  -- other than "not found" is logged and dropped.
  unfoldable pub process :
      (String → Result (String × String))
      → (String → String → Result EndpointSlice)
      → State
      → String
      → State × Option Error
  process split_key get_slice st key = elim (split_key key) [
    | err e ↦ (st, none)
    | ok (cluster, name) ↦ elim (get_slice cluster name) [
      | ok slice ↦ reconcile st (some slice) (cluster ++ "/" ++ name)
      | err e ↦ if is_not_found e then reconcile st none (cluster ++ "/" ++ name) else (st, none)
    ]
  ]

-- APIReconciler.GetAPIDefinitionSet
abbrev pub get_api_definition_set : State → String → Option DefinitionSet
get_api_definition_set st key = get text_keys key st.api_sets
