-- ===== src/Impersonation.antt =====
-- internal/virtual/filteredapiexport/builder/build.go: the client with which the storage of an API
-- forwards a request, impersonatedDynamicClientGetter.
pub mod Warrants
mod Tests
use mathlib.Core.List.{◌++◌}
use contrib_filteredapiexpor.Prelude.{
  String, Bool, true, false, Option, none, some, List, [], ◌∷◌, if◌then◌else◌,
}
use contrib_filteredapiexpor.Error.{Error, errorf, wrap, Result, ok, err}
use contrib_filteredapiexpor.Url.{Cluster}
use contrib_filteredapiexpor.KeyMap.{text_keys, get, put}

-- The values of user.Info and of rest.ImpersonationConfig, without the map of the extra fields.
pub record Identity : Type 0 where
  pub name : String
  pub groups : List String
  pub uid : String

-- map[string][]string
abbrev pub Extra : Type 0
Extra = List (String × List String)

-- validation.Warrant
pub record Warrant : Type 0 where
  pub user : String
  pub groups : List String
  pub extra : Extra

-- rest.ImpersonationConfig
pub record Impersonated : Type 0 where
  pub identity : Identity
  pub extra : Extra

-- A client with the configuration of the program itself, or one that impersonates.
pub data Client : Type 0 where
  privileged : Client
  impersonating : Impersonated → Client

-- The constants of kcp and Kubernetes, json.Marshal, and the error of kcpdynamic.NewForConfig.
pub record ClientOps : Type 0 where
  pub cluster_name_key : String
  pub system_admin_group : String
  pub warrant_extra_key : String
  pub cluster_path : String → String
  pub marshal : Warrant → Result String
  pub new_for_config : Impersonated → Option Error

-- The warrant of a fake local service account of the cluster.
abbrev pub warrant_of : ClientOps → Cluster → Warrant
warrant_of ops cluster = record {
  user = "system:serviceaccount:default:rest";
  groups = ops.system_admin_group ∷ [];
  extra = (ops.cluster_name_key, ops.cluster_path cluster.name ∷ []) ∷ [];
}

-- extra[key], nil where there is none
unfoldable pub values_of : String → Extra → List String
values_of key extra = elim (get text_keys key extra) [ none ↦ [] | some values ↦ values ]

-- extra[key] = append(extra[key], value)
unfoldable pub append_value : String → String → Extra → Extra
append_value key value extra = put text_keys key (values_of key extra ++ value ∷ []) extra

-- The map to which the warrant is added: that of the user, or a new one where the user's is nil.
unfoldable pub extra_of : Option Extra → Extra
extra_of none = []
extra_of (some extra) = extra

-- What the user's map is once the warrant has been added to it: user.GetExtra returns the map itself,
-- and a nil map stays nil.
unfoldable pub write_back : Option Extra → Extra → Option Extra
write_back none extra = none
write_back (some old) extra = some extra

-- The end of the getter, from the warrant on.
unfoldable pub impersonate :
    ClientOps → Identity → Option Extra → Cluster → Result Client × Option Extra
impersonate ops identity user_extra cluster = elim (ops.marshal (warrant_of ops cluster)) [
  | err e ↦ (err (wrap "error marshaling warrant: %w" [] e), user_extra)
  | ok bs ↦
      let extra = append_value ops.warrant_extra_key bs (extra_of user_extra) in
      let config : Impersonated = record { identity = identity; extra = extra } in
      elim (ops.new_for_config config) [
        | some e ↦
            (err (wrap "error generating dynamic client: %w" [] e), write_back user_extra extra)
        | none ↦ (ok (impersonating config), write_back user_extra extra)
      ]
]

-- impersonatedDynamicClientGetter, on what ValidClusterFrom and UserFrom return for the context, and on
-- the map of the user's extra fields, which it returns as the call leaves it.
unfoldable pub get_client :
    ClientOps → Result Cluster → Option Identity → Option Extra → Result Client × Option Extra
get_client ops (err e) user user_extra =
    (err (wrap "error getting valid cluster from context: %w" [] e), user_extra)
get_client ops (ok cluster) none user_extra =
    (err (errorf "error getting user from context" []), user_extra)
get_client ops (ok cluster) (some identity) user_extra =
    let forwarded = impersonate ops identity user_extra cluster in
    if cluster.wildcard then (ok privileged, user_extra) else forwarded
