-- ===== src/Builtin/Samples.antt =====
-- Sample data of the built-in APIs: a maker of empty schemas, and its table.
use mathlib.Core.List.{map}
use contrib_filteredapiexpor.Prelude.{List, [], ◌∷◌, ◌≡◌, refl, ap, ◌∙◌, arith}
use contrib_filteredapiexpor.Error.{ok}
use contrib_filteredapiexpor.ApiReconciler.Schemas.{Schema, resource_of}
use contrib_filteredapiexpor.Builtin.{InternalApi, api_resource}
use contrib_filteredapiexpor.Builtin.Lookup.{
  SchemaMaker, built_in_apis, Table, add_apis, init_table,
}

abbrev bare_schema : InternalApi → Schema
bare_schema a = record { uid = ""; cluster = ""; group = a.group; plural = a.plural; versions = [] }

pub resources-bare :
    (apis : List InternalApi) → map resource_of (map bare_schema apis) ≡ map api_resource apis
resources-bare [] = refl
resources-bare (a ∷ apis) = ap (λ l. api_resource a ∷ l) (resources-bare apis)

abbrev pub bare_maker : SchemaMaker
bare_maker = record {
  create_schemas = λ apis. ok (map bare_schema apis);
  resources = λ apis schemas h.
      (let same : schemas ≡ map bare_schema apis = ground (arith, h) in
        ap (λ l. map resource_of l) same ∙ resources-bare apis);
}

abbrev pub full_table : Table
full_table = add_apis (map bare_schema built_in_apis) []

pub is_started : init_table bare_maker ≡ ok full_table
unfolding init_table
is_started = refl
