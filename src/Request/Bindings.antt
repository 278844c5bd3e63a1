-- ===== src/Request/Bindings.antt =====
-- What the search for an APIBinding finds.
use mathlib.Core.List.{Memᴰ}
use contrib_filteredapiexpor.Prelude.{
  String, true, Option, none, some, List, ◌≡◌, arith, find, find_sound, eq_iff, Option-cases, inl,
  inr, ◌==◌, ◌&&◌,
}
use contrib_filteredapiexpor.Error.{ok, Result-cases}
use contrib_filteredapiexpor.Api.{ApiBinding}
use contrib_filteredapiexpor.Request.{Listers, binds_export, found_binding, binding_by_export}

-- A binding of the listed cluster that refers to the export.
pub record IsBindingOf (l : Listers) (cluster name export_cluster : String) (binding : ApiBinding)
    : Type 0 where
  pub bindings : List (Option ApiBinding)
  pub listed : l.list_bindings cluster ≡ ok bindings
  pub member : Memᴰ (some binding) bindings
  pub to_export : binding.export_name ≡ some name
  pub to_cluster : binding.export_cluster ≡ export_cluster

binds_export_sound :
    (name cluster : String) (b : ApiBinding)
    → binds_export name cluster (some b) ≡ true
    → (b.export_name ≡ some name) × (b.export_cluster ≡ cluster)
unfolding binds_export
binds_export_sound name cluster b h = elim (Option-cases b.export_name) [
  | inl e ↦ absurd (ground (arith, e))
  | inr (n, e) ↦
      let pass : (n == name && b.export_cluster == cluster) ≡ true = ground (arith, e) in
      (
        ground (arith, e, pass, eq_iff n name),
        ground (arith, pass, eq_iff b.export_cluster cluster),
      )
]

found_binding-inv :
    (message : String) (o : Option (Option ApiBinding)) {b : ApiBinding}
    → found_binding message o ≡ ok b
    → o ≡ some (some b)
found_binding-inv message (some (some b)) h = cc
found_binding-inv message (some none) h = cc
found_binding-inv message none h = cc

pub binding_by_export-IsBindingOf :
    (l : Listers) (message cluster name export_cluster : String) {b : ApiBinding}
    → binding_by_export l message cluster name export_cluster ≡ ok b
    → IsBindingOf l cluster name export_cluster b
unfolding binding_by_export
binding_by_export-IsBindingOf l message cluster name export_cluster {b} h =
    elim (Result-cases (l.list_bindings cluster)) [
      | inl (bs, e) ↦
          let found =
            found_binding-inv message (find (binds_export name export_cluster) bs) {b = b}
              (ground (arith, e)) in
          let (m, p) = find_sound (binds_export name export_cluster) bs found in
          let (n, c) = binds_export_sound name export_cluster b p in
          record { bindings = bs; listed = e; member = m; to_export = n; to_cluster = c }
      | inr (x, e) ↦ absurd (ground (arith, e))
    ]
