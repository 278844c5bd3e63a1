-- ===== src/Resolver/Writes.antt =====
-- From the path of a request to the labels of what it writes: the resolver and the admission together.
use contrib_filteredapiexpor.Prelude.{String, true, false, none, some, ◌≡◌, ◌≢◌}
use contrib_filteredapiexpor.Error.{ok}
use contrib_filteredapiexpor.Url.{Paths, Cluster}
use contrib_filteredapiexpor.Url.Shape.{IsPart, IsTail}
use contrib_filteredapiexpor.Api.{Labels, EndpointSlice, ApiBinding}
use contrib_filteredapiexpor.Request.{Context, Listers}
use contrib_filteredapiexpor.LabelMap.{HasDistinctKeys}
use contrib_filteredapiexpor.Admission.{
  Unstructured, Object, unstructured, Attributes, binding_of_slice, slice_labels,
}
use contrib_filteredapiexpor.Admission.Admit.{is_write, additional_labels, admit}
use contrib_filteredapiexpor.Admission.Writes.{IsLabelled, admit-IsLabelled}
use contrib_filteredapiexpor.Resolver.{resolve}
use contrib_filteredapiexpor.Resolver.Leads.{Names, start-resolve}

module _ (paths : Paths) (prefix url_path : String) (ctx : Context)
    (slice_cluster slice_name : String) (target : Cluster)
    (n : Names paths prefix url_path slice_cluster slice_name target) (head_part : IsPart n.head)
    (tail_part : IsTail n.tail) where
  -- What the caches hold for a write in one cluster through the endpoint slice that the path names: the
  -- endpoint slice, the binding of the target cluster, and the labels that its claim adds.
  pub record IsServedWrite (l : Listers) (a : Attributes) (slice : EndpointSlice) (extra : Labels)
      : Type 0 where
    pub one_cluster : target.wildcard ≡ false
    pub has_resource : a.resource.resource ≢ ""
    pub write : is_write a.operation ≡ true
    pub slice_found : l.get_slice slice_cluster slice_name ≡ ok slice
    pub binding : ApiBinding
    pub binding_found : binding_of_slice l target slice ≡ ok binding
    pub claimed : additional_labels binding a.resource ≡ some extra

  -- An object that is created or updated in one cluster under the path of an endpoint slice, of a resource
  -- that the binding there binds or claims, and that is admitted, has the labels of that very endpoint
  -- slice and of the claim in the target cluster, and is otherwise as it was.
  pub admit-resolve-IsLabelled :
      (l : Listers) (a : Attributes) (slice : EndpointSlice) (extra : Labels)
      → IsServedWrite l a slice extra
      → (obj' : Object) → HasDistinctKeys (slice_labels slice)
      → admit l (resolve paths prefix url_path ctx).completed_context a ≡ (obj', none)
      → (u : Unstructured) × (u' : Unstructured) × (a.object ≡ unstructured u)
        × (obj' ≡ unstructured u')
        × IsLabelled (slice_labels slice) extra u u'
  admit-resolve-IsLabelled l a slice extra w obj' d h =
      let begun =
        start-resolve paths prefix url_path ctx slice_cluster slice_name target n head_part
          tail_part l a.resource slice w.one_cluster w.has_resource w.slice_found in
      admit-IsLabelled l (resolve paths prefix url_path ctx).completed_context a slice extra
        (record {
          write = w.write;
          target = target;
          begun = begun;
          binding = w.binding;
          binding_found = w.binding_found;
          claimed = w.claimed;
        })
        obj' d h
