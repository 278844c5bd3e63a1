-- ===== src/Resolver/Leads.antt =====
-- Where an accepted request path leads in the authorizers, the admission and the reconciler.
use Prim.Native.String.{◌++◌}
use contrib_filteredapiexpor.Prelude.{
  String, true, false, some, ◌≡◌, ◌≢◌, inl, inr, refl, ap, ◌∙◌, arith, eq_iff, Option-cases,
}
use contrib_filteredapiexpor.Error.{Result, ok}
use contrib_filteredapiexpor.Text.{split}
use contrib_filteredapiexpor.Api.{EndpointSlice, ApiExport, GroupResource}
use contrib_filteredapiexpor.Url.{Cluster, Paths, cluster_of, digest_url, with_slash}
use contrib_filteredapiexpor.Url.Shape.{IsPart, IsTail, address}
use contrib_filteredapiexpor.Url.Parts.{split-domain_key}
use contrib_filteredapiexpor.Url.Laws.{digest_url-address, digest_url-IsServed}
use contrib_filteredapiexpor.Request.{Context, Listers, key_parts}
use contrib_filteredapiexpor.Admission.{started, start}
use contrib_filteredapiexpor.ApiReconciler.Schemas.{Sources}
use contrib_filteredapiexpor.ApiReconciler.Definitions.{Makers}
use contrib_filteredapiexpor.ApiReconciler.Reconcile.{State, reconcile, process}
use contrib_filteredapiexpor.Resolver.{resolve}

-- The path names this endpoint slice, and the target cluster.
pub record Names (paths : Paths) (prefix url_path : String) (slice_cluster slice_name : String)
    (target : Cluster) : Type 0 where
  pub head : String
  pub tail : String
  pub shape : url_path ≡ address (with_slash prefix) slice_cluster slice_name head ++ tail
  pub cluster_part : IsPart slice_cluster
  pub slice_part : IsPart slice_name
  pub targets : cluster_of paths head ≡ some target

-- What the context of an accepted request holds.
pub record LeadsTo (paths : Paths) (prefix url_path : String) (ctx : Context) : Type 0 where
  pub slice_cluster : String
  pub slice_name : String
  pub target : Cluster
  pub names : Names paths prefix url_path slice_cluster slice_name target
  pub key : key_parts ctx.domain_key ≡ some (slice_cluster, slice_name)
  pub cluster : ctx.valid_cluster ≡ ok target

module _ (paths : Paths) (prefix url_path : String) (ctx : Context) where
  -- An accepted request's context has the target cluster and an API domain key that takes apart to the
  -- endpoint slice that the path names.
  resolve-LeadsTo :
      (resolve paths prefix url_path ctx).accepted ≡ true
      → LeadsTo paths prefix url_path (resolve paths prefix url_path ctx).completed_context
  unfolding resolve key_parts
  resolve-LeadsTo h = elim (Option-cases (digest_url paths url_path (with_slash prefix))) [
    | inl e ↦ absurd (ground (arith, h, e))
    | inr (d, e) ↦
        let s = digest_url-IsServed paths url_path (with_slash prefix) d e in
        rw (e, resolve)
          (record {
            slice_cluster = s.cluster_name;
            slice_name = s.slice_name;
            target = d.cluster;
            names = record {
              head = s.head;
              tail = s.tail;
              shape = s.url_shape;
              cluster_part = s.cluster_part;
              slice_part = s.slice_part;
              targets = s.target;
            };
            key = ground (arith, s.key_parts);
            cluster = refl;
          })
  ]

key_parts-domain_key :
    (cluster name : String)
    → IsPart cluster
    → IsPart name
    → key_parts (cluster ++ "/" ++ name) ≡ some (cluster, name)
unfolding key_parts
key_parts-domain_key cluster name (a, b) (c, d) = ground (arith, split-domain_key cluster name b d)

module _ (paths : Paths) (prefix url_path : String) (ctx : Context)
    (slice_cluster slice_name : String) (target : Cluster)
    (n : Names paths prefix url_path slice_cluster slice_name target) (head_part : IsPart n.head)
    (tail_part : IsTail n.tail) where
  resolve_context :
      (resolve paths prefix url_path ctx).completed_context
      ≡ record { valid_cluster = ok target; domain_key = slice_cluster ++ "/" ++ slice_name }
  unfolding resolve
  resolve_context =
      let d =
        digest_url-address paths (with_slash prefix) slice_cluster slice_name n.head n.tail
          n.cluster_part n.slice_part head_part tail_part n.targets in
      ground (arith, ap (λ u. digest_url paths u (with_slash prefix)) n.shape ∙ d)

  -- The admission of a request for a resource in one cluster starts with that cluster and with the
  -- endpoint slice that the path names.
  pub start-resolve :
      (l : Listers) (gr : GroupResource) (slice : EndpointSlice)
      → target.wildcard ≡ false
      → gr.resource ≢ ""
      → l.get_slice slice_cluster slice_name ≡ ok slice
      → start l (resolve paths prefix url_path ctx).completed_context gr ≡ started target slice
  unfolding start
  start-resolve l gr slice one res found =
      let c = resolve_context in
      let k = key_parts-domain_key slice_cluster slice_name n.cluster_part n.slice_part in
      rw c (ground (arith, one, eq_iff gr.resource "", found, k))

  -- The reconciler keeps the definitions of an endpoint slice at the API domain key with which the
  -- requests for that endpoint slice ask for them.
  pub process-resolve :
      (src : Sources) (mk : Makers) (get_export : String → String → Result ApiExport)
      (split_key : String → Result (String × String))
      (get_slice : String → String → Result EndpointSlice) (st : State) (queue_key : String)
      (slice : EndpointSlice)
      → split_key queue_key ≡ ok (slice_cluster, slice_name)
      → get_slice slice_cluster slice_name ≡ ok slice
      → process src mk get_export split_key get_slice st queue_key
        ≡ reconcile src mk get_export st
            (some slice)
            (resolve paths prefix url_path ctx).completed_context.domain_key
  unfolding process
  process-resolve src mk get_export split_key get_slice st queue_key slice split found =
      let c = ap (λ x. x.domain_key) resolve_context in rw (split, process) (rw found (rw c refl))
