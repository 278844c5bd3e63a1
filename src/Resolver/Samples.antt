-- ===== src/Resolver/Samples.antt =====
-- Sample data of the resolver: a request path that names the sample endpoint slice.
use contrib_filteredapiexpor.Prelude.{String, false, refl, inr, arith, eq_iff}
use contrib_filteredapiexpor.Error.{api, err}
use contrib_filteredapiexpor.Text.{
  split, split_n, cons_head, has_prefix, has_suffix, trim_prefix, trim_suffix, strip_prefix,
  strip_suffix,
}
use contrib_filteredapiexpor.Url.{
  Cluster, cluster_of, digest_cluster, digest_parts, digest_url, with_slash,
}
use contrib_filteredapiexpor.Url.Shape.{IsPart, IsTail}
use contrib_filteredapiexpor.Request.{Context}
use contrib_filteredapiexpor.Resolver.{resolve}
use contrib_filteredapiexpor.Resolver.Leads.{Names}
use contrib_filteredapiexpor.Samples.{text_paths}

unfoldable pub opened : Unit {0}
unfolding cons_head split split_n strip_prefix strip_suffix has_prefix has_suffix trim_prefix
    trim_suffix with_slash cluster_of digest_cluster digest_parts digest_url resolve
opened = tt

abbrev pub no_context : Context
no_context = record { valid_cluster = err (api false "no cluster"); domain_key = "" }

abbrev pub vw_url : String
vw_url = "/vw/org/mine/clusters/consumer/api"

abbrev pub consumer : Cluster
consumer = record { name = "consumer"; wildcard = false }

pub is_head : IsPart "consumer"
is_head = (
  ground (arith, eq_iff "consumer" ""),
  (refl, (refl, (refl, (refl, (refl, (refl, (refl, (refl, tt)))))))),
)

abbrev pub names : Names text_paths "/vw" vw_url "org" "mine" consumer
unfolding opened
names = record {
  head = "consumer";
  tail = "/api";
  shape = refl;
  cluster_part = (ground (arith, eq_iff "org" ""), (refl, (refl, (refl, tt))));
  slice_part = (ground (arith, eq_iff "mine" ""), (refl, (refl, (refl, (refl, tt)))));
  targets = refl;
}

pub named_head : IsPart names.head
unfolding names
named_head = is_head

pub named_tail : IsTail names.tail
unfolding names
named_tail = inr ("api", refl)
