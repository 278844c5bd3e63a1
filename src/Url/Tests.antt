-- ===== src/Url/Tests.antt =====
-- The request path at concrete texts.
use contrib_filteredapiexpor.Prelude.{false, none, some, ◌≡◌, refl, arith, eq_iff, inr}
use contrib_filteredapiexpor.Text.{
  split, split_n, cons_head, has_prefix, trim_prefix, trim_suffix, strip_prefix, strip_suffix,
}
use contrib_filteredapiexpor.Url.{
  Cluster, Digest, cluster_of, digest_cluster, digest_parts, digest_url,
}
use contrib_filteredapiexpor.Url.Shape.{IsServed}
use contrib_filteredapiexpor.Url.Laws.{digest_url-address, digest_url-IsServed}
use contrib_filteredapiexpor.Samples.{text_paths}

opened : Unit {0}
unfolding cons_head split split_n strip_prefix strip_suffix has_prefix trim_prefix trim_suffix
    cluster_of digest_cluster digest_parts digest_url
opened = tt

abbrev consumer : Cluster
consumer = record { name = "consumer"; wildcard = false }

abbrev sample_digest : Digest
sample_digest = record {
  cluster = consumer;
  domain_key = "org/mine";
  logical_path = "/vw/org/mine/clusters/consumer";
}

-- A path without `/clusters/` is not accepted.
refused : digest_url text_paths "/vw/org/mine/cluster/consumer" "/vw/" ≡ none
unfolding opened
refused = refl

digest_url-address_example :
    digest_url text_paths "/vw/org/mine/clusters/consumer/api" "/vw/" ≡ some sample_digest
unfolding opened
digest_url-address_example =
    digest_url-address text_paths "/vw/" "org" "mine" "consumer" "/api" {cluster = consumer}
      (ground (arith, eq_iff "org" ""), (refl, (refl, (refl, tt))))
      (ground (arith, eq_iff "mine" ""), (refl, (refl, (refl, (refl, tt)))))
      (
        ground (arith, eq_iff "consumer" ""),
        (refl, (refl, (refl, (refl, (refl, (refl, (refl, (refl, tt)))))))),
      )
      (inr ("api", refl)) refl

digest_url-IsServed_example :
    IsServed text_paths "/vw/org/mine/clusters/consumer/api" "/vw/" sample_digest
unfolding opened
digest_url-IsServed_example =
    digest_url-IsServed text_paths "/vw/org/mine/clusters/consumer/api" "/vw/" sample_digest refl
