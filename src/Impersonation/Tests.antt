-- ===== src/Impersonation/Tests.antt =====
-- The client of requests of a user with one extra field.
use mathlib.Core.List.{◌++◌}
use contrib_filteredapiexpor.Prelude.{String, false, none, some, [], ◌∷◌, ◌≡◌, refl}
use contrib_filteredapiexpor.Error.{ok}
use contrib_filteredapiexpor.Url.{Cluster}
use contrib_filteredapiexpor.Impersonation.{
  write_back, Impersonated, Identity, Extra, Warrant, impersonating, ClientOps, values_of,
  append_value, extra_of, impersonate, get_client,
}
use contrib_filteredapiexpor.Impersonation.Warrants.{
  IsClientOf, get_client-IsClientOf, after_requests, warrants_of, warrants_stay,
}

abbrev user_of : Warrant → String
user_of w = w.user

abbrev sample_ops : ClientOps
sample_ops = record {
  cluster_name_key = "authentication.kcp.io/cluster-name";
  system_admin_group = "system:kcp:admin";
  warrant_extra_key = "authorization.kcp.io/warrant";
  cluster_path = λ name. name;
  marshal = λ w. ok (user_of w);
  new_for_config = λ config. none;
}

abbrev alice : Identity
alice = record { name = "alice"; groups = "dev" ∷ []; uid = "1" }

abbrev alice_extra : Extra
alice_extra = ("scopes", "a" ∷ []) ∷ []

abbrev first_cluster : Cluster
first_cluster = record { name = "org"; wildcard = false }

abbrev second_cluster : Cluster
second_cluster = record { name = "team"; wildcard = false }

get_client-IsClientOf_example :
    IsClientOf sample_ops (ok first_cluster) (some alice) (some alice_extra) (
      impersonating (record {
        identity = alice;
        extra =
            append_value "authorization.kcp.io/warrant" "system:serviceaccount:default:rest"
              alice_extra;
      }))
unfolding get_client impersonate extra_of
get_client-IsClientOf_example =
    get_client-IsClientOf sample_ops (ok first_cluster) (some alice) (some alice_extra)
      (impersonating (record {
        identity = alice;
        extra =
            append_value "authorization.kcp.io/warrant" "system:serviceaccount:default:rest"
              alice_extra;
      }))
      refl

-- The client of a request after the first one.
abbrev second_client : Impersonated
second_client = record {
  identity = alice;
  extra = append_value "authorization.kcp.io/warrant" "system:serviceaccount:default:rest" (
      append_value "authorization.kcp.io/warrant" "system:serviceaccount:default:rest" alice_extra);
}

carries :
    (get_client sample_ops
      (ok second_cluster)
      (some alice)
      (after_requests sample_ops alice (first_cluster ∷ []) (some alice_extra))).0
    ≡ ok (impersonating second_client)
unfolding get_client impersonate extra_of write_back after_requests
carries = refl

warrants_stay_example :
    (values_of sample_ops.warrant_extra_key
        (extra_of (after_requests sample_ops alice (first_cluster ∷ []) (some alice_extra)))
      ≡ values_of sample_ops.warrant_extra_key alice_extra
        ++ warrants_of sample_ops user_of (first_cluster ∷ []))
    × (values_of sample_ops.warrant_extra_key second_client.extra
        ≡ values_of sample_ops.warrant_extra_key alice_extra
          ++ warrants_of sample_ops user_of (first_cluster ∷ second_cluster ∷ []))
warrants_stay_example =
    warrants_stay sample_ops user_of (λ w. refl) alice (first_cluster ∷ []) alice_extra
      second_cluster second_client refl carries
