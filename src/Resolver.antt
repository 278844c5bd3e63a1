-- ===== src/Resolver.antt =====
-- internal/virtual/filteredapiexport/builder/build.go: the root path resolver, which puts what a path is
-- digested to into the request's context.
pub mod Leads
pub mod Serves
pub mod Writes
pub mod Samples
mod Tests
mod ServesTests
use contrib_filteredapiexpor.Prelude.{String, Bool, true, false, Option, none, some, ◌==◌}
use contrib_filteredapiexpor.Error.{ok}
use contrib_filteredapiexpor.Url.{Paths, digest_url, with_slash}
use contrib_filteredapiexpor.Request.{Context}

-- What the resolver returns.
pub record Resolution : Type 0 where
  pub accepted : Bool
  pub prefix_to_strip : String
  pub completed_context : Context

-- RootPathResolver of BuildVirtualWorkspace, for its root path prefix; WithCluster and WithAPIDomainKey
-- set what ValidClusterFrom and APIDomainKeyFrom read.
unfoldable pub resolve : Paths → String → String → Context → Resolution
resolve paths root_path_prefix url_path ctx =
    elim (digest_url paths url_path (with_slash root_path_prefix)) [
      | none ↦ record { accepted = false; prefix_to_strip = ""; completed_context = ctx }
      | some d ↦ record {
        accepted = true;
        prefix_to_strip = d.logical_path;
        completed_context = record { valid_cluster = ok d.cluster; domain_key = d.domain_key };
      }
    ]
