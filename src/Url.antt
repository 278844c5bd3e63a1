-- ===== src/Url.antt =====
-- internal/virtual/filteredapiexport/builder/build.go: the request path of the virtual workspace,
-- `digestUrl`.
pub mod Shape
pub mod Parts
pub mod Laws
mod Tests
use Prim.Native.String.{◌++◌}
use contrib_filteredapiexpor.Prelude.{
  String, Bool, true, false, not, Option, none, some, List, [], ◌∷◌, ◌==◌, if◌then◌else◌,
}
use contrib_filteredapiexpor.Text.{split_n, has_prefix, has_suffix, trim_prefix, trim_suffix}

-- genericapirequest.Cluster, the fields that the program reads and writes
pub record Cluster : Type 0 where
  pub name : String
  pub wildcard : Bool

-- The package logicalcluster: `NewPath`, the comparison with `Wildcard`, and `Path.Name`.
pub record Paths : Type 1 where
  pub LogicalPath : Type 0
  pub new_path : String → LogicalPath
  pub is_wildcard : LogicalPath → Bool
  pub name : LogicalPath → Option String

-- The four results of `digestUrl` on an accepted path.
pub record Digest : Type 0 where
  pub cluster : Cluster
  pub domain_key : String
  pub logical_path : String

-- VirtualWorkspaceName
abbrev pub virtual_workspace_name : String
virtual_workspace_name = "filtered-apiexport"

-- The slash that `BuildVirtualWorkspace` adds to the root path prefix.
unfoldable pub with_slash : String → String
with_slash root_path_prefix =
    if not (has_suffix root_path_prefix "/") then root_path_prefix ++ "/" else root_path_prefix

-- parts[0] of a split
abbrev pub first_part : List String → String
first_part [] = ""
first_part (p ∷ _) = p

-- "/", and parts[1] where there is one
abbrev pub path_after : List String → String
path_after (_ ∷ rest ∷ _) = "/" ++ rest
path_after _ = "/"

module _ (paths : Paths) where
  -- The cluster that the parsed path names; `none` where `path.Name()` fails.
  unfoldable pub cluster_of : String → Option Cluster
  cluster_of text =
      let path = paths.new_path text in
      if paths.is_wildcard path
      then some (record { name = ""; wildcard = true })
      else elim (paths.name path) [
        | none ↦ none
        | some name ↦ some (record { name = name; wildcard = false })
      ]

  -- The end of `digestUrl`, from the parts of what follows `/clusters/`.
  unfoldable pub digest_cluster : String → String → List String → Option Digest
  unfolding cluster_of
  digest_cluster url_path key parts = elim (cluster_of (first_part parts)) [
    | none ↦ none
    | some cluster ↦ some (record {
      cluster = cluster;
      domain_key = key;
      logical_path = trim_suffix url_path (path_after parts);
    })
  ]

  -- `digestUrl` once the path has its first two parts.
  unfoldable pub digest_parts : String → String → String → String → Option Digest
  unfolding digest_cluster
  digest_parts url_path cluster_name slice_name rest =
      if cluster_name == ""
      then none
      else if slice_name == ""
      then none
      else if not (has_prefix ("/" ++ rest) "/clusters/")
      then none
      else digest_cluster url_path (cluster_name ++ "/" ++ slice_name)
          (split_n "/" 2 (trim_prefix ("/" ++ rest) "/clusters/"))

  unfoldable pub digest_url : String → String → Option Digest
  unfolding digest_parts
  digest_url url_path root_path_prefix =
      if not (has_prefix url_path root_path_prefix)
      then none
      else elim (split_n "/" 3 (trim_prefix url_path root_path_prefix)) [
        | cluster_name ∷ slice_name ∷ rest ∷ _ ↦ digest_parts url_path cluster_name slice_name rest
        | _ ↦ none
      ]
