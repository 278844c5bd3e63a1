-- ===== src/Url/Shape.antt =====
-- The paths that the virtual workspace serves, described without `digest_url`.
use Prim.Native.String.{◌∷◌, ◌++◌}
use mathlib.Core.List
use contrib_filteredapiexpor.Prelude.{String, some, ◌≡◌, ◌≢◌, ◌⊎◌}
use contrib_filteredapiexpor.Text.{split}
use contrib_filteredapiexpor.Text.Laws.{Without}
use contrib_filteredapiexpor.Url.{Digest, Paths, cluster_of}

-- A name that can be a part of the path.
abbrev pub IsPart : String → Type 0
IsPart s = (s ≢ "") × Without "/" s

-- Nothing, or a slash and more.
abbrev pub IsTail : String → Type 0
IsTail tail = (tail ≡ "") ⊎ ((t : String) × (tail ≡ ("/" ∷ t)))

-- The address of a logical cluster in the view of an endpoint slice:
-- `<prefix><cluster of the slice>/<slice>/clusters/<cluster>`.
abbrev pub address : String → String → String → String → String
address prefix cluster_name slice_name head =
    prefix ++ (cluster_name ++ ("/" ∷ (slice_name ++ ("/clusters/" ++ head))))

-- What an accepted path consists of, and what it is digested to.
pub record IsServed (paths : Paths) (url prefix : String) (d : Digest) : Type 0 where
  pub cluster_name : String
  pub slice_name : String
  pub head : String
  pub tail : String
  pub url_shape : url ≡ address prefix cluster_name slice_name head ++ tail
  pub cluster_part : IsPart cluster_name
  pub slice_part : IsPart slice_name
  pub head_clean : Without "/" head
  pub tail_shape : IsTail tail
  pub target : cluster_of paths head ≡ some d.cluster
  pub key_parts : split "/" d.domain_key ≡ List.◌∷◌ cluster_name (List.◌∷◌ slice_name List.[])
  pub logical : head ≢ "" → d.logical_path ≡ address prefix cluster_name slice_name head
