-- ===== src/Url/Parts.antt =====
-- How `digest_url` takes a path apart, part by part.
use Prim.Native.String.{◌∷◌, ◌++◌}
use text.Mathlib.TextLemmas.{nil-append, cons-append, append_assoc}
use contrib_filteredapiexpor.Prelude.{
  String, true, false, some, List, ◌≡◌, ◌≢◌, sym, ap, ◌∙◌, inl, inr, arith, ◌==◌, eq_iff, ==_ne,
  Option-cases,
}
use contrib_filteredapiexpor.Text.{
  split, split_n, has_prefix, trim_prefix, trim_suffix, strip_prefix,
}
use contrib_filteredapiexpor.Text.Laws.{
  Without, strip_prefix-append, strip_prefix_sound, strip_suffix-append, strip_suffix_clean,
  split-append, split_of_Without, split_n-append, split_n_one,
}
use contrib_filteredapiexpor.Url.{
  Cluster, Digest, Paths, cluster_of, digest_cluster, digest_parts, digest_url, first_part,
  path_after,
}
use contrib_filteredapiexpor.Url.Shape.{IsPart, address}

pub slash-append : (s : String) → "/" ++ s ≡ ("/" ∷ s)
slash-append s = rw cons-append (rw nil-append)

-- What `HasPrefix` and `TrimPrefix` find together.
pub prefix_split : (s p : String) → has_prefix s p ≡ true → s ≡ p ++ trim_prefix s p
unfolding has_prefix trim_prefix
prefix_split s p h = elim (Option-cases (strip_prefix p s)) [
  | inl e ↦ ground (arith, e)
  | inr (r, e) ↦ rw e (strip_prefix_sound p s e)
]

has_prefix-append : (p s : String) → has_prefix (p ++ s) p ≡ true
unfolding has_prefix
has_prefix-append p s = rw (strip_prefix-append p s, has_prefix)

trim_prefix-append : (p s : String) → trim_prefix (p ++ s) p ≡ s
unfolding trim_prefix
trim_prefix-append p s = rw strip_prefix-append

pub trim_suffix-append : (s p : String) → trim_suffix (s ++ p) p ≡ s
unfolding trim_suffix
trim_suffix-append s p = rw strip_suffix-append

pub trim_suffix_clean : (x h : String) → h ≢ "" → Without "/" h → trim_suffix (x ++ h) "/" ≡ x ++ h
unfolding trim_suffix
trim_suffix_clean x h n w = rw (strip_suffix_clean "/" x h n w)

pub split-domain_key :
    (cluster_name slice_name : String)
    → Without "/" cluster_name
    → Without "/" slice_name
    → split "/" (cluster_name ++ "/" ++ slice_name)
      ≡ List.◌∷◌ cluster_name (List.◌∷◌ slice_name List.[])
split-domain_key c s w v =
    rw (slash-append s) (rw (split-append "/" c s w) (rw (split_of_Without "/" s v)))

ne→test : (s : String) → s ≢ "" → (s == "") ≡ false
ne→test s n = ==_ne s "" n

test→ne : (s : String) → (s == "") ≡ false → s ≢ ""
test→ne s h e = ground (arith, eq_iff s "")

-- The two ways in which the part behind `/clusters/` ends the path.
module _ (paths : Paths) where
  pub digest_cluster-tail :
      (stem key head t : String) {cluster : Cluster}
      → cluster_of paths head ≡ some cluster
      → digest_cluster paths (stem ++ ("/" ∷ t)) key (List.◌∷◌ head (List.◌∷◌ t List.[]))
        ≡ some (record { cluster = cluster; domain_key = key; logical_path = stem })
  unfolding digest_cluster
  digest_cluster-tail stem key head t h =
      ground (arith, h, slash-append t, trim_suffix-append stem ("/" ∷ t))

  pub digest_cluster_end :
      (x key head : String) {cluster : Cluster}
      → head ≢ ""
      → Without "/" head
      → cluster_of paths head ≡ some cluster
      → digest_cluster paths (x ++ head) key (List.◌∷◌ head List.[])
        ≡ some (record { cluster = cluster; domain_key = key; logical_path = x ++ head })
  unfolding digest_cluster
  digest_cluster_end x key head n w h = ground (arith, h, trim_suffix_clean x head n w)

  pub digest_cluster_sound :
      (url key : String) (parts : List String) {d : Digest}
      → digest_cluster paths url key parts ≡ some d
      → (cluster_of paths (first_part parts) ≡ some d.cluster)
        × (d.domain_key ≡ key)
        × (d.logical_path ≡ trim_suffix url (path_after parts))
  unfolding digest_cluster
  digest_cluster_sound url key parts h = ground arith

  digest_parts-clusters :
      (url cn sn x : String)
      → cn ≢ ""
      → sn ≢ ""
      → digest_parts paths url cn sn ("clusters/" ++ x)
        ≡ digest_cluster paths url (cn ++ "/" ++ sn) (split_n "/" 2 x)
  unfolding digest_parts
  digest_parts-clusters url cn sn x n m =
      rw (ne→test cn n, ne→test sn m)
        (rw (slash-append ("clusters/" ++ x)) (
          rw (← cons-append "/" "clusters/" x)
            (rw (has_prefix-append "/clusters/" x) (rw (trim_prefix-append "/clusters/" x)))))

  digest_url-parts :
      (prefix cn sn rest : String)
      → Without "/" cn
      → Without "/" sn
      → digest_url paths (prefix ++ (cn ++ ("/" ∷ (sn ++ ("/" ∷ rest))))) prefix
        ≡ digest_parts paths (prefix ++ (cn ++ ("/" ∷ (sn ++ ("/" ∷ rest))))) cn sn rest
  unfolding digest_url
  digest_url-parts prefix cn sn rest w v =
      let whole = cn ++ ("/" ∷ (sn ++ ("/" ∷ rest))) in
      let three : split_n "/" 3 whole ≡ List.◌∷◌ cn (List.◌∷◌ sn (List.◌∷◌ rest List.[])) =
        rw (split_n-append "/" 1 cn (sn ++ ("/" ∷ rest)) w)
          (rw (split_n-append "/" 0 sn rest v) (rw (split_n_one "/" rest))) in
      rw (has_prefix-append prefix whole) (rw (trim_prefix-append prefix whole) (rw three))

pub address-append :
    (prefix cn sn head tail : String)
    → address prefix cn sn head ++ tail ≡ address prefix cn sn (head ++ tail)
address-append prefix cn sn head tail =
    rw append_assoc (
      rw (append_assoc cn) (rw cons-append (rw (append_assoc sn) (rw (append_assoc "/clusters/")))))

pub address_end :
    (prefix cn sn head : String) → address prefix cn sn "" ++ head ≡ address prefix cn sn head
address_end prefix cn sn head =
    address-append prefix cn sn "" head ∙ ap (address prefix cn sn) (nil-append head)

address_slash :
    (prefix cn sn x : String)
    → address prefix cn sn x ≡ prefix ++ (cn ++ ("/" ∷ (sn ++ ("/" ∷ ("clusters/" ++ x)))))
address_slash prefix cn sn x = rw (cons-append "/" "clusters/" x)

module _ (paths : Paths) where
  pub digest_url-clusters :
      (prefix cn sn x : String)
      → IsPart cn
      → IsPart sn
      → digest_url paths (address prefix cn sn x) prefix
        ≡ digest_cluster paths (address prefix cn sn x) (cn ++ "/" ++ sn) (split_n "/" 2 x)
  digest_url-clusters prefix cn sn x (n, w) (m, v) =
      ap (λ u. digest_url paths u prefix) (address_slash prefix cn sn x)
      ∙ digest_url-parts paths prefix cn sn ("clusters/" ++ x) w v
      ∙ ap (λ u. digest_parts paths u cn sn ("clusters/" ++ x)) (sym (address_slash prefix cn sn x))
      ∙ digest_parts-clusters paths (address prefix cn sn x) cn sn x n m
  -- A path of the described shape is accepted, and digested to what its parts say.
