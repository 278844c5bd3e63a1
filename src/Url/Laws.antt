-- ===== src/Url/Laws.antt =====
-- builder/build.go: `digest_url` on the paths of `Shape`.
use Prim.Native.String.{◌∷◌, ◌++◌}
use text.Mathlib.TextLemmas.{append-nil}
use contrib_filteredapiexpor.Prelude.{
  String, true, some, List, ◌≡◌, ◌≢◌, refl, sym, ap, ◌∙◌, inl, inr, arith, eq_iff,
}
use contrib_filteredapiexpor.Text.{split_n, has_prefix, trim_prefix, trim_suffix}
use contrib_filteredapiexpor.Text.Laws.{
  Without, split_n-append, split_n_of_Without, split_n-Cut, split_n_one, split_n_two,
}
use contrib_filteredapiexpor.Url.{
  Cluster, Digest, Paths, cluster_of, digest_cluster, digest_parts, digest_url,
}
use contrib_filteredapiexpor.Url.Shape.{IsPart, IsTail, IsServed, address}
use contrib_filteredapiexpor.Url.Parts.{
  slash-append, prefix_split, trim_suffix-append, trim_suffix_clean, split-domain_key,
  digest_cluster-tail, digest_cluster_end, digest_cluster_sound, address-append, address_end,
  digest_url-clusters,
}

module _ (paths : Paths) where
  pub digest_url-address :
      (prefix cn sn head tail : String) {cluster : Cluster}
      → IsPart cn
      → IsPart sn
      → IsPart head
      → IsTail tail
      → cluster_of paths head ≡ some cluster
      → digest_url paths (address prefix cn sn head ++ tail) prefix
        ≡ some (record {
          cluster = cluster;
          domain_key = cn ++ "/" ++ sn;
          logical_path = address prefix cn sn head;
        })
  digest_url-address prefix cn sn head tail c s (k, u) (inl e) h = rw e (
      rw append-nil (
        digest_url-clusters paths prefix cn sn head c s
        ∙ rw (split_n_of_Without "/" 0 head u) (
            rw (← address_end prefix cn sn head)
              (digest_cluster_end paths (address prefix cn sn "") _ head k u h))))
  digest_url-address prefix cn sn head tail c s (k, u) (inr (t, e)) h = rw e (
      ap (λ r. digest_url paths r prefix) (address-append prefix cn sn head ("/" ∷ t))
      ∙ digest_url-clusters paths prefix cn sn (head ++ ("/" ∷ t)) c s
      ∙ rw (split_n-append "/" 0 head t u) (
          rw (split_n_one "/" t) (
            rw (← address-append prefix cn sn head ("/" ∷ t))
              (digest_cluster-tail paths _ _ head t h))))

  digest_url-inv :
      (url prefix : String) (d : Digest)
      → digest_url paths url prefix ≡ some d
      → (cn : String) × (sn : String) × (rest : String) × (more : List String) × (has_prefix url
            prefix
          ≡ true)
        × (split_n "/" 3 (trim_prefix url prefix) ≡ List.◌∷◌ cn (List.◌∷◌ sn (List.◌∷◌ rest more)))
        × (digest_parts paths url cn sn rest ≡ some d)
  unfolding digest_url
  digest_url-inv url prefix d h = go (split_n "/" 3 (trim_prefix url prefix)) refl
    where
      go :
          (parts : List String)
          → split_n "/" 3 (trim_prefix url prefix) ≡ parts
          → (cn : String) × (sn : String) × (rest : String) × (more : List String) × (has_prefix url
                prefix
              ≡ true)
            × (split_n "/" 3 (trim_prefix url prefix)
                ≡ List.◌∷◌ cn (List.◌∷◌ sn (List.◌∷◌ rest more)))
            × (digest_parts paths url cn sn rest ≡ some d)
      go (List.◌∷◌ cn (List.◌∷◌ sn (List.◌∷◌ rest more))) e =
          (cn, sn, rest, more, ground arith, e, ground arith)
      go (List.◌∷◌ cn (List.◌∷◌ sn List.[])) e = absurd (ground arith)
      go (List.◌∷◌ cn List.[]) e = absurd (ground arith)
      go List.[] e = absurd (ground arith)

  digest_parts-inv :
      (url cn sn rest : String) (d : Digest)
      → digest_parts paths url cn sn rest ≡ some d
      → (cn ≢ "")
        × (sn ≢ "")
        × (has_prefix ("/" ++ rest) "/clusters/" ≡ true)
        × (digest_cluster paths url
              (cn ++ "/" ++ sn)
              (split_n "/" 2 (trim_prefix ("/" ++ rest) "/clusters/"))
            ≡ some d)
  unfolding digest_parts
  digest_parts-inv url cn sn rest d h =
      (ground (arith, eq_iff cn ""), ground (arith, eq_iff sn ""), ground arith, ground arith)

  -- The text that the first two cuts and the prefix `/clusters/` describe.
  url_of_parts :
      (url prefix cn sn rest : String) {more : List String}
      → has_prefix url prefix ≡ true
      → split_n "/" 3 (trim_prefix url prefix) ≡ List.◌∷◌ cn (List.◌∷◌ sn (List.◌∷◌ rest more))
      → has_prefix ("/" ++ rest) "/clusters/" ≡ true
      → (url ≡ address prefix cn sn (trim_prefix ("/" ++ rest) "/clusters/"))
        × Without "/" cn
        × Without "/" sn
  url_of_parts url prefix cn sn rest hp three hc =
      let one = split_n-Cut "/" 1 (trim_prefix url prefix) three in
      let two = split_n-Cut "/" 0 one.after one.next in
      let x = trim_prefix ("/" ++ rest) "/clusters/" in
      let last : two.after ≡ rest = cc (split_n_one "/" two.after, two.next) in
      let clusters : ("/" ∷ rest) ≡ "/clusters/" ++ x =
        sym (slash-append rest) ∙ prefix_split ("/" ++ rest) "/clusters/" hc in
      (
        prefix_split url prefix hp
            ∙ ap (λ t. prefix ++ t)
                (one.whole
                  ∙ ap (λ t. cn ++ ("/" ∷ t))
                      (two.whole ∙ ap (λ t. sn ++ t) (ap (λ t. "/" ∷ t) last ∙ clusters))),
        one.clean,
        two.clean,
      )

  -- The description of a path, from its first parts and what follows `/clusters/`.
  module _ (url prefix cn sn x : String) (d : Digest) (whole : url ≡ address prefix cn sn x)
      (c : IsPart cn) (s : IsPart sn) where
    IsServed-end :
        digest_cluster paths url (cn ++ "/" ++ sn) (List.◌∷◌ x List.[]) ≡ some d
        → Without "/" x
        → IsServed paths url prefix d
    IsServed-end h u =
        let (target, key, logical) = digest_cluster_sound paths url _ _ h in
        record {
          cluster_name = cn;
          slice_name = sn;
          head = x;
          tail = "";
          url_shape = rw append-nil whole;
          cluster_part = c;
          slice_part = s;
          head_clean = u;
          tail_shape = inl refl;
          target = target;
          key_parts = rw key (split-domain_key cn sn c.1 s.1);
          logical = λ k.
              logical
              ∙ ap (λ r. trim_suffix r "/") (whole ∙ sym (address_end prefix cn sn x))
              ∙ trim_suffix_clean (address prefix cn sn "") x k u
              ∙ address_end prefix cn sn x;
        }

    IsServed-tail :
        (a t : String)
        → x ≡ a ++ ("/" ∷ t)
        → digest_cluster paths url (cn ++ "/" ++ sn) (List.◌∷◌ a (List.◌∷◌ t List.[])) ≡ some d
        → Without "/" a
        → IsServed paths url prefix d
    IsServed-tail a t e h u =
        let (target, key, logical) = digest_cluster_sound paths url _ _ h in
        let shape : url ≡ address prefix cn sn a ++ ("/" ∷ t) =
          whole ∙ ap (address prefix cn sn) e ∙ sym (address-append prefix cn sn a ("/" ∷ t)) in
        record {
          cluster_name = cn;
          slice_name = sn;
          head = a;
          tail = "/" ∷ t;
          url_shape = shape;
          cluster_part = c;
          slice_part = s;
          head_clean = u;
          tail_shape = inr (t, refl);
          target = target;
          key_parts = rw key (split-domain_key cn sn c.1 s.1);
          logical = λ k.
              logical
              ∙ ap (trim_suffix url) (slash-append t)
              ∙ ap (λ r. trim_suffix r ("/" ∷ t)) shape
              ∙ trim_suffix-append (address prefix cn sn a) ("/" ∷ t);
        }

  -- Every path that digestUrl accepts has the documented shape, the cluster and the domain key are those of
  -- its parts, and so is the logical path, where the part of the cluster is not empty.
  pub digest_url-IsServed :
      (url prefix : String) (d : Digest)
      → digest_url paths url prefix ≡ some d
      → IsServed paths url prefix d
  digest_url-IsServed url prefix d h =
      let (cn, sn, rest, more, hp, three, parts) = digest_url-inv url prefix d h in
      let (n, m, hc, rest_of) = digest_parts-inv url cn sn rest d parts in
      let (whole, w, v) = url_of_parts url prefix cn sn rest hp three hc in
      let x = trim_prefix ("/" ++ rest) "/clusters/" in
      elim (split_n_two "/" x) [
        | inl (u, e) ↦ IsServed-end url prefix cn sn x d whole (n, w) (m, v) (rw e at rest_of) u
        | inr (a, t, e2, u, e) ↦
            IsServed-tail url prefix cn sn x d whole (n, w) (m, v) a t e2 (rw e at rest_of) u
      ]
