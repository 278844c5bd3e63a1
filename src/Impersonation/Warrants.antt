-- ===== src/Impersonation/Warrants.antt =====
-- Whom the client of a request impersonates, and which warrants it carries.
use mathlib.Core.List.{◌++◌, append-nil, append_assoc}
use contrib_filteredapiexpor.Prelude.{
  String, true, false, Option, none, some, List, [], ◌∷◌, ◌≡◌, ◌≢◌, ◌⊎◌, inl, inr, refl, sym, ap,
  ◌∙◌, arith, Bool-cases, Option-cases, if◌then◌else◌,
}
use contrib_filteredapiexpor.Error.{Result, ok, err, Result-cases}
use contrib_filteredapiexpor.Url.{Cluster}
use contrib_filteredapiexpor.KeyMap.{text_keys, get-put_same, get-put_other}
use contrib_filteredapiexpor.Impersonation.{
  Identity, Extra, Warrant, Impersonated, Client, privileged, impersonating, ClientOps, warrant_of,
  values_of, append_value, extra_of, write_back, impersonate, get_client,
}

values_of-append_value :
    (key value : String) (extra : Extra)
    → values_of key (append_value key value extra) ≡ values_of key extra ++ value ∷ []
unfolding values_of append_value
values_of-append_value key value extra =
    rw (get-put_same text_keys key (values_of key extra ++ value ∷ []) extra, values_of) refl

values_of-append_value_other :
    (key other value : String) (extra : Extra)
    → key ≢ other
    → values_of other (append_value key value extra) ≡ values_of other extra
unfolding values_of append_value
values_of-append_value_other key other value extra n =
    rw (get-put_other text_keys key other (values_of key extra ++ value ∷ []) extra n, values_of)
      refl

module _ (ops : ClientOps) where
  open ops use {warrant_extra_key, marshal}

  -- The client acts as the user, with the user's extra fields and one more warrant: that of the cluster.
  pub record ActsAs (identity : Identity) (user_extra : Option Extra) (cluster : Cluster)
      (c : Impersonated) : Type 0 where
    pub same_identity : c.identity ≡ identity
    pub bs : String
    pub marshaled : marshal (warrant_of ops cluster) ≡ ok bs
    pub warrants :
        values_of warrant_extra_key c.extra
        ≡ values_of warrant_extra_key (extra_of user_extra) ++ bs ∷ []
    pub others :
        (key : String)
        → warrant_extra_key ≢ key
        → values_of key c.extra ≡ values_of key (extra_of user_extra)

  -- The client of a request is the program's own where the request is for all clusters, and otherwise
  -- acts as the user.
  pub record IsClientOf (valid_cluster : Result Cluster) (user : Option Identity)
      (user_extra : Option Extra) (client : Client) : Type 0 where
    pub cluster : Cluster
    pub has_cluster : valid_cluster ≡ ok cluster
    pub identity : Identity
    pub has_user : user ≡ some identity
    pub acts :
        ((cluster.wildcard ≡ true) × (client ≡ privileged))
        ⊎ ((cluster.wildcard ≡ false)
            × ((c : Impersonated) × (client ≡ impersonating c)
                × ActsAs identity user_extra cluster c))

  impersonate-ActsAs :
      (identity : Identity) (user_extra : Option Extra) (cluster : Cluster) (client : Client)
      → (impersonate ops identity user_extra cluster).0 ≡ ok client
      → (c : Impersonated) × (client ≡ impersonating c) × ActsAs identity user_extra cluster c
  unfolding impersonate
  impersonate-ActsAs identity user_extra cluster client h =
      elim (Result-cases (marshal (warrant_of ops cluster))) [
        | inr (x, e) ↦ absurd (ground (arith, h, e))
        | inl (bs, e) ↦
            let extra = append_value warrant_extra_key bs (extra_of user_extra) in
            let c : Impersonated = record { identity = identity; extra = extra } in
            elim (Option-cases (ops.new_for_config c)) [
              | inr (x, f) ↦ absurd (ground (arith, rw f at (rw (e, impersonate) at h)))
              | inl f ↦ (
                c,
                sym (ground (arith, rw f at (rw (e, impersonate) at h))),
                record {
                  same_identity = refl;
                  bs = bs;
                  marshaled = e;
                  warrants = values_of-append_value warrant_extra_key bs (extra_of user_extra);
                  others = λ key n.
                      values_of-append_value_other warrant_extra_key key bs (extra_of user_extra) n;
                },
              )
            ]
      ]

  -- A request gets a client only with a cluster and a user. The client is the program's own exactly
  -- where the request is for all clusters; otherwise it acts as the user, with the user's extra fields,
  -- and with one warrant more than the user has: that of the cluster.
  pub get_client-IsClientOf :
      (valid_cluster : Result Cluster) (user : Option Identity) (user_extra : Option Extra)
      (client : Client)
      → (get_client ops valid_cluster user user_extra).0 ≡ ok client
      → IsClientOf valid_cluster user user_extra client
  unfolding get_client
  get_client-IsClientOf (err e) user user_extra client h = absurd (ground (arith, h))
  get_client-IsClientOf (ok cluster) none user_extra client h = absurd (ground (arith, h))
  get_client-IsClientOf (ok cluster) (some identity) user_extra client h = record {
    cluster = cluster;
    has_cluster = refl;
    identity = identity;
    has_user = refl;
    acts = elim (Bool-cases cluster.wildcard) [
      | inl y ↦ inl (y, sym (ground (arith, h, y)))
      | inr n ↦
          inr (n, impersonate-ActsAs identity user_extra cluster client (ground (arith, h, n)))
    ];
  }

  -- What requests with one user object leave of the map of its extra fields, one after the other.
  unfoldable pub after_requests : Identity → List Cluster → Option Extra → Option Extra
  after_requests identity [] user_extra = user_extra
  after_requests identity (cluster ∷ clusters) user_extra =
      after_requests identity clusters (get_client ops (ok cluster) (some identity) user_extra).1

  -- The warrants of the clusters, less those that stand for all clusters.
  unfoldable pub warrants_of : (Warrant → String) → List Cluster → List String
  warrants_of to_text [] = []
  warrants_of to_text (cluster ∷ clusters) =
      let rest = warrants_of to_text clusters in
      if cluster.wildcard then rest else to_text (warrant_of ops cluster) ∷ rest

  module _ (to_text : Warrant → String) (total : (w : Warrant) → marshal w ≡ ok (to_text w))
      (identity : Identity) where
    impersonate_leaves :
        (cluster : Cluster) (extra : Extra)
        → (impersonate ops identity (some extra) cluster).1
          ≡ some (append_value warrant_extra_key (to_text (warrant_of ops cluster)) extra)
    unfolding impersonate write_back extra_of
    impersonate_leaves cluster extra =
        let c : Impersonated = record {
          identity = identity;
          extra = append_value warrant_extra_key (to_text (warrant_of ops cluster)) extra;
        } in
        elim (Option-cases (ops.new_for_config c)) [
          | inl f ↦ rw (total (warrant_of ops cluster), impersonate) (rw f refl)
          | inr (x, f) ↦ rw (total (warrant_of ops cluster), impersonate) (rw f refl)
        ]

    left_in_map :
        (cluster : Cluster) (extra : Extra)
        → cluster.wildcard ≡ false
        → (get_client ops (ok cluster) (some identity) (some extra)).1
          ≡ some (append_value warrant_extra_key (to_text (warrant_of ops cluster)) extra)
    unfolding get_client
    left_in_map cluster extra n = ground (arith, n, impersonate_leaves cluster extra)

    left_alone :
        (cluster : Cluster) (user_extra : Option Extra)
        → cluster.wildcard ≡ true
        → (get_client ops (ok cluster) (some identity) user_extra).1 ≡ user_extra
    unfolding get_client
    left_alone cluster user_extra y = ground (arith, y)

    warrants_left :
        (clusters : List Cluster) (extra : Extra)
        → values_of warrant_extra_key (extra_of (after_requests identity clusters (some extra)))
          ≡ values_of warrant_extra_key extra ++ warrants_of to_text clusters
    unfolding after_requests warrants_of extra_of
    warrants_left [] extra = sym (append-nil (values_of warrant_extra_key extra))
    warrants_left (cluster ∷ clusters) extra = elim (Bool-cases cluster.wildcard) [
      | inl y ↦ rw (left_alone cluster (some extra) y) (rw y (warrants_left clusters extra))
      | inr n ↦
          let more = append_value warrant_extra_key (to_text (warrant_of ops cluster)) extra in
          let added =
            values_of-append_value warrant_extra_key (to_text (warrant_of ops cluster)) extra in
          rw (left_in_map cluster extra n) (
            rw n (
              warrants_left clusters more
              ∙ ap (λ l. l ++ warrants_of to_text clusters) added
              ∙ append_assoc (values_of warrant_extra_key extra) _ _))
    ]

    warrants_of-append :
        (clusters : List Cluster) (cluster : Cluster)
        → cluster.wildcard ≡ false
        → warrants_of to_text (clusters ++ (cluster ∷ []))
          ≡ warrants_of to_text clusters ++ (to_text (warrant_of ops cluster) ∷ [])
    unfolding warrants_of
    warrants_of-append [] cluster n = ground (arith, n)
    warrants_of-append (first ∷ clusters) cluster n =
        let rest = warrants_of-append clusters cluster n in
        elim (Bool-cases first.wildcard) [
          | inl y ↦ rw y rest
          | inr z ↦ rw z (ap (λ l. to_text (warrant_of ops first) ∷ l) rest)
        ]

    -- Where every warrant can be marshaled, requests with one user object that has a map of extra fields
    -- leave their warrants in that map, in their order (those of requests for all clusters leave none);
    -- and a client that impersonates the user in a later request for one cluster carries, after the
    -- warrants that the user had, those of all the requests before it and its own.
    pub warrants_stay :
        (clusters : List Cluster) (extra : Extra) (cluster : Cluster) (c : Impersonated)
        → cluster.wildcard ≡ false
        → (get_client ops
            (ok cluster)
            (some identity)
            (after_requests identity clusters (some extra))).0
          ≡ ok (impersonating c)
        → (values_of warrant_extra_key (extra_of (after_requests identity clusters (some extra)))
            ≡ values_of warrant_extra_key extra ++ warrants_of to_text clusters)
          × (values_of warrant_extra_key c.extra
              ≡ values_of warrant_extra_key extra
                ++ warrants_of to_text (clusters ++ (cluster ∷ [])))
    unfolding get_client
    warrants_stay clusters extra cluster c n h =
        let left = warrants_left clusters extra in
        let (c', same, acts) =
          impersonate-ActsAs identity (after_requests identity clusters (some extra)) cluster
            (impersonating c) (ground (arith, h, n)) in
        let is_c : c ≡ c' = ground (arith, same) in
        let own : acts.bs ≡ to_text (warrant_of ops cluster) =
          ground (arith, acts.marshaled, total (warrant_of ops cluster)) in
        (
          left,
          ap (λ x. values_of warrant_extra_key x.extra) is_c
              ∙ acts.warrants
              ∙ ap (λ l. l ++ (acts.bs ∷ [])) left
              ∙ ap
                  (λ b.
                    (values_of warrant_extra_key extra ++ warrants_of to_text clusters) ++ (b ∷ []))
                  own
              ∙ append_assoc (values_of warrant_extra_key extra) _ _
              ∙ ap (λ l. values_of warrant_extra_key extra ++ l)
                  (sym (warrants_of-append clusters cluster n)),
        )
