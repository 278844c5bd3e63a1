-- ===== src/Command/Valid.antt =====
-- Which options pass.
use mathlib.Core.List.{◌++◌}
use contrib_filteredapiexpor.Prelude.{
  String, Bool, true, false, not, none, List, [], ◌∷◌, ◌==◌, ◌≡◌, ◌≢◌, ◌↔◌, inl, inr, refl, ap,
  arith, eq_iff, Bool-cases,
}
use contrib_filteredapiexpor.Text.{has_prefix}
use contrib_filteredapiexpor.Error.{Error}
use contrib_filteredapiexpor.Command.Options.{
  Options, Validators, error_if, validate_workspace, own_errors, validate,
}

append-nil_iff : (xs ys : List Error) → (xs ++ ys ≡ []) ↔ ((xs ≡ []) × (ys ≡ []))
append-nil_iff [] ys = (λ h. (refl, h), λ (e, h). h)
append-nil_iff (x ∷ xs) ys = (λ h. absurd (ground (arith, h)), λ (e, h). absurd (ground (arith, e)))

error_if_iff : (test : Bool) (e : Error) → (error_if test e ≡ []) ↔ (test ≡ false)
error_if_iff true e = (λ h. absurd (ground (arith, h)), λ h. absurd (ground (arith, h)))
error_if_iff false e = (λ h. refl, λ h. refl)

-- What valid options have.
pub record IsValid (v : Validators) (o : Options) : Type 0 where
  pub cache : v.cache_errors ≡ []
  pub secure_serving : v.secure_serving_errors ≡ []
  pub authentication : v.authentication_errors ≡ []
  pub workspace_kubeconfig : o.virtual_workspace.kubeconfig_file ≢ ""
  pub shard_name : o.shard_name ≢ ""
  pub shard_external_url : o.shard_external_url ≢ ""
  pub local_shard_kubeconfig : o.local_shard_kubeconfig_file ≢ ""
  pub absolute_prefix : has_prefix o.root_path_prefix "/" ≡ true

given_iff : (s : String) → ((s == "") ≡ false) ↔ (s ≢ "")
given_iff s = (
  λ h p. ground (arith, h, (eq_iff s "").1 p),
  λ n. elim (Bool-cases (s == "")) [ inl e ↦ absurd (n ((eq_iff s "").0 e)) | inr e ↦ e ],
)

is_given_iff : (s : String) (e : Error) → (error_if (s == "") e ≡ []) ↔ (s ≢ "")
is_given_iff s e = (
  λ h. (given_iff s).0 ((error_if_iff (s == "") e).0 h),
  λ n. (error_if_iff (s == "") e).1 ((given_iff s).1 n),
)

own_errors_iff :
    (o : Options)
    → (own_errors o ≡ []) ↔ (
        (o.shard_name ≢ "")
        × (o.shard_external_url ≢ "")
        × (o.local_shard_kubeconfig_file ≢ "")
        × (has_prefix o.root_path_prefix "/" ≡ true))
unfolding own_errors
own_errors_iff o = (
  λ h.
      let (abc, d) = (append-nil_iff _ _).0 h in
      let (ab, c) = (append-nil_iff _ _).0 abc in
      let (a, b) = (append-nil_iff _ _).0 ab in
      (
        (is_given_iff o.shard_name _).0 a,
        (is_given_iff o.shard_external_url _).0 b,
        (is_given_iff o.local_shard_kubeconfig_file _).0 c,
        ground (arith, (error_if_iff _ _).0 d),
      ),
  λ (a, b, c, d). (append-nil_iff _ _).1 (
    (append-nil_iff _ _).1 (
      (append-nil_iff _ _).1
          ((is_given_iff o.shard_name _).1 a, (is_given_iff o.shard_external_url _).1 b),
      (is_given_iff o.local_shard_kubeconfig_file _).1 c,
    ),
    (error_if_iff _ _).1 (ap (λ t. not t) d),
  ),
)

-- Validate returns no error exactly when the options of the libraries have none, the kubeconfig files of
-- the virtual workspace and of the local shard, the name of the shard and its external URL are given, and
-- the root path prefix starts with a slash.
pub validate_options_iff : (v : Validators) (o : Options) → (validate v o ≡ none) ↔ IsValid v o
unfolding validate validate_workspace
validate_options_iff v o = (
  λ h.
      let (abcd, own) = (append-nil_iff _ _).0 ((v.new_aggregate_iff _).0 h) in
      let (abc, d) = (append-nil_iff _ _).0 abcd in
      let (ab, c) = (append-nil_iff _ _).0 abc in
      let (a, b) = (append-nil_iff _ _).0 ab in
      let (shard, url, local, prefix) = (own_errors_iff o).0 own in
      record {
        cache = a;
        secure_serving = b;
        authentication = c;
        workspace_kubeconfig = (is_given_iff o.virtual_workspace.kubeconfig_file _).0 d;
        shard_name = shard;
        shard_external_url = url;
        local_shard_kubeconfig = local;
        absolute_prefix = prefix;
      },
  λ w. (v.new_aggregate_iff _).1 (
      (append-nil_iff _ _).1 (
        (append-nil_iff _ _).1 (
          (append-nil_iff _ _).1
              ((append-nil_iff _ _).1 (w.cache, w.secure_serving), w.authentication),
          (is_given_iff o.virtual_workspace.kubeconfig_file _).1 w.workspace_kubeconfig,
        ),
        (own_errors_iff o).1
            (w.shard_name, w.shard_external_url, w.local_shard_kubeconfig, w.absolute_prefix),
      )),
)
