-- ===== src/Samples.antt =====
-- Sample data: a provider with the export `widgets`, a consumer with a binding to it, and the endpoint
-- slice `org/mine`, with concrete functions for the packages that the program calls.
use contrib_filteredapiexpor.Prelude.{
  String, Bool, true, false, Option, none, some, List, [], ◌∷◌, ◌==◌, ◌&&◌, ◌||◌, ◌≡◌, ◌↔◌, refl,
  arith, any, eq_refl, eq_iff, All, &&_iff, if◌then◌else◌,
}
use contrib_filteredapiexpor.Error.{Error, api, Result, ok, err}
use contrib_filteredapiexpor.Url.{Paths}
use contrib_filteredapiexpor.Api.{
  Labels, Requirement, LabelSelector, Condition, SliceStatus, EndpointSlice, PermissionClaim,
  ClaimState, ApiBinding, ApiExport,
}
use contrib_filteredapiexpor.Request.{
  Context, User, Attributes, allow, deny, plain, verdict, Authorizer, Listers,
}
use contrib_filteredapiexpor.LabelMap.{lookup, Contains}
use contrib_filteredapiexpor.Authorizer.Bound.{VerbSets, ClaimOps, contains}
use contrib_filteredapiexpor.Authorizer.MaximalPermission.{PolicyOps}
use contrib_filteredapiexpor.Authorizer.Chain.{Decorators, Environment}
use contrib_filteredapiexpor.Admission.Validate.{Selectors}
use contrib_filteredapiexpor.EndpointSlice.Reconcile.{ClusterPaths, Conditions}
use contrib_filteredapiexpor.EndpointSlice.Worker.{Controller}
use Prim.Native.String.{◌++◌}

abbrev pub text_paths : Paths
text_paths = record {
  LogicalPath = String;
  new_path = λ s. s;
  is_wildcard = λ s. s == "*";
  name = λ s. if s == "" then none else some s;
}

abbrev pub text_cluster_paths : ClusterPaths
text_cluster_paths = record {
  LogicalPath = String;
  new_path = λ s. s;
  is_empty = λ s. s == "";
  name_path = λ s. s;
  join = λ p s. p ++ ":" ++ s;
  to_string = λ p. p;
}

-- Sets as their tests.
abbrev pub test_sets : VerbSets
test_sets = record {
  Set = String → Bool;
  new = λ xs. contains xs;
  insert = λ s xs x. s x || contains xs x;
  intersection = λ s t x. s x && t x;
  has = λ s. s;
  has_any = λ s. any s;
  has-new = λ xs x. refl;
  has-insert = λ s xs x. refl;
  has-intersection = λ s t x. refl;
  has_any-any = λ s xs. refl;
}

abbrev pub same_gri : PermissionClaim → PermissionClaim → Bool
same_gri a b = a.group == b.group && a.resource == b.resource && a.identity_hash == b.identity_hash

abbrev pub sample_claim_ops : ClaimOps
sample_claim_ops = record { sets = test_sets; equal_gri = same_gri }

-- Everyone named `alice`, with or without a prefix, is allowed.
abbrev pub alice_only : Authorizer
alice_only ctx attr =
    if attr.user.name == "alice" || attr.user.name == "policy:alice"
    then verdict allow (plain "it is alice")
    else verdict deny (plain "it is not alice")

abbrev pub sample_policy_ops : PolicyOps
sample_policy_ops = record { prefix = "policy:"; new_deep_sar = λ cluster. ok alice_only }

abbrev pub no_decorators : Decorators
no_decorators = record {
  Decorator = Authorizer;
  new = λ key a. a;
  add_audit_logging = λ d. d;
  add_anonymization = λ d. d;
  add_reason_annotation = λ d. d;
  run = λ d. d;
  decision-new = λ key a ctx attr. refl;
  decision-add_audit_logging = λ d ctx attr. refl;
  decision-add_anonymization = λ d ctx attr. refl;
  decision-add_reason_annotation = λ d ctx attr. refl;
}

-- All the labels are there.
abbrev pub has_labels : Labels → Labels → Bool
has_labels lbls [] = true
has_labels lbls ((k, v) ∷ rest) =
    (elim (lookup k lbls) [ none ↦ false | some w ↦ w == v ]) && has_labels lbls rest

abbrev pub has_keys : Labels → List Requirement → Bool
has_keys lbls [] = true
has_keys lbls (r ∷ rest) =
    (elim (lookup r.key lbls) [ none ↦ false | some w ↦ true ]) && has_keys lbls rest

pub has_labels_iff :
    (lbls entries : Labels) → (has_labels lbls entries ≡ true) ↔ Contains lbls entries
has_labels_iff lbls [] = (λ h. tt, λ h. refl)
has_labels_iff lbls ((k, v) ∷ rest) = (
  λ h. let (a, b) = (&&_iff _ _).0 h in (first k v a, (has_labels_iff lbls rest).0 b),
  λ (e, c). (&&_iff _ _).1 (ground (arith, e, eq_refl v), (has_labels_iff lbls rest).1 c),
)
  where
    first :
        (j w : String)
        → (elim (lookup j lbls) [ none ↦ false | some x ↦ x == w ]) ≡ true
        → lookup j lbls ≡ some w
    first j w h =
        elim (lookup j lbls)
            as (λ o. (elim o [ none ↦ false | some x ↦ x == w ]) ≡ true → o ≡ some w) [
              | none ↦ λ e. absurd (ground (arith, e))
              | some x ↦ λ e. ground (arith, (eq_iff x w).0 e)
            ]
          h

pub has_keys_iff :
    (lbls : Labels) (rs : List Requirement)
    → (has_keys lbls rs ≡ true) ↔ All (λ r. has_keys lbls (r ∷ []) ≡ true) rs
has_keys_iff lbls [] = (λ h. tt, λ h. refl)
has_keys_iff lbls (r ∷ rest) = (
  λ h. let (a, b) = (&&_iff _ _).0 h in ((&&_iff _ _).1 (a, refl), (has_keys_iff lbls rest).0 b),
  λ (a, c). (&&_iff _ _).1 (((&&_iff _ _).0 a).0, (has_keys_iff lbls rest).1 c),
)

pub key_selectors_iff :
    (s sel : LabelSelector) (lbls : Labels)
    → ◌≡◌ {A = Result LabelSelector} (ok s) (ok sel)
    → ((has_labels lbls sel.match_labels && has_keys lbls sel.match_expressions) ≡ true) ↔ (
        Contains lbls s.match_labels × All (λ r. has_keys lbls (r ∷ []) ≡ true) s.match_expressions)
key_selectors_iff s sel lbls e =
    let same : s ≡ sel = ground (arith, e) in
    rw same (
      λ h.
          let (a, b) = (&&_iff _ _).0 h in ((has_labels_iff lbls _).0 a, (has_keys_iff lbls _).0 b),
      λ (a, b). (&&_iff _ _).1 ((has_labels_iff lbls _).1 a, (has_keys_iff lbls _).1 b),
    )

-- Every selector can be built; an expression asks for its key.
unfoldable pub key_selectors : Selectors
key_selectors = record {
  Selector = LabelSelector;
  as_selector = λ s. ok s;
  matches = λ s lbls. has_labels lbls s.match_labels && has_keys lbls s.match_expressions;
  satisfies = λ r lbls. has_keys lbls (r ∷ []);
  matches_iff = λ s sel lbls e. key_selectors_iff s sel lbls e;
}

abbrev pub sample_slice : EndpointSlice
sample_slice = record {
  name = "mine";
  cluster = "org";
  spec = record {
    api_export = record { path = "provider"; name = "widgets" };
    object_selector = record {
      label_selector = record { match_labels = ("team", "a") ∷ []; match_expressions = [] };
    };
  };
  status = record { conditions = [] };
}

abbrev pub widget : String
widget = "widgets.example.io"

-- Config maps, claimed for reading and writing.
abbrev pub config_claim : PermissionClaim
config_claim = record {
  group = "";
  resource = "configmaps";
  verbs = "get" ∷ "update" ∷ [];
  identity_hash = "";
}

-- Gadgets, claimed from another export.
abbrev pub gadget_claim : PermissionClaim
gadget_claim = record {
  group = "gadgets.io";
  resource = "gadgets";
  verbs = "*" ∷ [];
  identity_hash = "hash";
}

abbrev pub sample_export : ApiExport
sample_export = record {
  name = "widgets";
  cluster = "provider";
  identity_hash = "own";
  schemas = [];
  permission_claims = config_claim ∷ gadget_claim ∷ [];
  maximal_permission_policy = none;
}

-- The export that provides the gadgets, with a policy of its own.
abbrev pub gadget_export : ApiExport
gadget_export = record {
  name = "gadgets";
  cluster = "vendor";
  identity_hash = "hash";
  schemas = [];
  permission_claims = [];
  maximal_permission_policy = some (record { has_local = true });
}

abbrev pub sample_binding : ApiBinding
sample_binding = record {
  export_name = some "widgets";
  export_cluster = "provider";
  bound_resources = record { group = widget; resource = "widgets" } ∷ [];
  permission_claims =
      record {
        claim = config_claim;
        selector = record {
          match_all = false;
          label_selector = record { match_labels = ("tier", "low") ∷ []; match_expressions = [] };
        };
        state = ClaimState.accepted;
      }
      ∷ record {
        claim = gadget_claim;
        selector = record {
          match_all = true;
          label_selector = record { match_labels = []; match_expressions = [] };
        };
        state = ClaimState.accepted;
      }
      ∷ [];
}

abbrev pub sample_listers : Listers
sample_listers = record {
  get_slice = λ cluster name.
      if cluster == "org" && name == "mine" then ok sample_slice else err (api true "no slice");
  get_export = λ path name.
      if path == "provider" && name == "widgets"
      then ok sample_export
      else err (api true "no export");
  list_bindings =
      λ cluster. ok (if cluster == "consumer" then none ∷ some sample_binding ∷ [] else []);
  exports_by_identity = λ hash. ok (if hash == "hash" then gadget_export ∷ [] else []);
}

abbrev pub sample_env : Environment
sample_env = record {
  claim_ops = sample_claim_ops;
  policy_ops = sample_policy_ops;
  new_delegated = λ cluster. ok alice_only;
  decorators = no_decorators;
  listers = sample_listers;
}

abbrev pub sample_context : Context
sample_context = record {
  valid_cluster = ok (record { name = "consumer"; wildcard = false });
  domain_key = "org/mine";
}

abbrev pub alice : User
alice = record { name = "alice"; uid = "1"; groups = "dev" ∷ []; extra = [] }

-- Alice updates a gadget.
abbrev pub sample_request : Attributes
sample_request = record {
  user = alice;
  verb = "update";
  namespace = "default";
  api_group = "gadgets.io";
  api_version = "v1";
  resource = "gadgets";
  subresource = "";
  name = "g1";
  resource_request = true;
  path = "";
}

-- The first condition of a kind counts.
abbrev pub condition_of : List Condition → String → Option Condition
condition_of [] kind = none
condition_of (c ∷ cs) kind = if c.kind == kind then some c else condition_of cs kind

abbrev pub mark : EndpointSlice → Condition → EndpointSlice
mark s c = record s { status = record { conditions = c ∷ s.status.conditions } }

abbrev pub condition_field : (Condition → String) → SliceStatus → String → Option String
condition_field field status kind = elim (condition_of status.conditions kind) [
  | none ↦ none
  | some c ↦ some (field c)
]

pub condition_field-mark :
    (field : Condition → String) (s : EndpointSlice) (c : Condition)
    → condition_field field (mark s c).status c.kind ≡ some (field c)
condition_field-mark field s c = ground (arith, eq_refl c.kind)

unfoldable pub list_conditions : Conditions
list_conditions = record {
  mark_true = λ s kind.
      mark s (record { kind = kind; status = "True"; reason = ""; severity = ""; message = "" });
  mark_false = λ s kind reason severity format args. mark s (record {
    kind = kind;
    status = "False";
    reason = reason;
    severity = severity;
    message = format;
  });
  status_of = condition_field (λ c. c.status);
  reason_of = condition_field (λ c. c.reason);
  status-mark_true = λ s kind. condition_field-mark (λ c. c.status) s _;
  status-mark_false =
      λ s kind reason severity format args. condition_field-mark (λ c. c.status) s _;
  reason-mark_false =
      λ s kind reason severity format args. condition_field-mark (λ c. c.reason) s _;
  spec-mark_true = λ s kind. refl;
  spec-mark_false = λ s kind reason severity format args. refl;
}

abbrev pub export_at : String → String → Result ApiExport
export_at path name =
    if path == "provider" && name == "widgets" then ok sample_export else err (api true "no export")

abbrev pub first_error : List Error → Option Error
first_error [] = none
first_error (e ∷ es) = some e

pub first_error_iff : (errors : List Error) → (first_error errors ≡ none) ↔ (errors ≡ [])
first_error_iff [] = (λ h. refl, λ h. refl)
first_error_iff (e ∷ es) = (λ h. absurd (ground (arith, h)), λ h. absurd (ground (arith, h)))

-- The keys are the names of slices of `org`, and the API server takes every commit.
abbrev pub sample_controller : Controller
sample_controller = record {
  paths = text_cluster_paths;
  conditions = list_conditions;
  get_api_export = export_at;
  split_key = λ key. ok ("org", key);
  get_slice = λ path name.
      if path == "org" && name == "mine" then ok sample_slice else err (api true "no slice");
  commit_answer = λ old new. none;
  new_aggregate = first_error;
  new_aggregate_iff = first_error_iff;
}
