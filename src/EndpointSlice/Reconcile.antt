-- ===== src/EndpointSlice/Reconcile.antt =====
-- endpointslice_reconcile.go: one endpoint slice is reconciled.
use contrib_filteredapiexpor.Prelude.{
  String, Bool, true, false, Option, none, some, List, [], ◌∷◌, ◌≡◌, ◌↔◌, inl, inr, refl, arith,
  eq_iff, Bool-cases, if◌then◌else◌,
}
use contrib_filteredapiexpor.Error.{Error, Result, ok, err, is_not_found, Result-cases}
use contrib_filteredapiexpor.Api.{EndpointSlice, ApiExport, SliceStatus}

-- The package logicalcluster, as the controllers use it: `NewPath`, `Empty`, `String`, and the path of
-- a cluster's name.
pub record ClusterPaths : Type 1 where
  pub LogicalPath : Type 0
  pub new_path : String → LogicalPath
  pub is_empty : LogicalPath → Bool
  pub name_path : String → LogicalPath
  pub join : LogicalPath → String → LogicalPath
  pub to_string : LogicalPath → String

-- The package conditions. `status_of` reads the status of a condition, `reason_of` its reason; a
-- mark sets both for its condition, and touches neither another condition nor the rest of the object.
pub record Conditions : Type 0 where
  pub mark_true : EndpointSlice → String → EndpointSlice
  pub mark_false :
      EndpointSlice → (kind reason severity format : String) → List String → EndpointSlice
  pub status_of : SliceStatus → String → Option String
  pub reason_of : SliceStatus → String → Option String
  pub status-mark_true :
      (s : EndpointSlice) (kind : String) → status_of (mark_true s kind).status kind ≡ some "True"
  pub status-mark_false :
      (s : EndpointSlice) (kind reason severity format : String) (args : List String)
      → status_of (mark_false s kind reason severity format args).status kind ≡ some "False"
  pub reason-mark_false :
      (s : EndpointSlice) (kind reason severity format : String) (args : List String)
      → reason_of (mark_false s kind reason severity format args).status kind ≡ some reason
  pub spec-mark_true : (s : EndpointSlice) (kind : String) → (mark_true s kind).spec ≡ s.spec
  pub spec-mark_false :
      (s : EndpointSlice) (kind reason severity format : String) (args : List String)
      → (mark_false s kind reason severity format args).spec ≡ s.spec

abbrev pub api_export_valid : String
api_export_valid = "APIExportValid"

abbrev pub api_export_not_found_reason : String
api_export_not_found_reason = "APIExportNotFound"

abbrev pub internal_error_reason : String
internal_error_reason = "InternalError"

-- conditionsv1alpha1.ConditionSeverityError
abbrev pub severity_error : String
severity_error = "Error"

module _ (paths : ClusterPaths) where
  -- The path of the export's workspace; that of the endpoint slice where the reference has none.
  unfoldable pub export_path : EndpointSlice → paths.LogicalPath
  export_path slice =
      let path = paths.new_path slice.spec.api_export.path in
      if paths.is_empty path then paths.name_path slice.cluster else path

module _ (paths : ClusterPaths) (conds : Conditions)
    (get_api_export : paths.LogicalPath → String → Result ApiExport) where
  unfoldable pub mark_invalid : EndpointSlice → String → EndpointSlice
  mark_invalid slice reason =
      conds.mark_false slice api_export_valid reason severity_error "Error getting APIExport %s|%s"
        (paths.to_string (export_path paths slice) ∷ slice.spec.api_export.name ∷ [])

  -- endpointsReconciler.reconcile: the endpoint slice that it leaves, and its error
  unfoldable pub reconcile : EndpointSlice → EndpointSlice × Option Error
  reconcile slice = elim (get_api_export (export_path paths slice) slice.spec.api_export.name) [
    | ok export ↦ (conds.mark_true slice api_export_valid, none)
    | err e ↦
        if is_not_found e
        then (mark_invalid slice api_export_not_found_reason, none)
        else (mark_invalid slice internal_error_reason, some e)
  ]

  -- What reconciling has to achieve: the condition says whether the export is there, an error is
  -- returned exactly when that is not known, and the spec is untouched.
  pub record IsReconciled (slice slice' : EndpointSlice) (error : Option Error) : Type 0 where
    pub found : Result ApiExport
    pub asked : get_api_export (export_path paths slice) slice.spec.api_export.name ≡ found
    pub true_iff :
        (conds.status_of slice'.status api_export_valid ≡ some "True")
        ↔ ((export : ApiExport) × (found ≡ ok export))
    pub known : (export : ApiExport) → found ≡ ok export → error ≡ none
    pub missing :
        (e : Error)
        → found ≡ err e
        → is_not_found e ≡ true
        → (conds.reason_of slice'.status api_export_valid ≡ some api_export_not_found_reason)
          × (error ≡ none)
    pub unknown :
        (e : Error)
        → found ≡ err e
        → is_not_found e ≡ false
        → (conds.reason_of slice'.status api_export_valid ≡ some internal_error_reason)
          × (error ≡ some e)
    pub spec : slice'.spec ≡ slice.spec

  -- The parts that both error branches share.
  not_true :
      (slice : EndpointSlice) (reason : String) (x : Error)
      → (conds.status_of (mark_invalid slice reason).status api_export_valid ≡ some "True")
        ↔ ((export : ApiExport) × (◌≡◌ {A = Result ApiExport} (err x) (ok export)))
  unfolding mark_invalid
  not_true slice reason x = (
    λ h. absurd (
        ground (
          arith,
          h,
          conds.status-mark_false slice api_export_valid reason severity_error
              "Error getting APIExport %s|%s"
              (paths.to_string (export_path paths slice) ∷ slice.spec.api_export.name ∷ []),
          eq_iff "True" "False",
        )),
    λ (export, h). absurd (ground (arith, h)),
  )

  -- Reconciling sets the condition APIExportValid by the lookup of the export, reports an error exactly
  -- when the lookup failed otherwise than by not finding it, and then that of the lookup, and leaves the
  -- spec alone.
  pub reconcile-IsReconciled :
      (slice : EndpointSlice) → IsReconciled slice (reconcile slice).0 (reconcile slice).1
  unfolding reconcile mark_invalid
  reconcile-IsReconciled slice =
      elim (Result-cases (get_api_export (export_path paths slice) slice.spec.api_export.name)) [
        | inl (export, e) ↦
            rw (e, reconcile)
              (record {
                found = ok export;
                asked = e;
                true_iff =
                    (λ _. (export, refl), λ _. conds.status-mark_true slice api_export_valid);
                known = λ x f. refl;
                missing = λ x f n. absurd (ground (arith, f));
                unknown = λ x f n. absurd (ground (arith, f));
                spec = conds.spec-mark_true slice api_export_valid;
              })
        | inr (x, e) ↦ elim (Bool-cases (is_not_found x)) [
          | inl gone ↦
              rw (e, reconcile)
                (rw gone (record {
                  found = err x;
                  asked = e;
                  true_iff = not_true slice api_export_not_found_reason x;
                  known = λ y f. absurd (ground (arith, f));
                  missing = λ y f n. (conds.reason-mark_false slice _ _ _ _ _, refl);
                  unknown = λ y f n. absurd (ground (arith, f, n, gone));
                  spec = conds.spec-mark_false slice _ _ _ _ _;
                }))
          | inr odd ↦
              rw (e, reconcile)
                (rw odd (record {
                  found = err x;
                  asked = e;
                  true_iff = not_true slice internal_error_reason x;
                  known = λ y f. absurd (ground (arith, f));
                  missing = λ y f n. absurd (ground (arith, f, n, odd));
                  unknown = λ y f n. (conds.reason-mark_false slice _ _ _ _ _, cc);
                  spec = conds.spec-mark_false slice _ _ _ _ _;
                }))
        ]
      ]
