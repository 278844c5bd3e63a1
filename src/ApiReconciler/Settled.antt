-- ===== src/ApiReconciler/Settled.antt =====
-- What the API reconciler serves once the keys of an endpoint slice have left the queue.
use contrib_filteredapiexpor.Prelude.{
  String, none, some, ◌≡◌, ◌↔◌, inl, inr, sym, subst, ◌∙◌, arith,
}
use contrib_filteredapiexpor.Error.{Error, Result, ok, err, Result-cases}
use contrib_filteredapiexpor.Api.{ApiExport, EndpointSlice}
use contrib_filteredapiexpor.Url.Shape.{IsPart}
use contrib_filteredapiexpor.KeyMap.{text_keys, get}
use contrib_filteredapiexpor.ApiReconciler.Schemas.{Collected}
use contrib_filteredapiexpor.ApiReconciler.Definitions.{Gvr, DefinitionSet}
use contrib_filteredapiexpor.ApiReconciler.Handles.{Serves, CreatesAll}
use contrib_filteredapiexpor.ApiReconciler.Expected.{IsExpected, IsRound, reconcile-HasEntry}
use contrib_filteredapiexpor.ApiReconciler.Real.{HasHandlesAt, reconcile-HasHandles}
use contrib_filteredapiexpor.ApiReconciler.Reconcile.{process, reconcile, get_api_definition_set}
use contrib_filteredapiexpor.ApiReconciler.Invariants.{remove_domain_same}
use contrib_filteredapiexpor.ApiReconciler.Kept.{IsConsistent-of_IsReachable}
use contrib_filteredapiexpor.ApiReconciler.Serves.{HasEntry}
use contrib_filteredapiexpor.ApiReconciler.Worker.{process_next_work_item}
use contrib_filteredapiexpor.ApiReconciler.Due.{
  domain_key, found, round, IsDue, IsSettled, IsConsistent, process_found, process_malformed,
}
use contrib_filteredapiexpor.ApiReconciler.System.{
  Setting, System, AnswersNotFound, Step, changes, handles, others, works, IsReachable, initially,
  next_step,
}

module _ (fixed : Setting) where
  -- What a settled domain key holds: no set where the endpoint slice is gone, and a definition for each
  -- expected group, version and resource, and no other, where it is there with an export that has an
  -- identity.
  pub record IsServedRight (s : System) (c n : String) : Type 0 where
    pub gone :
        (e : Error)
        → s.get_slice c n ≡ err e
        → get_api_definition_set s.state (domain_key c n) ≡ none
    pub there :
        (now : EndpointSlice) (export : ApiExport) (collected : Collected)
        → s.get_slice c n ≡ ok now
        → IsRound fixed.sources fixed.get_export now export collected
        → (gvr : Gvr)
        → ((set : DefinitionSet) × (get_api_definition_set s.state (domain_key c n) ≡ some set)
            × Serves set gvr)
          ↔ IsExpected fixed.makers export collected gvr

  IsServedRight-of_IsSettled :
      (s : System) (c n : String)
      → CreatesAll fixed.makers
      → HasHandlesAt s.state (domain_key c n)
      → IsSettled fixed s c n
      → IsServedRight s c n
  unfolding reconcile
  IsServedRight-of_IsSettled s c n creates real (old, fine, set) = record {
    gone = λ e h. rw h at set ∙ remove_domain_same old (domain_key c n);
    there = λ now export collected h is_round gvr.
        (let law =
            reconcile-HasEntry fixed.sources fixed.makers fixed.get_export old now (domain_key c n)
              export collected creates.schemas is_round
              (subst (λ x. (round fixed old (found x) (domain_key c n)).1 ≡ none) h fine) gvr in
          let here =
            subst
              (λ x.
                get text_keys (domain_key c n) s.state.api_sets
                ≡ get text_keys (domain_key c n)
                    (round fixed old (found x) (domain_key c n)).0.api_sets)
              h set in
          let entry =
            subst
              (λ x.
                ((set : DefinitionSet) × (x ≡ some set) × HasEntry set gvr)
                ↔ IsExpected fixed.makers export collected gvr)
              (sym here) law in
          (
            λ (now_set, g, (d, m, f, k)). entry.0 (now_set, g, (d, f)),
            λ t.
                let (now_set, g, (d, f)) = entry.1 t in
                let (m, k) = real now_set g gvr d f in (now_set, g, (d, m, f, k)),
          ));
  }

  works-HasHandles :
      (s : System) (key other : String)
      → CreatesAll fixed.makers
      → IsConsistent fixed s
      → ((k : String) → HasHandlesAt s.state k)
      → HasHandlesAt
          (process fixed.sources fixed.makers fixed.get_export fixed.split_key s.get_slice s.state
            key).0
          other
  works-HasHandles s key other creates w were = elim (Result-cases (fixed.split_key key)) [
    | inr (x, e) ↦
        subst (λ r. HasHandlesAt r.0 other)
          (sym (process_malformed fixed s.get_slice s.state key x e)) (were other)
    | inl ((c, n), e) ↦
        subst (λ r. HasHandlesAt r.0 other)
          (sym (process_found fixed s.get_slice s.state key c n w.answers e))
          (reconcile-HasHandles fixed.sources fixed.makers fixed.get_export creates s.state
            (found (s.get_slice c n)) (domain_key c n) other w.sound were)
  ]

  Step-HasHandles :
      (s s' : System) (key : String)
      → CreatesAll fixed.makers
      → IsConsistent fixed s
      → ((k : String) → HasHandlesAt s.state k)
      → Step fixed s s'
      → HasHandlesAt s'.state key
  unfolding process_next_work_item
  Step-HasHandles s s' key creates w were
        (changes e k c n get_slice seen keyed is_split answers same) =
      were key
  Step-HasHandles s s' key creates w were (handles caches before rest e is_pending keys) = were key
  Step-HasHandles s s' key creates w were (others keys) = were key
  Step-HasHandles s s' key creates w were (works before rest k is_queue alive) =
      works-HasHandles s k key creates w were

  HasHandles-of_IsReachable :
      (empty : String → String → Result EndpointSlice) (s : System) (key : String)
      → CreatesAll fixed.makers
      → AnswersNotFound empty
      → ((c n : String) → found (empty c n) ≡ none)
      → IsReachable fixed empty s
      → HasHandlesAt s.state key
  unfolding get
  HasHandles-of_IsReachable empty s key creates answers nothing initially =
      λ set h. absurd (ground (arith, h))
  HasHandles-of_IsReachable empty s key creates answers nothing (next_step {s = r} reached step) =
      let w = IsConsistent-of_IsReachable fixed empty r answers nothing reached in
      Step-HasHandles r s key creates w
        (λ k. HasHandles-of_IsReachable empty r k creates answers nothing reached) step

  -- From a reconciler without sets and a store without endpoint slices on, while exports and schemas stay
  -- as they are, no constructor of a definition fails, no deletion is missed and nothing panics: in
  -- whatever order endpoint slices change, events are handled and the worker takes keys, once no key of an
  -- endpoint slice (whose cluster and name hold no slash) is in the queue and no event of it is pending, its
  -- domain key has no set where it is gone, and where it is there with an export that has an identity and
  -- schemas that can be collected, the set has a definition that is not nil for exactly the expected
  -- groups, versions and resources. (By which selector they filter is not stated.)
  pub settled-IsServedRight :
      (empty : String → String → Result EndpointSlice) (s : System) (cluster name : String)
      → CreatesAll fixed.makers
      → AnswersNotFound empty
      → ((c n : String) → found (empty c n) ≡ none)
      → IsReachable fixed empty s
      → IsPart cluster × IsPart name
      → ¬ IsDue fixed s cluster name
      → IsServedRight s cluster name
  settled-IsServedRight empty s cluster name creates answers nothing reached parts idle =
      elim ((IsConsistent-of_IsReachable fixed empty s answers nothing reached).due cluster name
        parts) [
          | inl is_due ↦ absurd (idle is_due)
          | inr settled ↦
              IsServedRight-of_IsSettled s cluster name creates
                (HasHandles-of_IsReachable empty s _ creates answers nothing reached) settled
        ]
