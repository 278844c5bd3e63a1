-- ===== src/EndpointSlice/Handled.antt =====
-- What becomes of a key that a worker of the controller takes from the queue.
use mathlib.Core.List.{◌++◌}
use contrib_filteredapiexpor.Prelude.{
  String, true, false, Option, none, some, List, [], ◌∷◌, ◌≡◌, ◌≢◌, ◌⊎◌, ◌↔◌, inl, inr, refl, ap,
  subst, ◌∙◌, arith, Bool-cases, Option-cases,
}
use contrib_filteredapiexpor.Error.{Error, wrap, ok, err, is_not_found, Result-cases}
use contrib_filteredapiexpor.Api.{EndpointSlice}
use contrib_filteredapiexpor.EndpointSlice.Reconcile.{
  reconcile, IsReconciled, reconcile-IsReconciled,
}
use contrib_filteredapiexpor.EndpointSlice.Worker.{
  Effect, commit, handle_error, forget, add_rate_limited, done, controller_name, Controller,
  append_error, process_slice, process, finish, process_next_work_item, start_worker,
}

module _ (c : Controller) where
  -- The key is of no object: it cannot be split, or the endpoint slice is gone.
  abbrev pub IsGone : String → Type 0
  IsGone key =
      (cluster : String) × (name : String) × (e : Error) × (c.split_key key ≡ ok (cluster, name))
      × (c.get_slice (c.paths.name_path cluster) name ≡ err e)
      × (is_not_found e ≡ true)

  abbrev pub IsUnreadable : String → Error → Type 0
  IsUnreadable key e =
      (cluster : String) × (name : String) × (c.split_key key ≡ ok (cluster, name))
      × (c.get_slice (c.paths.name_path cluster) name ≡ err e)
      × (is_not_found e ≡ false)

  abbrev pub IsStored : String → EndpointSlice → Type 0
  IsStored key slice =
      (cluster : String) × (name : String) × (c.split_key key ≡ ok (cluster, name))
      × (c.get_slice (c.paths.name_path cluster) name ≡ ok slice)

  -- A key that a worker gives up, and one that it puts back.
  abbrev pub settled : String → List Effect
  settled key = forget key ∷ done key ∷ []

  abbrev pub retried : String → Error → List Effect
  retried key e =
      handle_error (wrap "%q controller failed to sync %q, err: %w" (controller_name ∷ key ∷ []) e)
      ∷ add_rate_limited key
      ∷ done key
      ∷ []

  -- The calls that a worker may make for a key.
  pub data Handled : String → List Effect → Type 0 where
    malformed :
        {key : String} {e : Error}
        → c.split_key key ≡ err e
        → Handled key (handle_error e ∷ settled key)
    gone : {key : String} → IsGone key → Handled key (settled key)
    unreadable : {key : String} {e : Error} → IsUnreadable key e → Handled key (retried key e)
    updated :
        {key : String} {old new : EndpointSlice}
        → IsStored key old
        → IsReconciled c.paths c.conditions c.get_api_export old new none
        → c.commit_answer old new ≡ none
        → Handled key (commit old new ∷ settled key)
    failed :
        {key : String} {old new : EndpointSlice} {problem : Option Error} {e : Error}
        → IsStored key old
        → IsReconciled c.paths c.conditions c.get_api_export old new problem
        → ((problem ≢ none) ⊎ (c.commit_answer old new ≢ none))
        → c.new_aggregate (append_error (append_error [] problem) (c.commit_answer old new))
          ≡ some e
        → Handled key (commit old new ∷ retried key e)

  no_errors_iff :
      (a b : Option Error)
      → (c.new_aggregate (append_error (append_error [] a) b) ≡ none) ↔ ((a ≡ none) × (b ≡ none))
  no_errors_iff none none = (λ h. (refl, refl), λ h. (c.new_aggregate_iff []).1 refl)
  no_errors_iff none (some y) = (
    λ h. absurd (ground (arith, (c.new_aggregate_iff (y ∷ [])).0 h)),
    λ (p, q). absurd (ground (arith, q)),
  )
  no_errors_iff (some x) none = (
    λ h. absurd (ground (arith, (c.new_aggregate_iff (x ∷ [])).0 h)),
    λ (p, q). absurd (ground (arith, p)),
  )
  no_errors_iff (some x) (some y) = (
    λ h. absurd (ground (arith, (c.new_aggregate_iff (x ∷ y ∷ [])).0 h)),
    λ (p, q). absurd (ground (arith, p)),
  )

  one_is_an_error : (a b : Option Error) → ¬ ((a ≡ none) × (b ≡ none)) → (a ≢ none) ⊎ (b ≢ none)
  one_is_an_error none none h = absurd (h (refl, refl))
  one_is_an_error (some x) b h = inl (λ e. ground (arith, e))
  one_is_an_error none (some y) h = inr (λ e. ground (arith, e))

  -- `process` and what follows it, for an endpoint slice that is there.
  process_slice-Handled :
      (key : String) (old : EndpointSlice)
      → IsStored key old
      → Handled key ((process_slice c old).0 ++ finish c key (process_slice c old).1)
  unfolding process_slice finish
  process_slice-Handled key old stored =
      let r = reconcile c.paths c.conditions c.get_api_export old in
      let good = reconcile-IsReconciled c.paths c.conditions c.get_api_export old in
      let errors = append_error (append_error [] r.1) (c.commit_answer old r.0) in
      elim (Option-cases (c.new_aggregate errors)) [
        | inl e ↦
            let (p, q) = (no_errors_iff r.1 (c.commit_answer old r.0)).0 e in
            rw e (
              updated stored
                (subst (λ x. IsReconciled c.paths c.conditions c.get_api_export old r.0 x) p good)
                q)
        | inr (x, e) ↦ rw e (
            failed stored good
              (one_is_an_error r.1 (c.commit_answer old r.0)
                (λ h. ground (arith, e, (no_errors_iff r.1 (c.commit_answer old r.0)).1 h)))
              e)
      ]

  -- A worker makes for a key the calls of one of the cases of `Handled`.
  pub process_next_work_item-Handled :
      (key : String) → Handled key (process_next_work_item c (some key)).0
  unfolding process_next_work_item process finish
  process_next_work_item-Handled key = elim (Result-cases (c.split_key key)) [
    | inr (x, e) ↦ rw (e, process) (malformed e)
    | inl ((cluster, name), e) ↦
        elim (Result-cases (c.get_slice (c.paths.name_path cluster) name)) [
          | inl (old, f) ↦
              rw (e, process) (rw f (process_slice-Handled key old (cluster, name, e, f)))
          | inr (x, f) ↦ elim (Bool-cases (is_not_found x)) [
            | inl g ↦ rw (e, process) (rw f (rw g (gone (cluster, name, x, e, f, g))))
            | inr g ↦ rw (e, process) (rw f (rw g (unreadable (cluster, name, e, f, g))))
          ]
        ]
  ]

  -- The keys that the queue is told are done.
  abbrev pub done_keys : List Effect → List String
  done_keys [] = []
  done_keys (done key ∷ effects) = key ∷ done_keys effects
  done_keys (_ ∷ effects) = done_keys effects

  -- The keys that the queue gave before it shut down.
  abbrev pub taken_keys : List (Option String) → List String
  taken_keys [] = []
  taken_keys (none ∷ items) = []
  taken_keys (some key ∷ items) = key ∷ taken_keys items

  done_keys-append : (xs ys : List Effect) → done_keys (xs ++ ys) ≡ done_keys xs ++ done_keys ys
  done_keys-append [] ys = refl
  done_keys-append (done key ∷ xs) ys = ap (λ t. key ∷ t) (done_keys-append xs ys)
  done_keys-append (commit a b ∷ xs) ys = done_keys-append xs ys
  done_keys-append (handle_error e ∷ xs) ys = done_keys-append xs ys
  done_keys-append (forget key ∷ xs) ys = done_keys-append xs ys
  done_keys-append (add_rate_limited key ∷ xs) ys = done_keys-append xs ys

  done_of_Handled :
      {key : String} {effects : List Effect} → Handled key effects → done_keys effects ≡ (key ∷ [])
  done_of_Handled (malformed e) = refl
  done_of_Handled (gone e) = refl
  done_of_Handled (unreadable e) = refl
  done_of_Handled (updated e f g) = refl
  done_of_Handled (failed e f g h) = refl

  -- The queue is told of every key that it gave, once and in order, that it is done.
  start_worker-done :
      (items : List (Option String)) → done_keys (start_worker c items) ≡ taken_keys items
  unfolding start_worker process_next_work_item
  start_worker-done [] = refl
  start_worker-done (none ∷ items) = refl
  start_worker-done (some key ∷ items) =
      done_keys-append ((process c key).0 ++ finish c key (process c key).1) (start_worker c items)
      ∙ ap (λ t. t ++ done_keys (start_worker c items))
          (done_of_Handled (process_next_work_item-Handled key))
      ∙ ap (λ t. key ∷ t) (start_worker-done items)
