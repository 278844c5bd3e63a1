-- ===== src/Command/Failures.antt =====
-- What `Run` has started where it returns an error.
use mathlib.Core.List.{◌++◌, map}
use contrib_filteredapiexpor.Prelude.{
  Bool, true, false, not, Option, none, some, List, [], ◌∷◌, ◌==◌, ◌≡◌, ◌⊎◌, inl, inr, refl, ap,
  sym, ◌∙◌, arith, Bool-cases, Option-cases, any,
}
use contrib_filteredapiexpor.Error.{Error}
use contrib_filteredapiexpor.Command.Options.{Options}
use contrib_filteredapiexpor.Command.Startup.{
  Action, run_server, Step, call, try, try_as, action_of, cache_enabled, connect_steps, build_steps,
  launch_steps, run_steps, perform, run,
}
use contrib_filteredapiexpor.Command.Order.{is_launch, perform-prefix}

any_of_append :
    (p : Action → Bool) (xs ys : List Action) → any p (xs ++ ys) ≡ false → any p xs ≡ false
unfolding any
any_of_append p [] ys h = refl
any_of_append p (x ∷ xs) ys h = elim (Bool-cases (p x)) [
  | inl y ↦ absurd (ground (arith, h, y))
  | inr n ↦ ground (arith, n, any_of_append p xs ys (ground (arith, h, n)))
]

module _ (answer : Action → Option Error) where
  -- An error among the first steps ends the whole.
  perform_stops :
      (xs ys : List Step) (e : Error)
      → (perform answer xs).1 ≡ some e
      → perform answer (xs ++ ys) ≡ perform answer xs
  unfolding perform
  perform_stops [] ys e h = absurd (ground (arith, h))
  perform_stops (call a ∷ xs) ys e h = ap (λ r. (a ∷ r.0, r.1)) (perform_stops xs ys e h)
  perform_stops (try a ∷ xs) ys e h = elim (Option-cases (answer a)) [
    | inl f ↦
        rw (f, perform) (ap (λ r. (a ∷ r.0, r.1)) (perform_stops xs ys e (rw (f, perform) at h)))
    | inr (x, f) ↦ rw (f, perform) refl
  ]
  perform_stops (try_as format a ∷ xs) ys e h = elim (Option-cases (answer a)) [
    | inl f ↦
        rw (f, perform) (ap (λ r. (a ∷ r.0, r.1)) (perform_stops xs ys e (rw (f, perform) at h)))
    | inr (x, f) ↦ rw (f, perform) refl
  ]

  -- Without one, the error is that of the later steps.
  perform_continues :
      (xs ys : List Step)
      → (perform answer xs).1 ≡ none
      → (perform answer (xs ++ ys)).1 ≡ (perform answer ys).1
  unfolding perform
  perform_continues [] ys h = refl
  perform_continues (call a ∷ xs) ys h = perform_continues xs ys h
  perform_continues (try a ∷ xs) ys h = elim (Option-cases (answer a)) [
    | inl f ↦ rw (f, perform) (perform_continues xs ys (rw (f, perform) at h))
    | inr (x, f) ↦ absurd (ground (arith, rw (f, perform) at h))
  ]
  perform_continues (try_as format a ∷ xs) ys h = elim (Option-cases (answer a)) [
    | inl f ↦ rw (f, perform) (perform_continues xs ys (rw (f, perform) at h))
    | inr (x, f) ↦ absurd (ground (arith, rw (f, perform) at h))
  ]

  last_fails :
      (e : Error) → (perform answer (try run_server ∷ [])).1 ≡ some e → answer run_server ≡ some e
  unfolding perform
  last_fails e h = elim (Option-cases (answer run_server)) [
    | inl f ↦ absurd (ground (arith, rw (f, perform) at h))
    | inr (x, f) ↦ f ∙ (rw (f, perform) at h)
  ]

  -- Of the calls from the profiler on, only the server returns an error.
  launch_fails :
      (cache profiler : Bool) (e : Error)
      → (perform answer (launch_steps cache profiler)).1 ≡ some e
      → answer run_server ≡ some e
  unfolding perform
  launch_fails true true e h = last_fails e h
  launch_fails true false e h = last_fails e h
  launch_fails false true e h = last_fails e h
  launch_fails false false e h = last_fails e h

  nothing_launched :
      (cache : Bool) → any is_launch (map action_of (connect_steps cache ++ build_steps)) ≡ false
  unfolding any
  nothing_launched true = refl
  nothing_launched false = refl

  -- Where Run returns an error, it is that of the server, or no profiler, informers, controllers or
  -- server have been started.
  pub run_fails :
      (o : Options) (e : Error)
      → (run answer o).1 ≡ some e
      → (answer run_server ≡ some e) ⊎ (any is_launch (run answer o).0 ≡ false)
  unfolding run run_steps
  run_fails o e h =
      let early = connect_steps (cache_enabled o) ++ build_steps in
      let launch = launch_steps (cache_enabled o) (not (o.profiler_address == "")) in
      elim (Option-cases (perform answer early).1) [
        | inl f ↦ inl (
            launch_fails (cache_enabled o) (not (o.profiler_address == "")) e
              (sym (perform_continues early launch f) ∙ h))
        | inr (x, f) ↦
            let (late, g) = perform-prefix answer early in
            inr (
              ap (λ r. any is_launch r.0) (perform_stops early launch x f)
              ∙ any_of_append is_launch (perform answer early).0 late
                  (ap (λ l. any is_launch l) g ∙ nothing_launched (cache_enabled o)))
      ]
