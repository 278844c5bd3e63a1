-- ===== src/Command/Order.antt =====
-- In which order `Run` starts the parts of the program, and what has been started where it fails.
use mathlib.Core.List.{◌++◌, map}
use contrib_filteredapiexpor.Prelude.{
  Bool, true, false, not, Option, List, [], ◌∷◌, ◌==◌, ◌≡◌, inl, inr, refl, ap, sym, ◌∙◌, arith,
  Bool-cases, Option-cases, any, if◌then◌else◌,
}
use contrib_filteredapiexpor.Error.{Error}
use contrib_filteredapiexpor.Command.Options.{Options}
use contrib_filteredapiexpor.Command.Startup.{
  Informers, local_kcp, filtered, cache_kcp, Action, install_indexers, install_controllers,
  serve_profiler, start, wait_for_cache_sync, start_controllers, run_server, Step, call, try,
  try_as, action_of, cache_enabled, connect_steps, build_steps, launch_steps, run_steps, perform,
  run,
}

abbrev same_informers : Informers → Informers → Bool
same_informers local_kcp local_kcp = true
same_informers filtered filtered = true
same_informers cache_kcp cache_kcp = true
same_informers _ _ = false

abbrev pub is_start : Informers → Action → Bool
is_start i (start j) = same_informers i j
is_start i _ = false

abbrev is_any_start : Action → Bool
is_any_start (start i) = true
is_any_start _ = false

abbrev pub is_synced : Informers → Action → Bool
is_synced i (wait_for_cache_sync j) = same_informers i j
is_synced i _ = false

abbrev pub is_install_indexers : Action → Bool
is_install_indexers install_indexers = true
is_install_indexers _ = false

abbrev pub is_install_controllers : Action → Bool
is_install_controllers install_controllers = true
is_install_controllers _ = false

abbrev pub is_start_controllers : Action → Bool
is_start_controllers start_controllers = true
is_start_controllers _ = false

abbrev is_run_server : Action → Bool
is_run_server run_server = true
is_run_server _ = false

-- The calls that set something going.
abbrev pub is_launch : Action → Bool
is_launch serve_profiler = true
is_launch (start i) = true
is_launch (wait_for_cache_sync i) = true
is_launch start_controllers = true
is_launch run_server = true
is_launch _ = false

-- Whenever the call is made, such a call has been made before.
abbrev pub ComesAfter : Action → (Action → Bool) → List Action → Type 0
ComesAfter b p trace =
    (before after : List Action) → trace ≡ before ++ b ∷ after → any p before ≡ true

-- The first call that passes `p` comes before each that passes `q`.
unfoldable in_order : (p q : Action → Bool) → List Action → Bool
in_order p q [] = true
in_order p q (a ∷ actions) =
    let rest = in_order p q actions in if q a then false else if p a then true else rest

in_order_prefix :
    (p q : Action → Bool) (xs ys : List Action)
    → in_order p q (xs ++ ys) ≡ true
    → in_order p q xs ≡ true
unfolding in_order
in_order_prefix p q [] ys h = refl
in_order_prefix p q (x ∷ xs) ys h = elim (Bool-cases (q x)) [
  | inl y ↦ absurd (ground (arith, h, y))
  | inr n ↦ elim (Bool-cases (p x)) [
    | inl y ↦ ground (arith, n, y)
    | inr m ↦ ground (arith, n, m, in_order_prefix p q xs ys (ground (arith, h, n, m)))
  ]
]

in_order-ComesAfter :
    (p q : Action → Bool) (b : Action) (trace : List Action)
    → q b ≡ true
    → in_order p q trace ≡ true
    → ComesAfter b p trace
unfolding in_order any
in_order-ComesAfter p q b trace is_q h before after e =
    go before (ap (λ l. in_order p q l) (sym e) ∙ h)
  where
    go : (before : List Action) → in_order p q (before ++ b ∷ after) ≡ true → any p before ≡ true
    go [] k = absurd (ground (arith, k, is_q))
    go (x ∷ xs) k = elim (Bool-cases (q x)) [
      | inl y ↦ absurd (ground (arith, k, y))
      | inr n ↦ elim (Bool-cases (p x)) [
        | inl y ↦ ground (arith, y)
        | inr m ↦ ground (arith, m, go xs (ground (arith, k, n, m)))
      ]
    ]

-- The calls that are made are the first of the steps' calls.
pub perform-prefix :
    (answer : Action → Option Error) (steps : List Step)
    → (late : List Action) × ((perform answer steps).0 ++ late ≡ map action_of steps)
unfolding perform
perform-prefix answer [] = ([], refl)
perform-prefix answer (call a ∷ steps) =
    let (late, e) = perform-prefix answer steps in (late, ap (λ l. a ∷ l) e)
perform-prefix answer (try a ∷ steps) =
    let (late, e) = perform-prefix answer steps in
    elim (Option-cases (answer a)) [
      | inl f ↦ (late, rw (f, perform) (ap (λ l. a ∷ l) e))
      | inr (x, f) ↦ (map action_of steps, rw (f, perform) refl)
    ]
perform-prefix answer (try_as format a ∷ steps) =
    let (late, e) = perform-prefix answer steps in
    elim (Option-cases (answer a)) [
      | inl f ↦ (late, rw (f, perform) (ap (λ l. a ∷ l) e))
      | inr (x, f) ↦ (map action_of steps, rw (f, perform) refl)
    ]

plan : Bool → Bool → List Action
plan cache profiler =
    map action_of (connect_steps cache ++ build_steps ++ launch_steps cache profiler)

-- A test of the four plans.
each :
    (test : Bool → Bool → Bool)
    → test true true ≡ true
    → test true false ≡ true
    → test false true ≡ true
    → test false false ≡ true
    → (cache profiler : Bool) → test cache profiler ≡ true
each test tt tf ft ff true true = tt
each test tt tf ft ff true false = tf
each test tt tf ft ff false true = ft
each test tt tf ft ff false false = ff

module _ (answer : Action → Option Error) (o : Options) where
  run_after :
      (p q : Action → Bool) (b : Action)
      → q b ≡ true
      → in_order p q (map action_of (run_steps o)) ≡ true
      → ComesAfter b p (run answer o).0
  unfolding run
  run_after p q b is_q h =
      let (late, e) = perform-prefix answer (run_steps o) in
      in_order-ComesAfter p q b (perform answer (run_steps o)).0 is_q
        (in_order_prefix p q (perform answer (run_steps o)).0 late (ap (λ l. in_order p q l) e ∙ h))

  -- The order of the parts that work together.
  pub record IsOrdered : Type 0 where
    pub indexed : (i : Informers) → ComesAfter (start i) is_install_indexers (run answer o).0
    pub installed : ComesAfter start_controllers is_install_controllers (run answer o).0
    pub slices_started :
        ComesAfter (wait_for_cache_sync filtered) (is_start filtered) (run answer o).0
    pub slices_synced : ComesAfter start_controllers (is_synced filtered) (run answer o).0
    pub local_synced : ComesAfter start_controllers (is_synced local_kcp) (run answer o).0
    pub cache_synced :
        cache_enabled o ≡ true → ComesAfter start_controllers (is_synced cache_kcp) (run answer o).0
    pub serves_last : ComesAfter run_server is_start_controllers (run answer o).0

  -- Whatever the calls return, Run installs the indexers before it starts any informers, and the
  -- controllers before it starts them; it starts the controllers only after its calls that wait for the
  -- informers of the endpoint slices and of kcp to sync (and of the cache server, where there is one), whose
  -- results it does not look at, and the server only after the controllers.
  pub run-IsOrdered : IsOrdered
  unfolding run_steps in_order plan
  run-IsOrdered =
      let c = cache_enabled o in
      let p = not (o.profiler_address == "") in
      record {
        indexed = λ i. run_after is_install_indexers is_any_start (start i) refl (
            each (λ c p. in_order is_install_indexers is_any_start (plan c p)) refl refl refl refl c
              p);
        installed = run_after is_install_controllers is_start_controllers start_controllers refl (
            each (λ c p. in_order is_install_controllers is_start_controllers (plan c p)) refl refl
              refl refl c p);
        slices_started =
            run_after (is_start filtered) (is_synced filtered) (wait_for_cache_sync filtered) refl (
              each (λ c p. in_order (is_start filtered) (is_synced filtered) (plan c p)) refl refl
                refl refl c p);
        slices_synced = run_after (is_synced filtered) is_start_controllers start_controllers refl (
            each (λ c p. in_order (is_synced filtered) is_start_controllers (plan c p)) refl refl
              refl refl c p);
        local_synced = run_after (is_synced local_kcp) is_start_controllers start_controllers refl (
            each (λ c p. in_order (is_synced local_kcp) is_start_controllers (plan c p)) refl refl
              refl refl c p);
        cache_synced = λ h.
            run_after (is_synced cache_kcp) is_start_controllers start_controllers refl (
              ap (λ x. in_order (is_synced cache_kcp) is_start_controllers (plan x p)) h
              ∙ each (λ x y. in_order (is_synced cache_kcp) is_start_controllers (plan true y)) refl
                  refl refl refl c p);
        serves_last = run_after is_start_controllers is_run_server run_server refl (
            each (λ c p. in_order is_start_controllers is_run_server (plan c p)) refl refl refl refl
              c p);
      }
