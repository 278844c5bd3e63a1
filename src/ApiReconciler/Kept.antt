-- ===== src/ApiReconciler/Kept.antt =====
-- The steps of the API reconciler, one by one: what is due or settled before and after each.
use mathlib.Core.List.{Memᴰ, ◌++◌}
use mathlib.Core.List.Memᴰ
use contrib_filteredapiexpor.Prelude.{
  String, true, false, Option, none, some, List, [], ◌∷◌, ◌==◌, ◌≡◌, ◌≢◌, ◌⊎◌, inl, inr, refl, sym,
  ap, subst, ◌∙◌, arith, eq_iff, &&_iff, ◌&&◌, Bool-cases, Option-cases,
}
use contrib_filteredapiexpor.Error.{Error, Result, ok, Result-cases}
use contrib_filteredapiexpor.Api.{EndpointSlice}
use contrib_filteredapiexpor.Informers.{Event, is_missed_event, subject_of}
use contrib_filteredapiexpor.Text.{split}
use contrib_filteredapiexpor.Url.Shape.{IsPart}
use contrib_filteredapiexpor.KeyMap.{text_keys, get}
use contrib_filteredapiexpor.ApiReconciler.Enqueue.{Caches}
use contrib_filteredapiexpor.ApiReconciler.Events.{run_queues, slice, run}
use contrib_filteredapiexpor.ApiReconciler.Reconcile.{State, remove_domain, reconcile, process}
use contrib_filteredapiexpor.ApiReconciler.Invariants.{IsSound, reconcile-Round, Round-other}
use contrib_filteredapiexpor.ApiReconciler.Sound.{Round-IsSound}
use contrib_filteredapiexpor.ApiReconciler.Reachable.{new_state, new_state-IsUnique}
use contrib_filteredapiexpor.ApiReconciler.Worker.{process_next_work_item}
use contrib_filteredapiexpor.ApiReconciler.Due.{
  domain_key, domain_key_injective, found, queued-add, Mem-without, round, IsSettled, IsConsistent,
  process_found, process_malformed, failed_queued,
}
use contrib_filteredapiexpor.ApiReconciler.System.{
  Setting, System, queued, AnswersNotFound, world_of, Step, changes, handles, others, works,
  IsReachable, initially, next_step,
}

module _ (fixed : Setting) where
  changes-IsConsistent :
      (s : System) (e : Event EndpointSlice) (key cluster name : String)
      (get_slice : String → String → Result EndpointSlice)
      → is_missed_event e ≡ false
      → fixed.slice_key (subject_of e) ≡ ok key
      → fixed.split_key key ≡ ok (cluster, name)
      → AnswersNotFound get_slice
      → ((c n : String) → ¬ ((c ≡ cluster) × (n ≡ name)) → get_slice c n ≡ s.get_slice c n)
      → IsConsistent fixed s
      → IsConsistent fixed (record s { get_slice = get_slice; pending = e ∷ s.pending })
  changes-IsConsistent s e key cluster name get_slice seen keyed split answers same w = record {
    sound = w.sound;
    answers = answers;
    due = λ c n parts. elim (Bool-cases (c == cluster && n == name)) [
      | inl y ↦
          let (p, q) = (&&_iff (c == cluster) (n == name)).0 y in
          let here : fixed.split_key key ≡ ok (c, n) =
            split
            ∙ ap (λ x. ok (x, name)) (sym ((eq_iff c cluster).0 p))
            ∙ ap (λ x. ok (c, x)) (sym ((eq_iff n name).0 q)) in
          inl (key, here, inr (e, Memᴰ.head refl, seen, keyed))
      | inr other ↦
          let stays =
            same c n
              (λ (p, q). ground (arith, other, (eq_iff c cluster).1 p, (eq_iff n name).1 q)) in
          elim (w.due c n parts) [
            | inl (k, k_split, inl m) ↦ inl (k, k_split, inl m)
            | inl (k, k_split, inr (e', m, seen', keyed')) ↦
                inl (k, k_split, inr (e', Memᴰ.tail m, seen', keyed'))
            | inr (old, fine, set) ↦ inr (
              old,
              subst (λ x. (round fixed old (found x) (domain_key c n)).1 ≡ none) (sym stays) fine,
              subst
                  (λ x.
                    get text_keys (domain_key c n) s.state.api_sets
                    ≡ get text_keys (domain_key c n)
                        (round fixed old (found x) (domain_key c n)).0.api_sets)
                  (sym stays) set,
            )
          ]
    ];
  }

  handles-IsConsistent :
      (s : System) (caches : Caches) (before rest : List (Event EndpointSlice))
      (e : Event EndpointSlice)
      → s.pending ≡ before ++ e ∷ rest
      → ((slice : EndpointSlice) → caches.deletion_key slice ≡ fixed.slice_key slice)
      → IsConsistent fixed s
      → IsConsistent fixed (record s {
        pending = before ++ rest;
        queue = queued (run caches fixed.export_key (slice e ∷ [])).0 ++ s.queue;
      })
  handles-IsConsistent s caches before rest e is_pending keys w =
      let calls = queued (run caches fixed.export_key (slice e ∷ [])).0 in
      record {
        sound = w.sound;
        answers = w.answers;
        due = λ c n parts. elim (w.due c n parts) [
          | inr settled ↦ inr settled
          | inl (k, k_split, inl m) ↦ inl (k, k_split, inl (Memᴰ.append_right calls m))
          | inl (k, k_split, inr (e', m, seen, keyed)) ↦
              elim (Mem-without before rest (subst (λ l. Memᴰ e' l) is_pending m)) [
                | inr left ↦ inl (k, k_split, inr (e', left, seen, keyed))
                | inl is_e ↦
                    let seen_e = subst (λ x. is_missed_event x ≡ false) is_e seen in
                    let keyed_e =
                      keys (subject_of e)
                      ∙ subst (λ x. fixed.slice_key (subject_of x) ≡ ok k) is_e keyed in
                    inl (
                      k,
                      k_split,
                      inl (
                          Memᴰ.append_left s.queue (
                            queued-add k _
                              (run_queues caches fixed.export_key e k seen_e keyed_e))),
                    )
              ]
        ];
      }

  -- What the worker's step does at each domain key: its key is still due or settled there, or it leaves
  -- that domain alone.
  abbrev Works : System → String → State → List String → Type 0
  Works s key st' queue' =
      (c n : String)
      → IsPart c × IsPart n
      → ((fixed.split_key key ≡ ok (c, n))
          × (Memᴰ key queue' ⊎ IsSettled fixed (record s { queue = queue'; state = st' }) c n))
        ⊎ ((fixed.split_key key ≢ ok (c, n))
            × (get text_keys (domain_key c n) st'.api_sets
                ≡ get text_keys (domain_key c n) s.state.api_sets))

  taken-IsConsistent :
      (s : System) (key : String) (st' : State) (queue' : List String)
      → IsConsistent fixed s
      → IsSound st'
      → ((k : String) → Memᴰ k s.queue → (k ≡ key) ⊎ Memᴰ k queue')
      → Works s key st' queue'
      → IsConsistent fixed (record s { queue = queue'; state = st' })
  taken-IsConsistent s key st' queue' w sound kept effect = record {
    sound = sound;
    answers = w.answers;
    due = λ c n parts. elim (effect c n parts) [
      | inl (is_split, inl m) ↦ inl (key, is_split, inl m)
      | inl (_, inr settled) ↦ inr settled
      | inr (other, same) ↦ elim (w.due c n parts) [
        | inr (old, fine, set) ↦ inr (old, fine, same ∙ set)
        | inl (k, k_split, inr pending) ↦ inl (k, k_split, inr pending)
        | inl (k, k_split, inl m) ↦ elim (kept k m) [
          | inr stays ↦ inl (k, k_split, inl stays)
          | inl p ↦ absurd (other (ap fixed.split_key (sym p) ∙ k_split))
        ]
      ]
    ];
  }

  abbrev processed : System → String → State × Option Error
  processed s key =
      process fixed.sources fixed.makers fixed.get_export fixed.split_key s.get_slice s.state key

  Works-processed :
      (s : System) (key : String) (queue' : List String)
      → IsConsistent fixed s
      → ((e : Error) → (processed s key).1 ≡ some e → Memᴰ key queue')
      → Works s key (processed s key).0 queue'
  Works-processed s key queue' w failed c n parts = elim (Result-cases (fixed.split_key key)) [
    | inr (x, e) ↦ inr (
      λ p. ground (arith, e, p),
      ap (λ r. get text_keys (domain_key c n) r.0.api_sets)
          (process_malformed fixed s.get_slice s.state key x e),
    )
    | inl ((c', n'), e) ↦
        let as_round = process_found fixed s.get_slice s.state key c' n' w.answers e in
        elim (Bool-cases (domain_key c' n' == domain_key c n)) [
          | inr other ↦ inr (
            λ p.
                let both : (c', n') ≡ (c, n) = ground (arith, e, p) in
                let keys : domain_key c' n' ≡ domain_key c n =
                  ap (λ (x : String × String). domain_key x.0 x.1) both in
                ground (arith, other, (eq_iff (domain_key c' n') (domain_key c n)).1 keys),
            ap (λ r. get text_keys (domain_key c n) r.0.api_sets) as_round
                ∙ Round-other s.state (domain_key c' n') _ _ (domain_key c n)
                    (reconcile-Round fixed.sources fixed.makers fixed.get_export s.state
                      (found (s.get_slice c' n')) (domain_key c' n') w.sound)
                    (λ p. ground (arith, other, (eq_iff (domain_key c' n') (domain_key c n)).1 p)),
          )
          | inl y ↦
              let (p, q) =
                domain_key_injective c' n' c n (fixed.split_key-IsPart key c' n' e) parts
                  ((eq_iff (domain_key c' n') (domain_key c n)).0 y) in
              let here : processed s key
                  ≡ round fixed s.state (found (s.get_slice c n)) (domain_key c n) =
                as_round
                ∙ ap (λ x. round fixed s.state (found (s.get_slice x n')) (domain_key x n')) p
                ∙ ap (λ x. round fixed s.state (found (s.get_slice c x)) (domain_key c x)) q in
              inl (
                e ∙ ap (λ x. ok (x, n')) p ∙ ap (λ x. ok (c, x)) q,
                elim (Option-cases (processed s key).1) [
                  | inr (x, f) ↦ inl (failed x f)
                  | inl f ↦ inr (
                    s.state,
                    ap (λ r. r.1) (sym here) ∙ f,
                    ap (λ r. get text_keys (domain_key c n) r.0.api_sets) here,
                  )
                ],
              )
        ]
  ]

  processed-IsSound :
      (s : System) (key : String) → IsConsistent fixed s → IsSound (processed s key).0
  processed-IsSound s key w = elim (Result-cases (fixed.split_key key)) [
    | inr (x, e) ↦
        subst (λ r. IsSound r.0) (sym (process_malformed fixed s.get_slice s.state key x e)) w.sound
    | inl ((c, n), e) ↦
        subst (λ r. IsSound r.0) (sym (process_found fixed s.get_slice s.state key c n w.answers e))
          (Round-IsSound s.state (domain_key c n) _ _ w.sound (
            reconcile-Round fixed.sources fixed.makers fixed.get_export s.state
              (found (s.get_slice c n)) (domain_key c n) w.sound))
  ]

  works-IsConsistent :
      (s : System) (before rest : List String) (key : String)
      → s.queue ≡ before ++ key ∷ rest
      → (process_next_work_item (world_of fixed s) s.state (some key)).2 ≡ true
      → IsConsistent fixed s
      → IsConsistent fixed (record s {
        queue =
            queued (process_next_work_item (world_of fixed s) s.state (some key)).1
            ++ (before ++ rest);
        state = (process_next_work_item (world_of fixed s) s.state (some key)).0;
      })
  unfolding process_next_work_item
  works-IsConsistent s before rest key is_queue alive w =
      let calls = queued (process_next_work_item (world_of fixed s) s.state (some key)).1 in
      taken-IsConsistent s key (processed s key).0 (calls ++ (before ++ rest)) w
        (processed-IsSound s key w)
        (λ k m. elim (Mem-without before rest (subst (λ l. Memᴰ k l) is_queue m)) [
          | inl p ↦ inl p
          | inr left ↦ inr (Memᴰ.append_right calls left)
        ])
        (Works-processed s key (calls ++ (before ++ rest)) w
          (λ e h. Memᴰ.append_left (before ++ rest) (failed_queued fixed s key e h alive)))

  Step-IsConsistent :
      (s s' : System) → IsConsistent fixed s → Step fixed s s' → IsConsistent fixed s'
  Step-IsConsistent s s' w (changes e key c n get_slice seen keyed is_split answers same) =
      changes-IsConsistent s e key c n get_slice seen keyed is_split answers same w
  Step-IsConsistent s s' w (handles caches before rest e is_pending keys) =
      handles-IsConsistent s caches before rest e is_pending keys w
  Step-IsConsistent s s' w (others keys) = record {
    sound = w.sound;
    answers = w.answers;
    due = λ c n parts. elim (w.due c n parts) [
      | inr settled ↦ inr settled
      | inl (k, k_split, inr pending) ↦ inl (k, k_split, inr pending)
      | inl (k, k_split, inl m) ↦ inl (k, k_split, inl (Memᴰ.append_right keys m))
    ];
  }
  Step-IsConsistent s s' w (works before rest key is_queue alive) =
      works-IsConsistent s before rest key is_queue alive w

  pub IsConsistent-of_IsReachable :
      (empty : String → String → Result EndpointSlice) (s : System)
      → AnswersNotFound empty
      → ((c n : String) → found (empty c n) ≡ none)
      → IsReachable fixed empty s
      → IsConsistent fixed s
  unfolding reconcile remove_domain get
  IsConsistent-of_IsReachable empty s answers nothing initially = record {
    sound = new_state-IsUnique.sound;
    answers = answers;
    due = λ c n parts. inr (new_state, rw (nothing c n) refl, rw (nothing c n) refl);
  }
  IsConsistent-of_IsReachable empty s answers nothing (next_step {s = r} reached step) =
      Step-IsConsistent r s (IsConsistent-of_IsReachable empty r answers nothing reached) step
