-- ===== src/Readiness/Ready.antt =====
-- What a successful ready check means.
use mathlib.Core.List.{Memᴰ}
use mathlib.Core.List.Memᴰ
use contrib_filteredapiexpor.Prelude.{
  String, true, none, List, [], ◌∷◌, ◌≡◌, ◌⊎◌, inl, inr, refl, sym, subst, arith,
}
use contrib_filteredapiexpor.Readiness.{
  informers, Hook, waiting, Server, Step, syncs, stops, goes_on, gives_up, starts, IsReachable, new,
  after, ready_check,
}

-- Of the informers, those that the loop has passed have synced. The reconciler is started after all of
-- them; the channel is closed after that, or once the server is stopped.
record IsConsistent (order : List String) (s : Server) : Type 0 where
  passed :
      (names : List String)
      → s.hook ≡ waiting names
      → (n : String) → Memᴰ n order
      → Memᴰ n names ⊎ Memᴰ n s.synced
  all_synced : s.started ≡ true → (n : String) → Memᴰ n order → Memᴰ n s.synced
  closed : s.ready_closed ≡ true → (s.started ≡ true) ⊎ (s.is_done ≡ true)

waiting_eq : {a b : List String} → ◌≡◌ {A = Hook} (waiting a) (waiting b) → a ≡ b
waiting_eq p = ground (arith, p)

module _ (order : List String) where
  Step-IsConsistent : (s s' : Server) → IsConsistent order s → Step s s' → IsConsistent order s'
  Step-IsConsistent s s' w (syncs name) = record {
    passed =
        λ names h n m. elim (w.passed names h n m) [ inl l ↦ inl l | inr t ↦ inr (Memᴰ.tail t) ];
    all_synced = λ h n m. Memᴰ.tail (w.all_synced h n m);
    closed = w.closed;
  }
  Step-IsConsistent s s' w stops = record {
    passed = w.passed;
    all_synced = w.all_synced;
    closed = λ h. inr refl;
  }
  Step-IsConsistent s s' w (goes_on name names at is_synced) = record {
    passed = λ left h n m.
        (let same : names ≡ left = waiting_eq h in
          elim (w.passed (name ∷ names) at n m) [
            | inr t ↦ inr t
            | inl l ↦ elim (Memᴰ.cases_cons l) [
              | inl p ↦ inr (subst (λ x. Memᴰ x s.synced) (sym p) is_synced)
              | inr later ↦ inl (subst (λ x. Memᴰ n x) same later)
            ]
          ]);
    all_synced = w.all_synced;
    closed = w.closed;
  }
  Step-IsConsistent s s' w (gives_up name names at d) = record {
    passed = λ left h. absurd (ground (arith, h));
    all_synced = w.all_synced;
    closed = λ h. inr d;
  }
  Step-IsConsistent s s' w (starts at) = record {
    passed = λ left h. absurd (ground (arith, h));
    all_synced = λ h n m. elim (w.passed [] at n m) [ inl l ↦ elim l [ ] | inr t ↦ t ];
    closed = λ h. inl refl;
  }

  IsConsistent-of_IsReachable : (s : Server) → IsReachable order s → IsConsistent order s
  IsConsistent-of_IsReachable s new = record {
    passed = λ names h n m. inl (subst (λ x. Memᴰ n x) (waiting_eq h) m);
    all_synced = λ h. absurd (ground (arith, h));
    closed = λ h. absurd (ground (arith, h));
  }
  IsConsistent-of_IsReachable s (after {s = r} reached step) =
      Step-IsConsistent r s (IsConsistent-of_IsReachable r reached) step

  -- Whatever the order of the loop: where the ready check succeeds, the API reconciler has been started,
  -- and every informer that the hook waits for has synced, or else the server is being stopped.
  pub ready_check_sound :
      (s : Server)
      → ((n : String) → Memᴰ n informers → Memᴰ n order)
      → IsReachable order s
      → ready_check s ≡ none
      → ((s.started ≡ true) × ((n : String) → Memᴰ n informers → Memᴰ n s.synced))
        ⊎ (s.is_done ≡ true)
  unfolding ready_check
  ready_check_sound s complete reached ready =
      let w = IsConsistent-of_IsReachable s reached in
      elim (w.closed (ground (arith, ready))) [
        | inr d ↦ inr d
        | inl h ↦ inl (h, λ n m. w.all_synced h n (complete n m))
      ]
