-- ===== src/ApiReconciler/Reachable.antt =====
-- Every state that the worker of the reconciler can reach from the empty one.
use mathlib.Core.List.{Memᴰ}
use mathlib.Core.List.Memᴰ
use contrib_filteredapiexpor.Prelude.{
  ℕ, String, false, Option, none, some, List, [], ◌∷◌, ◌==◌, ◌≡◌, inl, inr, refl, sym, ap, subst,
  ◌∙◌, arith, eq_iff, Bool-cases,
}
use contrib_filteredapiexpor.Error.{panics, Error, is_not_found, Result-cases}
use contrib_filteredapiexpor.KeyMap.{text_keys, get}
use contrib_filteredapiexpor.ApiReconciler.Definitions.{
  Gvr, gvr_keys, Definition, DefinitionSet, has_nil,
}
use contrib_filteredapiexpor.ApiReconciler.Reconcile.{State, remove_domain, process}
use contrib_filteredapiexpor.ApiReconciler.Invariants.{
  Round, removed, failed, replaced, reconcile-Round, remove_domain_same, remove_domain_next,
}
use contrib_filteredapiexpor.ApiReconciler.Sound.{Round-IsSound, remove_domain_torn}
use contrib_filteredapiexpor.ApiReconciler.Unique.{
  IsServed, IsUnique, replaced-IsUnique, IsServed-elsewhere,
}
use contrib_filteredapiexpor.ApiReconciler.Worker.{
  World, process_next_work_item, start_worker, handles_of, handles_of_all, until_nil, stop,
}

-- Removing a domain serves less, and tears down nothing.
pub IsServed-of_removed :
    (st : State) (key other : String) (gvr : Gvr) (n : ℕ)
    → IsServed (remove_domain st key) other gvr n
    → IsServed st other gvr n
IsServed-of_removed st key other gvr n (set, d, s, f, h) = elim (Bool-cases (key == other)) [
  | inl e ↦
      let same =
        ap (λ k. get text_keys k (remove_domain st key).api_sets) ((eq_iff key other).0 e) in
      absurd (ground (arith, same ∙ s, remove_domain_same st key))
  | inr e ↦
      IsServed-elsewhere st (remove_domain st key) key none other gvr n removed
        (λ p. ground (arith, e, (eq_iff key other).1 p)) (set, d, s, f, h)
]

pub removed-IsUnique : (st : State) (key : String) → IsUnique st → IsUnique (remove_domain st key)
removed-IsUnique st key w = record {
  sound = Round-IsSound st key (remove_domain st key) none w.sound removed;
  separate = λ first second g g' n s t.
      w.separate first second g g' n (IsServed-of_removed st key first g n s)
        (IsServed-of_removed st key second g' n t);
  gone = λ other g n s m.
      w.gone other g n (IsServed-of_removed st key other g n s)
        (subst (λ l. Memᴰ (some n) l) (remove_domain_torn st key) m);
  torn_bounded = λ n m.
      (let low = w.torn_bounded n (subst (λ l. Memᴰ (some n) l) (remove_domain_torn st key) m) in
        let same = remove_domain_next st key in omega arith);
}

Round-IsUnique :
    (st : State) (key : String) (st' : State) (error : Option Error)
    → IsUnique st
    → Round st key st' error
    → IsUnique st'
Round-IsUnique st key st' error w removed = removed-IsUnique st key w
Round-IsUnique st key st' error w (failed e) = w
Round-IsUnique st key st' error w (replaced export b named built g) =
    replaced-IsUnique st key export b w named built g

-- What every round of a unique state keeps, the worker keeps.
module _ (P : State → Type 0)
    (step : (st : State) (key : String) (st' : State) (error : Option Error)
      → IsUnique st
      → P st
      → Round st key st' error
      → P st') where
  process_keeps :
      (w : World) (st : State) (key : String)
      → IsUnique st
      → P st
      → P (process w.sources w.makers w.get_export w.split_key w.get_slice st key).0
  unfolding process
  process_keeps w st key u p =
      let round = reconcile-Round w.sources w.makers w.get_export st in
      elim (Result-cases (w.split_key key)) [
        | inr (x, e) ↦ rw (e, process) p
        | inl ((cluster, name), e) ↦ elim (Result-cases (w.get_slice cluster name)) [
          | inl (slice, f) ↦
              rw (e, process) (rw f (step st _ _ _ u p (round (some slice) _ u.sound)))
          | inr (x, f) ↦ elim (Bool-cases (is_not_found x)) [
            | inl g ↦ rw (e, process) (rw f (rw g (step st _ _ _ u p (round none _ u.sound))))
            | inr g ↦ rw (e, process) (rw f (rw g p))
          ]
        ]
      ]

process-IsUnique :
    (w : World) (st : State) (key : String)
    → IsUnique st
    → IsUnique (process w.sources w.makers w.get_export w.split_key w.get_slice st key).0
process-IsUnique w st key u =
    process_keeps (λ x. IsUnique x) (λ s k s' error v p r. Round-IsUnique s k s' error v r) w st key
      u u

module _ (P : State → Type 0)
    (step : (st : State) (key : String) (st' : State) (error : Option Error)
      → IsUnique st
      → P st
      → Round st key st' error
      → P st') where
  pub start_worker_keeps :
      (st : State) (items : List (World × Option String))
      → IsUnique st
      → P st
      → P (start_worker st items).0
  unfolding start_worker process_next_work_item
  start_worker_keeps st [] u p = p
  start_worker_keeps st ((w, none) ∷ items) u p = p
  start_worker_keeps st ((w, some key) ∷ items) u p =
      let r = process w.sources w.makers w.get_export w.split_key w.get_slice st key in
      let kept = process_keeps P step w st key u p in
      elim (Bool-cases (panics r.1)) [
        | inl y ↦ rw (y, start_worker) kept
        | inr n ↦
            rw (n, start_worker) (start_worker_keeps r.0 items (process-IsUnique w st key u) kept)
      ]

-- Whatever keys the queue gives, and however the caches change in between, the worker keeps this: each
-- definition that is served is served at one place only, and has not been torn down.
pub start_worker-IsUnique :
    (st : State) (items : List (World × Option String))
    → IsUnique st
    → IsUnique (start_worker st items).0
start_worker-IsUnique st items u =
    start_worker_keeps (λ x. IsUnique x) (λ s k s' error v p r. Round-IsUnique s k s' error v r) st
      items u u

-- The state of a new reconciler.
abbrev pub new_state : State
new_state = record { api_sets = []; next = 0; torn = [] }

pub new_state-IsUnique : IsUnique new_state
unfolding get
new_state-IsUnique = record {
  sound = record {
    is_map = λ key set h. absurd (ground (arith, h));
    numbers = λ key set h. absurd (ground (arith, h));
  };
  separate = λ first second g g' n (set, d, s, f, h) t. absurd (ground (arith, s));
  gone = λ other g n s m. elim m [ ];
  torn_bounded = λ n m. elim m [ ];
}

-- What a set serves is among its handles.
handles_of_complete :
    (set : DefinitionSet) (gvr : Gvr) (d : Definition)
    → get gvr_keys gvr set ≡ some d
    → Memᴰ d.handle (handles_of set)
unfolding get handles_of
handles_of_complete [] gvr d h = absurd (ground (arith, h))
handles_of_complete ((g, e) ∷ set) gvr d h = elim (Bool-cases (gvr_keys.same g gvr)) [
  | inl y ↦ let same : e ≡ d = ground (arith, h, y) in Memᴰ.head (ap (λ x. x.handle) (sym same))
  | inr n ↦ Memᴰ.tail (handles_of_complete set gvr d (ground (arith, h, n)))
]

handles_of_all_complete :
    (sets : List (String × DefinitionSet)) (key : String) (set : DefinitionSet) (x : Option ℕ)
    → get text_keys key sets ≡ some set
    → Memᴰ x (handles_of set)
    → Memᴰ x (handles_of_all sets)
unfolding get handles_of_all
handles_of_all_complete [] key set x h m = absurd (ground (arith, h))
handles_of_all_complete ((k, s) ∷ sets) key set x h m = elim (Bool-cases (k == key)) [
  | inl y ↦
      let same : set ≡ s = ground (arith, h, y) in
      Memᴰ.append_left (handles_of_all sets) (subst (λ t. Memᴰ x (handles_of t)) same m)
  | inr n ↦
      Memᴰ.append_right (handles_of s)
        (handles_of_all_complete sets key set x (ground (arith, h, n)) m)
]

until_nil_all : (handles : List (Option ℕ)) → has_nil handles ≡ false → until_nil handles ≡ handles
unfolding has_nil until_nil
until_nil_all [] h = refl
until_nil_all (none ∷ handles) h = absurd (ground (arith, h))
until_nil_all (some n ∷ handles) h = ap (λ l. some n ∷ l) (until_nil_all handles h)

-- When the controller stops, it tears down every definition that it serves, where none is nil.
stop_complete :
    (st : State) (key : String) (gvr : Gvr) (n : ℕ)
    → has_nil (handles_of_all st.api_sets) ≡ false
    → IsServed st key gvr n
    → Memᴰ (some n) (stop st).torn
unfolding stop
stop_complete st key gvr n real (set, d, s, f, h) = rw (until_nil_all _ real) (
    Memᴰ.append_left st.torn (
      handles_of_all_complete st.api_sets key set (some n) s
        (subst (λ x. Memᴰ x (handles_of set)) h (handles_of_complete set gvr d f))))
