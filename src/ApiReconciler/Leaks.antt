-- ===== src/ApiReconciler/Leaks.antt =====
-- apiexport_apireconciler_reconcile.go: what becomes of the definitions of a domain key whose endpoint
-- slice is gone.
use mathlib.Core.List.{Memᴰ}
use mathlib.Core.List.Memᴰ
use contrib_filteredapiexpor.Prelude.{
  ℕ, ◌<◌, String, Option, none, some, List, [], ◌∷◌, ◌≡◌, ◌⊎◌, inl, inr, refl, sym, ap, subst, ◌∙◌,
  arith, Option-cases,
}
use contrib_filteredapiexpor.Error.{Error, Result}
use contrib_filteredapiexpor.Api.{ApiExport}
use contrib_filteredapiexpor.KeyMap.{text_keys, get, IsMap, put-IsMap, remove-IsMap, get-mem}
use contrib_filteredapiexpor.ApiReconciler.Schemas.{Sources}
use contrib_filteredapiexpor.ApiReconciler.Definitions.{
  Gvr, gvr_keys, Definition, DefinitionSet, Makers,
}
use contrib_filteredapiexpor.ApiReconciler.Reconcile.{State, remove_domain, replace_set, reconcile}
use contrib_filteredapiexpor.ApiReconciler.Invariants.{
  Round, removed, failed, replaced, remove_domain_next, remove_domain_same,
}
use contrib_filteredapiexpor.ApiReconciler.Sound.{remove_domain_torn}
use contrib_filteredapiexpor.ApiReconciler.Unique.{
  IsServed, IsUnique, served_bounded, places, torn_cases, torn_was-IsServed,
}
use contrib_filteredapiexpor.ApiReconciler.Reachable.{
  IsServed-of_removed, removed-IsUnique, start_worker_keeps, start_worker-IsUnique, new_state,
  new_state-IsUnique,
}
use contrib_filteredapiexpor.ApiReconciler.Worker.{
  World, start_worker, handles_of, handles_of_all, until_nil, stop,
}

-- The sets are a map from domain keys.
abbrev HasOneSet : State → Type 0
HasOneSet st = IsMap text_keys st.api_sets

Round-HasOneSet :
    (st : State) (key : String) (st' : State) (error : Option Error)
    → HasOneSet st
    → Round st key st' error
    → HasOneSet st'
unfolding remove_domain replace_set
Round-HasOneSet st key st' error m (failed e) = m
Round-HasOneSet st key st' error m (replaced export b named built g) =
    put-IsMap text_keys key b.set st.api_sets m
Round-HasOneSet st key st' error m removed = elim (Option-cases (get text_keys key st.api_sets)) [
  | inl e ↦ rw (e, remove_domain) m
  | inr (set, e) ↦ rw (e, remove_domain) (remove-IsMap text_keys key st.api_sets m)
]

-- The definition exists, is not served, and has not been torn down.
record IsLost (n : ℕ) (st : State) : Type 0 where
  exists : n < st.next
  unserved : (key : String) (gvr : Gvr) → ¬ IsServed st key gvr n
  untorn : ¬ Memᴰ (some n) st.torn

Round-IsLost :
    (n : ℕ) (st : State) (key : String) (st' : State) (error : Option Error)
    → IsUnique st
    → IsLost n st
    → Round st key st' error
    → IsLost n st'
unfolding replace_set
Round-IsLost n st key st' error u l (failed e) = l
Round-IsLost n st key st' error u l removed = record {
  exists = (let low = l.exists in let same = remove_domain_next st key in omega arith);
  unserved = λ other gvr s. l.unserved other gvr (IsServed-of_removed st key other gvr n s);
  untorn = λ m. l.untorn (subst (λ x. Memᴰ (some n) x) (remove_domain_torn st key) m);
}
Round-IsLost n st key st' error u l (replaced export b named built g) = record {
  exists = (let low = l.exists in let up = built.order in omega arith);
  unserved = λ other gvr s. elim (places st key export b u named built g other gvr n s) [
    | inl old ↦ l.unserved other gvr old
    | inr (k, fresh) ↦ (let low = l.exists in omega arith)
  ];
  untorn = λ m. elim (torn_cases st key export b u named built g n m) [
    | inr before ↦ l.untorn before
    | inl now ↦ let (g, old) = torn_was-IsServed st key b n u.sound now in l.unserved key g old
  ];
}

-- What stopping tears down is served, or has been torn down before.
handles_of_sound :
    (set : DefinitionSet) (x : Option ℕ)
    → Memᴰ x (handles_of set)
    → (gvr : Gvr) × (d : Definition) × Memᴰ (gvr, d) set × (d.handle ≡ x)
unfolding handles_of
handles_of_sound [] x m = elim m [ ]
handles_of_sound ((gvr, d) ∷ set) x m = elim (Memᴰ.cases_cons m) [
  | inl e ↦ (gvr, d, Memᴰ.head refl, sym e)
  | inr later ↦ let (g, e, t, h) = handles_of_sound set x later in (g, e, Memᴰ.tail t, h)
]

handles_of_all_sound :
    (sets : List (String × DefinitionSet)) (x : Option ℕ)
    → Memᴰ x (handles_of_all sets)
    → (key : String) × (set : DefinitionSet) × Memᴰ (key, set) sets × Memᴰ x (handles_of set)
unfolding handles_of_all
handles_of_all_sound [] x m = elim m [ ]
handles_of_all_sound ((key, set) ∷ sets) x m = elim (Memᴰ.append_cases (handles_of set) m) [
  | inl here ↦ (key, set, Memᴰ.head refl, here)
  | inr later ↦ let (k, s, t, h) = handles_of_all_sound sets x later in (k, s, Memᴰ.tail t, h)
]

until_nil_sound :
    (handles : List (Option ℕ)) (x : Option ℕ) → Memᴰ x (until_nil handles) → Memᴰ x handles
unfolding until_nil
until_nil_sound [] x m = elim m [ ]
until_nil_sound (none ∷ handles) x m = elim m [ ]
until_nil_sound (some n ∷ handles) x m = elim (Memᴰ.cases_cons m) [
  | inl e ↦ Memᴰ.head e
  | inr later ↦ Memᴰ.tail (until_nil_sound handles x later)
]

stop_sound :
    (st : State) (n : ℕ)
    → IsUnique st
    → HasOneSet st
    → Memᴰ (some n) (stop st).torn
    → ((key : String) × (gvr : Gvr) × IsServed st key gvr n) ⊎ Memᴰ (some n) st.torn
unfolding stop
stop_sound st n u one m = elim (Memᴰ.append_cases (until_nil (handles_of_all st.api_sets)) m) [
  | inr before ↦ inr before
  | inl now ↦
      let (key, set, t, h) =
        handles_of_all_sound st.api_sets (some n) (until_nil_sound _ (some n) now) in
      let found = get-mem text_keys st.api_sets one t in
      let (gvr, d, s, e) = handles_of_sound set (some n) h in
      inl (key, gvr, (set, d, found, get-mem gvr_keys set (u.sound.is_map key set found) s, e))
]

removed-IsLost :
    (st : State) (key : String) (gvr : Gvr) (n : ℕ)
    → IsUnique st
    → IsServed st key gvr n
    → IsLost n (remove_domain st key)
removed-IsLost st key gvr n u s = record {
  exists =
      (let low = served_bounded st key gvr n u.sound s in
        let same = remove_domain_next st key in omega arith);
  unserved = λ other g (set, d, a, f, h).
      let (here, same) =
        u.separate key other gvr g n s (IsServed-of_removed st key other g n (set, d, a, f, h)) in
      let at_key = ap (λ k. get text_keys k (remove_domain st key).api_sets) here ∙ a in
      ground (arith, at_key, remove_domain_same st key);
  untorn = λ m. u.gone key gvr n s (subst (λ x. Memᴰ (some n) x) (remove_domain_torn st key) m);
}

HasOneSet-kept :
    (st : State) (items : List (World × Option String))
    → IsUnique st
    → HasOneSet st
    → HasOneSet (start_worker st items).0
HasOneSet-kept st items u one =
    start_worker_keeps (λ x. HasOneSet x) (λ a k a' error v p r. Round-HasOneSet a k a' error p r)
      st items u one

-- A definition that the worker serves at a domain key is never torn down once the endpoint slice of the
-- key is gone: neither then, nor by whatever the worker does later, nor when the controller stops.
pub removed_leaks :
    (before after : List (World × Option String)) (key : String) (gvr : Gvr) (n : ℕ) (src : Sources)
    (mk : Makers) (get_export : String → String → Result ApiExport)
    → IsServed (start_worker new_state before).0 key gvr n
    → ¬ Memᴰ
        (some n)
        (stop
          (start_worker
            (reconcile src mk get_export (start_worker new_state before).0 none key).0
            after).0).torn
unfolding reconcile
removed_leaks before after key gvr n src mk get_export s m =
    let st = (start_worker new_state before).0 in
    let u = start_worker-IsUnique new_state before new_state-IsUnique in
    let one = HasOneSet-kept new_state before new_state-IsUnique tt in
    let gone = remove_domain st key in
    let gone_one = Round-HasOneSet st key gone none one removed in
    let gone_unique = removed-IsUnique st key u in
    let later = (start_worker gone after).0 in
    let lost =
      start_worker_keeps (λ x. IsLost n x) (Round-IsLost n) gone after gone_unique
        (removed-IsLost st key gvr n u s) in
    elim (stop_sound later n (start_worker-IsUnique gone after gone_unique)
      (HasOneSet-kept gone after gone_unique gone_one) m) [
        | inl (k, g, t) ↦ lost.unserved k g t
        | inr t ↦ lost.untorn t
      ]
