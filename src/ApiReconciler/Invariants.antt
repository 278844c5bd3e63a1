-- ===== src/ApiReconciler/Invariants.antt =====
-- What every round of the reconciler keeps, for all API domain keys.
use contrib_filteredapiexpor.Prelude.{
  ℕ, ◌≤◌, String, false, Option, none, some, [], ◌==◌, ◌≡◌, ◌≢◌, inl, inr, refl, subst, arith,
  eq_iff, Bool-cases, Option-cases,
}
use contrib_filteredapiexpor.Error.{Error, Result, is_not_found, Result-cases}
use contrib_filteredapiexpor.Api.{ApiExport, EndpointSlice}
use contrib_filteredapiexpor.KeyMap.{
  text_keys, get, IsMap, get-put_other, get-remove_same, get-remove_other,
}
use contrib_filteredapiexpor.ApiReconciler.Schemas.{Sources, collect}
use contrib_filteredapiexpor.ApiReconciler.Definitions.{
  gvr_keys, DefinitionSet, Makers, Built, define_all, torn_down, has_nil,
}
use contrib_filteredapiexpor.ApiReconciler.Lives.{HasOwnNumbers, IsBuilt}
use contrib_filteredapiexpor.ApiReconciler.Rounds.{define_all-IsBuilt}
use contrib_filteredapiexpor.ApiReconciler.Reconcile.{
  State, set_of, remove_domain, replace_set, rebuild, reconcile,
}

-- Every set is a map whose definitions have numbers of their own.
pub record IsSound (st : State) : Type 0 where
  pub is_map :
      (key : String) (set : DefinitionSet)
      → get text_keys key st.api_sets ≡ some set
      → IsMap gvr_keys set
  pub numbers :
      (key : String) (set : DefinitionSet)
      → get text_keys key st.api_sets ≡ some set
      → HasOwnNumbers set st.next

no_numbers : (next : ℕ) → HasOwnNumbers [] next
unfolding get
no_numbers next = record {
  bounded = λ g d n h k. absurd (ground (arith, h));
  distinct = λ g g' d d' n h h' k k'. absurd (ground (arith, h));
}

pub set_of-HasOwnNumbers :
    (st : State) (key : String) → IsSound st → HasOwnNumbers (set_of st key) st.next
unfolding set_of
set_of-HasOwnNumbers st key w = elim (Option-cases (get text_keys key st.api_sets)) [
  | inl e ↦
      let same : [] ≡ set_of st key = ground (arith, e) in
      subst (λ x. HasOwnNumbers x st.next) same (no_numbers st.next)
  | inr (set, e) ↦
      let same : set ≡ set_of st key = ground (arith, e) in
      subst (λ x. HasOwnNumbers x st.next) same (w.numbers key set e)
]

pub set_of-IsMap : (st : State) (key : String) → IsSound st → IsMap gvr_keys (set_of st key)
unfolding set_of
set_of-IsMap st key w = elim (Option-cases (get text_keys key st.api_sets)) [
  | inl e ↦
      let same : [] ≡ set_of st key = ground (arith, e) in subst (λ x. IsMap gvr_keys x) same tt
  | inr (set, e) ↦
      let same : set ≡ set_of st key = ground (arith, e) in
      subst (λ x. IsMap gvr_keys x) same (w.is_map key set e)
]

pub later_numbers :
    (set : DefinitionSet) (a b : ℕ) → a ≤ b → HasOwnNumbers set a → HasOwnNumbers set b
later_numbers set a b le w = record {
  bounded = λ g d n h k. (let lt = w.bounded g d n h k in omega arith);
  distinct = w.distinct;
}

-- How a round may end.
pub data Round (st : State) (key : String) : State → Option Error → Type 0 where
  removed : Round st key (remove_domain st key) none
  failed : (e : Error) → Round st key st (some e)
  replaced :
      (export : ApiExport) (b : Built)
      → (export.identity_hash ≢ "")
      → IsBuilt (set_of st key) export st.next b
      → (has_nil (torn_down b.set (set_of st key)) ≡ false)
      → Round st key (replace_set st key b) none

module _ (src : Sources) (mk : Makers) (get_export : String → String → Result ApiExport) where
  rebuild-Round :
      (st : State) (slice : EndpointSlice) (export : ApiExport) (key : String)
      → IsSound st
      → (export.identity_hash ≢ "")
      → Round st key
          (rebuild src mk get_export st slice export key).0
          (rebuild src mk get_export st slice export key).1
  unfolding rebuild
  rebuild-Round st slice export key w n = elim (Result-cases (collect src export)) [
    | inr (x, e) ↦ rw (e, rebuild) (failed x)
    | inl (c, e) ↦
        let selector = slice.spec.object_selector.label_selector in
        elim (Result-cases (define_all mk export c selector (set_of st key) st.next)) [
          | inr (x, f) ↦ rw (e, rebuild) (rw f (failed x))
          | inl (b, f) ↦ elim (Bool-cases (has_nil (torn_down b.set (set_of st key)))) [
            | inl g ↦ rw (e, rebuild) (rw f (rw g (failed _)))
            | inr g ↦
                rw (e, rebuild)
                  (rw f (
                    rw g (
                      replaced export b n
                        (define_all-IsBuilt (set_of st key) export st.next
                          (set_of-HasOwnNumbers st key w) mk c selector b f)
                        g)))
          ]
        ]
  ]

  -- A round removes the API domain, fails and changes nothing, or replaces the set of the domain by one
  -- that is built from it.
  pub reconcile-Round :
      (st : State) (slice : Option EndpointSlice) (key : String)
      → IsSound st
      → Round st key
          (reconcile src mk get_export st slice key).0
          (reconcile src mk get_export st slice key).1
  unfolding reconcile
  reconcile-Round st none key w = removed
  reconcile-Round st (some slice) key w =
      elim (Result-cases (get_export slice.cluster slice.spec.api_export.name)) [
        | inr (x, e) ↦ elim (Bool-cases (is_not_found x)) [
          | inl g ↦ rw (e, reconcile) (rw g removed)
          | inr g ↦ rw (e, reconcile) (rw g (failed x))
        ]
        | inl (export, e) ↦ elim (Bool-cases (export.identity_hash == "")) [
          | inl g ↦ rw (e, reconcile) (rw g removed)
          | inr g ↦
              rw (e, reconcile)
                (rw g (
                  rebuild-Round st slice export key w
                    (λ p. ground (arith, g, (eq_iff export.identity_hash "").1 p))))
        ]
      ]

remove_domain_other :
    (st : State) (key other : String)
    → key ≢ other
    → get text_keys other (remove_domain st key).api_sets ≡ get text_keys other st.api_sets
unfolding remove_domain
remove_domain_other st key other n = elim (Option-cases (get text_keys key st.api_sets)) [
  | inl e ↦ ground (arith, e)
  | inr (set, e) ↦ ground (arith, e, get-remove_other text_keys key other st.api_sets n)
]

pub remove_domain_next : (st : State) (key : String) → (remove_domain st key).next ≡ st.next
unfolding remove_domain
remove_domain_next st key = ground arith

pub remove_domain_same :
    (st : State) (key : String) → get text_keys key (remove_domain st key).api_sets ≡ none
unfolding remove_domain
remove_domain_same st key = elim (Option-cases (get text_keys key st.api_sets)) [
  | inl e ↦ ground (arith, e)
  | inr (set, e) ↦ ground (arith, e, get-remove_same text_keys key st.api_sets)
]

-- A round leaves the sets of the other API domain keys alone.
pub Round-other :
    (st : State) (key : String) (st' : State) (error : Option Error) (other : String)
    → Round st key st' error
    → key ≢ other
    → get text_keys other st'.api_sets ≡ get text_keys other st.api_sets
unfolding replace_set
Round-other st key st' error other removed n = remove_domain_other st key other n
Round-other st key st' error other (failed e) n = refl
Round-other st key st' error other (replaced export b i w g) n =
    get-put_other text_keys key other b.set st.api_sets n
