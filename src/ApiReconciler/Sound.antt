-- ===== src/ApiReconciler/Sound.antt =====
-- apiexport_apireconciler_reconcile.go: the sets of a domain key after a round, and what it has torn down.
use mathlib.Core.List.{Memᴰ, ◌++◌}
use mathlib.Core.List.Memᴰ
use contrib_filteredapiexpor.Prelude.{
  ℕ, ◌≤◌, String, false, Option, none, some, List, [], ◌∷◌, ◌==◌, ◌≡◌, ◌≢◌, ◌⊎◌, inl, inr, refl,
  sym, ap, subst, ◌∙◌, arith, eq_iff, Bool-cases,
}
use contrib_filteredapiexpor.Error.{panics, Error, Result}
use contrib_filteredapiexpor.Api.{ApiExport, EndpointSlice}
use contrib_filteredapiexpor.KeyMap.{text_keys, get, IsMap, get-mem, get-put_same}
use contrib_filteredapiexpor.ApiReconciler.Schemas.{Sources}
use contrib_filteredapiexpor.ApiReconciler.Definitions.{
  Gvr, gvr_keys, Definition, DefinitionSet, Makers, torn_down, has_nil,
}
use contrib_filteredapiexpor.ApiReconciler.Lives.{HasOwnNumbers}
use contrib_filteredapiexpor.ApiReconciler.Rounds.{HasOwnNumbers-of_IsBuilt}
use contrib_filteredapiexpor.ApiReconciler.TearDown.{torn_down-spares, IsKept, torn_down_complete}
use contrib_filteredapiexpor.ApiReconciler.Reconcile.{
  State, set_of, remove_domain, replace_set, reconcile,
}
use contrib_filteredapiexpor.ApiReconciler.Invariants.{
  IsSound, Round, removed, failed, replaced, reconcile-Round, Round-other, remove_domain_same,
  remove_domain_next, set_of-HasOwnNumbers, set_of-IsMap, later_numbers,
}

-- The set of a domain key after a round, if there is one, is a map with numbers of its own.
abbrev IsSoundAt : State → String → Type 0
IsSoundAt st key =
    (set : DefinitionSet)
    → get text_keys key st.api_sets ≡ some set
    → IsMap gvr_keys set × HasOwnNumbers set st.next

Round-next :
    (st : State) (key : String) (st' : State) (error : Option Error)
    → Round st key st' error
    → st.next ≤ st'.next
unfolding replace_set
Round-next st key st' error removed = (let same = remove_domain_next st key in omega arith)
Round-next st key st' error (failed e) = omega arith
Round-next st key st' error (replaced export b i w g) = w.order

Round-IsSoundAt :
    (st : State) (key : String) (st' : State) (error : Option Error)
    → IsSound st
    → Round st key st' error
    → IsSoundAt st' key
unfolding replace_set
Round-IsSoundAt st key st' error w removed set h =
    absurd (ground (arith, h, remove_domain_same st key))
Round-IsSoundAt st key st' error w (failed e) set h = (w.is_map key set h, w.numbers key set h)
Round-IsSoundAt st key st' error w (replaced export b i built real) set h =
    let same : b.set ≡ set = ground (arith, h, get-put_same text_keys key b.set st.api_sets) in
    (
      subst (λ x. IsMap gvr_keys x) same built.is_map,
      subst (λ x. HasOwnNumbers x b.next) same
          (HasOwnNumbers-of_IsBuilt (set_of st key) export st.next b (set_of-HasOwnNumbers st key w)
            built),
    )

pub Round-IsSound :
    (st : State) (key : String) (st' : State) (error : Option Error)
    → IsSound st
    → Round st key st' error
    → IsSound st'
Round-IsSound st key st' error w r = record {
  is_map = λ other set h. (all other set h).0;
  numbers = λ other set h. (all other set h).1;
}
  where
    all :
        (other : String) (set : DefinitionSet)
        → get text_keys other st'.api_sets ≡ some set
        → IsMap gvr_keys set × HasOwnNumbers set st'.next
    all other set h = elim (Bool-cases (key == other)) [
      | inl e ↦
          let same = (eq_iff key other).0 e in
          Round-IsSoundAt st key st' error w r set (ap (λ k. get text_keys k st'.api_sets) same ∙ h)
      | inr e ↦
          let n : key ≢ other = λ p. ground (arith, e, (eq_iff key other).1 p) in
          let before = sym (Round-other st key st' error other r n) ∙ h in
          (
            w.is_map other set before,
            later_numbers set st.next st'.next (Round-next st key st' error r)
                (w.numbers other set before),
          )
    ]

-- What a round tears down: no nil definition, nothing that the domain key serves after it, and, where the
-- key still has a set, every old definition that it does not keep.
pub record Cleans (st : State) (key : String) (st' : State) : Type 0 where
  pub round : List (Option ℕ)
  pub torn : st'.torn ≡ round ++ st.torn
  pub real : ¬ Memᴰ none round
  pub spares :
      (gvr : Gvr) (d : Definition) (n : ℕ)
      → get gvr_keys gvr (set_of st' key) ≡ some d
      → d.handle ≡ some n
      → ¬ Memᴰ (some n) round
  pub drops :
      (set : DefinitionSet)
      → get text_keys key st'.api_sets ≡ some set
      → (gvr : Gvr) (d : Definition) → Memᴰ (gvr, d) (set_of st key)
      → IsKept set gvr d ⊎ Memᴰ d.handle round

not_in_nil : {x : Option ℕ} → ¬ Memᴰ x []
not_in_nil t = elim t [ ]

has_nil_complete : (handles : List (Option ℕ)) → has_nil handles ≡ false → ¬ Memᴰ none handles
unfolding has_nil
has_nil_complete [] h m = elim m [ ]
has_nil_complete (none ∷ handles) h m = absurd (ground (arith, h))
has_nil_complete (some n ∷ handles) h m = elim (Memᴰ.cases_cons m) [
  | inl e ↦ absurd (ground (arith, e))
  | inr later ↦ has_nil_complete handles h later
]

pub remove_domain_torn : (st : State) (key : String) → (remove_domain st key).torn ≡ st.torn
unfolding remove_domain
remove_domain_torn st key = ground arith

set_of-some :
    (st : State) (key : String) (set : DefinitionSet)
    → get text_keys key st.api_sets ≡ some set
    → set_of st key ≡ set
unfolding set_of
set_of-some st key set h = ground (arith, h)

Round-Cleans :
    (st : State) (key : String) (st' : State) (error : Option Error)
    → IsSound st
    → Round st key st' error
    → Cleans st key st'
unfolding replace_set
Round-Cleans st key st' error w removed = record {
  round = [];
  torn = remove_domain_torn st key;
  real = λ t. not_in_nil t;
  spares = λ g d n h k t. not_in_nil t;
  drops = λ set h. absurd (ground (arith, h, remove_domain_same st key));
}
Round-Cleans st key st' error w (failed e) = record {
  round = [];
  torn = refl;
  real = λ t. not_in_nil t;
  spares = λ g d n h k t. not_in_nil t;
  drops = λ set h g d m.
      (let got = get-mem gvr_keys (set_of st key) (set_of-IsMap st key w) m in
        inl (d, ap (λ x. get gvr_keys g x) (sym (set_of-some st key set h)) ∙ got, refl));
}
Round-Cleans st key st' error w (replaced export b i built real) =
    let now = get-put_same text_keys key b.set st.api_sets in
    record {
      round = torn_down b.set (set_of st key);
      torn = refl;
      real = has_nil_complete (torn_down b.set (set_of st key)) real;
      spares = λ g d n h.
          torn_down-spares (set_of st key) export st.next b (set_of-IsMap st key w)
            (set_of-HasOwnNumbers st key w) built g d n
            (ap (λ x. get gvr_keys g x) (sym (set_of-some (replace_set st key b) key b.set now))
              ∙ h);
      drops = λ set h g d m.
          (let same : b.set ≡ set = ground (arith, h, now) in
            subst (λ x. IsKept x g d ⊎ Memᴰ d.handle (torn_down b.set (set_of st key))) same
              (torn_down_complete b.set (set_of st key) g d m));
    }

module _ (src : Sources) (mk : Makers) (get_export : String → String → Result ApiExport) where
  -- In a sound state, every set is a map whose definitions have numbers of their own, below the next
  -- fresh one; a round keeps the state sound.
  pub reconcile-IsSound :
      (st : State) (slice : Option EndpointSlice) (key : String)
      → IsSound st
      → IsSound (reconcile src mk get_export st slice key).0
  reconcile-IsSound st slice key w =
      Round-IsSound st key _ _ w (reconcile-Round src mk get_export st slice key w)

  -- In a sound state (every set is a map, and its definitions have numbers of their own), a round that does
  -- not panic calls TearDown on no nil definition and on nothing that the domain key serves after it, and,
  -- where the key still has a set, on every old definition that it does not keep.
  pub reconcile-Cleans :
      (st : State) (slice : Option EndpointSlice) (key : String)
      → IsSound st
      → panics (reconcile src mk get_export st slice key).1 ≡ false
      → Cleans st key (reconcile src mk get_export st slice key).0
  reconcile-Cleans st slice key w _ =
      Round-Cleans st key _ _ w (reconcile-Round src mk get_export st slice key w)

  -- In a sound state, a round leaves the definition sets of the other API domain keys alone.
  reconcile_other :
      (st : State) (slice : Option EndpointSlice) (key other : String)
      → IsSound st
      → key ≢ other
      → get text_keys other (reconcile src mk get_export st slice key).0.api_sets
        ≡ get text_keys other st.api_sets
  reconcile_other st slice key other w =
      Round-other st key _ _ other (reconcile-Round src mk get_export st slice key w)
