-- ===== src/ApiReconciler/Unique.antt =====
-- Where definitions are served, over all API domain keys, and which have been torn down.
use mathlib.Core.List.{Memᴰ}
use mathlib.Core.List.Memᴰ
use contrib_filteredapiexpor.Prelude.{
  false, ℕ, ◌≤◌, ◌<◌, String, Option, none, some, [], ◌==◌, ◌≡◌, ◌≢◌, ◌⊎◌, inl, inr, sym, ap, subst,
  ◌∙◌, arith, eq_iff, Bool-cases, Option-cases,
}
use contrib_filteredapiexpor.Error.{Error}
use contrib_filteredapiexpor.Api.{ApiExport}
use contrib_filteredapiexpor.KeyMap.{text_keys, get, get-mem, get-put_same}
use contrib_filteredapiexpor.ApiReconciler.Definitions.{
  Gvr, gvr_keys, Definition, DefinitionSet, Built, torn_down, has_nil,
}
use contrib_filteredapiexpor.ApiReconciler.Lives.{IsBuilt}
use contrib_filteredapiexpor.ApiReconciler.TearDown.{torn_down-spares, torn_down_sound}
use contrib_filteredapiexpor.ApiReconciler.Reconcile.{State, set_of, replace_set}
use contrib_filteredapiexpor.ApiReconciler.Invariants.{
  IsSound, Round, replaced, Round-other, set_of-HasOwnNumbers, set_of-IsMap,
}
use contrib_filteredapiexpor.ApiReconciler.Sound.{Round-IsSound}

-- The definition is served for the group, version and resource at the domain key, and has the number.
abbrev pub IsServed : State → String → Gvr → ℕ → Type 0
IsServed st key gvr n =
    (set : DefinitionSet) × (d : Definition) × (get text_keys key st.api_sets ≡ some set)
    × (get gvr_keys gvr set ≡ some d)
    × (d.handle ≡ some n)

pub record IsUnique (st : State) : Type 0 where
  pub sound : IsSound st
  pub separate :
      (key key' : String) (gvr gvr' : Gvr) (n : ℕ)
      → IsServed st key gvr n
      → IsServed st key' gvr' n
      → (key ≡ key') × (gvr ≡ gvr')
  pub gone : (key : String) (gvr : Gvr) (n : ℕ) → IsServed st key gvr n → ¬ Memᴰ (some n) st.torn
  pub torn_bounded : (n : ℕ) → Memᴰ (some n) st.torn → n < st.next

-- Served numbers are below the next fresh one.
pub served_bounded :
    (st : State) (key : String) (gvr : Gvr) (n : ℕ)
    → IsSound st
    → IsServed st key gvr n
    → n < st.next
served_bounded st key gvr n w (set, d, s, f, h) = (w.numbers key set s).bounded gvr d n f h

-- What the domain key of a replaced set serves was served there before, or is fresh.
IsServed-before :
    (st : State) (key : String) (export : ApiExport) (b : Built) (gvr : Gvr) (n : ℕ)
    → IsSound st
    → IsBuilt (set_of st key) export st.next b
    → IsServed (replace_set st key b) key gvr n
    → IsServed st key gvr n ⊎ (st.next ≤ n)
unfolding replace_set set_of get
IsServed-before st key export b gvr n w built (set, d, s, f, h) =
    let same : b.set ≡ set = ground (arith, s, get-put_same text_keys key b.set st.api_sets) in
    elim (built.origin gvr d (ap (λ x. get gvr_keys gvr x) same ∙ f)) [
      | inl (o, i) ↦ elim (Option-cases (get text_keys key st.api_sets)) [
        | inl e ↦ absurd (ground (arith, o, e))
        | inr (old, e) ↦ inl (old, d, e, ground (arith, o, e), h)
      ]
      | inr (inl z) ↦ absurd (ground (arith, z, h))
      | inr (inr (m, z, lo, hi)) ↦ let number : m ≡ n = ground (arith, z, h) in inr (omega arith)
    ]

-- At another domain key nothing changes.
pub IsServed-elsewhere :
    (st st' : State) (key : String) (error : Option Error) (other : String) (gvr : Gvr) (n : ℕ)
    → Round st key st' error
    → key ≢ other
    → IsServed st' other gvr n
    → IsServed st other gvr n
IsServed-elsewhere st st' key error other gvr n r ne (set, d, s, f, h) =
    (set, d, sym (Round-other st key st' error other r ne) ∙ s, f, h)

-- A definition that a replacement tears down was served at the domain key.
pub torn_was-IsServed :
    (st : State) (key : String) (b : Built) (n : ℕ)
    → IsSound st
    → Memᴰ (some n) (torn_down b.set (set_of st key))
    → (gvr : Gvr) × IsServed st key gvr n
unfolding set_of
torn_was-IsServed st key b n w m =
    let (gvr, d, mem, h, lost) = torn_down_sound b.set (set_of st key) (some n) m in
    elim (Option-cases (get text_keys key st.api_sets)) [
      | inl e ↦
          let none_left : set_of st key ≡ [] = ground (arith, e) in
          elim (subst (λ x. Memᴰ (gvr, d) x) none_left mem) [ ]
      | inr (old, e) ↦
          let same : set_of st key ≡ old = ground (arith, e) in
          (
            gvr,
            (
              old,
              d,
              e,
              ap (λ x. get gvr_keys gvr x) (sym same)
                  ∙ get-mem gvr_keys (set_of st key) (set_of-IsMap st key w) mem,
              h,
            ),
          )
    ]

get-stored :
    (st : State) (key : String) (b : Built)
    → get text_keys key (replace_set st key b).api_sets ≡ some b.set
unfolding replace_set
get-stored st key b = get-put_same text_keys key b.set st.api_sets

-- A replacement keeps the state unique.
module _ (st : State) (key : String) (export : ApiExport) (b : Built) (w : IsUnique st)
    (named : export.identity_hash ≢ "") (built : IsBuilt (set_of st key) export st.next b)
    (real : has_nil (torn_down b.set (set_of st key)) ≡ false) where
  round : Round st key (replace_set st key b) none
  round = replaced export b named built real

  -- What is served after the replacement, at whichever domain key.
  pub places :
      (other : String) (gvr : Gvr) (n : ℕ)
      → IsServed (replace_set st key b) other gvr n
      → IsServed st other gvr n ⊎ ((other ≡ key) × (st.next ≤ n))
  places other gvr n s = elim (Bool-cases (key == other)) [
    | inr e ↦ inl (
        IsServed-elsewhere st (replace_set st key b) key none other gvr n round
          (λ p. ground (arith, e, (eq_iff key other).1 p)) s)
    | inl e ↦
        let same = (eq_iff key other).0 e in
        elim (IsServed-before st key export b gvr n w.sound built
          (subst (λ k. IsServed (replace_set st key b) k gvr n) (sym same) s)) [
            | inl old ↦ inl (subst (λ k. IsServed st k gvr n) same old)
            | inr fresh ↦ inr (sym same, fresh)
          ]
  ]

  replaced_separate :
      (first second : String) (gvr gvr' : Gvr) (n : ℕ)
      → IsServed (replace_set st key b) first gvr n
      → IsServed (replace_set st key b) second gvr' n
      → (first ≡ second) × (gvr ≡ gvr')
  replaced_separate first second gvr gvr' n s t = elim (places first gvr n s) [
    | inl old ↦ elim (places second gvr' n t) [
      | inl old' ↦ w.separate first second gvr gvr' n old old'
      | inr (k, fresh) ↦ absurd (let low = served_bounded st first gvr n w.sound old in omega arith)
    ]
    | inr (k, fresh) ↦ elim (places second gvr' n t) [
      | inl old' ↦ absurd (let low = served_bounded st second gvr' n w.sound old' in omega arith)
      | inr (k', fresh') ↦
          let here = k ∙ sym k' in
          (
            here,
            same_place first gvr gvr' n s
                (subst (λ x. IsServed (replace_set st key b) x gvr' n) (sym here) t),
          )
    ]
  ]
    where
      same_place :
          (x : String) (g g' : Gvr) (m : ℕ)
          → IsServed (replace_set st key b) x g m
          → IsServed (replace_set st key b) x g' m
          → g ≡ g'
      same_place x g g' m (set, d, a, f, h) (set', d', a', f', h') =
          let one : set' ≡ set = ground (arith, a, a') in
          ((Round-IsSound st key (replace_set st key b) none w.sound round).numbers x set
              a).distinct
            g g' d d' m f (ap (λ y. get gvr_keys g' y) (sym one) ∙ f') h h'

  pub torn_cases :
      (n : ℕ)
      → Memᴰ (some n) (replace_set st key b).torn
      → Memᴰ (some n) (torn_down b.set (set_of st key)) ⊎ Memᴰ (some n) st.torn
  unfolding replace_set
  torn_cases n m = Memᴰ.append_cases (torn_down b.set (set_of st key)) m

  replaced_gone :
      (other : String) (gvr : Gvr) (n : ℕ)
      → IsServed (replace_set st key b) other gvr n
      → ¬ Memᴰ (some n) (replace_set st key b).torn
  replaced_gone other gvr n s m = elim (torn_cases n m) [
    | inr before ↦ elim (places other gvr n s) [
      | inl old ↦ w.gone other gvr n old before
      | inr (k, fresh) ↦ (let low = w.torn_bounded n before in omega arith)
    ]
    | inl now ↦
        let (g, old) = torn_was-IsServed st key b n w.sound now in
        elim (places other gvr n s) [
          | inr (k, fresh) ↦ (let low = served_bounded st key g n w.sound old in omega arith)
          | inl old' ↦
              let (here, same) = w.separate other key gvr g n old' old in
              spared (subst (λ x. IsServed (replace_set st key b) x gvr n) here s) now
        ]
  ]
    where
      spared :
          IsServed (replace_set st key b) key gvr n
          → ¬ Memᴰ (some n) (torn_down b.set (set_of st key))
      spared (set, d, a, f, h) =
          let one : b.set ≡ set = ground (arith, a, get-stored st key b) in
          torn_down-spares (set_of st key) export st.next b (set_of-IsMap st key w.sound)
            (set_of-HasOwnNumbers st key w.sound) built gvr d n
            (ap (λ x. get gvr_keys gvr x) one ∙ f) h

  replaced_bounded :
      (n : ℕ) → Memᴰ (some n) (replace_set st key b).torn → n < (replace_set st key b).next
  unfolding replace_set
  replaced_bounded n m = elim (torn_cases n m) [
    | inr before ↦ (let low = w.torn_bounded n before in let up = built.order in omega arith)
    | inl now ↦
        let (g, old) = torn_was-IsServed st key b n w.sound now in
        (let low = served_bounded st key g n w.sound old in let up = built.order in omega arith)
  ]

  pub replaced-IsUnique : IsUnique (replace_set st key b)
  replaced-IsUnique = record {
    sound = Round-IsSound st key (replace_set st key b) none w.sound round;
    separate = replaced_separate;
    gone = replaced_gone;
    torn_bounded = replaced_bounded;
  }
