-- ===== src/ApiReconciler/Due.antt =====
-- The API reconciler step by step: which keys are due, and what a key's processing does.
use mathlib.Core.List.{Memᴰ, ◌++◌}
use mathlib.Core.List.Memᴰ
use Prim.Native.String
use contrib_filteredapiexpor.Prelude.{
  String, true, false, Option, none, some, List, [], ◌∷◌, ◌≡◌, ◌⊎◌, inl, inr, refl, sym, ap, ◌∙◌,
  arith, Bool-cases,
}
use contrib_filteredapiexpor.Error.{panics, Error, Result, ok, err, Result-cases}
use contrib_filteredapiexpor.Api.{EndpointSlice}
use contrib_filteredapiexpor.Informers.{Event, is_missed_event, subject_of}
use contrib_filteredapiexpor.Text.{split}
use contrib_filteredapiexpor.Url.Shape.{IsPart}
use contrib_filteredapiexpor.Url.Parts.{split-domain_key}
use contrib_filteredapiexpor.KeyMap.{text_keys, get}
use contrib_filteredapiexpor.ApiReconciler.Enqueue.{
  Call, add, add_rate_limited, handle_error, log_error, forget, done,
}
use contrib_filteredapiexpor.ApiReconciler.Reconcile.{State, reconcile, process}
use contrib_filteredapiexpor.ApiReconciler.Invariants.{IsSound}
use contrib_filteredapiexpor.ApiReconciler.Worker.{finish, process_calls, process_next_work_item}
use contrib_filteredapiexpor.ApiReconciler.System.{
  Setting, System, queued, AnswersNotFound, world_of,
}

abbrev pub domain_key : String → String → String
domain_key cluster name = String.◌++◌ cluster (String.◌++◌ "/" name)

pub domain_key_injective :
    (a b c d : String)
    → IsPart a × IsPart b
    → IsPart c × IsPart d
    → domain_key a b ≡ domain_key c d
    → (a ≡ c) × (b ≡ d)
domain_key_injective a b c d ((_, wa), (_, wb)) ((_, wc), (_, wd)) p =
    let same : a ∷ b ∷ [] ≡ c ∷ d ∷ [] =
      sym (split-domain_key a b wa wb) ∙ ap (λ k. split "/" k) p ∙ split-domain_key c d wc wd in
    ground (arith, same)

-- What a lookup of the endpoint slice gives to `reconcile`.
abbrev pub found : Result EndpointSlice → Option EndpointSlice
found (ok s) = some s
found (err e) = none

-- The keys that a list of calls queues.
pub queued-add : (key : String) (calls : List Call) → Memᴰ (add key) calls → Memᴰ key (queued calls)
unfolding queued
queued-add key [] m = elim m [ ]
queued-add key (add k ∷ calls) (Memᴰ.head e) = Memᴰ.head (ground (arith, e))
queued-add key (add k ∷ calls) (Memᴰ.tail m) = Memᴰ.tail (queued-add key calls m)
queued-add key (add_rate_limited k ∷ calls) (Memᴰ.head e) = absurd (ground (arith, e))
queued-add key (add_rate_limited k ∷ calls) (Memᴰ.tail m) = Memᴰ.tail (queued-add key calls m)
queued-add key (handle_error x ∷ calls) (Memᴰ.head e) = absurd (ground (arith, e))
queued-add key (handle_error x ∷ calls) (Memᴰ.tail m) = queued-add key calls m
queued-add key (log_error x ∷ calls) (Memᴰ.head e) = absurd (ground (arith, e))
queued-add key (log_error x ∷ calls) (Memᴰ.tail m) = queued-add key calls m
queued-add key (forget k ∷ calls) (Memᴰ.head e) = absurd (ground (arith, e))
queued-add key (forget k ∷ calls) (Memᴰ.tail m) = queued-add key calls m
queued-add key (done k ∷ calls) (Memᴰ.head e) = absurd (ground (arith, e))
queued-add key (done k ∷ calls) (Memᴰ.tail m) = queued-add key calls m

queued-append : (xs ys : List Call) → queued (xs ++ ys) ≡ queued xs ++ queued ys
unfolding queued
queued-append [] ys = refl
queued-append (add k ∷ xs) ys = ap (λ l. k ∷ l) (queued-append xs ys)
queued-append (add_rate_limited k ∷ xs) ys = ap (λ l. k ∷ l) (queued-append xs ys)
queued-append (handle_error x ∷ xs) ys = queued-append xs ys
queued-append (log_error x ∷ xs) ys = queued-append xs ys
queued-append (forget k ∷ xs) ys = queued-append xs ys
queued-append (done k ∷ xs) ys = queued-append xs ys

-- The list without one of its entries keeps the others.
pub Mem-without :
    {A : Type 0} {x y : A} (before rest : List A)
    → Memᴰ x (before ++ y ∷ rest)
    → (x ≡ y) ⊎ Memᴰ x (before ++ rest)
Mem-without before rest m = elim (Memᴰ.append_cases before m) [
  | inl b ↦ inr (Memᴰ.append_left rest b)
  | inr r ↦ elim (Memᴰ.cases_cons r) [ inl e ↦ inl e | inr a ↦ inr (Memᴰ.append_right before a) ]
]

module _ (fixed : Setting) where
  abbrev pub round : State → Option EndpointSlice → String → State × Option Error
  round = reconcile fixed.sources fixed.makers fixed.get_export

  -- A key of the endpoint slice is in the queue, or will be once a handler gets an event.
  abbrev pub IsDue : System → String → String → Type 0
  IsDue s cluster name =
      (key : String) × (fixed.split_key key ≡ ok (cluster, name))
      × (Memᴰ key s.queue
          ⊎ ((e : Event EndpointSlice) × Memᴰ e s.pending
              × (is_missed_event e ≡ false)
              × (fixed.slice_key (subject_of e) ≡ ok key)))

  -- The set of the domain key is that of a round without error for the endpoint slice as it is in the
  -- store.
  abbrev pub IsSettled : System → String → String → Type 0
  IsSettled s cluster name =
      (old : State) × ((round old (found (s.get_slice cluster name)) (domain_key cluster name)).1
        ≡ none)
      × (get text_keys (domain_key cluster name) s.state.api_sets
          ≡ get text_keys (domain_key cluster name)
              (round old (found (s.get_slice cluster name)) (domain_key cluster name)).0.api_sets)

  pub record IsConsistent (s : System) : Type 0 where
    pub sound : IsSound s.state
    pub answers : AnswersNotFound s.get_slice
    pub due : (c n : String) → IsPart c × IsPart n → IsDue s c n ⊎ IsSettled s c n

  pub process_found :
      (get_slice : String → String → Result EndpointSlice) (st : State) (key c n : String)
      → AnswersNotFound get_slice
      → fixed.split_key key ≡ ok (c, n)
      → process fixed.sources fixed.makers fixed.get_export fixed.split_key get_slice st key
        ≡ round st (found (get_slice c n)) (domain_key c n)
  unfolding process
  process_found get_slice st key c n answers split = elim (Result-cases (get_slice c n)) [
    | inl (s, e) ↦ rw (split, process) (rw e refl)
    | inr (x, e) ↦ rw (split, process) (rw e (rw (answers c n x e) refl))
  ]

  pub process_malformed :
      (get_slice : String → String → Result EndpointSlice) (st : State) (key : String) (x : Error)
      → fixed.split_key key ≡ err x
      → process fixed.sources fixed.makers fixed.get_export fixed.split_key get_slice st key
        ≡ (st, none)
  unfolding process
  process_malformed get_slice st key x split = rw (split, process) refl

  survived :
      (s : System) (key : String)
      → (process_next_work_item (world_of fixed s) s.state (some key)).2 ≡ true
      → panics
          (process fixed.sources fixed.makers fixed.get_export fixed.split_key s.get_slice s.state
            key).1
        ≡ false
  unfolding process_next_work_item
  survived s key alive =
      let error =
        (process fixed.sources fixed.makers fixed.get_export fixed.split_key s.get_slice s.state
          key).1 in
      elim (Bool-cases (panics error)) [ inl y ↦ absurd (ground (arith, alive, y)) | inr n ↦ n ]

  -- A key whose processing fails without a panic is queued again.
  pub failed_queued :
      (s : System) (key : String) (e : Error)
      → (process fixed.sources fixed.makers fixed.get_export fixed.split_key s.get_slice s.state
          key).1
        ≡ some e
      → (process_next_work_item (world_of fixed s) s.state (some key)).2 ≡ true
      → Memᴰ key (queued (process_next_work_item (world_of fixed s) s.state (some key)).1)
  unfolding process_next_work_item finish queued
  failed_queued s key e h alive = rw (survived s key alive) (
      rw (queued-append (process_calls (world_of fixed s) key) (finish key _)) (
        Memᴰ.append_right (queued (process_calls (world_of fixed s) key))
          (rw (h, finish) (Memᴰ.head refl))))
