-- ===== src/Controllers/Started.antt =====
-- reconciler.go: which controllers run once they are started.
use mathlib.Core.List.{Memᴰ}
use mathlib.Core.List.Memᴰ
use contrib_filteredapiexpor.Prelude.{
  String, Option, none, some, [], ◌∷◌, ◌==◌, ◌≡◌, ◌≢◌, ◌⊎◌, ◌↔◌, inl, inr, refl, sym, ap, subst,
  ◌∙◌, arith, eq_iff, Option-cases, Bool-cases,
}
use contrib_filteredapiexpor.Error.{Error, ok}
use contrib_filteredapiexpor.KeyMap.{
  text_keys, get, put, get-put_same, get-put_other, IsMap, put-IsMap, get-mem,
}
use contrib_filteredapiexpor.Controllers.{
  Controller, Registry, register_controller, run_controller, start_controllers,
}

-- Each controller is registered once, under its own name.
pub record IsRegistry (r : Registry) : Type 0 where
  pub is_map : IsMap text_keys r
  pub named : (name : String) (c : Controller) → get text_keys name r ≡ some c → c.name ≡ name

-- The controller's wait does not fail.
abbrev pub CanRun : Controller → Type 0
CanRun c = (c.wait ≡ none) ⊎ (c.wait ≡ some none)

register_controller-IsRegistry :
    (r r' : Registry) (c : Controller)
    → IsRegistry r
    → register_controller r c ≡ ok r'
    → IsRegistry r'
unfolding register_controller
register_controller-IsRegistry r r' c w h = elim (Option-cases (get text_keys c.name r)) [
  | inr (old, e) ↦ absurd (ground (arith, h, e))
  | inl e ↦
      let same : put text_keys c.name c r ≡ r' = ground (arith, h, e) in
      subst (λ x. IsRegistry x) same
        (record {
          is_map = put-IsMap text_keys c.name c r w.is_map;
          named = λ name d g. elim (Bool-cases (c.name == name)) [
            | inl y ↦
                let key = (eq_iff c.name name).0 y in
                let here = ap (λ k. get text_keys k (put text_keys c.name c r)) key ∙ g in
                let is_c : c ≡ d = ground (arith, here, get-put_same text_keys c.name c r) in
                ap (λ x. x.name) (sym is_c) ∙ key
            | inr n ↦
                let other : c.name ≢ name = λ p. ground (arith, n, (eq_iff c.name name).1 p) in
                w.named name d (sym (get-put_other text_keys c.name name c r other) ∙ g)
          ];
        })
]

run_controller_iff :
    (c : Controller) (name : String) → Memᴰ name (run_controller c) ↔ ((name ≡ c.name) × CanRun c)
unfolding run_controller
run_controller_iff c name = go c.wait refl
  where
    go :
        (w : Option (Option Error))
        → c.wait ≡ w
        → Memᴰ name (run_controller c) ↔ ((name ≡ c.name) × CanRun c)
    go none e = (
      λ m. elim (Memᴰ.cases_cons (rw (e, run_controller) at m)) [
        | inl p ↦ (p, inl e)
        | inr t ↦ elim t [ ]
      ],
      λ (p, can). rw (e, run_controller) (Memᴰ.head p),
    )
    go (some none) e = (
      λ m. elim (Memᴰ.cases_cons (rw (e, run_controller) at m)) [
        | inl p ↦ (p, inr e)
        | inr t ↦ elim t [ ]
      ],
      λ (p, can). rw (e, run_controller) (Memᴰ.head p),
    )
    go (some (some x)) e = (
      λ m. elim (rw (e, run_controller) at m) [ ],
      λ (p, can). absurd (elim can [ inl q ↦ ground (arith, e, q) | inr q ↦ ground (arith, e, q) ]),
    )

-- A controller with that name, registered under this key, that can run.
abbrev IsRunAmong : String → Registry → Type 0
IsRunAmong name r =
    (entry : String × Controller) × Memᴰ entry r × (name ≡ entry.1.name) × CanRun entry.1

start_controllers-entries :
    (r : Registry) (name : String) → Memᴰ name (start_controllers r) ↔ IsRunAmong name r
unfolding start_controllers
start_controllers-entries [] name = (λ m. elim m [ ], λ (entry, m, p, can). elim m [ ])
start_controllers-entries ((k, c) ∷ r) name =
    let below = start_controllers-entries r name in
    let here = run_controller_iff c name in
    (
      λ m. elim (Memᴰ.append_cases (run_controller c) m) [
        | inl now ↦ ((k, c), Memᴰ.head refl, (here.0 now).0, (here.0 now).1)
        | inr later ↦ let (entry, t, p, can) = below.0 later in (entry, Memᴰ.tail t, p, can)
      ],
      λ (entry, m, p, can). elim (Memᴰ.cases_cons m) [
        | inr later ↦ Memᴰ.append_right (run_controller c) (below.1 (entry, later, p, can))
        | inl e ↦ Memᴰ.append_left (start_controllers r) (
            here.1
              (p ∙ ap (λ (x : String × Controller). x.1.name) e, subst (λ x. CanRun x.1) e can))
      ],
    )

mem_of_get :
    (r : Registry) (name : String) (c : Controller)
    → get text_keys name r ≡ some c
    → Memᴰ (name, c) r
unfolding get
mem_of_get [] name c h = absurd (ground (arith, h))
mem_of_get ((k, d) ∷ r) name c h = elim (Bool-cases (k == name)) [
  | inl y ↦ Memᴰ.head (ground (arith, h, y, (eq_iff k name).0 y))
  | inr n ↦ Memᴰ.tail (mem_of_get r name c (ground (arith, h, n)))
]

-- Of controllers that are registered under their own names, once each, StartControllers runs exactly
-- those whose wait does not fail.
start_controllers_iff :
    (r : Registry) (name : String)
    → IsRegistry r
    → Memᴰ name (start_controllers r)
      ↔ ((c : Controller) × (get text_keys name r ≡ some c) × CanRun c)
start_controllers_iff r name w = (
  λ m.
      let ((k, c), t, p, can) = (start_controllers-entries r name).0 m in
      let found = get-mem text_keys r w.is_map t in
      let key : k ≡ name = sym (p ∙ w.named k c found) in
      (c, subst (λ x. get text_keys x r ≡ some c) key found, can),
  λ (c, g, can).
      (start_controllers-entries r name).1
        ((name, c), mem_of_get r name c g, sym (w.named name c g), can),
)
