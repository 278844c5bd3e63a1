-- ===== src/Prelude/Lists.antt =====
-- Lists: a predicate of every member, and the loops that stop at the first member that passes.
use mathlib.Core.Path.{◌≡◌, refl, subst, sym}
use Prim.Native.String.{String}
use text.Mathlib.Text.{◌==◌}
use text.Mathlib.TextEquality.{eq_iff}
use text.Mathlib.TextPositions.{eq_refl}
use mathlib.Core.Logic.{◌↔◌, inl, inr}
use mathlib.Core.Bool.{Bool, true, false, ◌||◌}
use mathlib.Core.Option.{Option, none, some}
use mathlib.Core.List.{List, [], ◌∷◌, Memᴰ}
use native.Mathlib.Omega.{arith}
use contrib_filteredapiexpor.Prelude.Tests.{if◌then◌else◌, Bool-cases}

module _ {ℓ κ} {A : Type ℓ} (P : A → Type κ) where
  abbrev pub All : List A → Type κ
  All [] = Unit
  All (x ∷ xs) = P x × All xs

module _ {ℓ} {A : Type ℓ} (p : A → Bool) where
  -- `for _, x := range xs { if p(x) { return true } }; return false`
  unfoldable pub any : List A → Bool
  any [] = false
  any (x ∷ xs) = p x || any xs

  -- `for _, x := range xs { if p(x) { return x } }`
  unfoldable pub find : List A → Option A
  find [] = none
  find (x ∷ xs) = if p x then some x else find xs

  pub any_sound : (xs : List A) → any xs ≡ true → (x : A) × Memᴰ x xs × (p x ≡ true)
  unfolding any
  any_sound [] h = cc
  any_sound (x ∷ xs) h = elim (Bool-cases (p x)) [
    | inl yes_here ↦ (x, Memᴰ.head refl, yes_here)
    | inr not_here ↦ let (y, m, q) = any_sound xs (ground arith) in (y, Memᴰ.tail m, q)
  ]

  pub any_complete : {x : A} {xs : List A} → Memᴰ x xs → p x ≡ true → any xs ≡ true
  unfolding any
  any_complete (Memᴰ.head e) h = ground (arith, e)
  any_complete (Memᴰ.tail m) h = ground (arith, any_complete m h)

  pub find_sound : (xs : List A) {x : A} → find xs ≡ some x → Memᴰ x xs × (p x ≡ true)
  unfolding find
  find_sound [] h = cc
  find_sound (y ∷ xs) h = elim (Bool-cases (p y)) [
    | inl yes_here ↦ (Memᴰ.head (ground arith), ground arith)
    | inr not_here ↦ let (m, q) = find_sound xs (ground arith) in (Memᴰ.tail m, q)
  ]

  find-none : (xs : List A) → find xs ≡ none → All (λ x. p x ≡ false) xs
  unfolding find
  find-none [] h = tt
  find-none (y ∷ xs) h = (ground arith, find-none xs (ground arith))

-- A member of the text list, and the test for it.
pub contains_iff : (xs : List String) (x : String) → (any (λ y. y == x) xs ≡ true) ↔ Memᴰ x xs
contains_iff xs x = (
  λ h. let (y, m, e) = any_sound (λ y. y == x) xs h in subst (λ z. Memᴰ z xs) ((eq_iff y x).0 e) m,
  λ m. any_complete (λ y. y == x) m (eq_refl x),
)

module _ {ℓ κ} {A : Type ℓ} (P : A → Type κ) where
  pub All-of_mem : (xs : List A) → ((x : A) → Memᴰ x xs → P x) → All P xs
  All-of_mem [] h = tt
  All-of_mem (x ∷ xs) h = (h x (Memᴰ.head refl), All-of_mem xs (λ y m. h y (Memᴰ.tail m)))

  pub All-mem : (xs : List A) → All P xs → {x : A} → Memᴰ x xs → P x
  All-mem [] h m = elim m [ ]
  All-mem (y ∷ xs) (p, ps) (Memᴰ.head e) = subst P (sym e) p
  All-mem (y ∷ xs) (p, ps) (Memᴰ.tail m) = All-mem xs ps m
