-- ===== src/Text/Laws.antt =====
-- Laws of the text functions.
use Prim.Native.Char.{Char, code}
use Prim.Native.String.{[], ◌∷◌, ◌++◌, count}
use text.Mathlib.TextEquality.{Char-path}
use text.Mathlib.TextLemmas.{
  nil-append, cons-append, length-append, length-cons, nil≢cons, cons≢nil, head-eq_of_cons-eq,
  tail-eq_of_cons-eq, append-ne-nil_of_right_ne-nil,
}
use contrib_filteredapiexpor.Prelude.{
  ◌⊎◌, ℕ, suc, String, true, false, none, some, List, ◌≡◌, ◌≢◌, refl, ap, inl, inr, arith, eqb,
  eq_refl, ==_ne, Bool-cases,
}
use contrib_filteredapiexpor.Text.{cons_head, split, split_n, strip_prefix, strip_suffix}

-- No character of the text is `sep`.
abbrev pub Without : Char → String → Type 0
Without sep [] = Unit
Without sep (c ∷ s) = (eqb (code c) (code sep) ≡ false) × Without sep s

pub strip_prefix-append : (p s : String) → strip_prefix p (p ++ s) ≡ some s
unfolding strip_prefix
strip_prefix-append [] s = rw nil-append
strip_prefix-append (d ∷ p) s = rw cons-append (ground (arith, strip_prefix-append p s))

cons_cong : (c d : Char) (s t : String) → eqb (code d) (code c) ≡ true → s ≡ t → (c ∷ s) ≡ (d ∷ t)
cons_cong c d s t h e = cc (Char-path c d (ground arith), e)

pub strip_prefix_sound : (p s : String) {r : String} → strip_prefix p s ≡ some r → s ≡ p ++ r
unfolding strip_prefix
strip_prefix_sound [] s h = rw nil-append (cc)
strip_prefix_sound (d ∷ p) [] h = cc
strip_prefix_sound (d ∷ p) (c ∷ s) {r} h =
    rw cons-append (elim (Bool-cases (eqb (code d) (code c))) [
      | inl same ↦ cons_cong c d s (p ++ r) same (strip_prefix_sound p s (ground arith))
      | inr other ↦ ground arith
    ])

strip_suffix_self : (p : String) → strip_suffix p p ≡ some ""
unfolding strip_suffix
strip_suffix_self [] = refl
strip_suffix_self (c ∷ p) = ground (arith, eq_refl (c ∷ p))

-- A longer text is another text.
cons-append-ne : (c : Char) (s p : String) → (c ∷ (s ++ p)) ≢ p
cons-append-ne c s p e =
    absurd (omega (arith, ap count e, length-cons c (s ++ p), length-append s p))

cons-ne_of_code : (c d : Char) (s t : String) → eqb (code c) (code d) ≡ false → (c ∷ s) ≢ (d ∷ t)
cons-ne_of_code c d s t h e = ground (arith, ap code (head-eq_of_cons-eq e))

cons-ne_of_tail : (c d : Char) (s : String) → s ≢ "" → (c ∷ s) ≢ (d ∷ "")
cons-ne_of_tail c d s n e = n (tail-eq_of_cons-eq e)

-- A text that ends in a character other than `sep` does not end with `sep`.
pub strip_suffix_clean :
    (sep : Char) (x h : String) → h ≢ "" → Without sep h → strip_suffix (sep ∷ "") (x ++ h) ≡ none
unfolding strip_suffix
strip_suffix_clean sep [] [] n w = absurd (n refl)
strip_suffix_clean sep [] (c ∷ []) n w = rw nil-append (
    ground (
      arith,
      ==_ne (c ∷ "") (sep ∷ "") (cons-ne_of_code c sep "" "" w.0),
      ==_ne "" (sep ∷ "") nil≢cons,
    ))
strip_suffix_clean sep [] (c ∷ d ∷ h) n w = rw nil-append (
    ground (
      arith,
      ==_ne (c ∷ d ∷ h) (sep ∷ "") (cons-ne_of_code c sep (d ∷ h) "" w.0),
      strip_suffix_clean sep "" (d ∷ h) cons≢nil w.1,
      nil-append (d ∷ h),
    ))
strip_suffix_clean sep (c ∷ x) h n w = rw cons-append (
    ground (
      arith,
      ==_ne (c ∷ (x ++ h)) (sep ∷ "")
          (cons-ne_of_tail c sep (x ++ h) (append-ne-nil_of_right_ne-nil x n)),
      strip_suffix_clean sep x h n w,
    ))

pub strip_suffix-append : (s p : String) → strip_suffix p (s ++ p) ≡ some s
unfolding strip_suffix
strip_suffix-append [] p = rw nil-append (strip_suffix_self p)
strip_suffix-append (c ∷ s) p =
    rw cons-append
      (ground (arith, ==_ne (c ∷ (s ++ p)) p (cons-append-ne c s p), strip_suffix-append s p))

pub split-append :
    (sep : Char) (s t : String)
    → Without sep s
    → split sep (s ++ (sep ∷ t)) ≡ List.◌∷◌ s (split sep t)
unfolding split
split-append sep [] t w = rw nil-append (ground arith)
split-append sep (d ∷ s) t w = rw cons-append (ground (arith, split-append sep s t w.1))

pub split_of_Without : (sep : Char) (s : String) → Without sep s → split sep s ≡ List.◌∷◌ s List.[]
unfolding split
split_of_Without sep [] w = refl
split_of_Without sep (c ∷ s) w = ground (arith, split_of_Without sep s w.1)

pub split_n-append :
    (sep : Char) (n : ℕ) (s t : String)
    → Without sep s
    → split_n sep (suc (suc n)) (s ++ (sep ∷ t)) ≡ List.◌∷◌ s (split_n sep (suc n) t)
unfolding split_n
split_n-append sep n [] t w = rw nil-append (ground arith)
split_n-append sep n (d ∷ s) t w = rw cons-append (ground (arith, split_n-append sep n s t w.1))

pub split_n_of_Without :
    (sep : Char) (n : ℕ) (s : String)
    → Without sep s
    → split_n sep (suc (suc n)) s ≡ List.◌∷◌ s List.[]
unfolding split_n
split_n_of_Without sep n [] w = refl
split_n_of_Without sep n (c ∷ s) w = ground (arith, split_n_of_Without sep n s w.1)

module _ (sep : Char) (n : ℕ) where
  -- How a text splits at its first separator.
  pub record Cut (s a : String) (more : List String) : Type 0 where
    pub after : String
    pub whole : s ≡ a ++ (sep ∷ after)
    pub clean : Without sep a
    pub next : split_n sep (suc n) after ≡ more

  Cut-cons :
      (c : Char) (s a : String) (more : List String)
      → eqb (code c) (code sep) ≡ false
      → Cut s a more
      → Cut (c ∷ s) (c ∷ a) more
  Cut-cons c s a more h k = record {
    after = k.after;
    whole = rw cons-append (ap (λ t. c ∷ t) k.whole);
    clean = (h, k.clean);
    next = k.next;
  }

-- Both forms of a first part grown by one character.
cons_head-inv :
    (c : Char) (ps : List String) {a b : String} {more : List String}
    → cons_head c ps ≡ List.◌∷◌ a (List.◌∷◌ b more)
    → (p : String) × (ps ≡ List.◌∷◌ p (List.◌∷◌ b more)) × (a ≡ (c ∷ p))
unfolding cons_head
cons_head-inv c List.[] h = cc
cons_head-inv c (List.◌∷◌ p ps) h = (p, cc, cc)

pub split_n-Cut :
    (sep : Char) (n : ℕ) (s : String) {a b : String} {more : List String}
    → split_n sep (suc (suc n)) s ≡ List.◌∷◌ a (List.◌∷◌ b more)
    → Cut sep n s a (List.◌∷◌ b more)
unfolding split_n
split_n-Cut sep n [] h = cc
split_n-Cut sep n (c ∷ s) {a} {b} {more} h = elim (Bool-cases (eqb (code c) (code sep))) [
  | inl here ↦
      let e : "" ≡ a = ground arith in
      rw (← e) (record {
        after = s;
        whole = rw nil-append (cons_cong c sep s s (ground arith) refl);
        clean = tt;
        next = ground arith;
      })
  | inr later ↦
      let (p, e, q) =
        cons_head-inv c (split_n sep (suc (suc n)) s) {a = a} {b = b} {more = more}
          (ground arith) in
      rw q (Cut-cons sep n c s p _ later (split_n-Cut sep n s e))
]

-- With room for one part only, the rest is that part.
pub split_n_one : (sep : Char) (s : String) → split_n sep 1 s ≡ List.◌∷◌ s List.[]
unfolding split_n
split_n_one sep s = refl

-- A text splits into at most two parts in one of two ways.
pub split_n_two :
    (sep : Char) (s : String)
    → (Without sep s × (split_n sep 2 s ≡ List.◌∷◌ s List.[]))
      ⊎ ((a : String) × (t : String) × (s ≡ a ++ (sep ∷ t))
          × Without sep a
          × (split_n sep 2 s ≡ List.◌∷◌ a (List.◌∷◌ t List.[])))
unfolding split_n
split_n_two sep [] = inl (tt, refl)
split_n_two sep (c ∷ s) = elim (Bool-cases (eqb (code c) (code sep))) [
  | inl here ↦
      inr ("", s, rw nil-append (cons_cong c sep s s (ground arith) refl), tt, ground arith)
  | inr later ↦ elim (split_n_two sep s) [
    | inl (w, e) ↦ inl ((later, w), ground (arith, e))
    | inr (a, t, whole, w, e) ↦
        inr (c ∷ a, t, rw cons-append (ap (λ r. c ∷ r) whole), (later, w), ground (arith, e))
  ]
]
