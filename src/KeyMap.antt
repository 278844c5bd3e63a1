-- ===== src/KeyMap.antt =====
-- Go maps over any keys with `==`, as the list of their entries in the order of a loop.
use mathlib.Core.List.{Memᴰ}
use contrib_filteredapiexpor.Prelude.{
  String, Bool, true, false, Option, none, some, List, [], ◌∷◌, ◌==◌, ◌≡◌, ◌≢◌, ◌↔◌, refl, sym, ap,
  ◌∙◌, ◌⊎◌, arith, eq_iff, inl, inr, Bool-cases, if◌then◌else◌,
}

-- Keys with their test.
pub record Keys : Type 1 where
  pub Key : Type 0
  pub same : Key → Key → Bool
  pub same_iff : (a b : Key) → (same a b ≡ true) ↔ (a ≡ b)

abbrev pub text_keys : Keys
text_keys = record { Key = String; same = λ a b. a == b; same_iff = eq_iff }

same_refl : (keys : Keys) (k : keys.Key) → keys.same k k ≡ true
same_refl keys k = (keys.same_iff k k).1 refl

different : (keys : Keys) (k j : keys.Key) → k ≢ j → keys.same k j ≡ false
different keys k j n = elim (Bool-cases (keys.same k j)) [
  | inl e ↦ absurd (n ((keys.same_iff k j).0 e))
  | inr e ↦ e
]

moved :
    (keys : Keys) (k key other : keys.Key)
    → keys.same k key ≡ true
    → key ≢ other
    → keys.same k other ≡ false
moved keys k key other e n = different keys k other (λ p. n (sym ((keys.same_iff k key).0 e) ∙ p))

module _ (keys : Keys) {V : Type 0} where
  open keys use {Key, same}

  -- m[key]
  unfoldable pub get : Key → List (Key × V) → Option V
  get key [] = none
  get key ((k, v) ∷ entries) = if same k key then some v else get key entries

  -- m[key] = v
  unfoldable pub put : Key → V → List (Key × V) → List (Key × V)
  put key v [] = (key, v) ∷ []
  put key v ((k, old) ∷ entries) =
      let later = put key v entries in if same k key then (k, v) ∷ entries else (k, old) ∷ later

  -- delete(m, key)
  unfoldable pub remove : Key → List (Key × V) → List (Key × V)
  remove key [] = []
  remove key ((k, v) ∷ entries) =
      let later = remove key entries in if same k key then later else (k, v) ∷ later

  pub get-put_same : (key : Key) (v : V) (m : List (Key × V)) → get key (put key v m) ≡ some v
  unfolding get put
  get-put_same key v [] = ground (arith, same_refl keys key)
  get-put_same key v ((k, old) ∷ entries) = ground (arith, get-put_same key v entries)

  pub get-put_other :
      (key other : Key) (v : V) (m : List (Key × V))
      → key ≢ other
      → get other (put key v m) ≡ get other m
  unfolding get put
  get-put_other key other v [] n = ground (arith, different keys key other n)
  get-put_other key other v ((k, old) ∷ entries) n = elim (Bool-cases (same k key)) [
    | inl e ↦ ground (arith, e, moved keys k key other e n)
    | inr e ↦ ground (arith, e, get-put_other key other v entries n)
  ]

  pub get-remove_same : (key : Key) (m : List (Key × V)) → get key (remove key m) ≡ none
  unfolding get remove
  get-remove_same key [] = refl
  get-remove_same key ((k, v) ∷ entries) = ground (arith, get-remove_same key entries)

  pub get-remove_other :
      (key other : Key) (m : List (Key × V)) → key ≢ other → get other (remove key m) ≡ get other m
  unfolding get remove
  get-remove_other key other [] n = refl
  get-remove_other key other ((k, v) ∷ entries) n = elim (Bool-cases (same k key)) [
    | inl e ↦ ground (arith, e, moved keys k key other e n, get-remove_other key other entries n)
    | inr e ↦ ground (arith, e, get-remove_other key other entries n)
  ]

  -- No key has two entries, as in a map.
  abbrev pub IsMap : List (Key × V) → Type 0
  IsMap [] = Unit
  IsMap ((k, v) ∷ m) = (get k m ≡ none) × IsMap m

  pub get-mem : {k : Key} {v : V} (m : List (Key × V)) → IsMap m → Memᴰ (k, v) m → get k m ≡ some v
  unfolding get
  get-mem [] d t = elim t [ ]
  get-mem {k} {v} ((j, w) ∷ m) (free, d) (Memᴰ.head e) =
      let key = ap (λ (p : Key × V). p.0) e in
      let value = ap (λ (p : Key × V). p.1) e in
      ground (arith, (keys.same_iff j k).1 (sym key), value)
  get-mem {k} {v} ((j, w) ∷ m) (free, d) (Memᴰ.tail t) = elim (Bool-cases (same j k)) [
    | inl e ↦
        let here = ap (λ x. get x m) ((keys.same_iff j k).0 e) in
        absurd (ground (arith, here, free, get-mem m d t))
    | inr e ↦ ground (arith, e, get-mem m d t)
  ]

  pub put-IsMap : (key : Key) (v : V) (m : List (Key × V)) → IsMap m → IsMap (put key v m)
  unfolding get put
  put-IsMap key v [] d = (refl, tt)
  put-IsMap key v ((k, old) ∷ m) (free, d) = elim (Bool-cases (same k key)) [
    | inl e ↦ rw e (free, d)
    | inr e ↦
        let n : key ≢ k = λ p. ground (arith, e, (keys.same_iff k key).1 (sym p)) in
        rw e (get-put_other key k v m n ∙ free, put-IsMap key v m d)
  ]

  pub remove-IsMap : (key : Key) (m : List (Key × V)) → IsMap m → IsMap (remove key m)
  unfolding get remove
  remove-IsMap key [] d = tt
  remove-IsMap key ((k, v) ∷ m) (free, d) = elim (Bool-cases (same k key)) [
    | inl e ↦ rw e (remove-IsMap key m d)
    | inr e ↦
        let n : key ≢ k = λ p. ground (arith, e, (keys.same_iff k key).1 (sym p)) in
        rw e (get-remove_other key k m n ∙ free, remove-IsMap key m d)
  ]

  -- What is read after a write is what was written, or was there under another key.
  pub get-put_cases :
      (key other : Key) (v x : V) (m : List (Key × V))
      → get other (put key v m) ≡ some x
      → ((key ≡ other) × (v ≡ x)) ⊎ ((key ≢ other) × (get other m ≡ some x))
  get-put_cases key other v x m h = elim (Bool-cases (same key other)) [
    | inl e ↦
        let here = (keys.same_iff key other).0 e in
        inl (here, ground (arith, ap (λ k. get k (put key v m)) here ∙ h, get-put_same key v m))
    | inr e ↦
        let n : key ≢ other = λ p. ground (arith, e, (keys.same_iff key other).1 p) in
        inr (n, sym (get-put_other key other v m n) ∙ h)
  ]

  -- A write leaves its key found, and every key that was.
  pub found-put :
      (key other : Key) (v : V) (m : List (Key × V))
      → (key ≡ other) ⊎ ((x : V) × (get other m ≡ some x))
      → (x : V) × (get other (put key v m) ≡ some x)
  found-put key other v m h = elim (Bool-cases (same key other)) [
    | inl e ↦
        let here = (keys.same_iff key other).0 e in
        (v, ap (λ k. get k (put key v m)) (sym here) ∙ get-put_same key v m)
    | inr e ↦
        let n : key ≢ other = λ p. ground (arith, e, (keys.same_iff key other).1 p) in
        elim h [ inl p ↦ absurd (n p) | inr (x, f) ↦ (x, get-put_other key other v m n ∙ f) ]
  ]
