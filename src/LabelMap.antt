-- ===== src/LabelMap.antt =====
-- Go maps from text to text, as the list of their entries in the order of a loop.
use contrib_filteredapiexpor.Prelude.{
  String, Option, none, some, [], ◌∷◌, ◌==◌, ◌≡◌, refl, arith, eq_iff, eq_refl, All, ap, inl, inr,
  Bool-cases, if◌then◌else◌,
}
use mathlib.Core.List.{Memᴰ}
use contrib_filteredapiexpor.Api.{Labels}

-- m[key]
unfoldable pub lookup : String → Labels → Option String
lookup key [] = none
lookup key ((name, text) ∷ entries) = if name == key then some text else lookup key entries

-- m[key] = text, at the end of the list where the key is new
unfoldable pub insert : String → String → Labels → Labels
insert key text [] = (key, text) ∷ []
insert key text ((name, old) ∷ entries) =
    let later = insert key text entries in
    if name == key then (name, text) ∷ entries else (name, old) ∷ later

-- No key has two entries, as in a map.
abbrev pub HasDistinctKeys : Labels → Type 0
HasDistinctKeys [] = Unit
HasDistinctKeys ((k, v) ∷ m) = (lookup k m ≡ none) × HasDistinctKeys m

-- The map has all the entries.
abbrev pub Contains : Labels → Labels → Type 0
Contains m entries = All (λ e. lookup e.0 m ≡ some e.1) entries

-- Reading after writing: the text that was written, or what was there before.
pub lookup-insert :
    (k j v : String) (entries : Labels)
    → lookup j (insert k v entries) ≡ (if k == j then some v else lookup j entries)
unfolding lookup insert
lookup-insert k j v [] = refl
lookup-insert k j v ((name, old) ∷ entries) =
    let later = lookup-insert k j v entries in
    elim (Bool-cases (name == k)) [
      | inl same ↦ ground (arith, same, later, (eq_iff name k).0 same)
      | inr other ↦ ground (arith, other, later, eq_iff k j, eq_iff name j, eq_iff name k)
    ]

pub lookup-mem :
    {k v : String} (m : Labels) → HasDistinctKeys m → Memᴰ (k, v) m → lookup k m ≡ some v
unfolding lookup
lookup-mem [] d t = elim t [ ]
lookup-mem {k} {v} ((j, w) ∷ m) (fresh, d) (Memᴰ.head e) =
    ground
      (arith, ap (λ (p : String × String). p.0) e, ap (λ (p : String × String). p.1) e, eq_refl k)
lookup-mem {k} {v} ((j, w) ∷ m) (fresh, d) (Memᴰ.tail t) =
    ground (arith, lookup-mem m d t, eq_iff j k)

pub lookup-sound : (k : String) (m : Labels) {v : String} → lookup k m ≡ some v → Memᴰ (k, v) m
unfolding lookup
lookup-sound k [] h = cc
lookup-sound k ((j, w) ∷ m) {v} h = elim (Bool-cases (j == k)) [
  | inl e ↦ Memᴰ.head (ground (arith, e, eq_iff j k))
  | inr n ↦ Memᴰ.tail (lookup-sound k m (ground (arith, n)))
]

pub insert-HasDistinctKeys :
    (k v : String) (m : Labels) → HasDistinctKeys m → HasDistinctKeys (insert k v m)
unfolding insert lookup
insert-HasDistinctKeys k v [] d = (refl, tt)
insert-HasDistinctKeys k v ((j, w) ∷ m) (fresh, d) = elim (Bool-cases (j == k)) [
  | inl e ↦ rw e (ground (arith, eq_iff j k), d)
  | inr n ↦ rw n (
    ground (arith, lookup-insert k j v m, eq_iff k j, eq_iff j k),
    insert-HasDistinctKeys k v m d,
  )
]
