-- ===== src/Text.antt =====
-- The functions of Go's package `strings` that the program calls, over code points. Separators and
-- prefixes in the program are ASCII or whole texts, so bytes and code points agree on them.
pub mod Laws
use Prim.Native.Char.{Char, code}
use Prim.Native.String.{[], ◌∷◌, ◌++◌}
use mathlib.Core.List
use mathlib.Core.Option
use contrib_filteredapiexpor.Prelude.{
  ℕ, zero, suc, String, Bool, true, false, Option, none, some, List, ◌==◌, eqb, if◌then◌else◌,
}

-- The first part grows by one character.
unfoldable pub cons_head : Char → List String → List String
cons_head c List.[] = List.[]
cons_head c (List.◌∷◌ p ps) = List.◌∷◌ (c ∷ p) ps

-- strings.Split(s, sep), for a separator of one character
unfoldable pub split : Char → String → List String
unfolding cons_head
split sep [] = List.◌∷◌ "" List.[]
split sep (c ∷ s) =
    let rest = split sep s in if eqb (code c) (code sep) then List.◌∷◌ "" rest else cons_head c rest

-- strings.SplitN(s, sep, n)
unfoldable pub split_n : Char → ℕ → String → List String
unfolding cons_head
split_n sep zero s = List.[]
split_n sep (suc zero) s = List.◌∷◌ s List.[]
split_n sep (suc (suc n)) [] = List.◌∷◌ "" List.[]
split_n sep (suc (suc n)) (c ∷ s) = elim (eqb (code c) (code sep)) [
  | true ↦ List.◌∷◌ "" (split_n sep (suc n) s)
  | false ↦ cons_head c (split_n sep (suc (suc n)) s)
]

-- What follows the prefix `p` in `s`; `none` where `s` does not begin with `p`.
unfoldable pub strip_prefix : String → String → Option String
strip_prefix [] s = some s
strip_prefix (d ∷ p) [] = none
strip_prefix (d ∷ p) (c ∷ s) = if eqb (code d) (code c) then strip_prefix p s else none

-- strings.HasPrefix(s, p)
unfoldable pub has_prefix : String → String → Bool
unfolding strip_prefix
has_prefix s p = elim (strip_prefix p s) [ none ↦ false | some _ ↦ true ]

-- strings.TrimPrefix(s, p)
unfoldable pub trim_prefix : String → String → String
unfolding strip_prefix
trim_prefix s p = Option.get_or (strip_prefix p s) s

-- What stands before the suffix `p` in `s`; `none` where `s` does not end with `p`.
unfoldable pub strip_suffix : String → String → Option String
strip_suffix p [] = if "" == p then some "" else none
strip_suffix p (c ∷ s) =
    if (c ∷ s) == p then some "" else Option.map (λ r. c ∷ r) (strip_suffix p s)

-- strings.HasSuffix(s, p)
unfoldable pub has_suffix : String → String → Bool
unfolding strip_suffix
has_suffix s p = elim (strip_suffix p s) [ none ↦ false | some _ ↦ true ]

-- strings.TrimSuffix(s, p)
unfoldable pub trim_suffix : String → String → String
unfolding strip_suffix
trim_suffix s p = Option.get_or (strip_suffix p s) s
