-- ===== src/Ytlive/Balanced.antt =====
-- internal/ytlive/resolver.go: sliceBalancedJSON. The loop goes over bytes: none of a longer character
-- is a quote, a backslash or a bracket.
pub mod Slices
pub mod Prefixes
use gnasty_chat.Prelude.{
  ℕ, Bool, true, false, ◌||◌, ◌&&◌, not, ◌++◌, Option, none, some, List, [], ◌∷◌, ◌==◌,
  if◌then◌else◌,
}
use gnasty_chat.Text.{Bytes}

-- What the loop does next: it returns failure, returns what it has passed, or goes on.
pub data Next : Type 0 where
  fails finishes : Next
  goes : Bytes → Bool → Bool → Next

-- A closing bracket, with the open ones.
unfoldable pub close_bracket : ℕ → Bytes → Next
close_bracket c [] = fails
close_bracket c (opener ∷ []) =
    if (opener == b'{' && not (c == b'}')) || (opener == b'[' && not (c == b']'))
    then fails
    else finishes
close_bracket c (opener ∷ o ∷ stack) =
    if (opener == b'{' && not (c == b'}')) || (opener == b'[' && not (c == b']'))
    then fails
    else goes (o ∷ stack) false false

unfoldable pub outside_string : ℕ → Bytes → Next
outside_string c stack =
    if c == 34
    then goes stack true false
    else if c == b'{' || c == b'['
    then goes (c ∷ stack) false false
    else if c == b'}' || c == b']'
    then close_bracket c stack
    else goes stack false false

unfoldable pub in_string : ℕ → Bytes → Bool → Next
in_string c stack true = goes stack true false
in_string c stack false =
    if c == 92
    then goes stack true true
    else if c == 34
    then goes stack false false
    else goes stack true false

unfoldable pub next : ℕ → Bytes → Bool → Bool → Next
next c stack true escape = in_string c stack escape
next c stack false escape = outside_string c stack

abbrev pub prepend : Bytes → Option Bytes → Option Bytes
prepend p none = none
prepend p (some s) = some (p ++ s)

-- The loop from here on, and what it passes.
unfoldable pub scan_from : Bytes → Bytes → Bool → Bool → Option Bytes
scan_from [] stack quoted escape = none
scan_from (c ∷ s) stack quoted escape = elim (next c stack quoted escape) [
  | fails ↦ none
  | finishes ↦ some (c ∷ [])
  | goes stack' quoted' escape' ↦ prepend (c ∷ []) (scan_from s stack' quoted' escape')
]

unfoldable pub slice_balanced : Bytes → Option Bytes
slice_balanced s = scan_from s [] false false
