-- ===== src/Ytlive/Resolver/Assignment.antt =====
-- internal/ytlive/resolver.go, extractJSONAssignment: the object or array that is assigned to a name.
use gnasty_chat.Prelude.{
  ℕ, zero, suc, Bool, ◌||◌, Option, none, some, [], ◌∷◌, ◌==◌, if◌then◌else◌, length,
}
use gnasty_chat.Text.{Bytes, cut, is_space}
use gnasty_chat.Ytlive.Balanced.{slice_balanced}

-- unicode.IsSpace of one byte
unfoldable pub is_space_byte : ℕ → Bool
is_space_byte c = is_space c || (c == 133 || c == 160)

-- What follows the equals sign, if only white space, brackets, quotes, dots and the like come before it.
unfoldable pub skip_to_equals : Bytes → Option Bytes
skip_to_equals [] = none
skip_to_equals (c ∷ s) =
    let rest = skip_to_equals s in
    if c == b'='
    then some s
    else if is_space_byte c || (c == b']' || (c == 34 || (c == 39 || (c == b'.' || c == b')'))))
    then rest
    else none

unfoldable pub skip_spaces : Bytes → Bytes
skip_spaces [] = []
skip_spaces (c ∷ s) = if is_space_byte c then skip_spaces s else c ∷ s

-- What becomes of one occurrence of the name.
pub data Attempt : Type 0 where
  gives_up tries_again : Attempt
  takes : Bytes → Attempt

unfoldable pub take_balanced : Bytes → Attempt
take_balanced s = elim (slice_balanced s) [ none ↦ tries_again | some json ↦ takes json ]

unfoldable pub value_at : Bytes → Attempt
value_at [] = gives_up
value_at (c ∷ s) = if c == b'{' || c == b'[' then take_balanced (c ∷ s) else tries_again

unfoldable pub behind_equals : Option Bytes → Attempt
behind_equals none = tries_again
behind_equals (some []) = tries_again
behind_equals (some (c ∷ s)) = value_at (skip_spaces (c ∷ s))

unfoldable pub attempt : Bytes → Attempt
attempt after = behind_equals (skip_to_equals after)

pub data Search : Type 0 where
  out_of_fuel absent : Search
  found : Bytes → Search

unfoldable pub conclude : Attempt → Search → Search
conclude gives_up more = absent
conclude tries_again more = more
conclude (takes json) more = found json

-- The loop, with fuel for so many occurrences of the name.
unfoldable pub search_from : ℕ → Bytes → Bytes → Search
search_from zero body marker = out_of_fuel
search_from (suc fuel) body marker = elim (cut marker body) [
  | none ↦ absent
  | some (before, after) ↦ conclude (attempt after) (search_from fuel after marker)
]

unfoldable pub extract_json_assignment : Bytes → Bytes → Search
extract_json_assignment body marker = search_from (suc (length body)) body marker
