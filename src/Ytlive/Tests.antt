-- ===== src/Ytlive/Tests.antt =====
-- A message of YouTube with an emote, and instances of the theorems.
mod Polling
mod Rounds
mod Resolving
use gnasty_chat.Prelude.{[], ◌∷◌, ◌≡◌, some, ◌++◌, arith, All}
use gnasty_chat.Text.{codes}
use gnasty_chat.Json.{str, arr, obj, Items, nil, cons, Fields, end, field}
use gnasty_chat.Ytlive.Emotes.{runs_text_and_emotes}
use gnasty_chat.Ytlive.Emotes.Places.{IsPlaced, runs_text_and_emotes-IsPlaced}
use gnasty_chat.Ytlive.Balanced.{slice_balanced}
use gnasty_chat.Ytlive.Balanced.Slices.{
  done, plain, quoted, braces, bare, escaped, Whole, object, write_whole, IsWritableWhole,
  slice_balanced-write_whole,
}

abbrev emoji : Fields
emoji =
    field (codes "emojiId") (str (codes "e1"))
      (field (codes "shortcuts") (arr (cons (str (codes ":wave:")) nil)) end)

abbrev runs : Items
runs =
    cons (obj (field (codes "text") (str (codes "hi ")) end))
      (cons (obj (field (codes "emoji") (obj emoji) end)) nil)

runs_text_and_emotes-IsPlaced_example :
    All (IsPlaced (runs_text_and_emotes runs).0) (runs_text_and_emotes runs).1
runs_text_and_emotes-IsPlaced_example = runs_text_and_emotes-IsPlaced runs

-- {"}\"":1{}}
abbrev whole : Whole
whole = object (quoted (bare b'}' ∷ escaped 34 ∷ []) (plain b':' (plain b'1' (braces done done))))

whole-IsWritableWhole : IsWritableWhole whole
whole-IsWritableWhole = omega arith

slice_balanced-write_whole_example :
    slice_balanced (write_whole whole ++ codes ";x}") ≡ some (write_whole whole)
slice_balanced-write_whole_example =
    slice_balanced-write_whole whole (codes ";x}") whole-IsWritableWhole
