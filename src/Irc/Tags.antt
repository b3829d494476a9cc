-- ===== src/Irc/Tags.antt =====
-- internal/twitchirc/client.go: the tags of an IRC line and their escapes.
pub mod Escapes
use gnasty_chat.Prelude.{
  ℕ, Bool, true, false, Option, none, some, List, [], ◌∷◌, ◌++◌, ◌==◌, if◌then◌else◌, is_nil,
}
use gnasty_chat.Text.{Bytes, cut_byte, split}
use gnasty_chat.Dict.{Dict, insert}

-- The byte that a backslash and `c` stand for.
reveal : ℕ → ℕ
reveal c =
    if c == b's'
    then 32
    else if c == b'n'
    then 10
    else if c == b'r'
    then 13
    else if c == b':'
    then b';'
    else c

unfoldable pub unescape_irc : Bytes → Bytes
unfolding reveal
unescape_irc [] = []
unescape_irc (c ∷ []) = c ∷ []
unescape_irc (c ∷ d ∷ s) =
    let plain = unescape_irc (d ∷ s) in
    let escaped = unescape_irc s in if c == 92 then reveal d ∷ escaped else c ∷ plain

-- One round of the loop over the parts between semicolons.
unfoldable pub add_tag : Bytes → Dict Bytes → Dict Bytes
add_tag [] tags = tags
add_tag (c ∷ kv) tags = elim (cut_byte b'=' (c ∷ kv)) [
  | none ↦ insert (c ∷ kv) [] tags
  | some (key, value) ↦ insert key (unescape_irc value) tags
]

unfoldable pub add_tags : List Bytes → Dict Bytes → Dict Bytes
add_tags [] tags = tags
add_tags (kv ∷ kvs) tags = add_tags kvs (add_tag kv tags)

unfoldable pub read_tags : Bytes → Dict Bytes
read_tags tag_part = add_tags (split b';' tag_part) []
