-- ===== src/Token.antt =====
-- internal/twitch/token.go: the token in a file, and the loader that remembers it. What the file holds
-- when it is read is an argument; a read that fails gives none.
pub mod Loads
pub mod Refresh
mod Tests
use gnasty_chat.Prelude.{
  ℕ, Bool, true, false, Option, none, some, List, [], ◌∷◌, ◌++◌, if◌then◌else◌, is_nil,
}
use gnasty_chat.Text.{Bytes, codes, beq, has_prefix, trim_space}

abbrev pub prefix : Bytes
prefix = codes "oauth:"

unfoldable pub normalize_token : Bytes → Bytes
normalize_token s =
    let trimmed = trim_space s in
    if is_nil trimmed then [] else if has_prefix prefix trimmed then trimmed else prefix ++ trimmed

pub record Loader : Type 0 where
  pub cached : Bytes

pub data Loaded : Type 0 where
  unreadable empty : Loaded
  token : Bytes → Bool → Loaded

-- `Load`: the token, and whether it differs from the one before.
unfoldable pub load : Option Bytes → Loader → Loaded × Loader
load none l = (unreadable, l)
load (some content) l =
    let t = normalize_token content in
    if is_nil t
    then (empty, record { cached = [] })
    else if beq t l.cached
    then (token l.cached false, l)
    else (token t true, record { cached = t })

unfoldable pub set_cached : Bytes → Loader → Loader
set_cached t l = record { cached = normalize_token t }
