-- ===== src/Irc/Badges.antt =====
-- internal/twitchirc/client.go: the badges in the tags of a message.
pub mod Pairs
use gnasty_chat.Prelude.{
  ℕ, Bool, true, false, ◌&&◌, not, Option, none, some, List, [], ◌∷◌, ◌++◌, ◌==◌, if◌then◌else◌,
  is_nil,
}
use gnasty_chat.Text.{Bytes, codes, cut_byte, split, trim_space, join, beq}
use gnasty_chat.Dict.{Dict, get_or, insert}
use gnasty_chat.Json.{Json, obj, str, Fields, end, field, marshal, marshal_text, marshal_int}
use gnasty_chat.Message.{ChatBadge, ChatBadgeImage, BadgesRaw}

-- The loop of `splitList`: the parts that are not empty when trimmed.
keep_parts : List Bytes → List Bytes
keep_parts [] = []
keep_parts (p ∷ ps) = if is_nil (trim_space p) then keep_parts ps else trim_space p ∷ keep_parts ps

unfoldable pub split_list : Bytes → ℕ → List Bytes
unfolding keep_parts
split_list s sep = if is_nil s then [] else keep_parts (split sep s)

pub record BadgePair : Type 0 where
  pub id : Bytes
  pub version : Bytes

-- One entry, `id/version` or `id`.
unfoldable pub badge_pair : Bytes → BadgePair
badge_pair entry = elim (cut_byte b'/' entry) [
  | none ↦ record { id = entry; version = [] }
  | some (id, version) ↦ record { id = trim_space id; version = trim_space version }
]

keep_pairs : List Bytes → List BadgePair
keep_pairs [] = []
keep_pairs (e ∷ es) =
    if is_nil (badge_pair e).id then keep_pairs es else badge_pair e ∷ keep_pairs es

unfoldable pub parse_badge_pairs : Bytes → ℕ → List BadgePair
unfolding keep_pairs
parse_badge_pairs raw sep = if is_nil raw then [] else keep_pairs (split_list raw sep)

-- The version of a broadcaster's badge is the channel, if the tag gives none.
unfoldable pub twitch_badge : Bytes → BadgePair → ChatBadge
twitch_badge channel p = record {
  platform = codes "twitch";
  id = p.id;
  version = if is_nil p.version && beq p.id (codes "broadcaster") then channel else p.version;
  images = [];
}

unfoldable pub twitch_badges : Bytes → List BadgePair → List ChatBadge
twitch_badges channel [] = []
twitch_badges channel (p ∷ ps) =
    if is_nil p.id
    then twitch_badges channel ps
    else twitch_badge channel p ∷ twitch_badges channel ps

raw_field : Bytes → Bytes → Fields → Fields
raw_field key value rest = if is_nil value then rest else field key (str value) rest

unfoldable pub twitch_raw : Bytes → Bytes → BadgesRaw
unfolding raw_field
twitch_raw raw_badges raw_info =
    if not (is_nil raw_badges && is_nil raw_info)
    then (
      codes "twitch",
      obj (raw_field (codes "badges") raw_badges (raw_field (codes "badge_info") raw_info end)),
    )
      ∷ []
    else []

unfoldable pub raw_badge_info : Dict Bytes → Bytes
raw_badge_info tags =
    if is_nil (get_or (codes "badge-info") tags [])
    then get_or (codes "badge_info") tags []
    else get_or (codes "badge-info") tags []

unfoldable pub parse_twitch_badges : Dict Bytes → Bytes → List ChatBadge × BadgesRaw
unfolding raw_badge_info twitch_raw
parse_twitch_badges tags channel =
    let raw_badges = get_or (codes "badges") tags [] in
    (
      twitch_badges channel (parse_badge_pairs raw_badges b','),
      twitch_raw raw_badges (raw_badge_info tags),
    )
