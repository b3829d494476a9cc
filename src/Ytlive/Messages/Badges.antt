-- ===== src/Ytlive/Messages/Badges.antt =====
-- internal/ytlive/client.go: the badges of a message's author.
pub mod Once
use gnasty_chat.Prelude.{
  Bool, true, false, ◌||◌, Option, none, some, List, [], ◌∷◌, ◌++◌, if◌then◌else◌, is_nil,
}
use gnasty_chat.Text.{Bytes, codes, beq, contains, join, to_lower, trim_space}
use gnasty_chat.Json.{Json, obj, Items, nil, cons, Fields, end, field, get, as_obj, as_arr}
use gnasty_chat.Message.{ChatBadge, BadgesRaw}
use gnasty_chat.Ytlive.Emotes.{string_field, dig_two}

-- A regular expression by what its first group matches: FindStringSubmatch, for an expression that
-- has a group.
abbrev pub Pattern : Type 0
Pattern = Bytes → Option Bytes

unfoldable pub first_match : List Pattern → Bytes → Option Bytes
first_match [] text = none
first_match (p ∷ ps) text = elim (p text) [
  | none ↦ first_match ps text
  | some m ↦ some (trim_space m)
]

-- The patterns in one text, which is passed over if it is blank.
unfoldable pub match_in : List Pattern → Bytes → Option Bytes
match_in ps text = if is_nil (trim_space text) then none else first_match ps (trim_space text)

unfoldable pub extract_badge_version : List Pattern → List Bytes → Bytes
extract_badge_version ps [] = []
extract_badge_version ps (text ∷ texts) = elim (match_in ps text) [
  | none ↦ extract_badge_version ps texts
  | some m ↦ m
]

-- `if inner, ok := entry[key].(map[string]any); ok { badge = inner }`
unfoldable pub inner_or : Bytes → Fields → Fields → Fields
inner_or key entry badge = elim (as_obj (get key entry)) [ none ↦ badge | some inner ↦ inner ]

unfoldable pub badge_of : Fields → Fields
badge_of entry =
    inner_or (codes "metadataBadgeRenderer") entry
      (inner_or (codes "liveChatAuthorBadgeRenderer") entry entry)

unfoldable pub icon_type_of : Fields → Bytes
icon_type_of badge = elim (as_obj (get (codes "icon") badge)) [
  | none ↦ []
  | some icon ↦ to_lower (string_field icon (codes "iconType"))
]

unfoldable pub label_of : Fields → Bytes
label_of badge = elim (dig_two badge (codes "accessibility") (codes "accessibilityData")) [
  | none ↦ []
  | some acc ↦ string_field acc (codes "label")
]

unfoldable pub interpret_badge : List Pattern → Fields → Bytes × Bytes
interpret_badge ps entry =
    let badge = badge_of entry in
    let style = to_lower (string_field badge (codes "style")) in
    let tooltip = string_field badge (codes "tooltip") in
    let label = string_field badge (codes "label") in
    let icon_type = icon_type_of badge in
    let acc_label = label_of badge in
    let combined =
      to_lower (join (codes " ") (style ∷ tooltip ∷ label ∷ icon_type ∷ acc_label ∷ [])) in
    if contains combined (codes "owner")
    then (codes "owner", [])
    else if contains combined (codes "moderator")
    then (codes "moderator", [])
    else if contains combined (codes "verified") || contains icon_type (codes "check")
    then (codes "verified", [])
    else if contains combined (codes "member")
    then (codes "member", extract_badge_version ps (tooltip ∷ label ∷ acc_label ∷ []))
    else ([], [])

pub record Seen : Type 0 where
  pub keys : List Bytes
  pub badges : List ChatBadge

unfoldable pub occurs : Bytes → List Bytes → Bool
occurs k [] = false
occurs k (j ∷ js) = beq k j || occurs k js

unfoldable pub badge_key : Bytes → Bytes → Bytes
badge_key id version = id ++ b'|' ∷ version

unfoldable pub add_badge : Bytes × Bytes → Seen → Seen
add_badge (id, version) r =
    if is_nil id || occurs (badge_key id version) r.keys then r else record {
      keys = badge_key id version ∷ r.keys;
      badges =
          r.badges
          ++ record { platform = codes "youtube"; id = id; version = version; images = [] } ∷ [];
    }

unfoldable pub add_entries : List Pattern → Items → Seen → Seen
add_entries ps nil r = r
add_entries ps (cons (obj entry) js) r = add_entries ps js (add_badge (interpret_badge ps entry) r)
add_entries ps (cons _ js) r = add_entries ps js r

unfoldable pub extract_badges : List Pattern → Fields → Bytes → Seen → Seen
extract_badges ps renderer key r = elim (as_arr (get key renderer)) [
  | none ↦ r
  | some js ↦ add_entries ps js r
]

-- `rawPayload[key] = v`: the keys are three different ones.
unfoldable pub add_raw : Fields → Bytes → Fields → Fields
add_raw renderer key rest = elim (get key renderer) [ none ↦ rest | some v ↦ field key v rest ]

unfoldable pub raw_of : Fields → BadgesRaw
raw_of end = []
raw_of (field k v m) = (codes "youtube", obj (field k v m)) ∷ []

unfoldable pub parse_youtube_badges : List Pattern → Fields → List ChatBadge × BadgesRaw
parse_youtube_badges ps renderer =
    let found =
      extract_badges ps renderer (codes "authorBadgesWithMetadata")
        (extract_badges ps renderer (codes "authorBadges") (record { keys = []; badges = [] })) in
    (
      found.badges,
      raw_of (
          add_raw renderer (codes "authorBadges") (
            add_raw renderer (codes "authorBadgesWithMetadata")
              (add_raw renderer (codes "authorExternalChannelId") end))),
    )
