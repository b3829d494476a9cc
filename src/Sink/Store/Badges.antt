-- ===== src/Sink/Store/Badges.antt =====
-- internal/sink/sqlite.go: the badges in a row. What json.Unmarshal reads is a parameter.
use gnasty_chat.Prelude.{◌||◌, Option, none, some, List, [], ◌∷◌, if◌then◌else◌, is_nil, map}
use gnasty_chat.Text.{Bytes, codes, beq, trim_space, equal_fold, cut_byte, has_prefix}
use gnasty_chat.Message.{ChatMessage, ChatBadge, BadgesRaw}
use gnasty_chat.Message.Encode.{marshal_payload}

unfoldable pub payload_text : List ChatBadge → BadgesRaw → Bytes
payload_text [] [] = codes "[]"
payload_text [] (e ∷ raw) = marshal_payload [] (e ∷ raw)
payload_text (b ∷ badges) raw = marshal_payload (b ∷ badges) raw

unfoldable pub encode_badges_json : ChatMessage → Bytes
encode_badges_json msg =
    if is_nil (trim_space msg.badges_json)
    then payload_text msg.badges msg.badges_raw
    else trim_space msg.badges_json

-- json.Unmarshal into the struct of badges and raw data, into a list of badges, and into a list of texts.
pub record Codec : Type 0 where
  pub payload : Bytes → Option (List ChatBadge × BadgesRaw)
  pub structured : Bytes → Option (List ChatBadge)
  pub legacy : Bytes → Option (List Bytes)

unfoldable pub normalize_badge : Bytes → ChatBadge → ChatBadge
normalize_badge platform b = if is_nil b.platform then record b { platform = platform } else b

unfoldable pub normalize_badge_platforms : List ChatBadge → Bytes → List ChatBadge
normalize_badge_platforms badges platform = map (normalize_badge platform) badges

unfoldable pub legacy_badge : Bytes → Bytes → Bytes → ChatBadge
legacy_badge platform id version = record {
  platform = platform;
  id = id;
  version = version;
  images = [];
}

-- One entry: an id, or an id and a version behind a slash.
unfoldable pub read_entry : Bytes → Bytes → ChatBadge
read_entry platform entry = elim (cut_byte b'/' entry) [
  | none ↦ legacy_badge platform entry []
  | some (id, version) ↦ legacy_badge platform (trim_space id) (trim_space version)
]

unfoldable pub convert_legacy_badges : List Bytes → Bytes → List ChatBadge
convert_legacy_badges [] platform = []
convert_legacy_badges (entry ∷ entries) platform =
    let rest = convert_legacy_badges entries platform in
    let badge = read_entry platform (trim_space entry) in
    if is_nil (trim_space entry) || is_nil badge.id then rest else badge ∷ rest

unfoldable pub decode_legacy : Codec → Bytes → Bytes → List ChatBadge × BadgesRaw
decode_legacy codec s platform = elim (codec.legacy s) [
  | none ↦ ([], [])
  | some entries ↦ (convert_legacy_badges entries platform, [])
]

unfoldable pub decode_list : Codec → Bytes → Bytes → List ChatBadge × BadgesRaw
decode_list codec s platform = elim (codec.structured s) [
  | none ↦ decode_legacy codec s platform
  | some badges ↦ (normalize_badge_platforms badges platform, [])
]

unfoldable pub decode_payload : Codec → Bytes → Bytes → List ChatBadge × BadgesRaw
decode_payload codec s platform = elim (codec.payload s) [
  | none ↦ decode_list codec s platform
  | some (badges, raw) ↦ (normalize_badge_platforms badges platform, raw)
]

unfoldable pub decode_badges_json : Codec → Bytes → Bytes → List ChatBadge × BadgesRaw
decode_badges_json codec text platform =
    let s = trim_space text in
    if is_nil s || (beq s (codes "[]") || equal_fold s (codes "null"))
    then ([], [])
    else if has_prefix (codes "{") s
    then decode_payload codec s platform
    else decode_list codec s platform
