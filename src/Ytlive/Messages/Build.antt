-- ===== src/Ytlive/Messages/Build.antt =====
-- internal/ytlive/client.go: one message from its renderer. The clock stands still while it is made.
use gnasty_chat.Prelude.{
  Option, none, some, List, [], ◌∷◌, ◌++◌, if◌then◌else◌, is_nil, ℤ, scale, wrap64, map,
}
use gnasty_chat.Text.{Bytes, codes}
use gnasty_chat.Text.Decimal.{parse_int, itoa}
use gnasty_chat.Json.{
  Json, num, str, obj, Items, nil, cons, Fields, get, as_obj, as_str, as_arr, marshal, marshal_int,
  write_struct, write_array,
}
use gnasty_chat.Message.Encode.{text_entry, int_entry, list_entry}
use gnasty_chat.Message.{ChatMessage, Time, unix_nano}
use gnasty_chat.Ytlive.Emotes.{
  Emote, EmoteImage, Location, string_field, first_text, dig_two, or_text, message_text_and_emotes,
}
use gnasty_chat.Ytlive.Messages.Badges.{Pattern, parse_youtube_badges}

-- The label of an emoji's image, or the emoji's id.
unfoldable pub image_label : Fields → Bytes
image_label emoji = elim (as_obj (get (codes "image") emoji)) [
  | none ↦ []
  | some image ↦ elim (dig_two image (codes "accessibility") (codes "accessibilityData")) [
    | none ↦ []
    | some acc ↦ string_field acc (codes "label")
  ]
]

unfoldable pub shortcut_of : Fields → Option Bytes
shortcut_of emoji = elim (as_arr (get (codes "shortcuts") emoji)) [
  | none ↦ none
  | some js ↦ first_text js
]

unfoldable pub emoji_text : Fields → Bytes
emoji_text emoji = elim (shortcut_of emoji) [
  | some s ↦ s
  | none ↦ or_text (image_label emoji) (string_field emoji (codes "emojiId"))
]

unfoldable pub emoji_run_text : Fields → Bytes
emoji_run_text part = elim (as_obj (get (codes "emoji") part)) [
  | none ↦ []
  | some emoji ↦ emoji_text emoji
]

unfoldable pub run_text : Fields → Bytes
run_text part = elim (as_str (get (codes "text") part)) [
  | some text ↦ text
  | none ↦ emoji_run_text part
]

unfoldable pub runs_text : Items → Bytes
runs_text nil = []
runs_text (cons (obj part) js) = run_text part ++ runs_text js
runs_text (cons _ js) = runs_text js

unfoldable pub nested_runs_text : Fields → Bytes
nested_runs_text nested = elim (as_arr (get (codes "runs") nested)) [
  | none ↦ []
  | some runs ↦ runs_text runs
]

unfoldable pub runs_field : Fields → Bytes → Bytes
runs_field m key = elim (as_obj (get key m)) [ none ↦ [] | some nested ↦ nested_runs_text nested ]

unfoldable pub simple_text : Fields → Bytes → Option Bytes
simple_text m key = elim (as_obj (get key m)) [
  | none ↦ none
  | some nested ↦ as_str (get (codes "simpleText") nested)
]

unfoldable pub text_field : Fields → Bytes → Bytes
text_field m key = elim (simple_text m key) [ none ↦ runs_field m key | some s ↦ s ]

-- `time.Unix(0, n*1000)` for microseconds: an int64.
unfoldable pub from_micros : ℤ → Time
from_micros n = unix_nano (wrap64 (scale n 1000))

unfoldable pub timestamp_of : ℤ → Option Json → Time
timestamp_of now (some (str s)) = elim (parse_int s) [
  | none ↦ unix_nano now
  | some n ↦ from_micros n
]
timestamp_of now (some (num n)) = from_micros n
timestamp_of now _ = unix_nano now

unfoldable pub timestamp_field : ℤ → Fields → Bytes → Time
timestamp_field now m key = timestamp_of now (get key m)

-- json.Marshal of the emotes, by the tags of their structs.
unfoldable pub marshal_location : Location → Bytes
marshal_location l = write_struct ((codes "start", itoa l.start) ∷ (codes "end", itoa l.stop) ∷ [])

unfoldable pub marshal_emote_image : EmoteImage → Bytes
marshal_emote_image i = write_struct (
    text_entry (codes "url") i.url
    ++ (int_entry (codes "width") i.width ++ int_entry (codes "height") i.height))

unfoldable pub marshal_emote : Emote → Bytes
marshal_emote e = write_struct (
    text_entry (codes "id") e.id
    ++ (text_entry (codes "name") e.name
        ++ (list_entry (codes "locations") marshal_location e.locations
            ++ list_entry (codes "images") marshal_emote_image e.images)))

unfoldable pub emotes_text : List Emote → Bytes
emotes_text [] = []
emotes_text (e ∷ es) = write_array (map marshal_emote (e ∷ es))

-- The message, or why there is none.
pub data Built : Type 0 where
  stored : ChatMessage → Built
  dropped : Bytes → Built

-- "yt-" and the time
unfoldable pub fallback_id : ℤ → Bytes
fallback_id now = codes "yt-" ++ marshal_int now

unfoldable pub youtube_message : List Pattern → ℤ → Fields → ChatMessage
youtube_message patterns now renderer =
    let (badges, raw) = parse_youtube_badges patterns renderer in
    let (text, emotes) = message_text_and_emotes renderer in
    let id = or_text (string_field renderer (codes "id")) (fallback_id now) in
    record {
      id = id;
      platform_msg_id = id;
      ts = timestamp_field now renderer (codes "timestampUsec");
      timestamp_ms = ℤ.pos 0;
      username = text_field renderer (codes "authorName");
      platform = codes "YouTube";
      text = text;
      emotes_json = emotes_text emotes;
      emotes = none;
      raw_json = marshal (obj renderer);
      raw = none;
      badges_json = [];
      badges = badges;
      badges_raw = raw;
      colour = [];
    }

unfoldable pub build_message : List Pattern → ℤ → Fields → Built
build_message patterns now renderer =
    let msg = youtube_message patterns now renderer in
    if is_nil msg.text then dropped (codes "empty text") else stored msg
