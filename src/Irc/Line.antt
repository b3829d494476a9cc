-- ===== src/Irc/Line.antt =====
-- internal/twitchirc/client.go: parsePrivmsg, which turns a line into a chat message or names the
-- reason why it is dropped. The clock, the badge resolver and the hash are parameters.
pub mod Parts
pub mod Shape
pub mod Facts
use gnasty_chat.Prelude.{
  ℕ, ◌+◌, ◌≤◌, ◌<◌, Bool, true, false, Option, none, some, List, [], ◌∷◌, ◌++◌, leb, if◌then◌else◌,
  is_nil, length, take, drop, ℤ, scale, wrap64, ◌==◌,
}
use gnasty_chat.Text.{Bytes, codes, has_prefix, cut_byte, trim_space, to_upper, equal_fold, join}
use gnasty_chat.Text.Decimal.{parse_int}
use gnasty_chat.Dict.{Dict, get_or}
use gnasty_chat.Json.{
  Json, obj, str, Fields, end, field, marshal, marshal_int, marshal_text, write_array,
}
use gnasty_chat.Message.{ChatMessage, ChatBadge, BadgesRaw, Time, zero_time, unix_nano}
use gnasty_chat.Message.Encode.{marshal_payload}
use gnasty_chat.Trace.{MessageTrace, new_trace}
use gnasty_chat.Irc.Tags.{read_tags}
use gnasty_chat.Irc.Badges.{parse_twitch_badges, split_list}
use mathlib.Core.List.{map}

pub data DropReason : Type 0 where
  tags_no_space missing_prefix prefix_no_space not_privmsg : DropReason
  channel_no_space channel_mismatch missing_text : DropReason

pub data Parsed (A : Type 0) : Type 0 where
  dropped : DropReason → Parsed A
  ok : A → Parsed A

infixl 5 ◌>>=◌
abbrev pub ◌>>=◌ : {A B : Type 0} → Parsed A → (A → Parsed B) → Parsed B
dropped reason >>= next = dropped reason
ok a >>= next = next a

-- The tags in front, if the line begins with `@`, and the rest.
unfoldable pub take_tags : Bytes → Parsed (Dict Bytes × Bytes)
take_tags line =
    if has_prefix (b'@' ∷ []) line
    then elim (cut_byte 32 line) [
      | none ↦ dropped tags_no_space
      | some (before, after) ↦ ok (read_tags (drop 1 before), trim_space after)
    ]
    else ok ([], line)

-- The sender, behind a colon.
unfoldable pub take_prefix : Bytes → Parsed (Bytes × Bytes)
take_prefix rest =
    if has_prefix (b':' ∷ []) rest
    then elim (cut_byte 32 (drop 1 rest)) [
      | none ↦ dropped prefix_no_space
      | some (prefix, after) ↦ ok (prefix, trim_space after)
    ]
    else dropped missing_prefix

abbrev pub privmsg : Bytes
privmsg = codes "PRIVMSG #"

unfoldable pub take_command : Bytes → Parsed Bytes
take_command rest =
    if has_prefix privmsg (to_upper rest)
    then ok (drop (length privmsg) rest)
    else dropped not_privmsg

unfoldable pub take_channel : Bytes → Bytes → Parsed Bytes
take_channel channel rest = elim (cut_byte 32 rest) [
  | none ↦ dropped channel_no_space
  | some (name, after) ↦
      if equal_fold name channel then ok (trim_space after) else dropped channel_mismatch
]

unfoldable pub take_text : Bytes → Parsed Bytes
take_text rest = if has_prefix (b':' ∷ []) rest then ok (drop 1 rest) else dropped missing_text

unfoldable pub extract_user : Bytes → Bytes
extract_user prefix =
    let bare = if has_prefix (b':' ∷ []) prefix then drop 1 prefix else prefix in
    elim (cut_byte b'!' bare) [ none ↦ bare | some (nick, host) ↦ nick ]

-- `text[:max]`, if the text is longer
unfoldable pub truncate : ℕ → Bytes → Bytes
truncate max text = if leb (length text) max then text else take max text

unfoldable pub truncate_snippet : Bytes → Bytes
truncate_snippet text = truncate 80 text

-- What the parser is given besides the line: the time, the resolver if there is one, and the hash.
pub record Env : Type 0 where
  pub now : Time
  pub enrich : Option (Bytes → List ChatBadge → List ChatBadge)
  pub digest : Bytes → Bytes

-- time.Unix(0, ms*int64(time.Millisecond))
unfoldable pub sent_time : Bytes → Time → Time
sent_time raw now =
    if is_nil raw
    then now
    else elim (parse_int raw) [ none ↦ now | some ms ↦ unix_nano (wrap64 (scale ms 1_000_000)) ]

-- UnixNano; of the zero time it is what int64 leaves of the year 1.
unfoldable pub nanoseconds : Time → ℤ
nanoseconds zero_time = ℤ.negsuc 6_795_364_578_871_345_151
nanoseconds (unix_nano n) = n

unfoldable pub message_user : Dict Bytes → Bytes → Bytes
message_user tags prefix =
    let display = get_or (codes "display-name") tags [] in
    if is_nil display then extract_user prefix else display

unfoldable pub message_id : Dict Bytes → Bytes → Time → Bytes
message_id tags user ts =
    let id = get_or (codes "id") tags [] in
    if is_nil id then user ++ b'-' ∷ marshal_int (nanoseconds ts) else id

unfoldable pub enriched : Env → Dict Bytes → Bytes → List ChatBadge → List ChatBadge
enriched env tags channel badges = elim env.enrich [
  | none ↦ badges
  | some resolve ↦
      let room = trim_space (get_or (codes "room-id") tags []) in
      resolve (if is_nil room then channel else room) badges
]

unfoldable pub encode_list : List Bytes → Bytes
encode_list [] = []
encode_list (s ∷ ss) = write_array (map marshal_text (s ∷ ss))

encode_badges_payload : List ChatBadge → BadgesRaw → Bytes
encode_badges_payload [] [] = []
encode_badges_payload badges raw = marshal_payload badges raw

tags_json : Dict Bytes → Fields
tags_json [] = end
tags_json ((k, v) ∷ m) = field k (str v) (tags_json m)

raw_json : Dict Bytes → Bytes → Bytes → Bytes
unfolding tags_json
raw_json tags prefix line = marshal (
    obj (
      field (codes "tags") (obj (tags_json tags))
        (field (codes "prefix") (str prefix) (field (codes "line") (str line) end))))

-- The end of `parsePrivmsg`, which cannot fail.
unfoldable pub build_message :
    Env → Bytes → Bytes → Dict Bytes → Bytes → Bytes → ChatMessage × MessageTrace
unfolding raw_json encode_badges_payload
build_message env original channel tags prefix text =
    let user = message_user tags prefix in
    let ts = sent_time (get_or (codes "tmi-sent-ts") tags []) env.now in
    let id = message_id tags user ts in
    let (list, raw) = parse_twitch_badges tags channel in
    let badges = enriched env tags channel list in
    (
      record {
        id = id;
        platform_msg_id = id;
        ts = ts;
        timestamp_ms = ℤ.pos 0;
        username = user;
        platform = codes "Twitch";
        text = text;
        emotes_json = encode_list (split_list (get_or (codes "emotes") tags []) b'/');
        emotes = none;
        raw_json = raw_json tags prefix original;
        raw = none;
        badges_json = encode_badges_payload badges raw;
        badges = badges;
        badges_raw = raw;
        colour = get_or (codes "color") tags [];
      },
      new_trace env.digest (codes "Twitch") channel user (truncate_snippet text),
    )

unfoldable pub parse_privmsg : Env → Bytes → Bytes → Parsed (ChatMessage × MessageTrace)
parse_privmsg env line channel = do
  (tags, rest) ← take_tags line
  (prefix, command) ← take_prefix rest
  target ← take_command command
  body ← take_channel channel target
  text ← take_text body
  ok (build_message env line channel tags prefix text)
