-- ===== src/Irc/Drops/Summary.antt =====
-- internal/twitchirc/drop_logging.go: what is logged of a dropped line.
use gnasty_chat.Prelude.{ℕ, none, some, List, [], ◌∷◌, ◌++◌, if◌then◌else◌, is_nil, drop}
use gnasty_chat.Text.{
  Bytes, codes, has_prefix, trim_prefix, cut, cut_byte, split, trim_space, fields, to_upper, beq,
}
use gnasty_chat.Irc.Tags.{unescape_irc}
use gnasty_chat.Irc.Drops.Sanitize.{sanitize_and_truncate}

pub record IrcSummary : Type 0 where
  pub command : Bytes
  pub channel : Bytes
  pub sample : Bytes

abbrev pub drop_sample_max_len : ℕ
drop_sample_max_len = 96

abbrev pub drop_channel_max_len : ℕ
drop_channel_max_len = 32

find_tag : Bytes → List Bytes → Bytes
find_tag key [] = []
find_tag key (kv ∷ kvs) = elim (cut_byte b'=' kv) [
  | none ↦ find_tag key kvs
  | some (k, v) ↦ if beq k key then unescape_irc v else find_tag key kvs
]

unfoldable pub tag_value : Bytes → Bytes → Bytes
unfolding find_tag
tag_value raw_tags key =
    if is_nil raw_tags then [] else if is_nil key then [] else find_tag key (split b';' raw_tags)

unfoldable pub first_channel : List Bytes → Bytes
first_channel [] = []
first_channel (p ∷ ps) = if has_prefix (b'#' ∷ []) p then p else first_channel ps

unfoldable pub unknown : Bytes → IrcSummary
unknown sample = record { command = codes "UNKNOWN"; channel = []; sample = sample }

-- The command and what follows it.
unfoldable pub split_command : Bytes → Bytes × Bytes
split_command line = elim (cut_byte 32 line) [
  | none ↦ (line, [])
  | some (cmd, rest) ↦ (cmd, trim_space rest)
]

unfoldable pub command_name : Bytes → Bytes
command_name cmd =
    let name = to_upper (trim_space cmd) in if is_nil name then codes "UNKNOWN" else name

notice_sample : Bytes → Bytes → Bytes
notice_sample cmd tag_part =
    if beq cmd (codes "USERNOTICE")
    then (let id = tag_value tag_part (codes "msg-id") in
        if is_nil id then [] else codes "msg-id=" ++ id)
    else []

trailing_sample : Bytes → Bytes
trailing_sample rest = elim (cut (codes " :") rest) [
  | none ↦ []
  | some (before, after) ↦ trim_space after
]

first_of_three : Bytes → Bytes → Bytes → Bytes
first_of_three a b c = if is_nil a then (if is_nil b then c else b) else a

unfoldable pub sample_of : Bytes → Bytes → Bytes → Bytes → Bytes
unfolding notice_sample trailing_sample first_of_three
sample_of cmd tag_part channel rest = trim_prefix (b':' ∷ []) (
    first_of_three (notice_sample cmd tag_part) (trailing_sample rest)
      (if is_nil channel then rest else channel))

-- The line behind the tags and the sender.
unfoldable pub summarize_command : Bytes → Bytes → IrcSummary
summarize_command tag_part line =
    if is_nil line
    then unknown []
    else let (cmd, rest) = split_command line in
      let name = command_name cmd in
      let channel = first_channel (fields rest) in
      record {
        command = name;
        channel = sanitize_and_truncate channel drop_channel_max_len;
        sample = sanitize_and_truncate (sample_of name tag_part channel rest) drop_sample_max_len;
      }

unfoldable pub summarize_prefix : Bytes → Bytes → IrcSummary
unfolding summarize_command
summarize_prefix tag_part line =
    if has_prefix (b':' ∷ []) line
    then elim (cut_byte 32 line) [
      | none ↦ unknown (sanitize_and_truncate line drop_sample_max_len)
      | some (prefix, rest) ↦ summarize_command tag_part (trim_space rest)
    ]
    else summarize_command tag_part line

summarize_tags : Bytes → IrcSummary
unfolding summarize_prefix
summarize_tags line =
    if has_prefix (b'@' ∷ []) line
    then elim (cut_byte 32 line) [
      | none ↦ unknown (sanitize_and_truncate line drop_sample_max_len)
      | some (tags, rest) ↦ summarize_prefix (drop 1 tags) (trim_space rest)
    ]
    else summarize_prefix [] line

unfoldable pub summarize_irc : Bytes → IrcSummary
unfolding summarize_tags
summarize_irc raw_line =
    if is_nil (trim_space raw_line) then unknown [] else summarize_tags (trim_space raw_line)
