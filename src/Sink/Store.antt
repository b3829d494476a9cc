-- ===== src/Sink/Store.antt =====
-- internal/sink/sqlite.go and internal/sink/withapi.go: the rows of the table `messages`. The database,
-- and encoding/json's reading of badges, are parameters.
pub mod Badges
pub mod Restore
pub mod Written
use gnasty_chat.Prelude.{
  ℕ, suc, ◌*◌, ◌/◌, Bool, true, false, ◌&&◌, Option, none, some, List, [], ◌∷◌, ◌++◌, leb,
  if◌then◌else◌, is_nil, ℤ, scale, wrap64, is_positive, pos_part,
}
use gnasty_chat.Text.{Bytes, codes, beq, trim_space, contains}
use gnasty_chat.Text.Decimal.{parse_int}
use gnasty_chat.Json.{Json, marshal, marshal_int}
use gnasty_chat.Message.{ChatMessage, Time, zero_time, unix_nano}
use gnasty_chat.Trace.{MessageTrace, inc_counter, stage_written_to_db}
use gnasty_chat.Http.Hub.{Hub, broadcast}
use gnasty_chat.Sink.Query.{unix_milli}
use gnasty_chat.Sink.Retry.{Tried, with_retry}
use gnasty_chat.Sink.Store.Badges.{encode_badges_json, Codec, decode_badges_json}

unfoldable pub add_options : Bytes → Bytes
add_options path =
    if contains path (codes "?")
    then path ++ codes "&_busy_timeout=5000&_journal_mode=wal"
    else path ++ codes "?_busy_timeout=5000&_journal_mode=wal"

unfoldable pub json_text : Bytes → Option Json → Bytes → Bytes
json_text (c ∷ encoded) value empty = c ∷ encoded
json_text [] none empty = empty
json_text [] (some v) empty = marshal v

pub record Row : Type 0 where
  pub platform : Bytes
  pub platform_msg_id : Option Bytes
  pub ts : ℤ
  pub username : Bytes
  pub text : Bytes
  pub emotes_json : Bytes
  pub raw_json : Bytes
  pub badges_json : Bytes
  pub colour : Bytes

-- ON CONFLICT: DO NOTHING on (platform, ts, username, text), or DO UPDATE on (platform, platform_msg_id).
pub data Conflict : Type 0 where
  do_nothing do_update : Conflict

abbrev pub is_zero : ℤ → Bool
is_zero (ℤ.pos n) = leb n 0
is_zero (ℤ.negsuc n) = false

unfoldable pub time_ms : ℤ → Time → ℤ
time_ms now zero_time = now
time_ms now (unix_nano n) = unix_milli (unix_nano n)

-- The row's time; `now` is the clock in milliseconds.
unfoldable pub ts_ms : ℤ → ChatMessage → ℤ
ts_ms now msg = if is_zero msg.timestamp_ms then time_ms now msg.ts else msg.timestamp_ms

unfoldable pub message_id : ChatMessage → Bytes
message_id msg =
    if is_nil (trim_space msg.platform_msg_id)
    then trim_space msg.id
    else trim_space msg.platform_msg_id

unfoldable pub id_arg : Bytes → Option Bytes
id_arg [] = none
id_arg (c ∷ s) = some (c ∷ s)

unfoldable pub row_of : ℤ → ChatMessage → Row
row_of now msg = record {
  platform = trim_space msg.platform;
  platform_msg_id = id_arg (message_id msg);
  ts = ts_ms now msg;
  username = trim_space msg.username;
  text = msg.text;
  emotes_json = json_text msg.emotes_json msg.emotes (codes "[]");
  raw_json = json_text msg.raw_json msg.raw [];
  badges_json = encode_badges_json msg;
  colour = msg.colour;
}

unfoldable pub conflict_of : ChatMessage → Conflict
conflict_of msg = if is_nil (message_id msg) then do_nothing else do_update

-- The database and a message's trace, if it has one.
pub record Target (Db : Type 0) : Type 0 where
  pub db : Db
  pub trace : Option MessageTrace

unfoldable pub count_written : Option MessageTrace → Option MessageTrace
count_written none = none
count_written (some t) = some (inc_counter stage_written_to_db t).1

-- The database's answer to one insert: an error's text, or none.
module _ {Db : Type 0} (exec : Conflict → Row → Db → Option Bytes × Db) where
  unfoldable pub after_exec : Option Bytes × Db → Option MessageTrace → Option Bytes × Target Db
  after_exec (none, db) trace = (none, record { db = db; trace = count_written trace })
  after_exec (some error, db) trace = (some error, record { db = db; trace = trace })

  unfoldable pub insert : ℤ → ChatMessage → Target Db → Option Bytes × Target Db
  insert now msg t = after_exec (exec (conflict_of msg) (row_of now msg) t.db) t.trace

  -- errors.Wrap passes on that there is no error.
  unfoldable pub wrap : Option Bytes → Option Bytes
  wrap none = none
  wrap (some error) = some (codes "insert message: " ++ error)

  unfoldable pub write : ℤ → ChatMessage → Target Db → Option Bytes × Target Db
  write now msg t = let tried = with_retry (insert now msg) t in (wrap tried.error, tried.state)

  -- WithBroadcast.Write: only what was written is broadcast.
  unfoldable pub publish : Option Bytes → ChatMessage → Option Hub → Option Hub
  publish (some error) msg api = api
  publish none msg none = none
  publish none msg (some hub) = some (broadcast msg hub)

  unfoldable pub write_and_broadcast :
      ℤ → ChatMessage → Target Db → Option Hub → Option Bytes × (Target Db × Option Hub)
  write_and_broadcast now msg t api =
      let (error, t') = write now msg t in (error, (t', publish error msg api))

-- ListMessages: the message of a row, by the row's number.
unfoldable pub row_time : ℤ → Time
row_time ts = if is_positive ts then unix_nano (scale ts 1_000_000) else zero_time

unfoldable pub text_or_empty : Option Bytes → Bytes
text_or_empty none = []
text_or_empty (some s) = s

unfoldable pub list_id : ℤ → Bytes → Bytes
list_id row_id [] = marshal_int row_id
list_id row_id (c ∷ s) = c ∷ s

unfoldable pub message_of_row : Codec → ℤ → Row → ChatMessage
message_of_row codec row_id row =
    let (badges, raw) = decode_badges_json codec row.badges_json row.platform in
    let pmid = text_or_empty row.platform_msg_id in
    record {
      id = list_id row_id pmid;
      platform_msg_id = pmid;
      ts = row_time row.ts;
      timestamp_ms = row.ts;
      username = row.username;
      platform = row.platform;
      text = row.text;
      emotes_json = row.emotes_json;
      emotes = none;
      raw_json = row.raw_json;
      raw = none;
      badges_json = row.badges_json;
      badges = badges;
      badges_raw = raw;
      colour = row.colour;
    }
