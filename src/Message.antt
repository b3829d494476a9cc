-- ===== src/Message.antt =====
-- internal/core/model.go: the messages that the receivers make and the sinks store.
pub mod Encode
use gnasty_chat.Prelude.{
  ℕ, ◌+◌, ◌≤◌, ◌<◌, Bool, true, false, Option, List, ℤ, pos, negsuc, ltb, leb,
}
use gnasty_chat.Text.{Bytes}
use gnasty_chat.Dict.{Dict}
use gnasty_chat.Json.{Json}

-- time.Time: the zero value, or an instant by its nanoseconds since 1970.
pub data Time : Type 0 where
  zero_time : Time
  unix_nano : ℤ → Time

pub record ChatBadgeImage : Type 0 where
  pub id : Bytes
  pub url : Bytes
  pub width : ℤ
  pub height : ℤ

pub record ChatBadge : Type 0 where
  pub platform : Bytes
  pub id : Bytes
  pub version : Bytes
  pub images : List ChatBadgeImage

abbrev pub BadgesRaw : Type 0
BadgesRaw = Dict Json

pub record ChatMessage : Type 0 where
  pub id : Bytes
  pub platform_msg_id : Bytes
  pub ts : Time
  pub timestamp_ms : ℤ
  pub username : Bytes
  pub platform : Bytes
  pub text : Bytes
  pub emotes_json : Bytes
  pub emotes : Option Json
  pub raw_json : Bytes
  pub raw : Option Json
  pub badges_json : Bytes
  pub badges : List ChatBadge
  pub badges_raw : BadgesRaw
  pub colour : Bytes
