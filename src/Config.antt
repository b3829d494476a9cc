-- ===== src/Config.antt =====
-- internal/config/config.go: the configuration that is read from the environment. An environment is a
-- map of the variables that are set.
pub mod Lists
pub mod Read
pub mod Summary
pub mod Facts
mod Tests
use gnasty_chat.Prelude.{
  ℕ, ◌+◌, ◌*◌, Bool, true, false, ◌&&◌, ◌||◌, not, Option, none, some, List, [], ◌∷◌, ◌++◌, ltb,
  if◌then◌else◌, is_nil, length, ℤ, lez, scale, wrap64,
}
use gnasty_chat.Text.{Bytes, codes, beq, trim_space, to_lower, is_some}
use gnasty_chat.Text.Decimal.{itoa}
use gnasty_chat.Dict.{Dict, lookup, get_or}
use Lists.{split_list, dedupe}
use Read.{env, env_or, read_int, read_bool, read_flag, read_bool_override, read_debug}

pub record TwitchConfig : Type 0 where
  pub enabled : Bool
  pub channels : List Bytes
  pub nick : Bytes
  pub token : Bytes
  pub token_file : Bytes
  pub client_id : Bytes
  pub client_secret : Bytes
  pub refresh_token : Bytes
  pub refresh_token_file : Bytes
  pub tls : Bool
  pub legacy_channel_env : Bytes
  pub legacy_token_env : Bytes
  pub legacy_client_id_env : Bytes

pub record YoutubeConfig : Type 0 where
  pub enabled : Bool
  pub live_url : Bytes
  pub retry_seconds : ℤ
  pub dump_unhandled : Bool
  pub poll_timeout_secs : ℤ
  pub poll_interval_ms : ℤ
  pub debug : Bool

pub record Config : Type 0 where
  pub sinks : List Bytes
  pub sqlite_path : Bytes
  pub batch_size : ℤ
  pub flush_max_ms : ℤ
  pub twitch : TwitchConfig
  pub youtube : YoutubeConfig

-- `if first == "" { first = second }`
unfoldable pub or_text : Bytes → Bytes → Bytes
or_text first second = if is_nil first then second else first

-- The name of the old variable, if it has been used.
unfoldable pub legacy_name : Bytes → Bytes → Bytes → Bytes
legacy_name first second name = if is_nil first && not (is_nil second) then name else []

-- The setting of a poll: a Boolean keeps the default or sets 0; a number that is not negative is taken.
unfoldable pub read_poll : Dict Bytes → Bytes → ℤ → ℤ
read_poll vars name def = elim (read_bool_override vars name) [
  | some true ↦ def
  | some false ↦ ℤ.pos 0
  | none ↦ Read.read_natural (env vars name) def
]

unfoldable pub load_channels : Dict Bytes → List Bytes
load_channels vars =
    let channels = split_list (get_or (codes "GNASTY_TWITCH_CHANNELS") vars []) in
    let legacy = env vars (codes "TWITCH_CHANNEL") in
    if is_nil channels && not (is_nil legacy) then legacy ∷ [] else channels

unfoldable pub load_twitch : Dict Bytes → TwitchConfig
unfolding legacy_name or_text load_channels
load_twitch vars =
    let channels = dedupe (load_channels vars) in
    let token = env vars (codes "GNASTY_TWITCH_TOKEN") in
    let old_token = env vars (codes "TWITCH_TOKEN") in
    let client = env vars (codes "GNASTY_TWITCH_CLIENT_ID") in
    let old_client = env vars (codes "TWITCH_CLIENT_ID") in
    let tls = read_bool vars (codes "GNASTY_TWITCH_TLS") true in
    record {
      enabled = read_bool vars (codes "GNASTY_TWITCH_ENABLED") false || not (is_nil channels);
      channels = channels;
      nick = env_or vars (codes "GNASTY_TWITCH_NICK") (codes "TWITCH_NICK");
      token = or_text token old_token;
      token_file = env_or vars (codes "GNASTY_TWITCH_TOKEN_FILE") (codes "TWITCH_TOKEN_FILE");
      client_id = or_text client old_client;
      client_secret =
          env_or vars (codes "GNASTY_TWITCH_CLIENT_SECRET") (codes "TWITCH_CLIENT_SECRET");
      refresh_token =
          env_or vars (codes "GNASTY_TWITCH_REFRESH_TOKEN") (codes "TWITCH_REFRESH_TOKEN");
      refresh_token_file =
          env_or vars (codes "GNASTY_TWITCH_REFRESH_TOKEN_FILE")
            (codes "TWITCH_REFRESH_TOKEN_FILE");
      tls =
          if is_some (lookup (codes "GNASTY_TWITCH_TLS") vars)
          then tls
          else read_bool vars (codes "TWITCH_TLS") tls;
      legacy_channel_env =
          if is_nil (split_list (get_or (codes "GNASTY_TWITCH_CHANNELS") vars []))
            && not (is_nil (env vars (codes "TWITCH_CHANNEL")))
          then codes "TWITCH_CHANNEL"
          else [];
      legacy_token_env = legacy_name token old_token (codes "TWITCH_TOKEN");
      legacy_client_id_env = legacy_name client old_client (codes "TWITCH_CLIENT_ID");
    }

unfoldable pub load_youtube : Dict Bytes → YoutubeConfig
load_youtube vars =
    let url = env_or vars (codes "GNASTY_YT_URL") (codes "YOUTUBE_URL") in
    record {
      enabled = not (is_nil url);
      live_url = url;
      retry_seconds = read_int vars (codes "GNASTY_YT_RETRY_SECS") (ℤ.pos 30);
      dump_unhandled = read_flag (read_bool_override vars (codes "GNASTY_YT_DUMP_UNHANDLED"));
      poll_timeout_secs = read_poll vars (codes "GNASTY_YT_POLL_TIMEOUT_SECS") (ℤ.pos 15);
      poll_interval_ms = read_poll vars (codes "GNASTY_YT_POLL_INTERVAL_MS") (ℤ.pos 10_000);
      debug = read_debug vars (codes "GNASTY_YT_DEBUG");
    }

unfoldable pub load : Dict Bytes → Config
unfolding or_text
load vars = record {
  sinks = split_list (
      or_text (env vars (codes "GNASTY_SINKS"))
        (or_text (env vars (codes "GNASTY_RECEIVERS")) (codes "sqlite")));
  sqlite_path = or_text (env vars (codes "GNASTY_SINK_SQLITE_PATH")) (codes "chat.db");
  batch_size = read_int vars (codes "GNASTY_SINK_BATCH_SIZE") (ℤ.pos 1);
  flush_max_ms = read_int vars (codes "GNASTY_SINK_FLUSH_MAX_MS") (ℤ.pos 0);
  twitch = load_twitch vars;
  youtube = load_youtube vars;
}

unfoldable pub has_sink : Config → Bytes → Bool
has_sink c name = Lists.member_folded name c.sinks

-- Nanoseconds.
unfoldable pub flush_interval : Config → ℤ
flush_interval c =
    if lez c.flush_max_ms (ℤ.pos 0) then ℤ.pos 0 else wrap64 (scale c.flush_max_ms 1_000_000)

unfoldable pub batch : Config → ℤ
batch c = if lez c.batch_size (ℤ.pos 0) then ℤ.pos 1 else c.batch_size
