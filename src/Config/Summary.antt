-- ===== src/Config/Summary.antt =====
-- internal/config/config.go: what the program shows of its configuration, and that it shows no secret.
use gnasty_chat.Prelude.{
  ℕ, Bool, ◌&&◌, ◌||◌, not, List, [], ◌∷◌, ◌++◌, ◌≡◌, refl, arith, if◌then◌else◌, is_nil, length, ℤ,
}
use gnasty_chat.Text.{Bytes, codes, trim_space}
use gnasty_chat.Text.Decimal.{itoa}
use gnasty_chat.Config.{Config, TwitchConfig, YoutubeConfig}

unfoldable pub redact_string : Bytes → Bytes
redact_string value =
    if is_nil (trim_space value)
    then []
    else codes "***REDACTED*** (len=" ++ (itoa (length value) ++ codes ")")

pub record TwitchSummary : Type 0 where
  pub enabled : Bool
  pub channels : ℕ
  pub nick : Bytes
  pub token : Bytes
  pub token_file : Bytes
  pub client_id : Bytes
  pub client_secret : Bytes
  pub refresh_token : Bytes
  pub refresh_token_file : Bytes
  pub refresh_enabled : Bool

pub record YoutubeSummary : Type 0 where
  pub enabled : Bool
  pub channels : ℕ
  pub live_url : Bytes
  pub retry_seconds : ℤ
  pub dump_unhandled : Bool
  pub poll_timeout_secs : ℤ
  pub poll_interval_ms : ℤ
  pub debug : Bool

pub record Summary : Type 0 where
  pub sinks : List Bytes
  pub sqlite_path : Bytes
  pub batch_size : ℤ
  pub flush_max_ms : ℤ
  pub twitch : TwitchSummary
  pub youtube : YoutubeSummary

unfoldable pub refresh_enabled : TwitchConfig → Bool
refresh_enabled t =
    not (is_nil t.client_id)
    && not (is_nil t.client_secret)
    && (not (is_nil t.refresh_token) || not (is_nil t.refresh_token_file))

unfoldable pub summarize_twitch : TwitchConfig → TwitchSummary
unfolding refresh_enabled
summarize_twitch t = record {
  enabled = t.enabled;
  channels = length t.channels;
  nick = t.nick;
  token = redact_string t.token;
  token_file = t.token_file;
  client_id = redact_string t.client_id;
  client_secret = redact_string t.client_secret;
  refresh_token = redact_string t.refresh_token;
  refresh_token_file = t.refresh_token_file;
  refresh_enabled = refresh_enabled t;
}

unfoldable pub summarize_youtube : YoutubeConfig → YoutubeSummary
summarize_youtube y = record {
  enabled = y.enabled;
  channels = if is_nil y.live_url then 0 else 1;
  live_url = y.live_url;
  retry_seconds = y.retry_seconds;
  dump_unhandled = y.dump_unhandled;
  poll_timeout_secs = y.poll_timeout_secs;
  poll_interval_ms = y.poll_interval_ms;
  debug = y.debug;
}

-- `Config.Summary`
unfoldable pub summary : Config → Summary
unfolding summarize_twitch summarize_youtube
summary c = record {
  sinks = c.sinks;
  sqlite_path = c.sqlite_path;
  batch_size = c.batch_size;
  flush_max_ms = c.flush_max_ms;
  twitch = summarize_twitch c.twitch;
  youtube = summarize_youtube c.youtube;
}

-- Two secrets of one length, both blank or neither.
pub record SameShape (a b : Bytes) : Type 0 where
  pub same_length : length a ≡ length b
  pub same_blank : is_nil (trim_space a) ≡ is_nil (trim_space b)

pub record Secrets : Type 0 where
  pub token : Bytes
  pub client_id : Bytes
  pub client_secret : Bytes
  pub refresh_token : Bytes

pub record SameShapes (a b : Secrets) : Type 0 where
  pub token : SameShape a.token b.token
  pub client_id : SameShape a.client_id b.client_id
  pub client_secret : SameShape a.client_secret b.client_secret
  pub refresh_token : SameShape a.refresh_token b.refresh_token

pub with_secrets : Secrets → Config → Config
with_secrets s c = record c {
  twitch = record (c.twitch) {
    token = s.token;
    client_id = s.client_id;
    client_secret = s.client_secret;
    refresh_token = s.refresh_token;
  };
}

redact_string-SameShape : (a b : Bytes) → SameShape a b → redact_string a ≡ redact_string b
unfolding redact_string
redact_string-SameShape a b h = rw (h.same_length, h.same_blank) refl

is_nil-length : (a b : Bytes) → length a ≡ length b → is_nil a ≡ is_nil b
is_nil-length [] [] h = refl
is_nil-length [] (d ∷ b) h = absurd (omega arith)
is_nil-length (c ∷ a) [] h = absurd (omega arith)
is_nil-length (c ∷ a) (d ∷ b) h = refl

-- The summary that the program logs is the same for any secrets of one length, both blank or
-- neither: of the token, the client id, the client secret and the refresh token it shows nothing
-- but the length, and whether it is blank.
pub summary_hides :
    (c : Config) (a b : Secrets)
    → SameShapes a b
    → summary (with_secrets a c) ≡ summary (with_secrets b c)
unfolding summary with_secrets
summary_hides c a b h =
    rw
      (
        redact_string-SameShape a.token b.token h.token,
        redact_string-SameShape a.client_id b.client_id h.client_id,
        redact_string-SameShape a.client_secret b.client_secret h.client_secret,
        redact_string-SameShape a.refresh_token b.refresh_token h.refresh_token,
        is_nil-length a.client_id b.client_id h.client_id.same_length,
        is_nil-length a.client_secret b.client_secret h.client_secret.same_length,
        is_nil-length a.refresh_token b.refresh_token h.refresh_token.same_length,
      )
      refl
