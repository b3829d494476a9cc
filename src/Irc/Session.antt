-- ===== src/Irc/Session.antt =====
-- internal/twitchirc/client.go: runOnce after the connection is made, one read at a time. Times are
-- nanoseconds. What the clock, the connection and the context do is in the events.
pub mod Counts
use gnasty_chat.Prelude.{
  ℕ, ◌+◌, Bool, true, false, Option, none, some, List, [], ◌∷◌, ◌++◌, leb, ◌==◌, ◌||◌, ◌&&◌,
  if◌then◌else◌, is_nil, ℤ,
}
use gnasty_chat.Text.{
  Bytes, codes, beq, has_prefix, trim_prefix, contains, trim_right, trim_space, fields, to_lower,
}
use gnasty_chat.Message.{ChatMessage, unix_nano}
use gnasty_chat.Trace.{MessageTrace}
use gnasty_chat.Irc.Line.{
  Env, ok, dropped, DropReason, Parsed, parse_privmsg, tags_no_space, missing_prefix,
  prefix_no_space, not_privmsg, channel_no_space, channel_mismatch, missing_text,
}
use gnasty_chat.Irc.Drops.{DropLogger, LogLine, new_drop_logger, drop_summary_interval, flush, note}

abbrev pub tick : ℕ
tick = 10_000_000_000

abbrev pub ping_interval : ℕ
ping_interval = 240_000_000_000

unfoldable pub auth_failure : Bytes → Bool
auth_failure line =
    let lower = to_lower line in
    contains lower (codes "login authentication failed")
    || contains lower (codes "improperly formatted auth")
    || contains lower (codes "authentication failed")

-- The token that is sent: the provider's, unless it is blank, else the one of the configuration.
unfoldable pub choose_token : Bytes → Option Bytes → Bytes
choose_token configured none = trim_space configured
choose_token configured (some provided) =
    if is_nil (trim_space provided) then trim_space configured else trim_space provided

-- The lines of the handshake, in order.
unfoldable pub handshake : Bytes → Bytes → Bytes → List Bytes
handshake token nick channel =
    (codes "PASS " ++ token)
    ∷ (codes "NICK " ++ nick)
    ∷ codes "CAP REQ :twitch.tv/tags twitch.tv/commands twitch.tv/membership"
    ∷ (codes "JOIN #" ++ channel)
    ∷ []

pub record Session : Type 0 where
  pub total : ℕ
  pub window : ℕ
  pub next_tick : ℕ
  pub next_ping : ℕ
  pub dropped : ℕ
  pub drops : DropLogger

unfoldable pub new_session : ℕ → Bool → Session
new_session now verbose = record {
  total = 0;
  window = 0;
  next_tick = now + tick;
  next_ping = now + ping_interval;
  dropped = 0;
  drops = new_drop_logger now verbose (ℤ.pos drop_summary_interval);
}

-- What a turn of the loop meets: a read that times out, or brings a line, with the time then and, for a
-- line, the time after; and whether a line that the turn sends goes out.
pub data Event : Type 0 where
  times_out : ℕ → Bool → Event
  reads : ℕ → ℕ → Bool → Bytes → Event
  read_fails deadline_fails cancels : Event

pub data Effect : Type 0 where
  sends : Bytes → Effect
  handles : ChatMessage → MessageTrace → Effect
  reports : ℕ → ℕ → Effect
  logs : List LogLine → Effect

pub data Failure : Type 0 where
  send_failed read_failed deadline_failed auth_failed reconnect_requested cancelled : Failure

pub data Outcome : Type 0 where
  continues : Session → List Effect → Outcome
  fails : Failure → List Effect → Outcome

-- `log.Printf("recv %d msgs (total %d)")` when the tick is due.
unfoldable pub report : ℕ → Session → Session × List Effect
report now s =
    if leb s.next_tick now
    then (record s { window = 0; next_tick = now + tick }, reports s.window s.total ∷ [])
    else (s, [])

reported : Session × List Effect → List Effect → Outcome
reported (s, es) before = continues s (before ++ es)

unfoldable pub on_timeout : ℕ → Bool → Session → Outcome
unfolding reported
on_timeout now sent s =
    if leb s.next_ping now
    then (if sent
        then reported (report now (record s { next_ping = now + ping_interval }))
            (sends (codes "PING :keepalive") ∷ [])
        else fails send_failed [])
    else reported (report now s) []

unfoldable pub reason_name : DropReason → Bytes
reason_name tags_no_space = codes "tags_no_space"
reason_name missing_prefix = codes "missing_prefix"
reason_name prefix_no_space = codes "prefix_no_space"
reason_name not_privmsg = codes "not_privmsg"
reason_name channel_no_space = codes "channel_no_space"
reason_name channel_mismatch = codes "channel_mismatch"
reason_name missing_text = codes "missing_text"

unfoldable pub is_reconnect : List Bytes → Bool
is_reconnect (a ∷ b ∷ rest) = beq a (codes ":tmi.twitch.tv") && beq b (codes "RECONNECT")
is_reconnect (a ∷ []) = false
is_reconnect [] = false

unfoldable pub trim_line : Bytes → Bytes
trim_line line = trim_right (λ c. c == 13 || c == 10) line

-- The end of the turn: what the parser says of the line.
unfoldable pub on_parsed :
    ℕ → Bytes → Parsed (ChatMessage × MessageTrace) → Session → List Effect → Outcome
on_parsed now line (ok (msg, trace)) s before =
    continues (record s { total = s.total + 1; window = s.window + 1 })
      (before ++ handles msg trace ∷ [])
on_parsed now line (dropped reason) s before =
    let (lines, drops) = note now (reason_name reason) line s.drops in
    continues (record s { dropped = s.dropped + 1; drops = drops }) (before ++ logs lines ∷ [])

-- The turn on a line, after the report.
unfoldable pub on_line : Env → Bytes → ℕ → ℕ → Bool → Bytes → Session → List Effect → Outcome
on_line env channel now later sent line s before =
    if is_nil line
    then continues s before
    else if auth_failure line
    then fails auth_failed before
    else if has_prefix (codes "PING ") line
    then (if sent
        then continues (record s { next_ping = later + ping_interval })
            (before ++ sends (codes "PONG " ++ trim_prefix (codes "PING ") line) ∷ [])
        else fails send_failed before)
    else if is_reconnect (fields line)
    then fails reconnect_requested before
    else on_parsed now line
        (parse_privmsg (record env { now = unix_nano (ℤ.pos later) }) line channel) s before

unfoldable pub step : Env → Bytes → Session → Event → Outcome
step env channel s (times_out now sent) = on_timeout now sent s
step env channel s (reads now later sent raw) =
    let (s', es) = report now s in
    on_line env channel now later sent (trim_line raw)
      (record s' { next_ping = now + ping_interval }) es
step env channel s read_fails = fails read_failed []
step env channel s deadline_fails = fails deadline_failed []
step env channel s cancels = fails cancelled []

-- The loop, with the effects so far. The deferred `flush` gets the time at which the session began.
unfoldable pub loop : Env → Bytes → ℕ → List Event → Session → List Effect → Outcome
loop env channel start [] s done = continues s done
loop env channel start (e ∷ es) s done = elim (step env channel s e) [
  | continues s' more ↦ loop env channel start es s' (done ++ more)
  | fails f more ↦ fails f (done ++ (more ++ logs (flush start s.drops).0 ∷ []))
]
