-- ===== src/Irc/Drops.antt =====
-- internal/twitchirc/drop_logging.go: the summaries of the lines that are dropped. Times are
-- nanoseconds; what is logged is returned.
pub mod Summary
pub mod Sanitize
pub mod Counts
use gnasty_chat.Prelude.{
  ℕ, ◌+◌, ◌≤◌, Bool, true, false, Option, none, some, List, [], ◌∷◌, ◌++◌, leb, ltb, ◌==◌,
  if◌then◌else◌, is_nil, ℤ, positive_or,
}
use gnasty_chat.Text.{Bytes, codes, join, beq, is_some}
use gnasty_chat.Text.Decimal.{itoa}
use gnasty_chat.Text.Order.{sort_strings}
use gnasty_chat.Dict.{Dict, lookup, get_or, insert, keys}
use Summary.{IrcSummary, summarize_irc}

pub record DropReasonSummary : Type 0 where
  pub total : ℕ
  pub by_command : Dict ℕ
  pub sample_by_cmd : Dict Bytes
  pub channel_by_cmd : Dict Bytes

pub record DropLogger : Type 0 where
  pub verbose : Bool
  pub interval : ℕ
  pub next_emit : ℕ
  pub reasons : Dict DropReasonSummary

-- A line of the log: one dropped message, or the summary of a reason.
pub data LogLine : Type 0 where
  debug : Bytes → IrcSummary → LogLine
  info : Bytes → ℕ → Bytes → Bytes → LogLine

abbrev pub drop_summary_interval : ℕ
drop_summary_interval = 5_000_000_000

unfoldable pub new_drop_logger : ℕ → Bool → ℤ → DropLogger
new_drop_logger now verbose interval = record {
  verbose = verbose;
  interval = positive_or drop_summary_interval interval;
  next_emit = now + positive_or drop_summary_interval interval;
  reasons = [];
}

abbrev pub no_drops : DropReasonSummary
no_drops = record { total = 0; by_command = []; sample_by_cmd = []; channel_by_cmd = [] }

-- `if _, ok := m[k]; !ok { m[k] = v }`
unfoldable pub insert_new : Bytes → Bytes → Dict Bytes → Dict Bytes
insert_new k v m = if is_some (lookup k m) then m else insert k v m

unfoldable pub count_drop : IrcSummary → DropReasonSummary → DropReasonSummary
count_drop s e = record {
  total = e.total + 1;
  by_command = insert s.command (get_or s.command e.by_command 0 + 1) e.by_command;
  sample_by_cmd = insert_new s.command s.sample e.sample_by_cmd;
  channel_by_cmd = insert_new s.command s.channel e.channel_by_cmd;
}

unfoldable pub log_reason_name : Bytes → Bytes
log_reason_name reason = if beq reason (codes "not_privmsg") then codes "non_privmsg" else reason

format_counts : List Bytes → Dict ℕ → List Bytes
format_counts [] counts = []
format_counts (cmd ∷ cmds) counts =
    (cmd ++ b':' ∷ itoa (get_or cmd counts 0)) ∷ format_counts cmds counts

braces : List Bytes → Bytes
braces parts = b'{' ∷ (join (32 ∷ []) parts ++ b'}' ∷ [])

unfoldable pub format_command_counts : Dict ℕ → Bytes
unfolding format_counts braces
format_command_counts counts =
    if is_nil counts then codes "{}" else braces (format_counts (sort_strings (keys counts)) counts)

format_sample : Bytes → Bytes → Bytes → Bytes
format_sample cmd channel sample =
    if is_nil channel
    then cmd ++ codes ":'" ++ sample ++ codes "'"
    else cmd ++ codes ":'" ++ channel ++ codes " " ++ sample ++ codes "'"

format_samples : List Bytes → Dict Bytes → Dict Bytes → List Bytes
format_samples [] samples channels = []
format_samples (cmd ∷ cmds) samples channels =
    format_sample cmd (get_or cmd channels []) (get_or cmd samples [])
    ∷ format_samples cmds samples channels

unfoldable pub format_command_samples : Dict Bytes → Dict Bytes → Bytes
unfolding format_samples format_sample braces
format_command_samples samples channels =
    if is_nil samples
    then codes "{}"
    else braces (format_samples (sort_strings (keys samples)) samples channels)

summary_line : Bytes → DropReasonSummary → List LogLine
summary_line reason rs =
    if rs.total == 0
    then []
    else info (codes "twitchirc: dropped_" ++ log_reason_name reason) rs.total
        (format_command_counts rs.by_command)
        (format_command_samples rs.sample_by_cmd rs.channel_by_cmd)
      ∷ []

-- The loop of `flush` over the sorted reasons.
unfoldable pub summary_lines : List Bytes → Dict DropReasonSummary → List LogLine
unfolding summary_line
summary_lines [] m = []
summary_lines (reason ∷ rs) m =
    (elim (lookup reason m) [ none ↦ [] | some e ↦ summary_line reason e ]) ++ summary_lines rs m

unfoldable pub flush : ℕ → DropLogger → List LogLine × DropLogger
flush now d = if is_nil d.reasons then ([], record d { next_emit = now + d.interval }) else (
  summary_lines (sort_strings (keys d.reasons)) d.reasons,
  record d { next_emit = now + d.interval; reasons = [] },
)

pub add_drop : Bytes → IrcSummary → DropLogger → DropLogger
add_drop reason s d = record d {
  reasons = insert reason (count_drop s (get_or reason d.reasons no_drops)) d.reasons;
}

unfoldable pub note : ℕ → Bytes → Bytes → DropLogger → List LogLine × DropLogger
note now reason raw_line d =
    let s = summarize_irc raw_line in
    let first = if d.verbose then debug reason s ∷ [] else [] in
    let d' = add_drop reason s d in
    if leb d'.next_emit now then (first ++ (flush now d').0, (flush now d').1) else (first, d')
