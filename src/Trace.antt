-- ===== src/Trace.antt =====
-- internal/ingesttrace/trace.go: the trace that goes with a message, and its counters by stage. The
-- hash that names a trace (SHA-256 in hexadecimal) is a parameter.
use gnasty_chat.Prelude.{ℕ, ◌+◌, [], ◌∷◌, ◌++◌}
use gnasty_chat.Text.{Bytes, codes}
use gnasty_chat.Dict.{Dict, get_or, insert}

pub record MessageTrace : Type 0 where
  pub platform : Bytes
  pub channel : Bytes
  pub user : Bytes
  pub snippet : Bytes
  pub trace_id : Bytes
  pub counters : Dict ℕ

abbrev pub stage_seen_from_provider : Bytes
stage_seen_from_provider = codes "seen_from_provider"

abbrev pub stage_written_to_db : Bytes
stage_written_to_db = codes "written_to_db"

unfoldable pub compute_trace_id : (Bytes → Bytes) → Bytes → Bytes → Bytes → Bytes → Bytes
compute_trace_id digest platform channel user snippet =
    digest (platform ++ 31 ∷ (channel ++ 31 ∷ (user ++ 31 ∷ snippet)))

unfoldable pub new_trace : (Bytes → Bytes) → Bytes → Bytes → Bytes → Bytes → MessageTrace
new_trace digest platform channel user snippet = record {
  platform = platform;
  channel = channel;
  user = user;
  snippet = snippet;
  trace_id = compute_trace_id digest platform channel user snippet;
  counters = insert stage_seen_from_provider 1 [];
}

-- The counter goes up by one, and its new value is returned.
unfoldable pub inc_counter : Bytes → MessageTrace → ℕ × MessageTrace
inc_counter stage t = (
  get_or stage t.counters 0 + 1,
  record t { counters = insert stage (get_or stage t.counters 0 + 1) t.counters },
)
