-- ===== src/Sink/Tests/Rows.antt =====
-- A database that is busy twice, and a message that is written to it.
use gnasty_chat.Text.{trim_space, contains, Bytes, codes}
use gnasty_chat.Sink.Retry.{wait_for, is_busy, after_attempt, try_from, with_retry, max_attempts}
use gnasty_chat.Prelude.{
  ℕ, zero, suc, false, Option, none, some, [], ◌≡◌, ◌≤◌, refl, arith, ℤ, total,
}
use gnasty_chat.Message.{ChatMessage, zero_time}
use gnasty_chat.Sink.Retry.Attempts.{IsTried, with_retry-IsTried}
use gnasty_chat.Sink.Store.Badges.{Codec}
use gnasty_chat.Sink.Store.{
  Row, Conflict, Target, row_of, message_of_row, message_id, ts_ms, is_zero, write_and_broadcast,
}
use gnasty_chat.Sink.Store.Restore.{row_of-message_of_row}
use gnasty_chat.Sink.Store.Written.{IsSettled, write_and_broadcast-IsSettled}

busy_error : Bytes
busy_error = codes "database is locked (5) (SQLITE_BUSY)"

-- So many inserts find the database busy.
unfoldable answer : ℕ → Option Bytes × ℕ
answer zero = (none, zero)
answer (suc n) = (some busy_error, n)

with_retry-IsTried_example :
    IsTried answer max_attempts 2 (with_retry answer 2)
    × (total (λ d. d) (with_retry answer 2).waits ≤ 1_500_000_000)
with_retry-IsTried_example = with_retry-IsTried answer 2

retry_twice : (with_retry answer 2).calls ≡ 3
unfolding with_retry answer busy_error try_from after_attempt is_busy contains wait_for
retry_twice = refl

abbrev message : ChatMessage
message = record {
  id = codes "m1";
  platform_msg_id = [];
  ts = zero_time;
  timestamp_ms = ℤ.pos 1_700_000_000_000;
  username = codes " ann ";
  platform = codes "Twitch";
  text = codes "hi";
  emotes_json = [];
  emotes = none;
  raw_json = [];
  raw = none;
  badges_json = [];
  badges = [];
  badges_raw = [];
  colour = [];
}

abbrev codec : Codec
codec = record { payload = λ s. none; structured = λ s. none; legacy = λ s. none }

id_message : message_id message ≡ codes "m1"
unfolding message_id trim_space
id_message = refl

dated : is_zero (ts_ms (ℤ.pos 5) message) ≡ false
unfolding ts_ms
dated = refl

row_of-message_of_row_example :
    row_of (ℤ.pos 6) (message_of_row codec (ℤ.pos 1) (row_of (ℤ.pos 5) message))
    ≡ row_of (ℤ.pos 5) message
row_of-message_of_row_example =
    row_of-message_of_row codec (ℤ.pos 1) (ℤ.pos 5) (ℤ.pos 6) message (ground (arith, id_message))
      dated

exec : Conflict → Row → ℕ → Option Bytes × ℕ
exec conflict row n = answer n

abbrev target : Target ℕ
target = record { db = 2; trace = none }

write_and_broadcast-IsSettled_example :
    IsSettled exec
      (ℤ.pos 5)
      message
      (write_and_broadcast exec (ℤ.pos 5) message target none).0
      none
      none
      (write_and_broadcast exec (ℤ.pos 5) message target none).1.0.trace
      (write_and_broadcast exec (ℤ.pos 5) message target none).1.1
write_and_broadcast-IsSettled_example =
    write_and_broadcast-IsSettled exec (ℤ.pos 5) message target none
