-- ===== src/Sink/Retry.antt =====
-- internal/sink/sqlite.go: withRetry. What it calls changes a state, and returns an error's text or none.
pub mod Attempts
use gnasty_chat.Prelude.{
  ℕ, zero, suc, ◌+◌, ◌*◌, Bool, true, false, Option, none, some, List, [], ◌∷◌, if◌then◌else◌,
}
use gnasty_chat.Text.{Bytes, codes, contains}

abbrev pub max_attempts : ℕ
max_attempts = 5

abbrev pub exhausted : Bytes
exhausted = codes "exhausted retries (SQLITE_BUSY)"

unfoldable pub is_busy : Bytes → Bool
is_busy error = contains error (codes "SQLITE_BUSY")

-- What is returned, how often the function was called, the waits in nanoseconds, and the state.
pub record Tried (S : Type 0) : Type 0 where
  pub error : Option Bytes
  pub calls : ℕ
  pub waits : List ℕ
  pub state : S

module _ {S : Type 0} where
  unfoldable pub wait_for : ℕ → Tried S → Tried S
  wait_for d t = record t { calls = suc t.calls; waits = d ∷ t.waits }

  -- The end of an attempt: another one only if the database is busy.
  unfoldable pub after_attempt : Option Bytes → S → ℕ → Tried S → Tried S
  after_attempt none s i more = record { error = none; calls = 1; waits = []; state = s }
  after_attempt (some error) s i more =
      if is_busy error
      then wait_for (100 * (i + 1) * 1_000_000) more
      else record { error = some error; calls = 1; waits = []; state = s }

  -- The loop from attempt i on, with so many left.
  unfoldable pub try_from : (S → Option Bytes × S) → ℕ → ℕ → S → Tried S
  try_from fn zero i s = record { error = some exhausted; calls = 0; waits = []; state = s }
  try_from fn (suc left) i s =
      let (error, s') = fn s in after_attempt error s' i (try_from fn left (i + 1) s')

  unfoldable pub with_retry : (S → Option Bytes × S) → S → Tried S
  with_retry fn s = try_from fn max_attempts 0 s
