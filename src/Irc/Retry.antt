-- ===== src/Irc/Retry.antt =====
-- internal/twitchirc/client.go: Run, which connects again after a session has ended and asks for a new
-- token after the server has refused the old one. The ends of the sessions, the answers to the
-- requests for a token and the state of the context are the environment's.
use gnasty_chat.Prelude.{
  ℕ, ◌≤◌, Bool, true, false, List, [], ◌∷◌, arith, if◌then◌else◌, is_nil, ◌||◌,
}
use gnasty_chat.Text.{Bytes, trim_space}
use gnasty_chat.Backoff.{second, minute, grow, grow_bounds}

-- How `runOnce` came back.
pub data Ended : Type 0 where
  cleanly auth_failed disconnected cancelled : Ended

-- How `RefreshNow` came back.
pub data Refreshed : Type 0 where
  renewed refused given_up : Refreshed

pub record Backoffs : Type 0 where
  pub backoff : ℕ
  pub refresh_backoff : ℕ

-- What `Run` does next: it returns, connects, or asks for a token, the latter two after a delay.
pub data Next : Type 0 where
  stop : Next
  connect : ℕ → Backoffs → Next
  refresh : ℕ → Backoffs → Next

abbrev pub fresh : Backoffs
fresh = record { backoff = second; refresh_backoff = second }

-- `Run` before its loop: the error for a missing channel or nick.
unfoldable pub run_start : Bytes → Bytes → Next
run_start channel nick =
    if is_nil (trim_space channel) || is_nil (trim_space nick) then stop else connect 0 fresh

-- The body of the outer loop after `runOnce`. A delay of 0 is none.
unfoldable pub after_session : Bool → Ended → Backoffs → Next
after_session has_refresh cleanly b = connect 0 fresh
after_session has_refresh cancelled b = stop
after_session has_refresh disconnected b = connect b.backoff (record b { backoff = grow b.backoff })
after_session false auth_failed b = connect b.backoff (record b { backoff = grow b.backoff })
after_session true auth_failed b = refresh 0 b

-- The body of the inner loop after `RefreshNow`.
unfoldable pub after_refresh : Refreshed → Backoffs → Next
after_refresh renewed b = connect 0 fresh
after_refresh given_up b = stop
after_refresh refused b =
    refresh b.refresh_backoff (record b { refresh_backoff = grow b.refresh_backoff })

pub record IsBounded (b : Backoffs) : Type 0 where
  pub backoff_low : second ≤ b.backoff
  pub backoff_high : b.backoff ≤ minute
  pub refresh_low : second ≤ b.refresh_backoff
  pub refresh_high : b.refresh_backoff ≤ minute

-- The next state is bounded, and its delay is none or from a second to a minute.
abbrev pub Allows : Next → Type 0
Allows stop = Unit
Allows (connect d b) = IsBounded b × (d ≤ minute)
Allows (refresh d b) = IsBounded b × (d ≤ minute)

after_session-Allows :
    (has_refresh : Bool) (e : Ended) (b : Backoffs)
    → IsBounded b
    → Allows (after_session has_refresh e b)
unfolding after_session
after_session-Allows has_refresh cleanly b v = omega arith
after_session-Allows has_refresh cancelled b v = tt
after_session-Allows has_refresh disconnected b v =
    ground (arith, grow_bounds b.backoff v.backoff_low v.backoff_high)
after_session-Allows false auth_failed b v =
    ground (arith, grow_bounds b.backoff v.backoff_low v.backoff_high)
after_session-Allows true auth_failed b v = (v, omega arith)

after_refresh-Allows : (r : Refreshed) (b : Backoffs) → IsBounded b → Allows (after_refresh r b)
unfolding after_refresh
after_refresh-Allows renewed b v = omega arith
after_refresh-Allows given_up b v = tt
after_refresh-Allows refused b v =
    ground (arith, grow_bounds b.refresh_backoff v.refresh_low v.refresh_high)

-- One round of `Run`: what the environment answers to what `Run` does.
pub data Answer : Type 0 where
  session : Ended → Answer
  token : Refreshed → Answer

unfoldable pub advance : Bool → Next → Answer → Next
unfolding after_session after_refresh
advance has_refresh (connect d b) (session e) = after_session has_refresh e b
advance has_refresh (refresh d b) (token r) = after_refresh r b
advance has_refresh n a = n

unfoldable pub run : Bool → Next → List Answer → Next
unfolding advance
run has_refresh n [] = n
run has_refresh n (a ∷ as') = run has_refresh (advance has_refresh n a) as'

advance-Allows :
    (has_refresh : Bool) (n : Next) (a : Answer) → Allows n → Allows (advance has_refresh n a)
unfolding advance
advance-Allows has_refresh stop a v = tt
advance-Allows has_refresh (connect d b) (session e) v = after_session-Allows has_refresh e b v.0
advance-Allows has_refresh (connect d b) (token r) v = v
advance-Allows has_refresh (refresh d b) (session e) v = v
advance-Allows has_refresh (refresh d b) (token r) v = after_refresh-Allows r b v.0

run_start-Allows : (channel nick : Bytes) → Allows (run_start channel nick)
unfolding run_start
run_start-Allows channel nick = ground arith

run-Allows_from :
    (has_refresh : Bool) (n : Next) (answers : List Answer)
    → Allows n
    → Allows (run has_refresh n answers)
unfolding run
run-Allows_from has_refresh n [] v = v
run-Allows_from has_refresh n (a ∷ as') v =
    run-Allows_from has_refresh (advance has_refresh n a) as' (advance-Allows has_refresh n a v)

-- Whatever the sessions and the requests for a token come to, `Run` waits at most a minute before
-- it connects or asks for a token again, and both of its delays stay from a second to a minute.
pub run-Allows :
    (has_refresh : Bool) (channel nick : Bytes) (answers : List Answer)
    → Allows (run has_refresh (run_start channel nick) answers)
run-Allows has_refresh channel nick answers =
    run-Allows_from has_refresh (run_start channel nick) answers (run_start-Allows channel nick)
