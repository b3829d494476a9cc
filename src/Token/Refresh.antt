-- ===== src/Token/Refresh.antt =====
-- internal/twitch/oauth.go: a token is asked for with the refresh token and written to its file, and is
-- asked for again before it expires. The answers of Twitch, the faults of the file and the product
-- `float64(exp) * 0.85` are parameters.
pub mod Written
pub mod Paced
use gnasty_chat.Prelude.{
  ℕ, Bool, true, false, ◌||◌, not, take, Option, none, some, List, [], ◌∷◌, ◌++◌, ◌==◌,
  if◌then◌else◌, is_nil, ℤ, lez, ltz, pos_part, scale, wrap64,
}
use gnasty_chat.Text.{Bytes, codes, trim_space}
use gnasty_chat.Text.Decimal.{itoa}
use gnasty_chat.Backoff.{second, minute, grow}
use gnasty_chat.Token.{normalize_token}

pub record Manager : Type 0 where
  pub client_id : Bytes
  pub client_secret : Bytes
  pub refresh_token : Bytes
  pub token_file : Bytes
  pub last_expires : ℤ

unfoldable pub set_refresh_token : Bytes → Manager → Manager
set_refresh_token token m = record m { refresh_token = trim_space token }

pub record Response : Type 0 where
  pub access_token : Bytes
  pub expires_in : ℤ
  pub message : Bytes
  pub error : Bytes
  pub error_desc : Bytes

-- No request or no answer, one whose body cannot be read, or the status and the body.
pub data Reply : Type 0 where
  no_reply no_body : Reply
  replied : ℕ → Bytes → Reply

-- What goes wrong with the file: nothing, or its opening, its mode, its writing after so many bytes, or
-- its synchronization.
pub data Fault : Type 0 where
  no_fault at_open at_chmod at_sync : Fault
  at_write : Bytes → Fault

pub data RefreshError : Type 0 where
  no_credentials no_token_file unanswered unread undecoded no_token : RefreshError
  refused : Bytes → RefreshError
  not_written : RefreshError

unfoldable pub write_open : Bytes → Fault → Option Bytes → Bool × Option Bytes
write_open token no_fault file = (true, some (token ++ 10 ∷ []))
write_open token at_open file = (false, file)
write_open token at_chmod file = (false, some [])
write_open token at_sync file = (false, some (token ++ 10 ∷ []))
write_open token (at_write part) file = (false, some part)

-- Whether the token was written, and what the file holds, if there is one.
unfoldable pub write_token_file : Bytes → Bytes → Fault → Option Bytes → Bool × Option Bytes
write_token_file path token fault file =
    if is_nil (trim_space path) then (false, file) else write_open token fault file

pub data Refreshed : Type 0 where
  failed : RefreshError → Refreshed
  refreshed : Bytes → ℤ → Refreshed

-- The result, the manager and the file.
abbrev pub Outcome : Type 0
Outcome = Refreshed × Manager × Option Bytes

unfoldable pub reason : ℕ → Response → Bytes
reason status r =
    if not (is_nil (trim_space r.message))
    then trim_space r.message
    else if not (is_nil (trim_space r.error_desc))
    then trim_space r.error_desc
    else if not (is_nil (trim_space r.error))
    then trim_space r.error
    else codes "unexpected status " ++ itoa status

unfoldable pub expires_of : ℤ → ℤ
expires_of n = if lez n (ℤ.pos 0) then ℤ.pos 3_600_000_000_000 else wrap64 (scale n second)

unfoldable pub after_write : Bytes → ℤ → Manager → Bool × Option Bytes → Outcome
after_write token expires m (true, file) =
    (refreshed token expires, record m { last_expires = expires }, file)
after_write token expires m (false, file) = (failed not_written, m, file)

unfoldable pub keep : Fault → Bytes → ℤ → Manager → Option Bytes → Outcome
keep fault token expires m file =
    if is_nil token
    then (failed no_token, m, file)
    else after_write token expires m
        (write_token_file (trim_space m.token_file) (normalize_token token) fault file)

unfoldable pub on_response : Fault → ℕ → Response → Manager → Option Bytes → Outcome
on_response fault status r m file =
    if status == 200
    then keep fault (trim_space r.access_token) (expires_of r.expires_in) m file
    else (failed (refused (reason status r)), m, file)

-- The limit of a body: 64 KiB.
abbrev pub max_reply : ℕ
max_reply = 65536

-- `decode` is json.Unmarshal.
module _ (decode : Bytes → Option Response) where
  unfoldable pub on_reply : Fault → Reply → Manager → Option Bytes → Outcome
  on_reply fault no_reply m file = (failed unanswered, m, file)
  on_reply fault no_body m file = (failed unread, m, file)
  on_reply fault (replied status body) m file = elim (decode (take max_reply body)) [
    | none ↦ (failed undecoded, m, file)
    | some r ↦ on_response fault status r m file
  ]

  unfoldable pub refresh :
      (Bytes → Bytes → Bytes → Reply) → Fault → Manager → Option Bytes → Outcome
  refresh ask fault m file =
      let client_id = trim_space m.client_id in
      let client_secret = trim_space m.client_secret in
      let refresh_token = trim_space m.refresh_token in
      if is_nil client_id || (is_nil client_secret || is_nil refresh_token)
      then (failed no_credentials, m, file)
      else if is_nil (trim_space m.token_file)
      then (failed no_token_file, m, file)
      else on_reply fault (ask client_id client_secret refresh_token) m file

-- The timer fires, with whether the context is done after a failure; a new refresh token comes in; or
-- the context is done.
pub data Event : Type 0 where
  ticks : (Bytes → Bytes → Bytes → Reply) → Fault → Bool → Event
  sets : Bytes → Event
  cancelled : Event

pub data Effect : Type 0 where
  waits : ℕ → Effect
  updates : Bytes → Effect

module _ (decode : Bytes → Option Response) (times_85 : ℤ → ℤ) where
  unfoldable pub interval_from : ℤ → ℕ
  interval_from exp =
      let product = times_85 exp in
      if lez exp (ℤ.pos 0)
      then minute
      else if lez product (ℤ.pos 0)
      then minute
      else if ltz product (ℤ.pos minute)
      then minute
      else pos_part product

  unfoldable pub first_wait : Manager → ℕ
  first_wait m = if lez m.last_expires (ℤ.pos 0) then minute else interval_from m.last_expires

  -- After a refresh: the loop ends, or goes on with a delay for the next failure.
  unfoldable pub settle : Refreshed → Bool → ℕ → (ℕ → List Effect) → List Effect
  settle (failed e) true backoff more = []
  settle (failed e) false backoff more = waits backoff ∷ more (grow backoff)
  settle (refreshed token expires) done backoff more =
      updates (normalize_token token) ∷ waits (interval_from expires) ∷ more second

  unfoldable pub auto : Manager → Option Bytes → ℕ → List Event → List Effect
  auto m file backoff [] = []
  auto m file backoff (cancelled ∷ events) = []
  auto m file backoff (sets token ∷ events) = auto (set_refresh_token token m) file backoff events
  auto m file backoff (ticks ask fault done ∷ events) =
      let (result, m', file') = refresh decode ask fault m file in
      settle result done backoff (λ backoff'. auto m' file' backoff' events)

  unfoldable pub start_auto : Manager → Option Bytes → List Event → List Effect
  start_auto m file events = waits (first_wait m) ∷ auto m file second events
