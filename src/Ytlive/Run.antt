-- ===== src/Ytlive/Run.antt =====
-- internal/ytlive/client.go: the client, and the rounds of its loop. A round takes from outside whether
-- the context is done, the two answers over HTTP, the clock, and whether a wait ends in time.
pub mod Waits
pub mod Recovery
use gnasty_chat.Prelude.{
  ℕ, zero, suc, Bool, true, false, ◌||◌, Option, none, some, List, [], ◌∷◌, ◌++◌, ◌==◌,
  if◌then◌else◌, is_nil, take, map, ℤ, scale, wrap64, is_positive, ltz,
}
use gnasty_chat.Backoff.{second, grow}
use gnasty_chat.Text.{Bytes, trim_space}
use gnasty_chat.Json.{Fields}
use gnasty_chat.Message.{ChatMessage}
use gnasty_chat.Ytlive.Messages.Badges.{Pattern}
use gnasty_chat.Ytlive.Messages.{extract_messages}
use gnasty_chat.Ytlive.Page.{Answer, unanswered, answered, Boot, boot_failed, booted, bootstrap}
use gnasty_chat.Ytlive.Poll.{
  Found, extract_continuation, next_live_poll_delay, default_live_poll_delay, sleep_time,
}

pub record Config : Type 0 where
  pub live_url : Bytes
  pub poll_timeout_secs : ℤ
  pub poll_interval_ms : ℤ

-- The client's limit on a request, zero for none; the products are int64.
unfoldable pub poll_timeout : Config → ℤ
poll_timeout cfg =
    if is_positive cfg.poll_timeout_secs
    then wrap64 (scale cfg.poll_timeout_secs 1_000_000_000)
    else if ltz cfg.poll_timeout_secs (ℤ.pos 0)
    then ℤ.pos 0
    else ℤ.pos 20_000_000_000

unfoldable pub poll_delay_of : Config → ℤ
poll_delay_of cfg =
    if is_positive cfg.poll_interval_ms
    then wrap64 (scale cfg.poll_interval_ms 1_000_000)
    else default_live_poll_delay

pub record State : Type 0 where
  pub api_key : Bytes
  pub client_version : Bytes
  pub continuation : Bytes
  pub backoff : ℕ
  pub poll_delay : ℤ

unfoldable pub start : Config → State
start cfg = record {
  api_key = [];
  client_version = [];
  continuation = [];
  backoff = second;
  poll_delay = poll_delay_of cfg;
}

-- What a poll returns: an error, or messages, the next continuation, and a time-out if it has one.
pub data Polled : Type 0 where
  poll_failed : Polled
  polled : List ChatMessage → Bytes → ℤ → Bool → Polled

pub record Round : Type 0 where
  pub done : Bool
  pub page : Answer
  pub answer : Answer
  pub now : ℤ
  pub awake : Bool

pub data Effect : Type 0 where
  boots : Effect
  polls : Bytes → Bytes → Bytes → Effect
  handles : ChatMessage → Effect
  sleeps : ℕ → Effect

-- What a round did, and whether the loop returns or goes on.
pub data Outcome : Type 0 where
  returns : List Effect → Outcome
  loops : List Effect → State → Outcome

unfoldable pub forget : State → State
forget s = record s { api_key = []; client_version = []; continuation = [] }

unfoldable pub needs_boot : State → Bool
needs_boot s = is_nil s.api_key || (is_nil s.client_version || is_nil s.continuation)

-- The state after a poll that succeeded: without a continuation the loop starts again.
unfoldable pub next_continuation : Bytes → State → State
next_continuation [] s = forget s
next_continuation (c ∷ cs) s = record s { continuation = c ∷ cs }

-- A wait that is cut short ends the loop.
unfoldable pub after_wait : Bool → List Effect → State → Outcome
after_wait true fx s = loops fx s
after_wait false fx s = returns fx

-- A round, and what comes after it if the loop goes on.
unfoldable pub proceed : Outcome → (State → List Effect) → List Effect
proceed (returns fx) rest = fx
proceed (loops fx s) rest = fx ++ rest s

abbrev pub answer_limit : ℕ
answer_limit = 4_194_304

module _ (unmarshal : Bytes → Option Fields) (patterns : List Pattern) where
  unfoldable pub read_payload : ℤ → Fields → Polled
  read_payload now payload =
      let found = extract_continuation payload in
      let r = extract_messages patterns now payload in
      polled r.0.messages found.cont found.timeout found.has_timeout

  unfoldable pub decode_answer : ℤ → Bytes → Polled
  decode_answer now body = elim (unmarshal body) [
    | none ↦ poll_failed
    | some payload ↦ read_payload now payload
  ]

  unfoldable pub poll : ℤ → Answer → Polled
  poll now unanswered = poll_failed
  poll now (answered status body) =
      if status == 200 then decode_answer now (take answer_limit body) else poll_failed

  -- The rest of a round once the poll has returned; `fx` came before.
  unfoldable pub after_poll : Bool → List Effect → State → Polled → Outcome
  after_poll awake fx s poll_failed =
      after_wait awake (fx ++ sleeps (sleep_time (ℤ.pos s.backoff)) ∷ [])
        (forget (record s { backoff = grow s.backoff }))
  after_poll awake fx s (polled messages next timeout_ms has_timeout) =
      let (delay, from_continuation) = next_live_poll_delay timeout_ms has_timeout s.poll_delay in
      let s' : State = record s {
        poll_delay = if from_continuation then s.poll_delay else delay;
      } in
      after_wait awake (fx ++ (map handles messages ++ sleeps (sleep_time delay) ∷ []))
        (next_continuation next s')

  unfoldable pub poll_round : Round → List Effect → State → Outcome
  poll_round r fx s =
      after_poll r.awake (fx ++ polls s.api_key s.client_version s.continuation ∷ []) s
        (poll r.now r.answer)

  unfoldable pub boot_round : Round → State → Boot → Outcome
  boot_round r s (boot_failed why) =
      loops (boots ∷ sleeps (sleep_time (ℤ.pos s.backoff)) ∷ [])
        (forget (record s { backoff = if r.awake then grow s.backoff else s.backoff }))
  boot_round r s (booted key version continuation) = poll_round r (boots ∷ []) (record s {
    api_key = key;
    client_version = version;
    continuation = continuation;
    backoff = second;
  })

  unfoldable pub round : Round → State → Outcome
  round r s =
      if r.done
      then returns []
      else if needs_boot s
      then boot_round r s (bootstrap unmarshal r.page)
      else poll_round r [] s

  -- What the loop does in so many rounds.
  unfoldable pub run : List Round → State → List Effect
  run [] s = []
  run (r ∷ rs) s = proceed (round r s) (run rs)

  -- Run: nothing is done, and an error returned, if there is no URL or `valid` refuses it.
  unfoldable pub run_client : (Bytes → Bool) → Config → List Round → Option (List Effect)
  run_client valid cfg rs =
      let live_url = trim_space cfg.live_url in
      if is_nil live_url then none else if valid live_url then some (run rs (start cfg)) else none
