-- ===== src/Ytlive/Run/Waits.antt =====
-- internal/ytlive/client.go, Run: what holds before every round, and of all that the loop does.
use gnasty_chat.Prelude.{
  ◌≤◌, ◌<◌, Bool, true, false, Option, List, [], ◌∷◌, ◌≡◌, ◌≢◌, refl, arith, inl, inr, Bool-cases,
  Option-cases, is_nil, take, map, ℤ, All, All-append, ◌==◌,
}
use gnasty_chat.Backoff.{second, minute, grow_bounds}
use gnasty_chat.Text.{Bytes}
use gnasty_chat.Json.{Fields}
use gnasty_chat.Message.{ChatMessage}
use gnasty_chat.Ytlive.Messages.Badges.{Pattern}
use gnasty_chat.Ytlive.Messages.Counts.{IsSendable, extract_messages-IsCounted}
use gnasty_chat.Ytlive.Page.{Answer, unanswered, answered, Boot, boot_failed, booted, bootstrap}
use gnasty_chat.Ytlive.Page.Filled.{AllFilled, bootstrap-AllFilled}
use gnasty_chat.Ytlive.Poll.{next_live_poll_delay, sleep_time}
use gnasty_chat.Ytlive.Run.{
  Config, start, proceed, State, Round, Effect, boots, polls, handles, sleeps, Outcome, returns,
  loops, forget, needs_boot, next_continuation, after_wait, Polled, poll_failed, polled,
  read_payload, decode_answer, poll, after_poll, poll_round, boot_round, round, run, answer_limit,
}

-- The delay after a failure is from one second to a minute, and one second once there is something to
-- poll with.
pub record IsPaced (s : State) : Type 0 where
  pub low : second ≤ s.backoff
  pub high : s.backoff ≤ minute
  pub reset : needs_boot s ≡ false → s.backoff ≡ second

-- A poll has all it needs, a message can be passed on, and every wait takes time.
abbrev pub IsProper : Effect → Type 0
IsProper boots = Unit
IsProper (polls key version continuation) = (key ≢ []) × (version ≢ []) × (continuation ≢ [])
IsProper (handles m) = IsSendable m
IsProper (sleeps d) = 0 < d

abbrev IsGood : Outcome → Type 0
IsGood (returns fx) = All IsProper fx
IsGood (loops fx s) = All IsProper fx × IsPaced s

forget-IsPaced : (s : State) → second ≤ s.backoff → s.backoff ≤ minute → IsPaced (forget s)
unfolding forget needs_boot
forget-IsPaced s lo hi = record { low = lo; high = hi; reset = λ e. ground (arith, e) }

next_continuation-IsPaced :
    (next : Bytes) (s : State) → s.backoff ≡ second → IsPaced (next_continuation next s)
unfolding next_continuation
next_continuation-IsPaced [] s e = forget-IsPaced s (omega (arith, e)) (omega (arith, e))
next_continuation-IsPaced (c ∷ cs) s e = record {
  low = omega (arith, e);
  high = omega (arith, e);
  reset = λ _. e;
}

after_wait-IsGood :
    (awake : Bool) (fx : List Effect) (s : State)
    → All IsProper fx
    → IsPaced s
    → IsGood (after_wait awake fx s)
unfolding after_wait
after_wait-IsGood true fx s h p = (h, p)
after_wait-IsGood false fx s h p = h

sleep_time-positive : (d : ℤ) → 0 < sleep_time d
unfolding sleep_time
sleep_time-positive d = ground arith

-- What a poll returns can be passed on.
abbrev AllSent : Polled → Type 0
AllSent poll_failed = Unit
AllSent (polled messages next timeout_ms has_timeout) = All IsSendable messages

All-handles : (ms : List ChatMessage) → All IsSendable ms → All IsProper (map handles ms)
All-handles [] h = tt
All-handles (m ∷ ms) h = (h.0, All-handles ms h.1)

module _ (unmarshal : Bytes → Option Fields) (patterns : List Pattern) where
  poll-AllSent : (now : ℤ) (answer : Answer) → AllSent (poll unmarshal patterns now answer)
  unfolding poll decode_answer read_payload
  poll-AllSent now unanswered = tt
  poll-AllSent now (answered status body) = elim (Bool-cases (status == 200)) [
    | inr e ↦ rw e tt
    | inl e ↦ elim (Option-cases (unmarshal (take answer_limit body))) [
      | inl f ↦ rw (e, f, decode_answer) tt
      | inr (payload, f) ↦
          let (_, _, sent) = extract_messages-IsCounted patterns now payload in
          rw (e, f, decode_answer) sent
    ]
  ]

  after_poll-IsGood :
      (awake : Bool) (fx : List Effect) (s : State) (p : Polled)
      → All IsProper fx
      → s.backoff ≡ second
      → AllSent p
      → IsGood (after_poll unmarshal patterns awake fx s p)
  unfolding after_poll
  after_poll-IsGood awake fx s poll_failed h e _ =
      let g = grow_bounds s.backoff (omega (arith, e)) (omega (arith, e)) in
      after_wait-IsGood awake _ _
        (All-append IsProper fx _ h (sleep_time-positive (ℤ.pos s.backoff), tt))
        (forget-IsPaced _ (omega (arith, g, e)) g.1)
  after_poll-IsGood awake fx s (polled messages next timeout_ms has_timeout) h e sent =
      let (delay, _) = next_live_poll_delay timeout_ms has_timeout s.poll_delay in
      let waits : All IsProper (sleeps (sleep_time delay) ∷ []) = (sleep_time-positive delay, tt) in
      after_wait-IsGood awake _ _
        (All-append IsProper fx _ h
          (All-append IsProper (map handles messages) _ (All-handles messages sent) waits))
        (next_continuation-IsPaced next _ e)

  poll_round-IsGood :
      (r : Round) (fx : List Effect) (s : State)
      → All IsProper fx
      → s.backoff ≡ second
      → IsProper (polls s.api_key s.client_version s.continuation)
      → IsGood (poll_round unmarshal patterns r fx s)
  unfolding poll_round
  poll_round-IsGood r fx s h e p =
      after_poll-IsGood r.awake _ s _ (All-append IsProper fx _ h (p, tt)) e
        (poll-AllSent r.now r.answer)

  boot_round-IsGood :
      (r : Round) (s : State) (b : Boot)
      → AllFilled b
      → IsPaced s
      → IsGood (boot_round unmarshal patterns r s b)
  unfolding boot_round
  boot_round-IsGood r s (boot_failed why) _ p =
      let g = grow_bounds s.backoff p.low p.high in
      (
        (tt, (sleep_time-positive (ℤ.pos s.backoff), tt)),
        forget-IsPaced _ (ground (arith, g, p.low)) (ground (arith, g, p.high)),
      )
  boot_round-IsGood r s (booted key version continuation) f p =
      poll_round-IsGood r (boots ∷ []) _ (tt, tt) refl f

  is_nil-ne : (s : Bytes) → is_nil s ≡ false → s ≢ []
  is_nil-ne [] h = ground (arith, h)
  is_nil-ne (c ∷ s) h = ground arith

  needs_boot-filled :
      (s : State)
      → needs_boot s ≡ false
      → IsProper (polls s.api_key s.client_version s.continuation)
  unfolding needs_boot
  needs_boot-filled s h = (
    is_nil-ne s.api_key (ground (arith, h)),
    is_nil-ne s.client_version (ground (arith, h)),
    is_nil-ne s.continuation (ground (arith, h)),
  )

  pub round-IsGood : (r : Round) (s : State) → IsPaced s → IsGood (round unmarshal patterns r s)
  unfolding round
  round-IsGood r s p = elim (Bool-cases r.done) [
    | inl d ↦ simp d tt
    | inr d ↦ elim (Bool-cases (needs_boot s)) [
      | inl e ↦
          simp (d, e)
            (boot_round-IsGood r s (bootstrap unmarshal r.page)
              (bootstrap-AllFilled unmarshal r.page) p)
      | inr e ↦ simp (d, e) (poll_round-IsGood r [] s tt (p.reset e) (needs_boot-filled s e))
    ]
  ]

  proceed-IsProper :
      (o : Outcome) (rest : State → List Effect)
      → IsGood o
      → ((s : State) → IsPaced s → All IsProper (rest s))
      → All IsProper (proceed o rest)
  unfolding proceed
  proceed-IsProper (returns fx) rest h k = h
  proceed-IsProper (loops fx s) rest h k = All-append IsProper fx (rest s) h.0 (k s h.1)

  pub run-IsProper :
      (rs : List Round) (s : State) → IsPaced s → All IsProper (run unmarshal patterns rs s)
  unfolding run
  run-IsProper [] s p = tt
  run-IsProper (r ∷ rs) s p =
      proceed-IsProper (round unmarshal patterns r s) (run unmarshal patterns rs)
        (round-IsGood r s p) (run-IsProper rs)

  -- Whatever the answers, the clock and the waits that are cut short: a client never polls
  -- without a key, a version or a continuation, every wait is positive, and every message that it
  -- hands over has a text and an id and is of YouTube.
  pub start_run-IsProper :
      (cfg : Config) (rs : List Round) → All IsProper (run unmarshal patterns rs (start cfg))
  unfolding start
  start_run-IsProper cfg rs =
      run-IsProper rs _ (record { low = omega arith; high = omega arith; reset = λ _. refl })
