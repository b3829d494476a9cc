-- ===== src/Ytlive/Run/Recovery.antt =====
-- internal/ytlive/client.go, Run: failures in a row, and what comes after them.
use gnasty_chat.Prelude.{
  ℕ, zero, suc, ◌+◌, ◌*◌, ◌^◌, min, ◌≤◌, Bool, true, false, Option, List, [], ◌∷◌, ◌++◌, ◌≡◌, refl,
  ap, ◌∙◌, arith, All, length, append_assoc, ℤ,
}
use gnasty_chat.Backoff.{second, minute, grow_times, grow_times-min, grow_bounds}
use gnasty_chat.Text.{Bytes}
use gnasty_chat.Json.{Fields}
use gnasty_chat.Ytlive.Messages.Badges.{Pattern}
use gnasty_chat.Ytlive.Page.{BootError, boot_failed, booted, bootstrap}
use gnasty_chat.Ytlive.Poll.{sleep_time}
use gnasty_chat.Ytlive.Run.{
  Config, State, Round, Effect, boots, polls, sleeps, loops, start, forget, needs_boot, after_wait,
  proceed, Polled, poll_failed, polled, poll, after_poll, poll_round, boot_round, round, run,
  poll_delay_of,
}

-- A client without a continuation, after so many failures in a row.
waiting : Config → ℕ → State
waiting cfg n = record {
  api_key = [];
  client_version = [];
  continuation = [];
  backoff = grow_times n;
  poll_delay = poll_delay_of cfg;
}

-- Bootstraps that fail, from the k-th on: the n-th is followed by 2^n seconds, a minute at
-- most.
abbrev pub outage : ℕ → ℕ → List Effect
outage k zero = []
outage k (suc n) = boots ∷ sleeps (min (second * 2 ^ k) minute) ∷ outage (suc k) n

grow_times-bounds : (n : ℕ) → (second ≤ grow_times n) × (grow_times n ≤ minute)
unfolding grow_times
grow_times-bounds zero = (omega arith, omega arith)
grow_times-bounds (suc n) =
    let (lo, hi) = grow_times-bounds n in
    let g = grow_bounds (grow_times n) lo hi in (omega (arith, g.0, lo), g.1)

sleep_time-grow_times : (n : ℕ) → sleep_time (ℤ.pos (grow_times n)) ≡ grow_times n
unfolding sleep_time
sleep_time-grow_times n = ground (arith, grow_times-bounds n)

module _ (unmarshal : Bytes → Option Fields) (patterns : List Pattern) where
  -- A round whose bootstrap fails and whose wait is not cut short.
  pub record IsFailing (r : Round) : Type 0 where
    pub goes_on : r.done ≡ false
    pub waits : r.awake ≡ true
    pub why : BootError
    pub fails : bootstrap unmarshal r.page ≡ boot_failed why

  failing_round :
      (cfg : Config) (n : ℕ) (r : Round)
      → IsFailing r
      → round unmarshal patterns r (waiting cfg n)
        ≡ loops (boots ∷ sleeps (grow_times n) ∷ []) (waiting cfg (suc n))
  unfolding round boot_round needs_boot waiting forget grow_times
  failing_round cfg n r h = simp (h.goes_on, h.waits, h.fails, sleep_time-grow_times n) refl

  after_failures :
      (cfg : Config) (n m : ℕ) (fs rs : List Round)
      → All IsFailing fs
      → n + length fs ≡ m
      → run unmarshal patterns (fs ++ rs) (waiting cfg n)
        ≡ outage n (length fs) ++ run unmarshal patterns rs (waiting cfg m)
  unfolding run proceed
  after_failures cfg n m [] rs h e = let e' : n ≡ m = omega (arith, e) in rw e' refl
  after_failures cfg n m (f ∷ fs) rs h e =
      rw
        (
          failing_round cfg n f h.0,
          proceed,
          after_failures cfg (suc n) m fs rs h.1 (omega (arith, e)),
          grow_times-min n,
        )
        refl

  -- What a round has done before the poll's answer is the first that it does.
  after_wait-first :
      (awake : Bool) (fx gx : List Effect) (s : State) (rest : State → List Effect)
      → (ys : List Effect) × (proceed (after_wait awake (fx ++ gx) s) rest ≡ fx ++ ys)
  unfolding after_wait proceed
  after_wait-first true fx gx s rest = (gx ++ rest s, append_assoc fx gx (rest s))
  after_wait-first false fx gx s rest = (gx, refl)

  after_poll-first :
      (awake : Bool) (fx : List Effect) (s : State) (p : Polled) (rest : State → List Effect)
      → (ys : List Effect) × (proceed (after_poll unmarshal patterns awake fx s p) rest ≡ fx ++ ys)
  unfolding after_poll
  after_poll-first awake fx s poll_failed rest = after_wait-first awake fx _ _ rest
  after_poll-first awake fx s (polled messages next timeout_ms has_timeout) rest =
      after_wait-first awake fx _ _ rest

module _ (unmarshal : Bytes → Option Fields) (patterns : List Pattern) (cfg : Config)
    (key version continuation : Bytes) where
  ready : State
  ready = record {
    api_key = key;
    client_version = version;
    continuation = continuation;
    backoff = second;
    poll_delay = poll_delay_of cfg;
  }

  booted_round :
      (n : ℕ) (r : Round)
      → r.done ≡ false
      → bootstrap unmarshal r.page ≡ booted key version continuation
      → round unmarshal patterns r (waiting cfg n)
        ≡ poll_round unmarshal patterns r (boots ∷ []) ready
  unfolding round boot_round needs_boot waiting ready
  booted_round n r d b = simp (d, b) refl

  -- After bootstraps that fail, however many, with waits that double from a second up to a
  -- minute, the first round whose bootstrap succeeds polls at once, with the key, the version and
  -- the continuation that the bootstrap returned.
  pub run_recovers :
      (fs : List Round) (r : Round) (rs : List Round)
      → All (IsFailing unmarshal patterns) fs
      → r.done ≡ false
      → bootstrap unmarshal r.page ≡ booted key version continuation
      → (ys : List Effect) × (run unmarshal patterns (fs ++ r ∷ rs) (start cfg)
          ≡ outage 0 (length fs) ++ boots ∷ polls key version continuation ∷ ys)
  unfolding run start waiting poll_round ready grow_times
  run_recovers fs r rs h d b =
      let later = run unmarshal patterns rs in
      let (ys, e) =
        after_poll-first unmarshal patterns r.awake (boots ∷ polls key version continuation ∷ [])
          ready (poll unmarshal patterns r.now r.answer) later in
      let step = ap (λ o. proceed o later) (booted_round (length fs) r d b) in
      (
        ys,
        after_failures unmarshal patterns cfg 0 (length fs) fs (r ∷ rs) h (omega arith)
            ∙ ap (λ t. outage 0 (length fs) ++ t) (step ∙ e),
      )

  -- A round that starts with a bootstrap, and whose poll fails.
  pub record IsUnpolled (r : Round) : Type 0 where
    pub goes_on : r.done ≡ false
    pub waits : r.awake ≡ true
    pub boot : bootstrap unmarshal r.page ≡ booted key version continuation
    pub fails : poll unmarshal patterns r.now r.answer ≡ poll_failed

  abbrev pub retries : ℕ → List Effect
  retries zero = []
  retries (suc n) = boots ∷ polls key version continuation ∷ sleeps second ∷ retries n

  unpolled_round :
      (n : ℕ) (r : Round)
      → IsUnpolled r
      → round unmarshal patterns r (waiting cfg n)
        ≡ loops (boots ∷ polls key version continuation ∷ sleeps second ∷ []) (waiting cfg 1)
  unfolding poll_round after_poll after_wait ready waiting forget grow_times sleep_time
  unpolled_round n r h = booted_round n r h.goes_on h.boot ∙ simp (h.waits, h.fails) refl

  retry_rounds :
      (n : ℕ) (rs : List Round)
      → All IsUnpolled rs
      → run unmarshal patterns rs (waiting cfg n) ≡ retries (length rs)
  unfolding run proceed
  retry_rounds n [] h = refl
  retry_rounds n (r ∷ rs) h = rw (unpolled_round n r h.0, proceed, retry_rounds 1 rs h.1) refl

  -- If every bootstrap succeeds alike and every poll fails, each round is a bootstrap, a poll and
  -- a wait of one second: the delay never grows.
  pub run_retries :
      (rs : List Round)
      → All IsUnpolled rs
      → run unmarshal patterns rs (start cfg) ≡ retries (length rs)
  unfolding start waiting grow_times
  run_retries rs h = retry_rounds 0 rs h
