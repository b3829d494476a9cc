-- ===== src/Irc/Session/Counts.antt =====
-- The counters and the timers of a session of internal/twitchirc/client.go.
use gnasty_chat.Prelude.{
  ℕ, ◌+◌, ◌≤◌, Bool, List, [], ◌∷◌, ◌++◌, ◌≡◌, ◌⊎◌, inl, inr, subst, refl, arith, ℤ,
}
use gnasty_chat.Text.{Bytes, codes, trim_prefix}
use gnasty_chat.Message.{ChatMessage, unix_nano}
use gnasty_chat.Trace.{MessageTrace}
use gnasty_chat.Irc.Line.{Env, Parsed, ok, dropped, parse_privmsg}
use gnasty_chat.Irc.Drops.{LogLine}
use gnasty_chat.Irc.Session.{
  Session, new_session, Event, times_out, reads, read_fails, deadline_fails, cancels, Effect, sends,
  handles, reports, logs, Outcome, Failure, continues, fails, report, on_timeout, on_parsed,
  on_line, step, loop,
}

-- The messages that the effects hand over, and the messages that they report.
pub handled : List Effect → ℕ
handled [] = 0
handled (handles m t ∷ es) = 1 + handled es
handled (sends x ∷ es) = handled es
handled (reports w n ∷ es) = handled es
handled (logs x ∷ es) = handled es

pub sum_reported : List Effect → ℕ
sum_reported [] = 0
sum_reported (reports w n ∷ es) = w + sum_reported es
sum_reported (sends x ∷ es) = sum_reported es
sum_reported (handles m t ∷ es) = sum_reported es
sum_reported (logs x ∷ es) = sum_reported es

handled-append : (es fs : List Effect) → handled (es ++ fs) ≡ handled es + handled fs
unfolding handled
handled-append [] fs = omega arith
handled-append (handles m t ∷ es) fs = omega (arith, handled-append es fs)
handled-append (sends x ∷ es) fs = handled-append es fs
handled-append (reports w n ∷ es) fs = handled-append es fs
handled-append (logs x ∷ es) fs = handled-append es fs

sum_reported-append :
    (es fs : List Effect) → sum_reported (es ++ fs) ≡ sum_reported es + sum_reported fs
unfolding sum_reported
sum_reported-append [] fs = omega arith
sum_reported-append (reports w n ∷ es) fs = omega (arith, sum_reported-append es fs)
sum_reported-append (sends x ∷ es) fs = sum_reported-append es fs
sum_reported-append (handles m t ∷ es) fs = sum_reported-append es fs
sum_reported-append (logs x ∷ es) fs = sum_reported-append es fs

-- The total is what was handed over; the reports and the open window add up to it.
abbrev pub IsCounted : Outcome → Type 0
IsCounted (continues s es) = (handled es ≡ s.total) × (sum_reported es + s.window ≡ s.total)
IsCounted (fails f es) = sum_reported es ≤ handled es

-- Its form for one turn, from the counts before it.
abbrev Counts : ℕ → ℕ → Outcome → Type 0
Counts total window (continues s es) =
    (total + handled es ≡ s.total) × (sum_reported es + s.window ≡ window + handled es)
Counts total window (fails f es) = sum_reported es ≤ window + handled es

report-Counts :
    (now : ℕ) (s : Session) → Counts s.total s.window (continues (report now s).0 (report now s).1)
unfolding report handled sum_reported
report-Counts now s = ground arith

on_timeout-Counts :
    (now : ℕ) (sent : Bool) (s : Session) → Counts s.total s.window (on_timeout now sent s)
unfolding on_timeout report handled sum_reported
on_timeout-Counts now sent s = ground arith

module _ (total window now : ℕ) where
  on_parsed-Counts :
      (line : Bytes) (p : Parsed (ChatMessage × MessageTrace)) (s : Session) (es : List Effect)
      → Counts total window (continues s es)
      → Counts total window (on_parsed now line p s es)
  unfolding on_parsed handled sum_reported
  on_parsed-Counts line (ok (m, t)) s es h =
      omega (arith, handled-append es (handles m t ∷ []), sum_reported-append es (handles m t ∷ []))
  on_parsed-Counts line (dropped r) s es h =
      omega (arith, handled-append es (logs _ ∷ []), sum_reported-append es (logs _ ∷ []))

on_line-Counts :
    (total window : ℕ) (env : Env) (channel : Bytes) (now later : ℕ) (sent : Bool) (line : Bytes)
    (s : Session) (es : List Effect)
    → Counts total window (continues s es)
    → Counts total window (on_line env channel now later sent line s es)
unfolding on_line handled sum_reported
on_line-Counts total window env channel now later sent line s es h =
    let pong = sends (codes "PONG " ++ trim_prefix (codes "PING ") line) ∷ [] in
    let parsed = parse_privmsg (record env { now = unix_nano (ℤ.pos later) }) line channel in
    ground (
      arith,
      on_parsed-Counts total window now line parsed s es h,
      handled-append es pong,
      sum_reported-append es pong,
    )

step-Counts :
    (env : Env) (channel : Bytes) (s : Session) (e : Event)
    → Counts s.total s.window (step env channel s e)
unfolding step
step-Counts env channel s (times_out now sent) = on_timeout-Counts now sent s
step-Counts env channel s (reads now later sent raw) =
    on_line-Counts s.total s.window env channel now later sent _ _ _ (report-Counts now s)
step-Counts env channel s read_fails = unfold handled in unfold sum_reported in omega arith
step-Counts env channel s deadline_fails = unfold handled in unfold sum_reported in omega arith
step-Counts env channel s cancels = unfold handled in unfold sum_reported in omega arith

Outcome-cases :
    (o : Outcome)
    → ((s : Session) × (es : List Effect) × (o ≡ continues s es))
      ⊎ ((f : Failure) × (es : List Effect) × (o ≡ fails f es))
Outcome-cases (continues s es) = inl (s, es, refl)
Outcome-cases (fails f es) = inr (f, es, refl)

joined :
    (s s' : Session) (done more : List Effect)
    → IsCounted (continues s done)
    → Counts s.total s.window (continues s' more)
    → IsCounted (continues s' (done ++ more))
joined s s' done more h one = omega (arith, handled-append done more, sum_reported-append done more)

ended :
    (s : Session) (f : Failure) (done more : List Effect) (lines : List LogLine)
    → IsCounted (continues s done)
    → Counts s.total s.window (fails f more)
    → IsCounted (fails f (done ++ (more ++ logs lines ∷ [])))
ended s f done more lines h one =
    let rest = handled-append more (logs lines ∷ []) in
    let rest' = sum_reported-append more (logs lines ∷ []) in
    unfold handled in
    unfold sum_reported in
    omega (
      arith,
      handled-append done (more ++ logs lines ∷ []),
      sum_reported-append done (more ++ logs lines ∷ []),
    )

loop-IsCounted :
    (env : Env) (channel : Bytes) (start : ℕ) (events : List Event) (s : Session)
    (done : List Effect)
    → IsCounted (continues s done)
    → IsCounted (loop env channel start events s done)
unfolding loop
loop-IsCounted env channel start [] s done h = h
loop-IsCounted env channel start (e ∷ es) s done h =
    let one = step-Counts env channel s e in
    elim (Outcome-cases (step env channel s e)) [
      | inl (s', more, eq) ↦
          rw (eq, loop)
            (loop-IsCounted env channel start es s' (done ++ more)
              (joined s s' done more h (subst (Counts s.total s.window) eq one)))
      | inr (f, more, eq) ↦
          rw (eq, loop) (ended s f done more _ h (subst (Counts s.total s.window) eq one))
    ]

-- Whatever happens on a connection, the total is the number of messages handed to the handler,
-- and those of the reports and of the open window add up to it; when the session ends, no report
-- has counted a message that was not handed over.
pub loop_counts :
    (env : Env) (channel : Bytes) (start : ℕ) (verbose : Bool) (events : List Event)
    → IsCounted (loop env channel start events (new_session start verbose) [])
loop_counts env channel start verbose events =
    loop-IsCounted env channel start events (new_session start verbose) []
      (unfold new_session in unfold handled in unfold sum_reported in (refl, refl))
