-- ===== src/Sink/Store/Written.antt =====
-- internal/sink/sqlite.go and internal/sink/withapi.go: what a write leaves behind, on both branches.
use gnasty_chat.Prelude.{ℕ, zero, suc, Option, none, some, ◌≡◌, refl, ◌∙◌, ap, ℤ}
use gnasty_chat.Text.{Bytes}
use gnasty_chat.Message.{ChatMessage}
use gnasty_chat.Trace.{MessageTrace}
use gnasty_chat.Http.Hub.{Hub, broadcast}
use gnasty_chat.Sink.Retry.{Tried, with_retry, exhausted, max_attempts}
use gnasty_chat.Sink.Retry.Attempts.{
  state_before, AllBusy, IsBusy, IsTried, ended, gave_up, with_retry-IsTried,
}
use gnasty_chat.Sink.Store.{
  Conflict, Row, Target, count_written, after_exec, insert, wrap, write, publish,
  write_and_broadcast, conflict_of, row_of,
}

abbrev broadcast_to : ChatMessage → Option Hub → Option Hub
broadcast_to msg none = none
broadcast_to msg (some hub) = some (broadcast msg hub)

module _ {Db : Type 0} (exec : Conflict → Row → Db → Option Bytes × Db) (now : ℤ)
    (msg : ChatMessage) where
  -- An insert counts the message if it succeeds, and only then.
  unfoldable Counted : Option Bytes → Option MessageTrace → Option MessageTrace → Type 0
  Counted none before after = after ≡ count_written before
  Counted (some error) before after = after ≡ before

  after_exec-Counted :
      (r : Option Bytes × Db) (trace : Option MessageTrace)
      → let r' = after_exec exec r trace in Counted r'.0 trace r'.1.trace
  unfolding after_exec Counted
  after_exec-Counted (none, db) trace = refl
  after_exec-Counted (some error, db) trace = refl

  insert-Counted : (t : Target Db) → let r = insert exec now msg t in Counted r.0 t.trace r.1.trace
  unfolding insert
  insert-Counted t = after_exec-Counted (exec (conflict_of msg) (row_of now msg) t.db) t.trace

  refused_trace :
      (o : Option Bytes) (error : Bytes) (before after : Option MessageTrace)
      → o ≡ some error
      → Counted o before after
      → after ≡ before
  unfolding Counted
  refused_trace none error before after e h = cc
  refused_trace (some x) error before after e h = h

  busy_trace :
      (n : ℕ) (t : Target Db)
      → AllBusy (insert exec now msg) n t
      → (state_before (insert exec now msg) n t).trace ≡ t.trace
  unfolding AllBusy state_before IsBusy
  busy_trace zero t h = refl
  busy_trace (suc n) t ((error, e, b), h) =
      let t' = (insert exec now msg t).1 in
      busy_trace n t' h
      ∙ refused_trace (insert exec now msg t).0 error t.trace t'.trace e (insert-Counted t)

  unfoldable pub IsSettled :
      Option Bytes → Option MessageTrace → Option Hub → Option MessageTrace → Option Hub → Type 0
  IsSettled none before api after api' =
      (after ≡ count_written before) × (api' ≡ broadcast_to msg api)
  IsSettled (some error) before api after api' = (after ≡ before) × (api' ≡ api)

  publish-IsSettled :
      (o : Option Bytes) (before after : Option MessageTrace) (api : Option Hub)
      → Counted o before after
      → IsSettled (wrap exec o) before api after (publish exec (wrap exec o) msg api)
  unfolding Counted IsSettled wrap publish
  publish-IsSettled none before after none h = (h, refl)
  publish-IsSettled none before after (some hub) h = (h, refl)
  publish-IsSettled (some error) before after api h = (h, refl)

  Counted-by :
      (o o' : Option Bytes) (before before' after after' : Option MessageTrace)
      → o ≡ o'
      → before' ≡ before
      → after ≡ after'
      → Counted o' before' after'
      → Counted o before after
  Counted-by o o' before before' after after' e b a h = rw (e, ← b, a) h

  tried-Counted :
      (t : Target Db) (r : Tried (Target Db))
      → IsTried (insert exec now msg) max_attempts t r
      → Counted r.error t.trace r.state.trace
  unfolding Counted
  tried-Counted t r (ended n lt all last e c st) =
      let t' = state_before (insert exec now msg) n t in
      Counted-by _ _ _ t'.trace _ _ e (busy_trace n t all) (ap (λ s. s.trace) st)
        (insert-Counted t')
  tried-Counted t r (gave_up all e c st) =
      let t' = state_before (insert exec now msg) max_attempts t in
      Counted-by _ (some exhausted) _ t.trace _ t.trace e refl
        (ap (λ s. s.trace) st ∙ busy_trace max_attempts t all) refl

  -- A write that returns no error has counted the message once in its trace and broadcast it; one
  -- that returns an error, after whatever retries, has done neither.
  pub write_and_broadcast-IsSettled :
      (t : Target Db) (api : Option Hub)
      → let r = write_and_broadcast exec now msg t api in
        IsSettled r.0 t.trace api r.1.0.trace r.1.1
  unfolding write_and_broadcast write
  write_and_broadcast-IsSettled t api =
      let r = with_retry (insert exec now msg) t in
      publish-IsSettled r.error t.trace r.state.trace api
        (tried-Counted t r (with_retry-IsTried (insert exec now msg) t).0)
