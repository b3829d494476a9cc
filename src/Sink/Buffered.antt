-- ===== src/Sink/Buffered.antt =====
-- internal/sink/buffered.go: the writer that collects messages into batches.
-- Each method is its critical section (the code between Lock and Unlock), followed by the writes
-- that it makes outside the lock. The base writer is a parameter with a state of its own.
pub mod Batches
pub mod Interleaving
mod Tests
use gnasty_chat.Prelude.{
  ℕ, Bool, true, false, ◌&&◌, Option, none, some, List, [], ◌∷◌, ◌++◌, ltb, ◌==◌, if◌then◌else◌,
  or_else, length, is_nil, ℤ, is_positive, positive_or,
}

-- The errors of `Write` and `Close`: their own, or one of the base writer.
pub data WriteError (E : Type 0) : Type 0 where
  writer_closed : WriteError E
  failed : E → WriteError E

-- `timer` says whether the pointer to the flush timer is set.
pub record BufferedWriter (M E : Type 0) : Type 0 where
  pub batch_size : ℕ
  pub flush_interval : ℤ
  pub buffer : List M
  pub timer : Bool
  pub closed : Bool
  pub last_err : Option (WriteError E)

-- What a critical section hands on: a result at once, or a batch that the caller writes first,
-- with the error to report if those writes succeed.
pub data Section (M E : Type 0) : Type 0 where
  done : Option (WriteError E) → Section M E
  flush : List M → Option (WriteError E) → Section M E

module _ {M E : Type 0} where
  pub new_buffered_writer : ℤ → ℤ → BufferedWriter M E
  new_buffered_writer batch interval = record {
    batch_size = positive_or 1 batch;
    flush_interval = interval;
    buffer = [];
    timer = false;
    closed = false;
    last_err = none;
  }

  pub start_timer_locked : BufferedWriter M E → BufferedWriter M E
  start_timer_locked b = if is_positive b.flush_interval then record b { timer = true } else b

  pub stop_timer_locked : BufferedWriter M E → BufferedWriter M E
  stop_timer_locked b = record b { timer = false }

  -- `Write` up to `b.mu.Unlock()`: the message is appended, a first one starts the timer, and a
  -- full buffer is taken out.
  pub enqueue : M → BufferedWriter M E → BufferedWriter M E
  unfolding start_timer_locked
  enqueue m b =
      let b' = record b { last_err = none; buffer = b.buffer ++ m ∷ [] } in
      if length b'.buffer == 1 && is_positive b'.flush_interval then start_timer_locked b' else b'

  pub take_batch : Option (WriteError E) → BufferedWriter M E → Section M E × BufferedWriter M E
  unfolding stop_timer_locked
  take_batch pending b =
      if ltb (length b.buffer) b.batch_size
      then (done pending, b)
      else (flush b.buffer pending, stop_timer_locked (record b { buffer = [] }))

  pub write_locked : M → BufferedWriter M E → Section M E × BufferedWriter M E
  unfolding enqueue take_batch
  write_locked m b =
      if b.closed then (done (some writer_closed), b) else take_batch b.last_err (enqueue m b)

  pub close_locked : BufferedWriter M E → Section M E × BufferedWriter M E
  unfolding stop_timer_locked
  close_locked b = if b.closed then (done none, b) else (
    if is_nil b.buffer then done b.last_err else flush b.buffer b.last_err,
    stop_timer_locked (record b { closed = true; buffer = []; last_err = none }),
  )

  pub on_timer_locked : BufferedWriter M E → Section M E × BufferedWriter M E
  on_timer_locked b =
      if b.closed
      then (done none, b)
      else if is_nil b.buffer
      then (done none, record b { timer = false })
      else (flush b.buffer none, record b { buffer = []; timer = false })

  -- `b.lastErr = err`, the second critical section of `onTimer`.
  pub set_last_err : WriteError E → BufferedWriter M E → BufferedWriter M E
  set_last_err e b = record b { last_err = some e }

-- The methods as one caller sees them, over a base writer with state `S`.
module _ {M E S : Type 0} (base : M → S → Option E × S) where
  -- The loop stops at the first error.
  pub write_all : List M → S → Option (WriteError E) × S
  write_all [] s = (none, s)
  write_all (m ∷ ms) s = elim (base m s).0 [
    | none ↦ write_all ms (base m s).1
    | some e ↦ (some (failed e), (base m s).1)
  ]

  pub finish : Section M E → S → Option (WriteError E) × S
  unfolding write_all
  finish (done e) s = (e, s)
  finish (flush ms pending) s = (or_else (write_all ms s).0 pending, (write_all ms s).1)

  pub write : M → BufferedWriter M E → S → Option (WriteError E) × BufferedWriter M E × S
  unfolding write_locked finish
  write m b s =
      let (section, b') = write_locked m b in let (err, s') = finish section s in (err, b', s')

  pub close : BufferedWriter M E → S → Option (WriteError E) × BufferedWriter M E × S
  unfolding close_locked finish
  close b s =
      let (section, b') = close_locked b in let (err, s') = finish section s in (err, b', s')

  store_err : Option (WriteError E) → BufferedWriter M E → BufferedWriter M E
  unfolding set_last_err
  store_err none b = b
  store_err (some e) b = set_last_err e b

  pub on_timer : BufferedWriter M E → S → BufferedWriter M E × S
  unfolding on_timer_locked finish store_err
  on_timer b s =
      let (section, b') = on_timer_locked b in
      let (err, s') = finish section s in (store_err err b', s')
