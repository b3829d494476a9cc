-- ===== src/Sink/Buffered/Interleaving.antt =====
-- The buffered writer of internal/sink/buffered.go under any interleaving: the critical sections are
-- atomic, and the base writes of every batch that was taken out run between them in any order.
use gnasty_chat.Prelude.{
  ℕ, ◌+◌, Bool, true, false, List, [], ◌∷◌, ◌++◌, ◌≡◌, refl, ap, arith, if◌then◌else◌, total,
  total-append, ℤ,
}
use gnasty_chat.Sink.Buffered.{
  BufferedWriter, failed, Section, done, flush, new_buffered_writer, write_locked, close_locked,
  on_timer_locked, set_last_err,
}
use gnasty_chat.Sink.Buffered.Batches.{
  IsValid, new_buffered_writer-IsValid, write_locked-IsValid, close_locked-IsValid,
  on_timer_locked-IsValid, set_last_err-IsValid,
}

-- A batch that some goroutine is writing: a caller of `Write` or `Close`, or the timer's.
pub record Flight (M : Type 0) : Type 0 where
  pub messages : List M
  pub by_timer : Bool

pub record System (M E : Type 0) : Type 0 where
  pub writer : BufferedWriter M E
  pub flights : List (Flight M)
  pub written : List M
  pub dropped : List M
  pub accepted : List M

module _ {M E : Type 0} where
  launch : Section M E → Bool → List (Flight M) → List (Flight M)
  launch (done e) k fs = fs
  launch (flush ms e) k fs = record { messages = ms; by_timer = k } ∷ fs

  pub after_write : M → System M E → System M E
  unfolding launch
  after_write m s = record s {
    writer = (write_locked m s.writer).1;
    flights = launch (write_locked m s.writer).0 false s.flights;
    accepted = if s.writer.closed then s.accepted else s.accepted ++ m ∷ [];
  }

  pub after_close : System M E → System M E
  unfolding launch
  after_close s = record s {
    writer = (close_locked s.writer).1;
    flights = launch (close_locked s.writer).0 false s.flights;
  }

  pub after_fire : System M E → System M E
  unfolding launch
  after_fire s = record s {
    writer = (on_timer_locked s.writer).1;
    flights = launch (on_timer_locked s.writer).0 true s.flights;
  }

-- One step of the system. A base write that fails ends its batch, and the timer's goroutine stores
-- the error.
pub data Step {M E : Type 0} (s t : System M E) : Type 0 where
  write : (m : M) → t ≡ after_write m s → Step s t
  close : t ≡ after_close s → Step s t
  fire : t ≡ after_fire s → Step s t
  deliver :
      (m : M) (ms : List M) (k : Bool) (xs ys : List (Flight M))
      → s.flights ≡ xs ++ record { messages = m ∷ ms; by_timer = k } ∷ ys
      → t ≡ record s {
        written = s.written ++ m ∷ [];
        flights = xs ++ record { messages = ms; by_timer = k } ∷ ys;
      }
      → Step s t
  fail :
      (e : E) (m : M) (ms : List M) (k : Bool) (xs ys : List (Flight M))
      → s.flights ≡ xs ++ record { messages = m ∷ ms; by_timer = k } ∷ ys
      → t ≡ record s {
        dropped = s.dropped ++ m ∷ ms;
        flights = xs ++ ys;
        writer = if k then set_last_err (failed e) s.writer else s.writer;
      }
      → Step s t

pub data Reach {M E : Type 0} (s : System M E) : System M E → Type 0 where
  here : Reach s s
  next : {t u : System M E} → Reach s t → Step t u → Reach s u

abbrev pub load : {M : Type 0} → (M → ℕ) → List (Flight M) → ℕ
load f = total λ x. total f x.messages

module _ {M E : Type 0} where
  -- By every weight, the accepted messages are those written, given up, being written and waiting.
  pub record IsConserved (f : M → ℕ) (s : System M E) : Type 0 where
    pub valid : IsValid s.writer
    pub balance :
        total f s.accepted
        ≡ total f s.written + total f s.dropped + load f s.flights + total f s.writer.buffer

  module _ (f : M → ℕ) where
    after_write-IsConserved :
        (m : M) (s : System M E) → IsConserved f s → IsConserved f (after_write m s)
    unfolding after_write write_locked
    after_write-IsConserved m s c = record {
      valid = write_locked-IsValid m s.writer c.valid;
      balance =
          ground
            (arith, total-append f s.accepted (m ∷ []), total-append f s.writer.buffer (m ∷ []));
    }

    after_close-IsConserved : (s : System M E) → IsConserved f s → IsConserved f (after_close s)
    unfolding after_close close_locked
    after_close-IsConserved s c = record {
      valid = close_locked-IsValid s.writer c.valid;
      balance = ground arith;
    }

    after_fire-IsConserved : (s : System M E) → IsConserved f s → IsConserved f (after_fire s)
    unfolding after_fire on_timer_locked
    after_fire-IsConserved s c = record {
      valid = on_timer_locked-IsValid s.writer c.valid;
      balance = ground arith;
    }

    fail-IsValid :
        (e : E) (k : Bool) (s : System M E)
        → IsValid s.writer
        → IsValid (if k then set_last_err (failed e) s.writer else s.writer)
    fail-IsValid e true s v = set_last_err-IsValid (failed e) s.writer v
    fail-IsValid e false s v = v

    fail-buffer :
        (e : E) (k : Bool) (s : System M E)
        → (if k then set_last_err (failed e) s.writer else s.writer).buffer ≡ s.writer.buffer
    unfolding set_last_err
    fail-buffer e true s = refl
    fail-buffer e false s = refl

    Step-IsConserved : {s t : System M E} → Step s t → IsConserved f s → IsConserved f t
    Step-IsConserved {s} (write m e) c = rw e (after_write-IsConserved m s c)
    Step-IsConserved {s} (close e) c = rw e (after_close-IsConserved s c)
    Step-IsConserved {s} (fire e) c = rw e (after_fire-IsConserved s c)
    Step-IsConserved {s} (deliver m ms k xs ys found e) c = rw e record {
      valid = c.valid;
      balance = omega (
        arith,
        c.balance,
        total-append f s.written (m ∷ []),
        ap (load f) found,
        total-append (λ (x : Flight M). total f x.messages) xs
            (record { messages = m ∷ ms; by_timer = k } ∷ ys),
        total-append (λ (x : Flight M). total f x.messages) xs
            (record { messages = ms; by_timer = k } ∷ ys),
      );
    }
    Step-IsConserved {s} (fail err m ms k xs ys found e) c = rw e record {
      valid = fail-IsValid err k s c.valid;
      balance = omega (
        arith,
        c.balance,
        total-append f s.dropped (m ∷ ms),
        ap (load f) found,
        ap (total f) (fail-buffer err k s),
        total-append (λ (x : Flight M). total f x.messages) xs
            (record { messages = m ∷ ms; by_timer = k } ∷ ys),
        total-append (λ (x : Flight M). total f x.messages) xs ys,
      );
    }

  pub idle : ℤ → ℤ → System M E
  idle batch interval = record {
    writer = new_buffered_writer batch interval;
    flights = [];
    written = [];
    dropped = [];
    accepted = [];
  }

  -- Under every interleaving of critical sections and base writes, failing or not, the accepted
  -- messages weighed by any function are those written, given up, in flight and buffered; the
  -- buffer stays below a batch, its timer set exactly while it holds something and the interval
  -- is positive.
  pub Reach-IsConserved :
      (f : M → ℕ) (batch interval : ℤ) {s : System M E}
      → Reach (idle batch interval) s
      → IsConserved f s
  unfolding idle new_buffered_writer
  Reach-IsConserved f batch interval here = record {
    valid = new_buffered_writer-IsValid batch interval;
    balance = omega arith;
  }
  Reach-IsConserved f batch interval (next r st) =
      Step-IsConserved f st (Reach-IsConserved f batch interval r)
