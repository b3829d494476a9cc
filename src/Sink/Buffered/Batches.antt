-- ===== src/Sink/Buffered/Batches.antt =====
-- What the buffered writer of internal/sink/buffered.go keeps between calls, and what the history
-- of one caller delivers.
use gnasty_chat.Prelude.{
  ◌<◌, Bool, true, false, ◌&&◌, not, Option, none, some, List, [], ◌∷◌, ◌++◌, append-nil,
  append_assoc, ◌≡◌, refl, inl, inr, arith, if◌then◌else◌, length, is_nil, length-append, ℤ,
  is_positive, Option-cases, ap, sym, ◌∙◌,
}
use gnasty_chat.Sink.Buffered.{
  BufferedWriter, WriteError, flush, new_buffered_writer, write_locked, close_locked,
  on_timer_locked, set_last_err, write_all, finish, write, close, on_timer, store_err,
}

-- The buffer never holds a full batch, the timer is set exactly while something waits for it, and a
-- closed writer holds nothing.
pub record IsValid {M E : Type 0} (b : BufferedWriter M E) : Type 0 where
  pub positive : 0 < b.batch_size
  pub partial : length b.buffer < b.batch_size
  pub armed : b.timer ≡ (is_positive b.flush_interval && not (is_nil b.buffer))
  pub drained : b.closed ≡ true → b.buffer ≡ []

module _ {M E : Type 0} where
  pub new_buffered_writer-IsValid :
      (batch interval : ℤ) → IsValid (new_buffered_writer {M = M} {E = E} batch interval)
  unfolding new_buffered_writer
  new_buffered_writer-IsValid batch interval = ground arith

  pub write_locked-IsValid :
      (m : M) (b : BufferedWriter M E) → IsValid b → IsValid (write_locked m b).1
  unfolding write_locked
  write_locked-IsValid m b v = ground (arith, length-append b.buffer (m ∷ []))

  pub close_locked-IsValid : (b : BufferedWriter M E) → IsValid b → IsValid (close_locked b).1
  unfolding close_locked
  close_locked-IsValid b v = ground arith

  pub on_timer_locked-IsValid : (b : BufferedWriter M E) → IsValid b → IsValid (on_timer_locked b).1
  unfolding on_timer_locked
  on_timer_locked-IsValid b v = ground arith

  pub set_last_err-IsValid :
      (e : WriteError E) (b : BufferedWriter M E) → IsValid b → IsValid (set_last_err e b)
  unfolding set_last_err
  set_last_err-IsValid e b v = ground arith

-- One caller's calls, and timer runs between them.
pub data Call (M : Type 0) : Type 0 where
  writes : M → Call M
  closes : Call M
  fires : Call M

-- The writer and its base after some calls, the messages that were accepted (written while the
-- writer was open), and whether every `Write` and `Close` has returned nil.
pub record History (M E S : Type 0) : Type 0 where
  pub writer : BufferedWriter M E
  pub state : S
  pub accepted : List M
  pub clean : Bool

abbrev is_ok : {E : Type 0} → Option E → Bool
is_ok none = true
is_ok (some e) = false

module _ {M E S : Type 0} where
  unfoldable pub start : ℤ → ℤ → S → History M E S
  start batch interval s = record {
    writer = new_buffered_writer batch interval;
    state = s;
    accepted = [];
    clean = true;
  }

module _ {M E S : Type 0} (base : M → S → Option E × S) where
  unfoldable pub step : Call M → History M E S → History M E S
  unfolding write close on_timer
  step (writes m) h =
      let (err, b, s) = write base m h.writer h.state in
      record {
        writer = b;
        state = s;
        accepted = if h.writer.closed then h.accepted else h.accepted ++ m ∷ [];
        clean = h.clean && is_ok err;
      }
  step closes h =
      let (err, b, s) = close base h.writer h.state in
      record { writer = b; state = s; accepted = h.accepted; clean = h.clean && is_ok err }
  step fires h =
      let (b, s) = on_timer base h.writer h.state in
      record { writer = b; state = s; accepted = h.accepted; clean = h.clean }

  unfoldable pub run : List (Call M) → History M E S → History M E S
  unfolding step
  run [] h = h
  run (c ∷ cs) h = run cs (step c h)

  store_err-IsValid :
      (e : Option (WriteError E)) (b : BufferedWriter M E)
      → IsValid b
      → IsValid (store_err base e b)
  unfolding store_err
  store_err-IsValid none b v = v
  store_err-IsValid (some e) b v = set_last_err-IsValid e b v

  step-IsValid : (c : Call M) (h : History M E S) → IsValid h.writer → IsValid (step c h).writer
  unfolding step
  step-IsValid (writes m) h v = write_locked-IsValid m h.writer v
  step-IsValid closes h v = close_locked-IsValid h.writer v
  step-IsValid fires h v = store_err-IsValid _ _ (on_timer_locked-IsValid h.writer v)

  pub run-IsValid :
      (cs : List (Call M)) (h : History M E S) → IsValid h.writer → IsValid (run cs h).writer
  unfolding run
  run-IsValid [] h v = v
  run-IsValid (c ∷ cs) h v = run-IsValid cs (step c h) (step-IsValid c h v)

-- A base writer with a log: a message is in the log after a write that returned nil, and a write
-- that failed leaves the log as it was.
pub record HasLog {M E S : Type 0} (base : M → S → Option E × S) (log : S → List M) : Type 0 where
  pub logs : (m : M) (s : S) → (base m s).0 ≡ none → log (base m s).1 ≡ log s ++ m ∷ []
  pub keeps : (m : M) (s : S) (e : E) → (base m s).0 ≡ some e → log (base m s).1 ≡ log s

module _ {M E S : Type 0} {base : M → S → Option E × S} {log : S → List M}
    (w : HasLog base log) where
  -- A batch is written in order, up to the first failure; it reports success only if all of it was.
  pub write_all-log :
      (ms : List M) (s : S)
      → (kept lost : List M) × (ms ≡ kept ++ lost)
        × (log (write_all base ms s).1 ≡ log s ++ kept)
        × ((write_all base ms s).0 ≡ none → lost ≡ [])
  unfolding write_all
  write_all-log [] s = ([], [], refl, sym (append-nil (log s)), λ _. refl)
  write_all-log (m ∷ ms) s = elim (Option-cases (base m s).0) [
    | inl e ↦
        let (kept, lost, split, logged, all) = write_all-log ms (base m s).1 in
        (
          m ∷ kept,
          lost,
          ap (◌∷◌ m) split,
          rw (e, write_all) (logged ∙ rw (w.logs m s e) (append_assoc (log s) (m ∷ []) kept)),
          rw (e, write_all) all,
        )
    | inr (e, r) ↦ (
      [],
      m ∷ ms,
      refl,
      rw (r, write_all) (rw append-nil (w.keeps m s e r)),
      rw (r, write_all) (λ h. cc),
    )
  ]

  finish-log :
      (ms : List M) (pending : Option (WriteError E)) (s : S)
      → (finish base (flush ms pending) s).0 ≡ none
      → (pending ≡ none) × (log (finish base (flush ms pending) s).1 ≡ log s ++ ms)
  unfolding finish
  finish-log ms pending s h =
      let (kept, lost, split, logged, all) = write_all-log ms s in ground (arith, append-nil kept)

  -- What is owed: with every call clean and no error stored, what the base was given in order,
  -- followed by the buffer, is what was accepted.
  abbrev pub Accounted : List M → History M E S → Type 0
  Accounted old h =
      h.clean ≡ true → h.writer.last_err ≡ none → log h.state ++ h.writer.buffer ≡ old ++ h.accepted

  step-Accounted :
      (old : List M) (c : Call M) (h : History M E S)
      → IsValid h.writer
      → Accounted old h
      → Accounted old (step base c h)
  unfolding step
  step-Accounted old (writes m) h v owed = ground (
    arith,
    owed,
    finish-log (h.writer.buffer ++ m ∷ []) h.writer.last_err h.state,
    append-nil (log h.state),
    append-nil (log (write_all base (h.writer.buffer ++ m ∷ []) h.state).1),
    append_assoc (log h.state) h.writer.buffer (m ∷ []),
    append_assoc old h.accepted (m ∷ []),
  )
  step-Accounted old closes h v owed = ground (
    arith,
    owed,
    finish-log h.writer.buffer h.writer.last_err h.state,
    append-nil (log h.state),
    append-nil (log (write_all base h.writer.buffer h.state).1),
  )
  step-Accounted old fires h v owed = ground (
    arith,
    owed,
    finish-log h.writer.buffer none h.state,
    append-nil (log h.state),
    append-nil (log (write_all base h.writer.buffer h.state).1),
  )

  run-Accounted :
      (cs : List (Call M)) (old : List M) (h : History M E S)
      → IsValid h.writer
      → Accounted old h
      → Accounted old (run base cs h)
  unfolding run
  run-Accounted [] old h v owed = owed
  run-Accounted (c ∷ cs) old h v owed =
      run-Accounted cs old (step base c h) (step-IsValid base c h v) (step-Accounted old c h v owed)

  -- A new buffered writer, after any calls and timer runs over a base writer with a log: if every
  -- Write and Close returned nil and no error is stored, the log and then the buffer are the old
  -- log and then the accepted messages, in order, and the writer is well formed.
  pub run_in_order :
      (cs : List (Call M)) (batch interval : ℤ) (s : S)
      → (run base cs (start batch interval s)).clean ≡ true
      → (run base cs (start batch interval s)).writer.last_err ≡ none
      → (log (run base cs (start batch interval s)).state
            ++ (run base cs (start batch interval s)).writer.buffer
          ≡ log s ++ (run base cs (start batch interval s)).accepted)
        × IsValid (run base cs (start batch interval s)).writer
  unfolding start new_buffered_writer
  run_in_order cs batch interval s clean none_left =
      let v = new_buffered_writer-IsValid batch interval in
      (
        run-Accounted cs (log s) (start batch interval s) v (λ _ _. refl) clean none_left,
        run-IsValid base cs (start batch interval s) v,
      )
