-- ===== src/Sink/Buffered/Tests.antt =====
-- Runs of the buffered writer of internal/sink/buffered.go, and the theorems at concrete inputs.
use gnasty_chat.Prelude.{
  ℕ, Option, none, some, List, [], ◌∷◌, ◌++◌, ◌≡◌, refl, arith, ltb, if◌then◌else◌, pos,
}
use gnasty_chat.Sink.Buffered.{failed, new_buffered_writer}
use gnasty_chat.Sink.Buffered.Batches.{
  IsValid, HasLog, Call, writes, fires, run, start, run_in_order,
}
use gnasty_chat.Sink.Buffered.Interleaving.{
  IsConserved, Reach, here, next, Step, System, idle, after_write, after_fire, Reach-IsConserved,
}

-- A base writer whose state is its log, and which refuses numbers from 100 on.
abbrev picky : ℕ → List ℕ → Option ℕ × List ℕ
picky m s = if ltb m 100 then (none, s ++ m ∷ []) else (some m, s)

picky-HasLog : HasLog picky (λ s. s)
picky-HasLog = record { logs = λ m s h. ground arith; keeps = λ m s e h. ground arith }

abbrev calls : List (Call ℕ)
calls = writes 1 ∷ writes 2 ∷ writes 3 ∷ fires ∷ writes 4 ∷ []

calls-run : (run picky calls (start (pos 2) (pos 50) [])).state ≡ 1 ∷ 2 ∷ 3 ∷ []
unfolding run start new_buffered_writer
calls-run = refl

-- A failed timer flush is reported by the next `Write`, once.
late_error :
    (run picky (writes 200 ∷ fires ∷ []) (start (pos 3) (pos 50) [])).writer.last_err
    ≡ some (failed 200)
unfolding run start new_buffered_writer
late_error = refl

run_in_order_example :
    ((run picky calls (start (pos 2) (pos 50) [])).state
        ++ (run picky calls (start (pos 2) (pos 50) [])).writer.buffer
      ≡ [] ++ (run picky calls (start (pos 2) (pos 50) [])).accepted)
    × IsValid (run picky calls (start (pos 2) (pos 50) [])).writer
unfolding run start new_buffered_writer
run_in_order_example = run_in_order picky-HasLog calls (pos 2) (pos 50) [] refl refl

-- The timer's batch is on its way while another message is accepted.
abbrev busy : System ℕ ℕ
busy = after_write 8 (after_fire (after_write 7 (idle (pos 3) (pos 50))))

busy_reached : Reach (idle {E = ℕ} (pos 3) (pos 50)) busy
busy_reached = next (next (next here (Step.write 7 refl)) (Step.fire refl)) (Step.write 8 refl)

Reach-IsConserved_example : IsConserved (λ m. m) busy
Reach-IsConserved_example = Reach-IsConserved (λ m. m) (pos 3) (pos 50) busy_reached
