-- ===== src/Irc/Drops/Counts.antt =====
-- The drop logger of internal/twitchirc/drop_logging.go: its counts agree, and its summaries wait for
-- the interval.
use gnasty_chat.Prelude.{
  ℕ, ◌+◌, ◌<◌, Bool, [], ◌∷◌, ◌≡◌, refl, arith, Bool-cases, inl, inr, ℤ, is_nil, leb,
}
use gnasty_chat.Text.{Bytes}
use gnasty_chat.Dict.{Dict, lookup, get_or, insert, AllValues, AllValues-insert, AllValues-get_or}
use gnasty_chat.Irc.Drops.Summary.{IrcSummary, summarize_irc}
use gnasty_chat.Irc.Drops.{
  DropLogger, DropReasonSummary, no_drops, new_drop_logger, count_drop, add_drop, flush, note,
}

pub sum_values : Dict ℕ → ℕ
sum_values [] = 0
sum_values ((k, n) ∷ m) = n + sum_values m

sum_values-insert :
    (k : Bytes) (m : Dict ℕ) → sum_values (insert k (get_or k m 0 + 1) m) ≡ sum_values m + 1
unfolding sum_values insert get_or lookup
sum_values-insert k [] = omega arith
sum_values-insert k ((j, n) ∷ m) = ground (arith, sum_values-insert k m)

-- The total of a reason is the sum over its commands.
abbrev pub IsBalanced : DropReasonSummary → Type 0
IsBalanced e = e.total ≡ sum_values e.by_command

pub record IsValid (d : DropLogger) : Type 0 where
  pub waits : 0 < d.interval
  pub balanced : AllValues IsBalanced d.reasons

pub new_drop_logger-IsValid :
    (now : ℕ) (verbose : Bool) (interval : ℤ) → IsValid (new_drop_logger now verbose interval)
unfolding new_drop_logger
new_drop_logger-IsValid now verbose interval = ground arith

no_drops-IsBalanced : IsBalanced no_drops
unfolding sum_values
no_drops-IsBalanced = refl

count_drop-IsBalanced :
    (s : IrcSummary) (e : DropReasonSummary) → IsBalanced e → IsBalanced (count_drop s e)
unfolding count_drop
count_drop-IsBalanced s e h = omega (arith, sum_values-insert s.command e.by_command)

add_drop-IsValid :
    (reason : Bytes) (s : IrcSummary) (d : DropLogger) → IsValid d → IsValid (add_drop reason s d)
unfolding add_drop
add_drop-IsValid reason s d v = record {
  waits = v.waits;
  balanced =
      AllValues-insert IsBalanced reason _ d.reasons
        (count_drop-IsBalanced s (get_or reason d.reasons no_drops)
          (AllValues-get_or IsBalanced reason d.reasons no_drops no_drops-IsBalanced v.balanced))
        v.balanced;
}

flush-IsValid : (now : ℕ) (d : DropLogger) → IsValid d → IsValid (flush now d).1
unfolding flush
flush-IsValid now d v = elim (Bool-cases (is_nil d.reasons)) [
  | inl e ↦ rw e (record { waits = v.waits; balanced = v.balanced })
  | inr e ↦ rw e (record { waits = v.waits; balanced = tt })
]

next_emit-flush : (now : ℕ) (d : DropLogger) → (flush now d).1.next_emit ≡ now + d.interval
unfolding flush
next_emit-flush now d = ground arith

-- Noting a dropped line keeps every total the sum of its counts by command, and afterwards the
-- next summary lies in the future, if the interval is positive.
pub note-IsValid :
    (now : ℕ) (reason raw : Bytes) (d : DropLogger)
    → IsValid d
    → IsValid (note now reason raw d).1 × (now < (note now reason raw d).1.next_emit)
unfolding note
note-IsValid now reason raw d v =
    let s = summarize_irc raw in
    let w = add_drop-IsValid reason s d v in
    elim (Bool-cases (leb (add_drop reason s d).next_emit now)) [
      | inl e ↦ rw e (
        flush-IsValid now (add_drop reason s d) w,
        rw (next_emit-flush now (add_drop reason s d)) (omega (arith, w.waits)),
      )
      | inr e ↦ rw e (w, ground arith)
    ]
