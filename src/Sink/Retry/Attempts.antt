-- ===== src/Sink/Retry/Attempts.antt =====
-- internal/sink/sqlite.go, withRetry: how long it takes, and what it returns.
use gnasty_chat.Prelude.{
  ℕ, zero, suc, ◌+◌, ◌*◌, ◌≤◌, ◌<◌, true, false, Option, none, some, ◌≡◌, refl, sym, arith, inl,
  inr, Bool-cases, total,
}
use gnasty_chat.Text.{Bytes}
use gnasty_chat.Sink.Retry.{
  Tried, max_attempts, exhausted, is_busy, wait_for, after_attempt, try_from, with_retry,
}

module _ {S : Type 0} (fn : S → Option Bytes × S) where
  -- The state before attempt i, each attempt made in the state that the last one left.
  unfoldable pub state_before : ℕ → S → S
  state_before zero s = s
  state_before (suc i) s = state_before i (fn s).1

  -- An answer that is tried again.
  unfoldable pub IsBusy : S → Type 0
  IsBusy s = (error : Bytes) × ((fn s).0 ≡ some error) × (is_busy error ≡ true)

  -- The first attempts find the database busy.
  unfoldable pub AllBusy : ℕ → S → Type 0
  AllBusy zero s = Unit
  AllBusy (suc n) s = IsBusy s × AllBusy n (fn s).1

  -- An answer that ends the loop.
  pub data IsLast : Option Bytes → Type 0 where
    succeeds : IsLast none
    fails : {error : Bytes} → is_busy error ≡ false → IsLast (some error)

  -- After n busy answers the next one ends the loop; or all of them were busy.
  pub data IsTried : ℕ → S → Tried S → Type 0 where
    ended :
        {left : ℕ} {s : S} {t : Tried S} (n : ℕ)
        → n < left
        → AllBusy n s
        → IsLast (fn (state_before n s)).0
        → t.error ≡ (fn (state_before n s)).0
        → t.calls ≡ suc n
        → t.state ≡ (fn (state_before n s)).1
        → IsTried left s t
    gave_up :
        {left : ℕ} {s : S} {t : Tried S}
        → AllBusy left s
        → t.error ≡ some exhausted
        → t.calls ≡ left
        → t.state ≡ state_before left s
        → IsTried left s t

  wait_for-IsTried :
      (left : ℕ) (s : S) (d : ℕ) (t : Tried S)
      → IsBusy s
      → IsTried left (fn s).1 t
      → IsTried (suc left) s (wait_for d t)
  unfolding wait_for AllBusy state_before
  wait_for-IsTried left s d t b (ended n lt all last e c st) =
      ended (suc n) (omega (arith, lt)) (b, all) last e (omega (arith, c)) st
  wait_for-IsTried left s d t b (gave_up all e c st) = gave_up (b, all) e (omega (arith, c)) st

  after_attempt-IsTried :
      (left i : ℕ) (s : S) (o : Option Bytes) (more : Tried S)
      → (fn s).0 ≡ o
      → IsTried left (fn s).1 more
      → IsTried (suc left) s (after_attempt o (fn s).1 i more)
  unfolding after_attempt AllBusy state_before IsBusy
  after_attempt-IsTried left i s none more e h =
      ended 0 (omega arith) tt (rw e succeeds) (sym e) refl refl
  after_attempt-IsTried left i s (some error) more e h = elim (Bool-cases (is_busy error)) [
    | inl b ↦ rw b (wait_for-IsTried left s _ more (error, e, b) h)
    | inr b ↦ rw b (ended 0 (omega arith) tt (rw e (fails b)) (sym e) refl refl)
  ]

  try_from-IsTried : (left i : ℕ) (s : S) → IsTried left s (try_from fn left i s)
  unfolding try_from AllBusy state_before
  try_from-IsTried zero i s = gave_up tt refl refl refl
  try_from-IsTried (suc left) i s =
      after_attempt-IsTried left i s (fn s).0 (try_from fn left (i + 1) (fn s).1) refl
        (try_from-IsTried left (i + 1) (fn s).1)

  -- The waits if every attempt from the i-th on finds the database busy.
  budget : ℕ → ℕ → ℕ
  budget zero i = 0
  budget (suc left) i = 100 * (i + 1) * 1_000_000 + budget left (i + 1)

  waits_within : (left i : ℕ) (s : S) → total (λ d. d) (try_from fn left i s).waits ≤ budget left i
  unfolding try_from after_attempt wait_for budget
  waits_within zero i s = omega arith
  waits_within (suc left) i s = ground (arith, waits_within left (i + 1) (fn s).1)

  -- A function is called until it succeeds, fails otherwise than with a busy database, or was
  -- called five times; its last answer is returned, or that the retries are exhausted; the waits
  -- add up to a second and a half at most.
  pub with_retry-IsTried :
      (s : S)
      → IsTried max_attempts s (with_retry fn s)
        × (total (λ d. d) (with_retry fn s).waits ≤ 1_500_000_000)
  unfolding with_retry budget
  with_retry-IsTried s = (try_from-IsTried max_attempts 0 s, waits_within max_attempts 0 s)
