-- ===== src/Backoff.antt =====
-- The doubling delay that internal/twitchirc/client.go, internal/ytlive/client.go and
-- internal/twitch/oauth.go all use between attempts. Times are nanoseconds.
use gnasty_chat.Prelude.{ℕ, zero, suc, ◌*◌, ◌^◌, ◌≤◌, min, ltb, if◌then◌else◌, ◌≡◌, refl, arith}
use native.Mathlib.Nat.{pow-suc}

abbrev pub second : ℕ
second = 1_000_000_000

abbrev pub minute : ℕ
minute = 60_000_000_000

-- `if backoff < max { backoff *= 2; if backoff > max { backoff = max } }` at one minute
unfoldable pub grow : ℕ → ℕ
grow b = if ltb b minute then (if ltb minute (b * 2) then minute else b * 2) else b

-- The delay after so many failures in a row.
unfoldable pub grow_times : ℕ → ℕ
grow_times zero = second
grow_times (suc n) = grow (grow_times n)

pub grow_bounds : (b : ℕ) → second ≤ b → b ≤ minute → (b ≤ grow b) × (grow b ≤ minute)
unfolding grow
grow_bounds b lo hi = ground arith

grow-min : (b : ℕ) → b ≤ minute → grow b ≡ min (b * 2) minute
unfolding grow
grow-min b h = ground arith

-- After n failures in a row the delay is the smaller of 2^n seconds and a minute.
pub grow_times-min : (n : ℕ) → grow_times n ≡ min (second * 2 ^ n) minute
unfolding grow_times
grow_times-min zero = refl
grow_times-min (suc n) =
    let ih = grow_times-min n in
    rw (ih, grow-min (min (second * 2 ^ n) minute) (omega arith), pow-suc) (omega arith)
