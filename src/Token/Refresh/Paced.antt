-- ===== src/Token/Refresh/Paced.antt =====
-- internal/twitch/oauth.go: the waits of StartAuto.
use gnasty_chat.Prelude.{
  ℕ, suc, ◌*◌, ◌^◌, ◌≤◌, min, Bool, true, false, Option, List, [], ◌∷◌, ◌≡◌, arith, ℤ,
}
use gnasty_chat.Text.{Bytes}
use gnasty_chat.Backoff.{second, minute, grow_times, grow_times-min}
use gnasty_chat.Token.Refresh.{
  Manager, Response, Refreshed, failed, refreshed, refresh, set_refresh_token, Event, ticks, sets,
  cancelled, Effect, waits, updates, interval_from, first_wait, settle, auto, start_auto,
}

-- The n-th wait after n failures in a row is 2^n seconds, at most a minute; after an update, the loop
-- waits for a minute at least.
abbrev pub IsPaced : ℕ → List Effect → Type 0
IsPaced n [] = Unit
IsPaced n (waits w ∷ effects) = (w ≡ min (second * 2 ^ n) minute) × IsPaced (suc n) effects
IsPaced n (updates token ∷ waits w ∷ effects) = (minute ≤ w) × IsPaced 0 effects
IsPaced n (updates token ∷ []) = ⊥
IsPaced n (updates token ∷ updates other ∷ effects) = ⊥

abbrev pub IsStarted : List Effect → Type 0
IsStarted [] = ⊥
IsStarted (waits w ∷ effects) = (minute ≤ w) × IsPaced 0 effects
IsStarted (updates token ∷ effects) = ⊥

module _ (decode : Bytes → Option Response) (times_85 : ℤ → ℤ) where
  interval_from-le : (exp : ℤ) → minute ≤ interval_from decode times_85 exp
  unfolding interval_from
  interval_from-le exp = ground arith

  first_wait-le : (m : Manager) → minute ≤ first_wait decode times_85 m
  unfolding first_wait
  first_wait-le m = ground (arith, interval_from-le m.last_expires)

  settle-IsPaced :
      (n : ℕ) (r : Refreshed) (done : Bool) (more : ℕ → List Effect)
      → IsPaced (suc n) (more (grow_times (suc n)))
      → IsPaced 0 (more second)
      → IsPaced n (settle decode times_85 r done (grow_times n) more)
  unfolding settle grow_times
  settle-IsPaced n (failed e) true more h k = tt
  settle-IsPaced n (failed e) false more h k = (grow_times-min n, h)
  settle-IsPaced n (refreshed token expires) done more h k = (interval_from-le expires, k)

  auto-IsPaced :
      (m : Manager) (file : Option Bytes) (n : ℕ) (events : List Event)
      → IsPaced n (auto decode times_85 m file (grow_times n) events)
  unfolding auto grow_times
  auto-IsPaced m file n [] = tt
  auto-IsPaced m file n (cancelled ∷ events) = tt
  auto-IsPaced m file n (sets token ∷ events) =
      auto-IsPaced (set_refresh_token token m) file n events
  auto-IsPaced m file n (ticks ask fault done ∷ events) =
      let (result, m', file') = refresh decode ask fault m file in
      settle-IsPaced n result done (λ b. auto decode times_85 m' file' b events)
        (auto-IsPaced m' file' (suc n) events) (auto-IsPaced m' file' 0 events)

  -- Whatever is answered, fails or is set in between: `StartAuto` waits for at least a minute
  -- first and after every update, and after n failures in a row for the smaller of 2^n seconds
  -- and a minute, counting from n = 0.
  pub start_auto-IsStarted :
      (m : Manager) (file : Option Bytes) (events : List Event)
      → IsStarted (start_auto decode times_85 m file events)
  unfolding start_auto grow_times
  start_auto-IsStarted m file events = (first_wait-le m, auto-IsPaced m file 0 events)
