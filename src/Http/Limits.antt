-- ===== src/Http/Limits.antt =====
-- internal/httpapi/middleware.go: the limiter per address, and which address a request is counted
-- under. The token bucket of golang.org/x/time/rate and net.SplitHostPort are parameters; times are
-- nanoseconds.
pub mod Separate
use gnasty_chat.Prelude.{
  ℕ, ◌+◌, ◌-◌, Bool, true, false, ◌||◌, Option, none, some, List, [], ◌∷◌, ltb, if◌then◌else◌,
  is_nil, length, ℤ, lez, is_positive, not,
}
use gnasty_chat.Text.{Bytes, trim_space, split}
use gnasty_chat.Dict.{Dict, lookup, insert}

-- A bucket is made by NewLimiter; Allow takes the time.
pub record Buckets (B : Type 0) : Type 0 where
  pub new : ℤ → ℤ → B
  pub allow : ℕ → B → Bool × B

pub record Entry (B : Type 0) : Type 0 where
  pub limiter : B
  pub last_seen : ℕ

pub record Limiter (B : Type 0) : Type 0 where
  pub entries : Dict (Entry B)
  pub rate : ℤ
  pub burst : ℤ
  pub lifetime : ℕ

module _ {B : Type 0} where
  unfoldable pub new_limiter : ℤ → ℤ → Option (Limiter B)
  new_limiter rps burst =
      if lez rps (ℤ.pos 0) || lez burst (ℤ.pos 0)
      then none
      else some (record { entries = []; rate = rps; burst = burst; lifetime = 300_000_000_000 })

  -- `lastSeen.Before(now - lifetime)`
  unfoldable pub expire : ℕ → ℕ → Dict (Entry B) → Dict (Entry B)
  expire now lifetime [] = []
  expire now lifetime ((ip, e) ∷ m) =
      let rest = expire now lifetime m in
      if ltb (e.last_seen + lifetime) now then rest else (ip, e) ∷ rest

  unfoldable pub cleanup : ℕ → Limiter B → Limiter B
  cleanup now l = record l { entries = expire now l.lifetime l.entries }

  -- The bucket of an address, a new one if there is none.
  unfoldable pub bucket_of : Buckets B → Bytes → Limiter B → B
  bucket_of b ip l = elim (lookup ip l.entries) [ none ↦ b.new l.rate l.burst | some e ↦ e.limiter ]

  unfoldable pub charge : Buckets B → ℕ → Bytes → Limiter B → Bool × Limiter B
  charge b now ip l =
      let (allowed, bucket) = b.allow now (bucket_of b ip l) in
      (
        allowed,
        record l { entries = insert ip (record { limiter = bucket; last_seen = now }) l.entries },
      )

  unfoldable pub allow : Buckets B → ℕ → Bytes → Limiter B → Bool × Limiter B
  allow b now ip l =
      let (allowed, charged) = charge b now ip l in
      if ltb 1_024 (length charged.entries)
      then (allowed, cleanup now charged)
      else (allowed, charged)

unfoldable pub first_address : List Bytes → Option Bytes
first_address [] = none
first_address (p ∷ ps) =
    let rest = first_address ps in if is_nil (trim_space p) then rest else some (trim_space p)

-- The header X-Forwarded-For, the remote address, and net.SplitHostPort's host.
unfoldable pub remote_ip : (Bytes → Option Bytes) → Bytes → Bytes → Bytes
remote_ip host_of forwarded remote =
    elim (if is_nil forwarded then none else first_address (split b',' forwarded)) [
      | some ip ↦ ip
      | none ↦ elim (host_of remote) [ none ↦ remote | some host ↦ host ]
    ]
