-- ===== src/Http/Limits/Separate.antt =====
-- The limiter of internal/httpapi/middleware.go keeps the addresses apart.
use gnasty_chat.Prelude.{
  ℕ, ◌+◌, ◌≤◌, Bool, Option, none, some, List, [], ◌∷◌, ◌≡◌, inl, inr, refl, arith, ap, ◌∙◌, ℤ,
  if◌then◌else◌, All, Bool-cases,
}
use mathlib.Core.Path.{ap₂}
use gnasty_chat.Text.{Bytes, beq}
use gnasty_chat.Text.Equality.{beq-cases, beq_refl}
use gnasty_chat.Dict.{Dict, lookup, insert, lookup-insert}
use gnasty_chat.Http.Limits.{
  Buckets, Entry, Limiter, expire, cleanup, new_limiter, bucket_of, charge, allow,
}

module _ {B : Type 0} (b : Buckets B) (start lifetime : ℕ) where
  -- No entry of the address, or one that was seen since the start.
  abbrev IsRecent : Option (Entry B) → Type 0
  IsRecent none = Unit
  IsRecent (some e) = start ≤ e.last_seen

  lookup-expire :
      (now : ℕ) (ip : Bytes) (m : Dict (Entry B))
      → now ≤ start + lifetime
      → IsRecent (lookup ip m)
      → lookup ip (expire now lifetime m) ≡ lookup ip m
  unfolding lookup expire
  lookup-expire now ip [] h r = refl
  lookup-expire now ip ((j, e) ∷ m) h r = ground (arith, lookup-expire now ip m h)

  -- What the entries hold after a request, if none that counts has expired.
  lookup-allow :
      (now : ℕ) (ip j : Bytes) (l : Limiter B)
      → l.lifetime ≡ lifetime
      → start ≤ now
      → now ≤ start + lifetime
      → IsRecent (lookup j l.entries)
      → lookup j (allow b now ip l).1.entries ≡ lookup j (charge b now ip l).1.entries
  unfolding allow charge cleanup
  lookup-allow now ip j l same s h r =
      let e : Entry B = record { limiter = (b.allow now (bucket_of b ip l)).1; last_seen = now } in
      ground (arith, lookup-expire now j (insert ip e l.entries) h (recent e s), same)
    where
      recent : (e : Entry B) → start ≤ e.last_seen → IsRecent (lookup j (insert ip e l.entries))
      recent e le = elim (Bool-cases (beq ip j)) [
        | inl t ↦ rw (lookup-insert ip j e l.entries, t) le
        | inr t ↦ rw (lookup-insert ip j e l.entries, t) r
      ]

  settings-allow :
      (now : ℕ) (ip : Bytes) (l : Limiter B)
      → ((allow b now ip l).1.rate ≡ l.rate)
        × ((allow b now ip l).1.burst ≡ l.burst)
        × ((allow b now ip l).1.lifetime ≡ l.lifetime)
  unfolding allow charge cleanup
  settings-allow now ip l = ground arith

  -- The bucket of an address changes by its own requests alone, and stays recent.
  bucket_of-allow :
      (now : ℕ) (ip j : Bytes) (l : Limiter B)
      → l.lifetime ≡ lifetime
      → start ≤ now
      → now ≤ start + lifetime
      → IsRecent (lookup j l.entries)
      → (bucket_of b j (allow b now ip l).1
          ≡ (if beq ip j then (b.allow now (bucket_of b ip l)).1 else bucket_of b j l))
        × IsRecent (lookup j (allow b now ip l).1.entries)
  unfolding bucket_of
  bucket_of-allow now ip j l same s h r =
      let e : Entry B = record { limiter = (b.allow now (bucket_of b ip l)).1; last_seen = now } in
      let kept = lookup-allow now ip j l same s h r in
      let held : lookup j (charge b now ip l).1.entries
          ≡ (if beq ip j then some e else lookup j l.entries) =
        unfold charge in lookup-insert ip j e l.entries in
      ground (arith, kept, held, settings-allow now ip l, r)

  answer-allow :
      (now : ℕ) (ip : Bytes) (l : Limiter B)
      → (allow b now ip l).0 ≡ (b.allow now (bucket_of b ip l)).0
  unfolding allow charge
  answer-allow now ip l = ground arith

-- The answers to the requests of one address among those of all, each with its time.
pub answers : {B : Type 0} → Buckets B → Bytes → List (ℕ × Bytes) → Limiter B → List Bool
answers b j [] l = []
answers b j ((now, ip) ∷ rs) l =
    let rest = answers b j rs (allow b now ip l).1 in
    if beq ip j then (allow b now ip l).0 ∷ rest else rest

-- The times of its requests, and what its bucket answers when it is used for nothing else.
pub times_of : Bytes → List (ℕ × Bytes) → List ℕ
times_of j [] = []
times_of j ((now, ip) ∷ rs) = let rest = times_of j rs in if beq ip j then now ∷ rest else rest

pub alone : {B : Type 0} → Buckets B → List ℕ → B → List Bool
alone b [] bucket = []
alone b (now ∷ ts) bucket = (b.allow now bucket).0 ∷ alone b ts (b.allow now bucket).1

-- The time lies in the first lifetime from the start.
abbrev pub IsWithin : ℕ → ℕ → ℕ × Bytes → Type 0
IsWithin start lifetime r = (start ≤ r.0) × (r.0 ≤ start + lifetime)

answers-alone_from :
    {B : Type 0} (b : Buckets B) (start lifetime : ℕ) (j : Bytes) (rs : List (ℕ × Bytes))
    (l : Limiter B)
    → l.lifetime ≡ lifetime
    → All (IsWithin start lifetime) rs
    → IsRecent b start lifetime (lookup j l.entries)
    → answers b j rs l ≡ alone b (times_of j rs) (bucket_of b j l)
unfolding answers times_of alone
answers-alone_from b start lifetime j [] l same h r = refl
answers-alone_from b start lifetime j ((now, ip) ∷ rs) l same ((s, e), h) r =
    let (kept, recent) = bucket_of-allow b start lifetime now ip j l same s e r in
    let settings = settings-allow b start lifetime now ip l in
    let ih =
      answers-alone_from b start lifetime j rs (allow b now ip l).1 (settings.2 ∙ same) h recent in
    let first = answer-allow b start lifetime now ip l in
    elim (beq-cases ip j) [
      | inl i ↦
          rw (i, beq_refl j)
            (ap₂ ◌∷◌ (rw i at first)
              (rw i at ih ∙ ap (alone b (times_of j rs)) (rw (i, beq_refl j) at kept)))
      | inr i ↦ rw i (ih ∙ ap (alone b (times_of j rs)) (rw i at kept))
    ]

new_limiter-facts :
    {B : Type 0} (rps burst : ℤ) (l : Limiter B)
    → new_limiter rps burst ≡ some l
    → (l.entries ≡ []) × (l.lifetime ≡ 300_000_000_000) × (l.rate ≡ rps) × (l.burst ≡ burst)
unfolding new_limiter
new_limiter-facts rps burst l e = ground (arith, e)

bucket_of_fresh :
    {B : Type 0} (b : Buckets B) (j : Bytes) (l : Limiter B)
    → l.entries ≡ []
    → bucket_of b j l ≡ b.new l.rate l.burst
unfolding bucket_of lookup
bucket_of_fresh b j l e = rw e refl

IsRecent-fresh :
    {B : Type 0} (b : Buckets B) (start lifetime : ℕ) (j : Bytes) (l : Limiter B)
    → l.entries ≡ []
    → IsRecent b start lifetime (lookup j l.entries)
unfolding lookup
IsRecent-fresh b start lifetime j l e = rw e tt

-- Within the first lifetime of a limiter, an address gets exactly the answers of a bucket that is
-- its own and is used for nothing else, whatever the other addresses send in between and however
-- often the entries are cleaned up.
pub answers-alone :
    {B : Type 0} (b : Buckets B) (rps burst : ℤ) (start : ℕ) (j : Bytes) (rs : List (ℕ × Bytes))
    (l : Limiter B)
    → new_limiter rps burst ≡ some l
    → All (IsWithin start 300_000_000_000) rs
    → answers b j rs l ≡ alone b (times_of j rs) (b.new rps burst)
answers-alone b rps burst start j rs l e h =
    let (empty, life, rate, size) = new_limiter-facts rps burst l e in
    answers-alone_from b start 300_000_000_000 j rs l life h
      (IsRecent-fresh b start 300_000_000_000 j l empty)
    ∙ ap (alone b (times_of j rs)) (bucket_of_fresh b j l empty ∙ ap₂ b.new rate size)
