-- ===== src/Http/Origins.antt =====
-- internal/httpapi/middleware.go: the policy for requests from other origins.
use gnasty_chat.Prelude.{
  ℕ, Bool, true, false, ◌&&◌, ◌||◌, Option, none, some, List, [], ◌∷◌, ◌≡◌, ◌≢◌, refl, arith,
  if◌then◌else◌, is_nil,
}
use gnasty_chat.Text.{Bytes, codes, beq, has_prefix, trim_space}
use gnasty_chat.Text.Equality.{beq_iff}
use gnasty_chat.Http.Filters.{one_of}

pub record Policy : Type 0 where
  pub allow_all : Bool
  pub origins : List Bytes

-- The loop of `newCORSPolicy`.
unfoldable pub collect_origins : List Bytes → List Bytes → Policy
collect_origins [] seen = record { allow_all = false; origins = seen }
collect_origins (o ∷ os) seen =
    let skip = collect_origins os seen in
    let take = collect_origins os (trim_space o ∷ seen) in
    if is_nil (trim_space o)
    then skip
    else if beq (trim_space o) (codes "*")
    then record { allow_all = true; origins = [] }
    else take

unfoldable pub new_policy : List Bytes → Option Policy
new_policy origins = if is_nil origins then none else some (collect_origins origins [])

unfoldable pub is_allowed : Option Policy → Bytes → Bool
is_allowed none origin = false
is_allowed (some p) origin =
    (has_prefix (codes "http://") origin || has_prefix (codes "https://") origin)
    && (p.allow_all || one_of origin p.origins)

pub data Answer : Type 0 where
  pass : Answer
  preflight : ℕ → Answer
  forbidden : Answer
  share : Answer

-- What the two blocks of `wrap` do with the method and the header Origin: `share` goes on with the header
-- Access-Control-Allow-Origin set to the origin, `pass` without it.
unfoldable pub answer : Option Policy → Bool → Bytes → Answer
answer none is_options origin = pass
answer (some p) true origin =
    if is_nil origin
    then pass
    else if is_allowed (some p) origin
    then preflight 204
    else preflight 403
answer (some p) false origin =
    if is_nil origin then pass else if is_allowed (some p) origin then share else forbidden

-- Whether the configured origins name this one, or all.
pub lists : List Bytes → Bytes → Bool
lists [] origin = false
lists (o ∷ os) origin =
    beq (trim_space o) (codes "*") || beq (trim_space o) origin || lists os origin

pub has_scheme : Bytes → Bool
has_scheme origin = has_prefix (codes "http://") origin || has_prefix (codes "https://") origin

collect_origins-lists :
    (os seen : List Bytes) (origin : Bytes)
    → origin ≢ []
    → ((collect_origins os seen).allow_all || one_of origin (collect_origins os seen).origins)
      ≡ (lists os origin || one_of origin seen)
unfolding collect_origins lists one_of
collect_origins-lists [] seen origin h = refl
collect_origins-lists (o ∷ os) seen origin h = ground (
  arith,
  beq_iff (trim_space o) origin,
  beq_iff origin (trim_space o),
  beq_iff (trim_space o) (codes "*"),
  collect_origins-lists os seen origin h,
  collect_origins-lists os (trim_space o ∷ seen) origin h,
)

has_scheme-ne-nil : (origin : Bytes) → has_scheme origin ≡ true → origin ≢ []
unfolding has_scheme has_prefix
has_scheme-ne-nil origin h = ground arith

-- Exactly the web origins that the configuration lists are allowed, where `*` lists all; without
-- a list none is.
pub is_allowed-lists :
    (os : List Bytes) (origin : Bytes)
    → is_allowed (new_policy os) origin ≡ (has_scheme origin && lists os origin)
unfolding is_allowed new_policy lists has_scheme one_of
is_allowed-lists [] origin = ground arith
is_allowed-lists (o ∷ os) origin =
    ground (arith, collect_origins-lists (o ∷ os) [] origin, has_scheme-ne-nil origin)
