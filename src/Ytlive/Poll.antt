-- ===== src/Ytlive/Poll.antt =====
-- internal/ytlive/client.go: what the answer of a poll says about the next one. A map's children come in
-- the order in which `range` visits them; times are nanoseconds.
pub mod First
use gnasty_chat.Prelude.{
  ℕ, Bool, true, false, ◌&&◌, Option, none, some, List, [], ◌∷◌, ◌++◌, if◌then◌else◌, is_nil, ℤ,
  wrap64, scale, is_positive, positive_or,
}
use gnasty_chat.Text.{Bytes, codes, trim_space}
use gnasty_chat.Text.Decimal.{parse_int}
use gnasty_chat.Json.{Json, num, str, arr, obj, Items, nil, cons, Fields, end, field, get}
use gnasty_chat.Ytlive.Emotes.{string_field}
use gnasty_chat.Ytlive.Continuation.{or_else, endpoint_token}

pub record Found : Type 0 where
  pub cont : Bytes
  pub timeout : ℤ
  pub has_timeout : Bool

-- The continuation of one map: a later one of the three replaces an earlier one.
unfoldable pub node_continuation : Fields → Bytes
node_continuation val = or_else (endpoint_token (codes "liveChatContinuationEndpoint") val) (
    or_else (endpoint_token (codes "continuationEndpoint") val)
      (string_field val (codes "continuation")))

unfoldable pub if_positive : ℤ → Option ℤ
if_positive n = if is_positive n then some n else none

unfoldable pub timeout_of : Option Json → Option ℤ
timeout_of (some (num n)) = if_positive n
timeout_of (some (str s)) = elim (parse_int (trim_space s)) [ none ↦ none | some n ↦ if_positive n ]
timeout_of _ = none

unfoldable pub node_timeout : Fields → Option ℤ
node_timeout val = timeout_of (get (codes "timeoutMs") val)

unfoldable pub set_cont : Fields → Found → Found
set_cont val r = record r { cont = or_else r.cont (node_continuation val) }

unfoldable pub set_timeout : Fields → Found → Found
set_timeout val r = if r.has_timeout then r else elim (node_timeout val) [
  | none ↦ r
  | some n ↦ record r { timeout = n; has_timeout = true }
]

unfoldable mutual
  unfolding set_cont set_timeout

  pub walk : Json → Found → Found
  walk (obj val) r = walk_fields val (set_timeout val (set_cont val r))
  walk (arr val) r = walk_items val r
  walk _ r = r

  pub walk_items : Items → Found → Found
  walk_items nil r = r
  walk_items (cons child val) r = walk_items val (walk child r)

  pub walk_fields : Fields → Found → Found
  walk_fields end r = r
  walk_fields (field k child val) r = walk_fields val (walk child r)

unfoldable pub extract_continuation : Fields → Found
extract_continuation payload =
    walk (obj payload) (record { cont = []; timeout = ℤ.pos 0; has_timeout = false })

abbrev pub default_live_poll_delay : ℤ
default_live_poll_delay = ℤ.pos 3_000_000_000

-- The delay and whether it is the continuation's: the product is an int64.
unfoldable pub next_live_poll_delay : ℤ → Bool → ℤ → ℤ × Bool
next_live_poll_delay timeout_ms has_timeout fallback =
    if has_timeout && is_positive timeout_ms
    then (wrap64 (scale timeout_ms 1_000_000), true)
    else if is_positive fallback
    then (fallback, false)
    else (default_live_poll_delay, false)

-- For how long sleepContext waits.
unfoldable pub sleep_time : ℤ → ℕ
sleep_time d = positive_or 1_000_000 d
