-- ===== src/TwitchBadges.antt =====
-- internal/twitchbadges/resolver.go: the images of badges, and what is remembered of them. The answers of
-- Twitch's interface are parameters. Times are nanoseconds; the clock stands still during a call.
pub mod BadgeSets
pub mod Enriched
pub mod Cached
mod Tests
use gnasty_chat.Prelude.{
  ℕ, ◌+◌, ◌*◌, Bool, true, false, ◌||◌, ◌&&◌, not, Option, none, some, List, [], ◌∷◌, ◌++◌, ltb,
  if◌then◌else◌, is_nil, map, ℤ, positive_or, scale,
}
use gnasty_chat.Text.{Bytes, codes, equal_fold, to_lower, trim_space}
use gnasty_chat.Dict.{Dict, lookup, get_or, insert}
use gnasty_chat.Message.{ChatBadge, ChatBadgeImage}
use gnasty_chat.TwitchBadges.BadgeSets.{
  Sets, Versions, HelixBadgeSet, merge_badge_sets, convert_badge_sets, is_numeric_id,
}

pub record Entry (V : Type 0) : Type 0 where
  pub value : V
  pub expires_at : ℕ

pub record Resolver : Type 0 where
  pub client_id : Bytes
  pub client_secret : Bytes
  pub ttl : ℤ
  pub token : Bytes
  pub token_expires_at : ℕ
  pub badge_sets : Dict (Entry Sets)
  pub users : Dict (Entry Bytes)

-- Twitch's answers: a token and its seconds, the sets of a broadcaster or of all, a user's id; none for
-- an error.
pub record Helix : Type 0 where
  pub request_token : Option (Bytes × ℤ)
  pub request_sets : Bytes → Bytes → Option (List HelixBadgeSet)
  pub request_user : Bytes → Bytes → Option Bytes

-- Six hours.
abbrev pub default_ttl : ℕ
default_ttl = 21_600_000_000_000

-- `if ttl <= 0 { ttl = defaultTTL }`. The field does not change during a call.
unfoldable pub effective_ttl : Resolver → ℕ
effective_ttl r = positive_or default_ttl r.ttl

-- The value of an entry that has not expired.
unfoldable pub fresh : {V : Type 0} → ℕ → Option (Entry V) → Option V
fresh now none = none
fresh now (some e) = if ltb e.expires_at now then none else some e.value

unfoldable pub cached_badge_sets : ℕ → Bytes → Resolver → Option Sets
cached_badge_sets now key r = fresh now (lookup key r.badge_sets)

unfoldable pub store_badge_sets : ℕ → ℕ → Bytes → Sets → Resolver → Resolver
store_badge_sets now ttl key sets r = record r {
  badge_sets = insert key (record { value = sets; expires_at = now + ttl }) r.badge_sets;
}

unfoldable pub not_empty : Option Bytes → Option Bytes
not_empty (some (c ∷ s)) = some (c ∷ s)
not_empty _ = none

unfoldable pub cached_user_id : ℕ → Bytes → Resolver → Option Bytes
cached_user_id now channel r = not_empty (fresh now (lookup channel r.users))

unfoldable pub store_user_id : ℕ → ℕ → Bytes → Bytes → Resolver → Resolver
store_user_id now ttl channel id r = record r {
  users = insert channel (record { value = id; expires_at = now + ttl }) r.users;
}

-- The lifetime of a token, an hour if it is not positive.
unfoldable pub lifetime : ℤ → ℕ
lifetime seconds = positive_or 3600 seconds * 1_000_000_000

module _ (helix : Helix) (now : ℕ) where
  unfoldable pub keep_token : Bytes → ℤ → Resolver → Option Bytes × Resolver
  keep_token raw seconds r =
      let token = trim_space raw in
      if is_nil token
      then (none, r)
      else (some token, record r { token = token; token_expires_at = now + lifetime seconds })

  unfoldable pub fetch_token : Resolver → Option Bytes × Resolver
  fetch_token r = elim helix.request_token [
    | none ↦ (none, r)
    | some (raw, seconds) ↦ keep_token raw seconds r
  ]

  unfoldable pub app_token : Resolver → Option Bytes × Resolver
  app_token r =
      if not (is_nil r.token) && ltb now r.token_expires_at
      then (some r.token, r)
      else fetch_token r

  unfoldable pub fetch_sets : Bytes → Bytes → Bytes → Resolver → Option Sets × Resolver
  fetch_sets token key id r = elim (helix.request_sets token id) [
    | none ↦ (none, r)
    | some data_ ↦
        let sets = convert_badge_sets data_ in
        (some sets, store_badge_sets now (effective_ttl r) key sets r)
  ]

  -- The sets under a key of the cache, or those of the broadcaster, which are stored under it.
  unfoldable pub load_sets : Bytes → Bytes → Bytes → Resolver → Option Sets × Resolver
  load_sets token key id r = elim (cached_badge_sets now key r) [
    | none ↦ fetch_sets token key id r
    | some sets ↦ (some sets, r)
  ]

  unfoldable pub keep_user : Bytes → Option Bytes → Resolver → Bytes × Resolver
  keep_user channel none r = ([], r)
  keep_user channel (some id) r = (id, store_user_id now (effective_ttl r) channel id r)

  unfoldable pub find_user : Bytes → Bytes → Resolver → Bytes × Resolver
  find_user token channel r = elim (cached_user_id now channel r) [
    | some id ↦ (id, r)
    | none ↦ keep_user channel (not_empty (helix.request_user token channel)) r
  ]

  unfoldable pub broadcaster_id : Bytes → Bytes → Resolver → Bytes × Resolver
  broadcaster_id token channel r =
      if is_numeric_id channel then (channel, r) else find_user token channel r

  unfoldable pub merge_loaded : Option Sets → Sets → Sets
  merge_loaded none sets = sets
  merge_loaded (some more) sets = merge_badge_sets more sets

  unfoldable pub channel_sets : Bytes → Bytes → Sets → Resolver → Sets × Resolver
  channel_sets token id sets r =
      if is_nil id
      then (sets, r)
      else (let (loaded, r') = load_sets token id id r in (merge_loaded loaded sets, r'))

  unfoldable pub all_sets : Bytes → Bytes → Resolver → Sets × Resolver
  all_sets token channel r =
      let (loaded, r') = load_sets token (codes "global") [] r in
      let sets = merge_loaded loaded [] in
      if is_nil channel
      then (sets, r')
      else (let (id, r'') = broadcaster_id token channel r' in channel_sets token id sets r'')

  unfoldable pub with_token : Bytes → Option Bytes × Resolver → Sets × Resolver
  with_token channel (none, r) = ([], r)
  with_token channel (some token, r) = all_sets token channel r

  -- No sets without credentials or without a token.
  unfoldable pub lookup_badge_sets : Bytes → Resolver → Sets × Resolver
  lookup_badge_sets channel r =
      if is_nil (trim_space r.client_id) || is_nil (trim_space r.client_secret)
      then ([], r)
      else with_token channel (app_token r)

  unfoldable pub set_images : Versions → ChatBadge → ChatBadge
  set_images versions b =
      if not (is_nil (get_or b.version versions []))
      then record b { images = get_or b.version versions [] }
      else if not (is_nil (get_or [] versions []))
      then record b { images = get_or [] versions [] }
      else b

  unfoldable pub enrich_known : Sets → ChatBadge → ChatBadge
  enrich_known merged b = elim (lookup b.id merged) [
    | none ↦ b
    | some versions ↦ set_images versions b
  ]

  unfoldable pub enrich_badge : Sets → ChatBadge → ChatBadge
  enrich_badge merged b =
      if equal_fold b.platform (codes "twitch") then enrich_known merged b else b

  unfoldable pub enrich : Bytes → List ChatBadge → Resolver → List ChatBadge × Resolver
  enrich channel badges r =
      let (merged, r') = lookup_badge_sets (to_lower (trim_space channel)) r in
      (if is_nil merged then badges else map (enrich_badge merged) badges, r')
