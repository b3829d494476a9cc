-- ===== src/TwitchBadges/Cached.antt =====
-- internal/twitchbadges/resolver.go: what is served from the cache.
use gnasty_chat.Prelude.{ℕ, ◌+◌, ◌≤◌, none, some, List, positive_or, ◌≡◌, refl, arith}
use gnasty_chat.Text.{Bytes}
use gnasty_chat.Dict.{lookup-insert_self}
use gnasty_chat.TwitchBadges.BadgeSets.{Sets, HelixBadgeSet, convert_badge_sets}
use gnasty_chat.TwitchBadges.{
  Entry, Helix, Resolver, fresh, cached_badge_sets, store_badge_sets, fetch_sets, load_sets,
  effective_ttl,
}

load_hit :
    (helix : Helix) (now : ℕ) (token key id : Bytes) (r : Resolver) (sets : Sets)
    → cached_badge_sets now key r ≡ some sets
    → load_sets helix now token key id r ≡ (some sets, r)
unfolding load_sets
load_hit helix now token key id r sets e = rw (e, load_sets) refl

module _ (helix : Helix) (now : ℕ) (token key id : Bytes) (r : Resolver) where
  load_fetched :
      (data_ : List HelixBadgeSet)
      → cached_badge_sets now key r ≡ none
      → helix.request_sets token id ≡ some data_
      → load_sets helix now token key id r ≡ (
        some (convert_badge_sets data_),
        store_badge_sets now (effective_ttl r) key (convert_badge_sets data_) r,
      )
  unfolding load_sets fetch_sets
  load_fetched data_ e f = rw (e, load_sets, fetch_sets, f) refl

  stored_sets :
      (later ttl : ℕ) (sets : Sets)
      → later ≤ now + ttl
      → cached_badge_sets later key (store_badge_sets now ttl key sets r) ≡ some sets
  unfolding cached_badge_sets store_badge_sets fresh
  stored_sets later ttl sets h =
      let entry : Entry Sets = record { value = sets; expires_at = now + ttl } in
      rw (lookup-insert_self key entry r.badge_sets) (ground (arith, h))

  -- Sets that were not cached and were fetched are returned again, with no further request, up to
  -- the end of their lifetime, whatever Twitch would answer then; the lifetime is the configured
  -- one, or six hours if that is not positive.
  pub load_sets-stored :
      (other : Helix) (later : ℕ) (another other_id : Bytes) (data_ : List HelixBadgeSet)
      → cached_badge_sets now key r ≡ none
      → helix.request_sets token id ≡ some data_
      → later ≤ now + positive_or 21_600_000_000_000 r.ttl
      → let (sets, r') = load_sets helix now token key id r in
        (sets ≡ some (convert_badge_sets data_))
        × (load_sets other later another key other_id r' ≡ (sets, r'))
  unfolding effective_ttl
  load_sets-stored other later another other_id data_ miss fetched h =
      let sets = convert_badge_sets data_ in
      rw (load_fetched data_ miss fetched) (
        refl,
        load_hit other later another key other_id
            (store_badge_sets now (effective_ttl r) key sets r) sets
            (stored_sets later (effective_ttl r) sets h),
      )
