-- ===== src/Irc/Badges/Pairs.antt =====
-- What `parseBadgePairs` of internal/twitchirc/client.go reads back.
use gnasty_chat.Prelude.{
  ℕ, false, List, [], ◌∷◌, ◌++◌, ◌≡◌, ◌≢◌, refl, ap, arith, All, All-append, map, is_nil,
}
use gnasty_chat.Text.{Bytes, join, is_space}
use gnasty_chat.Text.Search.{Lacks, cut_byte-append}
use gnasty_chat.Text.Split.{split-join}
use gnasty_chat.Text.Trim.{
  IsTrimmed, EndsClean-cons, EndsClean-append, StartsClean-append, trim_space-eq_self,
}
use gnasty_chat.Irc.Badges.{
  BadgePair, badge_pair, keep_parts, keep_pairs, split_list, parse_badge_pairs,
}

-- A badge as Twitch writes it.
pub record IsBadge (p : BadgePair) : Type 0 where
  pub named : p.id ≢ []
  pub id_trimmed : IsTrimmed p.id
  pub id_plain : Lacks b',' p.id × Lacks b'/' p.id
  pub version_trimmed : IsTrimmed p.version
  pub version_plain : Lacks b',' p.version

pub write_pair : BadgePair → Bytes
write_pair p = p.id ++ b'/' ∷ p.version

write_pair-IsTrimmed : (p : BadgePair) → IsBadge p → IsTrimmed (write_pair p)
unfolding write_pair
write_pair-IsTrimmed p b = record {
  starts = StartsClean-append p.id (b'/' ∷ p.version) b.named b.id_trimmed.starts;
  ends =
      EndsClean-append p.id (b'/' ∷ p.version) (cc)
        (EndsClean-cons b'/' p.version (unfold is_space in refl) b.version_trimmed.ends);
}

badge_pair-write_pair : (p : BadgePair) → IsBadge p → badge_pair (write_pair p) ≡ p
unfolding badge_pair write_pair
badge_pair-write_pair p b =
    rw (cut_byte-append b'/' p.id p.version b.id_plain.1, badge_pair)
      (cc (trim_space-eq_self p.id b.id_trimmed, trim_space-eq_self p.version b.version_trimmed))

is_nil-append : (s : Bytes) (d : ℕ) (t : Bytes) → is_nil (s ++ d ∷ t) ≡ false
is_nil-append [] d t = refl
is_nil-append (c ∷ s) d t = refl

is_nil-write_pair : (p : BadgePair) → is_nil (write_pair p) ≡ false
unfolding write_pair
is_nil-write_pair p = is_nil-append p.id b'/' p.version

is_nil_ne : (s : Bytes) → s ≢ [] → is_nil s ≡ false
is_nil_ne [] h = absurd (h refl)
is_nil_ne (c ∷ s) h = refl

keep_parts-write_pair :
    (ps : List BadgePair) → All IsBadge ps → keep_parts (map write_pair ps) ≡ map write_pair ps
unfolding keep_parts
keep_parts-write_pair [] h = refl
keep_parts-write_pair (p ∷ ps) (b, h) =
    rw (trim_space-eq_self (write_pair p) (write_pair-IsTrimmed p b), keep_parts)
      (rw (is_nil-write_pair p) (ap (◌∷◌ (write_pair p)) (keep_parts-write_pair ps h)))

keep_pairs-write_pair : (ps : List BadgePair) → All IsBadge ps → keep_pairs (map write_pair ps) ≡ ps
unfolding keep_pairs
keep_pairs-write_pair [] h = refl
keep_pairs-write_pair (p ∷ ps) (b, h) =
    rw (badge_pair-write_pair p b, keep_pairs)
      (rw (is_nil_ne p.id b.named) (ap (◌∷◌ p) (keep_pairs-write_pair ps h)))

write_pair-Lacks : (ps : List BadgePair) → All IsBadge ps → All (Lacks b',') (map write_pair ps)
unfolding write_pair
write_pair-Lacks [] h = tt
write_pair-Lacks (p ∷ ps) (b, h) = (
  All-append _ p.id (b'/' ∷ p.version) b.id_plain.0 (omega arith, b.version_plain),
  write_pair-Lacks ps h,
)

is_nil-join : (s t : Bytes) (ss : List Bytes) → is_nil s ≡ false → is_nil (join t (s ∷ ss)) ≡ false
unfolding join
is_nil-join [] t ss h = cc
is_nil-join (c ∷ s) t [] h = refl
is_nil-join (c ∷ s) t (u ∷ ss) h = refl

-- Badges that are written as Twitch does, separated by commas, are read back as they were, in
-- order, if their names and versions are trimmed, without a comma, and the names not empty and
-- without a slash.
pub parse_badge_pairs-join :
    (p : BadgePair) (ps : List BadgePair)
    → All IsBadge (p ∷ ps)
    → parse_badge_pairs (join (b',' ∷ []) (map write_pair (p ∷ ps))) b',' ≡ p ∷ ps
unfolding parse_badge_pairs split_list
parse_badge_pairs-join p ps h =
    rw
      (
        is_nil-join (write_pair p) (b',' ∷ []) (map write_pair ps) (is_nil-write_pair p),
        split-join b',' (write_pair p) (map write_pair ps) (write_pair-Lacks (p ∷ ps) h),
        keep_parts-write_pair (p ∷ ps) h,
      )
      (keep_pairs-write_pair (p ∷ ps) h)
