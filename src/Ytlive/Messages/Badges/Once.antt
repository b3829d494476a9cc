-- ===== src/Ytlive/Messages/Badges/Once.antt =====
-- internal/ytlive/client.go, parseYouTubeBadges: each badge once.
use gnasty_chat.Prelude.{
  false, ◌||◌, List, [], ◌∷◌, ◌++◌, ◌≡◌, refl, arith, inl, inr, Bool-cases, map, is_nil,
  Option-cases,
}
use gnasty_chat.Text.{Bytes, codes, beq}
use gnasty_chat.Text.Equality.{beq_iff}
use gnasty_chat.Json.{obj, Items, nil, cons, Fields, get, as_arr}
use gnasty_chat.Message.{ChatBadge}
use gnasty_chat.Ytlive.Messages.Badges.{
  Pattern, Seen, occurs, badge_key, add_badge, add_entries, extract_badges, interpret_badge,
  parse_youtube_badges,
}

-- The keys of badges, an id and a version between a bar.
abbrev pub badge_keys : List ChatBadge → List Bytes
badge_keys = map λ b. badge_key b.id b.version

abbrev pub Distinct : List Bytes → Type 0
Distinct [] = Unit
Distinct (k ∷ ks) = (occurs k ks ≡ false) × Distinct ks

occurs-snoc : (k j : Bytes) (ks : List Bytes) → occurs k (ks ++ j ∷ []) ≡ (beq k j || occurs k ks)
unfolding occurs
occurs-snoc k j [] = ground arith
occurs-snoc k j (i ∷ ks) = ground (arith, occurs-snoc k j ks)

Distinct-snoc :
    (j : Bytes) (ks : List Bytes) → Distinct ks → occurs j ks ≡ false → Distinct (ks ++ j ∷ [])
unfolding occurs
Distinct-snoc j [] h e = (refl, tt)
Distinct-snoc j (k ∷ ks) h e = (
  ground (arith, occurs-snoc k j ks, beq_iff k j, beq_iff j k),
  Distinct-snoc j ks h.1 (ground arith),
)

map-snoc :
    (b : ChatBadge) (bs : List ChatBadge)
    → badge_keys (bs ++ b ∷ []) ≡ badge_keys bs ++ badge_key b.id b.version ∷ []
map-snoc b [] = refl
map-snoc b (c ∷ bs) = rw (map-snoc b bs) refl

record IsOnce (r : Seen) : Type 0 where
  same : (k : Bytes) → occurs k r.keys ≡ occurs k (badge_keys r.badges)
  distinct : Distinct (badge_keys r.badges)

add_badge-IsOnce : (b : Bytes × Bytes) (r : Seen) → IsOnce r → IsOnce (add_badge b r)
unfolding add_badge occurs
add_badge-IsOnce (id, version) r h =
    elim (Bool-cases (is_nil id || occurs (badge_key id version) r.keys)) [
      | inl e ↦ rw e h
      | inr e ↦
          let new : ChatBadge = record {
            platform = codes "youtube";
            id = id;
            version = version;
            images = [];
          } in
          rw e (record {
            same = λ k. ground (
              arith,
              map-snoc new r.badges,
              occurs-snoc k (badge_key id version) (badge_keys r.badges),
              h.same k,
            );
            distinct = rw (map-snoc new r.badges) (
                Distinct-snoc (badge_key id version) (badge_keys r.badges) h.distinct
                  (ground (arith, h.same (badge_key id version))));
          })
    ]

add_entries-IsOnce :
    (ps : List Pattern) (js : Items) (r : Seen) → IsOnce r → IsOnce (add_entries ps js r)
unfolding add_entries
add_entries-IsOnce ps nil r h = h
add_entries-IsOnce ps (cons (obj entry) js) r h =
    add_entries-IsOnce ps js (add_badge (interpret_badge ps entry) r)
      (add_badge-IsOnce (interpret_badge ps entry) r h)
add_entries-IsOnce ps (cons _ js) r h = add_entries-IsOnce ps js r h

extract_badges-IsOnce :
    (ps : List Pattern) (renderer : Fields) (key : Bytes) (r : Seen)
    → IsOnce r
    → IsOnce (extract_badges ps renderer key r)
unfolding extract_badges
extract_badges-IsOnce ps renderer key r h = elim (Option-cases (as_arr (get key renderer))) [
  | inl e ↦ rw (e, extract_badges) h
  | inr (js, e) ↦ rw (e, extract_badges) (add_entries-IsOnce ps js r h)
]

-- No two of a message's badges have the same id and version.
pub parse_youtube_badges-Distinct :
    (ps : List Pattern) (renderer : Fields)
    → Distinct (badge_keys (parse_youtube_badges ps renderer).0)
unfolding parse_youtube_badges
parse_youtube_badges-Distinct ps renderer =
    let none_yet : Seen = record { keys = []; badges = [] } in
    let start : IsOnce none_yet = record { same = λ k. refl; distinct = tt } in
    let first = extract_badges-IsOnce ps renderer (codes "authorBadges") none_yet start in
    let both = extract_badges-IsOnce ps renderer (codes "authorBadgesWithMetadata") _ first in
    both.distinct
