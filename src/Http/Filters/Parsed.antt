-- ===== src/Http/Filters/Parsed.antt =====
-- What holds of the filters that `ParseFilters` of internal/httpapi/filters.go returns.
use gnasty_chat.Prelude.{
  ℕ, ◌+◌, ◌≤◌, true, false, ◌&&◌, not, some, List, [], ◌∷◌, ◌++◌, ◌≡◌, ◌≢◌, ◌⊎◌, inl, inr, refl,
  subst, arith, if◌then◌else◌, is_nil, ℤ, lez, All, All-append, total, total-append, Bool-cases,
  Option-cases,
}
use gnasty_chat.Text.{Bytes, codes, beq, trim_space, to_lower, split}
use gnasty_chat.Text.Case.{to_lower_idem, to_lower-ne-nil}
use gnasty_chat.Text.Equality.{beq_iff}
use gnasty_chat.Dict.{Dict, get_or}
use gnasty_chat.Http.Filters.{
  Filters, accepted, Clock, get, parse_limit, parse_order, parse_since, one_of, normalize_platform,
  keep_parts, parts, Chosen, choose, choose_all, parse_platforms, distinct, parse_usernames,
  parse_filters, accepted-injective, >>=-eq-accepted,
}

parse_limit_bounds :
    (raw : Bytes) (n : ℤ)
    → parse_limit raw ≡ accepted n
    → (lez (ℤ.pos 1) n ≡ true) × (lez n (ℤ.pos 1_000) ≡ true)
unfolding parse_limit
parse_limit_bounds raw n h = ground arith

abbrev pub IsPlatform : Bytes → Type 0
IsPlatform p = (p ≡ codes "Twitch") ⊎ (p ≡ codes "YouTube")

-- How often a text is in a list.
pub count : Bytes → List Bytes → ℕ
count s ts = total (λ t. if beq t s then 1 else 0) ts

normalize_platform-cases :
    (p canonical : Bytes)
    → normalize_platform p ≡ some canonical
    → (canonical ≡ []) ⊎ IsPlatform canonical
unfolding normalize_platform
normalize_platform-cases p canonical h = ground arith

-- The loop over the platforms: what is out has been seen, and nothing else.
record IsChoice (c : Chosen) : Type 0 where
  known : All IsPlatform c.out
  same : (s : Bytes) → count s c.out ≡ (if one_of s c.seen then 1 else 0)

count-snoc :
    (s t : Bytes) (ts : List Bytes)
    → count s (ts ++ t ∷ []) ≡ count s ts + (if beq t s then 1 else 0)
unfolding count
count-snoc s t ts = omega (arith, total-append (λ u. if beq u s then 1 else 0) ts (t ∷ []))

count-nil : (s : Bytes) → count s [] ≡ 0
unfolding count
count-nil s = refl

choose-same :
    (canonical : Bytes) (c : Chosen) (s : Bytes)
    → ((u : Bytes) → count u c.out ≡ (if one_of u c.seen then 1 else 0))
    → count s (choose canonical c).out ≡ (if one_of s (choose canonical c).seen then 1 else 0)
unfolding choose one_of
choose-same canonical c s h = ground (
  arith,
  count-snoc s canonical c.out,
  beq_iff s canonical,
  beq_iff canonical s,
  h s,
  count-nil s,
)

choose-known :
    (canonical : Bytes) (c : Chosen)
    → (canonical ≡ []) ⊎ IsPlatform canonical
    → All IsPlatform c.out
    → All IsPlatform (choose canonical c).out
unfolding choose
choose-known [] c h k = tt
choose-known (x ∷ canonical) c (inl e) k = cc
choose-known (x ∷ canonical) c (inr e) k =
    elim (Bool-cases (not (one_of (x ∷ canonical) c.seen) && not c.allow_all)) [
      | inl t ↦ rw t (All-append IsPlatform c.out ((x ∷ canonical) ∷ []) k (e, tt))
      | inr t ↦ rw t k
    ]

choose-IsChoice :
    (canonical : Bytes) (c : Chosen)
    → (canonical ≡ []) ⊎ IsPlatform canonical
    → IsChoice c
    → IsChoice (choose canonical c)
choose-IsChoice canonical c h v = record {
  known = choose-known canonical c h v.known;
  same = λ s. choose-same canonical c s v.same;
}

choose_all-IsChoice :
    (ps : List Bytes) (c c' : Chosen) → IsChoice c → choose_all ps c ≡ accepted c' → IsChoice c'
unfolding choose_all
choose_all-IsChoice [] c c' v h = subst IsChoice (accepted-injective h) v
choose_all-IsChoice (p ∷ ps) c c' v h = elim (Option-cases (normalize_platform p)) [
  | inl e ↦ absurd (ground (arith, h, e))
  | inr (canonical, e) ↦
      choose_all-IsChoice ps (choose canonical c) c'
        (choose-IsChoice canonical c (normalize_platform-cases p canonical e) v)
        (rw (e, choose_all) at h)
]

-- No text twice.
abbrev pub IsDistinct : List Bytes → Type 0
IsDistinct ts = (s : Bytes) → count s ts ≤ 1

parse_platforms-facts :
    (raws out : List Bytes)
    → parse_platforms raws ≡ accepted out
    → All IsPlatform out × IsDistinct out
unfolding parse_platforms
parse_platforms-facts raws out h =
    let none_yet : Chosen = record { out = []; seen = []; allow_all = false } in
    let (c, e, h') =
      >>=-eq-accepted (choose_all (parts raws) none_yet)
        (λ c. accepted (if c.allow_all then [] else c.out)) h in
    let v =
      choose_all-IsChoice (parts raws) none_yet c
        (record { known = tt; same = λ s. unfold one_of in count-nil s }) e in
    subst (λ o. All IsPlatform o × IsDistinct o) (accepted-injective h') (result c v)
  where
    result :
        (c : Chosen)
        → IsChoice c
        → All IsPlatform (if c.allow_all then [] else c.out)
          × IsDistinct (if c.allow_all then [] else c.out)
    result c v = elim (Bool-cases c.allow_all) [
      | inl t ↦ rw t (tt, λ s. ground (arith, count-nil s))
      | inr t ↦ rw t (v.known, λ s. ground (arith, v.same s))
    ]

-- In lower case, and not empty.
abbrev pub IsLowered : Bytes → Type 0
IsLowered u = (u ≢ []) × (to_lower u ≡ u)

count-distinct :
    (s : Bytes) (seen ps : List Bytes)
    → count s (distinct seen ps) ≤ (if one_of s seen then 0 else 1)
unfolding distinct one_of count
count-distinct s seen [] = ground arith
count-distinct s seen (p ∷ ps) = ground (
  arith,
  beq_iff (to_lower p) s,
  beq_iff s (to_lower p),
  count-distinct s seen ps,
  count-distinct s (to_lower p ∷ seen) ps,
)

distinct-IsLowered :
    (seen ps : List Bytes) → All (λ p. p ≢ []) ps → All IsLowered (distinct seen ps)
unfolding distinct
distinct-IsLowered seen [] h = tt
distinct-IsLowered seen (p ∷ ps) h = elim (Bool-cases (one_of (to_lower p) seen)) [
  | inl t ↦ rw t (distinct-IsLowered seen ps h.1)
  | inr t ↦
      rw t ((to_lower-ne-nil p h.0, to_lower_idem p), distinct-IsLowered (to_lower p ∷ seen) ps h.1)
]

keep_parts-ne-nil : (ps : List Bytes) → All (λ p. p ≢ []) (keep_parts ps)
unfolding keep_parts
keep_parts-ne-nil [] = tt
keep_parts-ne-nil (p ∷ ps) = elim (Bool-cases (is_nil (trim_space p))) [
  | inl t ↦ rw t (keep_parts-ne-nil ps)
  | inr t ↦ rw t (λ e. ground (arith, t, e), keep_parts-ne-nil ps)
]

parts-ne-nil : (raws : List Bytes) → All (λ p. p ≢ []) (parts raws)
unfolding parts
parts-ne-nil [] = tt
parts-ne-nil (raw ∷ raws) =
    All-append (λ p. p ≢ []) (keep_parts (split b',' raw)) (parts raws)
      (keep_parts-ne-nil (split b',' raw)) (parts-ne-nil raws)

parse_usernames-facts :
    (raws : List Bytes) → All IsLowered (parse_usernames raws) × IsDistinct (parse_usernames raws)
unfolding parse_usernames
parse_usernames-facts raws = (
  distinct-IsLowered [] (parts raws) (parts-ne-nil raws),
  λ s. unfold one_of in count-distinct s [] (parts raws),
)

-- What the handlers and the query rely on.
pub record IsValid (f : Filters) : Type 0 where
  pub at_least : lez (ℤ.pos 1) f.limit ≡ true
  pub at_most : lez f.limit (ℤ.pos 1_000) ≡ true
  pub platforms : All IsPlatform f.platforms × IsDistinct f.platforms
  pub usernames : All IsLowered f.usernames × IsDistinct f.usernames

-- The filters of every request that is accepted ask for 1 to 1,000 messages, name the platforms
-- Twitch and YouTube at most once each, and hold distinct usernames, in lower case and not empty.
pub parse_filters-IsValid :
    (clock : Clock) (values : Dict (List Bytes)) (f : Filters)
    → parse_filters clock values ≡ accepted f
    → IsValid f
unfolding parse_filters
parse_filters-IsValid clock values f h =
    let (n, hn, h) = >>=-eq-accepted (parse_limit (get values (codes "limit"))) _ h in
    let (o, ho, h) = >>=-eq-accepted (parse_order (get values (codes "order"))) _ h in
    let (s, hs, h) = >>=-eq-accepted (parse_since clock (get values (codes "since"))) _ h in
    let (ps, hp, h) = >>=-eq-accepted (parse_platforms (get_or (codes "platform") values [])) _ h in
    let bounds = parse_limit_bounds (get values (codes "limit")) n hn in
    subst IsValid (accepted-injective h) (record {
      at_least = bounds.0;
      at_most = bounds.1;
      platforms = parse_platforms-facts (get_or (codes "platform") values []) ps hp;
      usernames = parse_usernames-facts (get_or (codes "username") values []);
    })
