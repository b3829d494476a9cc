-- ===== src/Http/Filters/Platforms.antt =====
-- What the platforms of a request mean, whatever order and spelling they come in.
use gnasty_chat.Prelude.{
  Bool, true, false, ◌&&◌, ◌||◌, not, none, some, List, [], ◌∷◌, ◌++◌, ◌≡◌, refl, arith,
  if◌then◌else◌, is_nil, Option-cases, inl, inr,
}
use gnasty_chat.Text.{Bytes, beq}
use gnasty_chat.Text.Equality.{beq_iff}
use gnasty_chat.Http.Filters.{
  accepted, one_of, normalize_platform, parts, Chosen, choose, choose_all, parse_platforms,
  matches_platform, accepted-injective, >>=-eq-accepted,
}

-- Whether one of the parts names the platform, or all.
pub asks_for : Bytes → List Bytes → Bool
asks_for platform [] = false
asks_for platform (p ∷ ps) =
    elim (normalize_platform p) [ none ↦ false | some c ↦ is_nil c || beq platform c ]
    || asks_for platform ps

-- What is chosen lets the platform through, and nothing has been chosen yet.
covers : Chosen → Bytes → Bool
covers c platform = c.allow_all || matches_platform c.out platform

untouched : Chosen → Bool
untouched c = is_nil c.out && not c.allow_all

IsMirrored : Chosen → Type 0
IsMirrored c = (s : Bytes) → one_of s c.seen ≡ one_of s c.out

one_of-snoc : (s t : Bytes) (ts : List Bytes) → one_of s (ts ++ t ∷ []) ≡ (one_of s ts || beq s t)
unfolding one_of
one_of-snoc s t [] = ground arith
one_of-snoc s t (u ∷ ts) = ground (arith, one_of-snoc s t ts)

matches_platform-snoc :
    (platform t : Bytes) (ts : List Bytes)
    → matches_platform (ts ++ t ∷ []) platform
      ≡ (matches_platform ts platform || is_nil t || beq platform t)
unfolding matches_platform
matches_platform-snoc platform t [] = ground arith
matches_platform-snoc platform t (u ∷ ts) = ground (arith, matches_platform-snoc platform t ts)

one_of-matches :
    (s platform : Bytes) (ts : List Bytes)
    → one_of s ts ≡ true
    → beq platform s ≡ true
    → matches_platform ts platform ≡ true
unfolding one_of matches_platform
one_of-matches s platform [] h e = cc
one_of-matches s platform (t ∷ ts) h e =
    ground
      (arith, one_of-matches s platform ts, beq_iff platform s, beq_iff s t, beq_iff platform t)

is_nil-snoc : (t : Bytes) (ts : List Bytes) → is_nil (ts ++ t ∷ []) ≡ false
is_nil-snoc t [] = refl
is_nil-snoc t (u ∷ ts) = refl

one_of-is_nil : (s : Bytes) (ts : List Bytes) → one_of s ts ≡ true → is_nil ts ≡ false
unfolding one_of
one_of-is_nil s [] h = cc
one_of-is_nil s (t ∷ ts) h = refl

choose-IsMirrored :
    (canonical : Bytes) (c : Chosen) → IsMirrored c → IsMirrored (choose canonical c)
unfolding choose IsMirrored one_of
choose-IsMirrored canonical c v s = ground (arith, v s, one_of-snoc s canonical c.out)

choose-covers :
    (canonical platform : Bytes) (c : Chosen)
    → IsMirrored c
    → covers (choose canonical c) platform
      ≡ (covers c platform || is_nil canonical || beq platform canonical)
unfolding choose covers IsMirrored
choose-covers canonical platform c v = ground (
  arith,
  v canonical,
  matches_platform-snoc platform canonical c.out,
  one_of-matches canonical platform c.out,
)

choose-untouched :
    (canonical : Bytes) (c : Chosen) → IsMirrored c → untouched (choose canonical c) ≡ false
unfolding choose untouched IsMirrored
choose-untouched canonical c v =
    ground (arith, v canonical, is_nil-snoc canonical c.out, one_of-is_nil canonical c.out)

choose_all-covers :
    (platform : Bytes) (ps : List Bytes) (c c' : Chosen)
    → IsMirrored c
    → choose_all ps c ≡ accepted c'
    → (covers c' platform ≡ (covers c platform || asks_for platform ps))
      × (untouched c' ≡ (untouched c && is_nil ps))
unfolding choose_all asks_for
choose_all-covers platform [] c c' v h = rw (← accepted-injective h) (ground arith)
choose_all-covers platform (p ∷ ps) c c' v h = elim (Option-cases (normalize_platform p)) [
  | inl e ↦ absurd (ground (arith, h, e))
  | inr (canonical, e) ↦
      let ih =
        choose_all-covers platform ps (choose canonical c) c' (choose-IsMirrored canonical c v)
          (rw (e, choose_all) at h) in
      ground (arith, e, ih, choose-covers canonical platform c v, choose-untouched canonical c v)
]

chosen-covers :
    (raws : List Bytes) (platform : Bytes) (c : Chosen)
    → covers c platform ≡ asks_for platform (parts raws)
    → untouched c ≡ is_nil (parts raws)
    → (is_nil (if c.allow_all then [] else c.out)
        || matches_platform (if c.allow_all then [] else c.out) platform)
      ≡ (is_nil (parts raws) || asks_for platform (parts raws))
unfolding covers untouched matches_platform
chosen-covers raws platform c hc hu = ground (arith, hc, hu)

-- The filters let a platform through exactly if the request names none, or names it or all in one
-- of its parts, under any of the names that are known.
pub parse_platforms-covers :
    (raws out : List Bytes) (platform : Bytes)
    → parse_platforms raws ≡ accepted out
    → (is_nil out || matches_platform out platform)
      ≡ (is_nil (parts raws) || asks_for platform (parts raws))
unfolding parse_platforms IsMirrored asks_for covers parts matches_platform untouched
parse_platforms-covers raws out platform h =
    let none_yet : Chosen = record { out = []; seen = []; allow_all = false } in
    let (c, e, h') =
      >>=-eq-accepted (choose_all (parts raws) none_yet)
        (λ c. accepted (if c.allow_all then [] else c.out)) h in
    let facts = choose_all-covers platform (parts raws) none_yet c (λ s. refl) e in
    rw (← accepted-injective h') (chosen-covers raws platform c facts.0 facts.1)
