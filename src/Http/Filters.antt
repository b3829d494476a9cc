-- ===== src/Http/Filters.antt =====
-- internal/httpapi/filters.go: the filters of a request, and which messages they let through. The
-- parsers of the package time and the clock are parameters; times are nanoseconds.
pub mod Parsed
pub mod Platforms
use gnasty_chat.Prelude.{
  ◌≡◌, refl, ℕ, ◌+◌, Bool, true, false, ◌&&◌, ◌||◌, not, Option, none, some, List, [], ◌∷◌, ◌++◌,
  if◌then◌else◌, is_nil, ℤ, lez, ltz, scale, difference,
}
use gnasty_chat.Text.{Bytes, codes, beq, trim_space, to_lower, split, contains}
use gnasty_chat.Text.Decimal.{parse_int}
use gnasty_chat.Dict.{Dict, get_or}
use gnasty_chat.Message.{ChatMessage, Time, zero_time, unix_nano}

pub data Order : Type 0 where
  desc asc : Order

pub record Filters : Type 0 where
  pub platforms : List Bytes
  pub usernames : List Bytes
  pub since : Option Time
  pub limit : ℤ
  pub order : Order

pub data FilterError : Type 0 where
  bad_limit bad_order bad_since bad_platform : FilterError

pub data Checked (A : Type 0) : Type 0 where
  refused : FilterError → Checked A
  accepted : A → Checked A

infixl 5 ◌>>=◌
abbrev pub ◌>>=◌ : {A B : Type 0} → Checked A → (A → Checked B) → Checked B
refused why >>= next = refused why
accepted a >>= next = next a

pub accepted-injective :
    {A : Type 0} {a b : A} → ◌≡◌ {A = Checked A} (accepted a) (accepted b) → a ≡ b
accepted-injective h = cc

pub >>=-eq-accepted :
    {A B : Type 0} (m : Checked A) (f : A → Checked B) {b : B}
    → (m >>= f) ≡ accepted b
    → (a : A) × (m ≡ accepted a) × (f a ≡ accepted b)
>>=-eq-accepted (accepted a) f h = (a, refl, h)
>>=-eq-accepted (refused e) f h = cc

-- What the package time supplies.
pub record Clock : Type 0 where
  pub now : ℤ
  pub rfc3339_nano : Bytes → Option ℤ
  pub rfc3339 : Bytes → Option ℤ
  pub duration : Bytes → Option ℤ

-- values.Get
unfoldable pub get : Dict (List Bytes) → Bytes → Bytes
get values key = elim (get_or key values []) [ [] ↦ [] | v ∷ vs ↦ v ]

unfoldable pub parse_limit : Bytes → Checked ℤ
parse_limit raw = if is_nil raw then accepted (ℤ.pos 100) else elim (parse_int raw) [
  | none ↦ refused bad_limit
  | some n ↦
      if lez n (ℤ.pos 0)
      then refused bad_limit
      else if ltz (ℤ.pos 1_000) n
      then accepted (ℤ.pos 1_000)
      else accepted n
]

unfoldable pub parse_order : Bytes → Checked Order
parse_order raw =
    if is_nil raw || beq (to_lower raw) (codes "desc")
    then accepted desc
    else if beq (to_lower raw) (codes "asc")
    then accepted asc
    else refused bad_order

-- now - d
abbrev minus : ℤ → ℤ → ℤ
minus (ℤ.pos n) (ℤ.pos d) = difference n d
minus (ℤ.pos n) (ℤ.negsuc d) = ℤ.pos (n + (d + 1))
minus (ℤ.negsuc n) (ℤ.pos d) = ℤ.negsuc (n + d)
minus (ℤ.negsuc n) (ℤ.negsuc d) = difference (d + 1) (n + 1)

unfoldable pub parse_since : Clock → Bytes → Checked (Option Time)
parse_since clock raw = if is_nil raw then accepted none else elim (clock.rfc3339_nano raw) [
  | some t ↦ accepted (some (unix_nano t))
  | none ↦ elim (clock.rfc3339 raw) [
    | some t ↦ accepted (some (unix_nano t))
    | none ↦ elim (parse_int raw) [
      | some n ↦ accepted (some (unix_nano (scale n 1_000_000_000)))
      | none ↦ elim (clock.duration raw) [
        | some d ↦ accepted (some (unix_nano (minus clock.now d)))
        | none ↦ refused bad_since
      ]
    ]
  ]
]

unfoldable pub one_of : Bytes → List Bytes → Bool
one_of s [] = false
one_of s (t ∷ ts) = beq s t || one_of s ts

-- The canonical name; the empty one stands for every platform.
unfoldable pub normalize_platform : Bytes → Option Bytes
normalize_platform p =
    let name = to_lower p in
    if one_of name (codes "twitch" ∷ codes "tw" ∷ codes "t" ∷ [])
    then some (codes "Twitch")
    else if one_of name (codes "youtube" ∷ codes "yt" ∷ codes "y" ∷ [])
    then some (codes "YouTube")
    else if one_of name (codes "all" ∷ codes "*" ∷ [])
    then some []
    else none

-- The parts of all values of a key, trimmed, the blank ones aside.
unfoldable pub keep_parts : List Bytes → List Bytes
keep_parts [] = []
keep_parts (p ∷ ps) =
    let rest = keep_parts ps in if is_nil (trim_space p) then rest else trim_space p ∷ rest

unfoldable pub parts : List Bytes → List Bytes
parts [] = []
parts (raw ∷ raws) = keep_parts (split b',' raw) ++ parts raws

pub record Chosen : Type 0 where
  pub out : List Bytes
  pub seen : List Bytes
  pub allow_all : Bool

unfoldable pub choose : Bytes → Chosen → Chosen
choose canonical c =
    if is_nil canonical
    then record { out = []; seen = []; allow_all = true }
    else if not (one_of canonical c.seen) && not c.allow_all
    then record c { out = c.out ++ canonical ∷ []; seen = canonical ∷ c.seen }
    else c

unfoldable pub choose_all : List Bytes → Chosen → Checked Chosen
choose_all [] c = accepted c
choose_all (part ∷ ps) c = elim (normalize_platform part) [
  | none ↦ refused bad_platform
  | some canonical ↦ choose_all ps (choose canonical c)
]

unfoldable pub parse_platforms : List Bytes → Checked (List Bytes)
parse_platforms raws = do
  c ← choose_all (parts raws) (record { out = []; seen = []; allow_all = false })
  accepted (if c.allow_all then [] else c.out)

unfoldable pub distinct : List Bytes → List Bytes → List Bytes
distinct seen [] = []
distinct seen (p ∷ ps) =
    let lowered = to_lower p in
    let new = distinct (lowered ∷ seen) ps in
    let rest = distinct seen ps in if one_of lowered seen then rest else lowered ∷ new

unfoldable pub parse_usernames : List Bytes → List Bytes
parse_usernames raws = distinct [] (parts raws)

unfoldable pub parse_filters : Clock → Dict (List Bytes) → Checked Filters
parse_filters clock values = do
  limit ← parse_limit (get values (codes "limit"))
  order ← parse_order (get values (codes "order"))
  since ← parse_since clock (get values (codes "since"))
  platforms ← parse_platforms (get_or (codes "platform") values [])
  accepted (record {
    platforms = platforms;
    usernames = parse_usernames (get_or (codes "username") values []);
    since = since;
    limit = limit;
    order = order;
  })

unfoldable pub matches_platform : List Bytes → Bytes → Bool
matches_platform [] platform = false
matches_platform (p ∷ ps) platform = is_nil p || beq platform p || matches_platform ps platform

unfoldable pub matches_username : List Bytes → Bytes → Bool
matches_username [] name = false
matches_username (u ∷ us) name = contains name u || matches_username us name

-- Nanoseconds since 1970; the zero time is the year 1.
abbrev instant : Time → ℤ
instant zero_time = ℤ.negsuc 62_135_596_799_999_999_999
instant (unix_nano n) = n

unfoldable pub matches_since : Option Time → Time → Bool
matches_since none ts = true
matches_since (some since) ts = not (ltz (instant ts) (instant since))

unfoldable pub matches : Filters → ChatMessage → Bool
unfolding matches_since
matches f msg =
    (is_nil f.platforms || matches_platform f.platforms msg.platform)
    && (is_nil f.usernames || matches_username f.usernames (to_lower msg.username))
    && matches_since f.since msg.ts

unfoldable pub clone_for_stream : Filters → Filters
clone_for_stream f = record f { limit = ℤ.pos 0 }
