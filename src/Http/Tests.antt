-- ===== src/Http/Tests.antt =====
-- Instances of the theorems on the HTTP interface.
use gnasty_chat.Prelude.{
  ℕ, suc, ◌&&◌, ◌||◌, none, some, List, [], ◌∷◌, ◌≡◌, refl, arith, ℤ, is_nil, ltb,
}
use gnasty_chat.Text.{
  Bytes, codes, beq, split, trim_space, to_lower, lower_byte, is_space, trim_left, trim_right,
}
use gnasty_chat.Text.Decimal.{parse_int}
use gnasty_chat.Dict.{Dict, get_or, lookup}
use gnasty_chat.Http.Filters.{
  Filters, accepted, Clock, parse_filters, parse_platforms, parts, matches_platform, desc,
  parse_limit, get, parse_order, parse_since, choose_all, choose, keep_parts, normalize_platform,
  one_of, parse_usernames, distinct,
}
use gnasty_chat.Http.Filters.Parsed.{IsValid, parse_filters-IsValid}
use gnasty_chat.Http.Filters.Platforms.{asks_for, parse_platforms-covers}
use gnasty_chat.Http.Hub.{Action, joins, leaves, stops, act_all, new_hub}
use gnasty_chat.Http.Hub.Bounded.{IsSafe, joins_of, act_all-IsSafe}
use gnasty_chat.Http.Hub.Stopped.{has_stop, IsStopped}
use gnasty_chat.Http.Limits.{Buckets, Limiter, new_limiter}
use gnasty_chat.Http.Limits.Separate.{answers, alone, times_of, answers-alone}
use gnasty_chat.Http.Origins.{is_allowed, new_policy, lists, has_scheme, is_allowed-lists}

abbrev clock : Clock
clock = record {
  now = ℤ.pos 9;
  rfc3339_nano = λ s. none;
  rfc3339 = λ s. none;
  duration = λ s. none;
}

abbrev values : Dict (List Bytes)
values =
    (codes "platform", codes "yt,Tw" ∷ codes "twitch" ∷ [])
    ∷ (codes "limit", codes "5000" ∷ [])
    ∷ (codes "username", codes "Bob,bob" ∷ [])
    ∷ []

abbrev filters : Filters
filters = record {
  platforms = codes "YouTube" ∷ codes "Twitch" ∷ [];
  usernames = codes "bob" ∷ [];
  since = none;
  limit = ℤ.pos 1_000;
  order = desc;
}

values-parse_filters : parse_filters clock values ≡ accepted filters
unfolding parse_filters parse_limit get parse_order parse_since parse_platforms choose_all choose
    parts keep_parts normalize_platform one_of parse_usernames distinct beq split trim_space
    to_lower lower_byte is_space trim_left trim_right parse_int get_or lookup
values-parse_filters = refl

parse_filters-IsValid_example : IsValid filters
parse_filters-IsValid_example = parse_filters-IsValid clock values filters values-parse_filters

abbrev raws : List Bytes
raws = codes "yt, all" ∷ []

raws-parse_platforms : parse_platforms raws ≡ accepted []
unfolding parse_platforms choose_all choose parts keep_parts normalize_platform one_of beq split
    trim_space to_lower lower_byte is_space trim_left trim_right
raws-parse_platforms = refl

parse_platforms-covers_example :
    (is_nil {A = Bytes} [] || matches_platform [] (codes "Twitch"))
    ≡ (is_nil (parts raws) || asks_for (codes "Twitch") (parts raws))
parse_platforms-covers_example =
    parse_platforms-covers raws [] (codes "Twitch") raws-parse_platforms

abbrev actions : List Action
actions = joins 1 filters ∷ joins 2 filters ∷ leaves 1 ∷ leaves 1 ∷ stops ∷ leaves 2 ∷ []

act_all-IsSafe_example :
    IsSafe (λ n. joins_of n actions) (act_all actions new_hub)
    × IsStopped (has_stop actions) (act_all actions new_hub)
act_all-IsSafe_example = act_all-IsSafe actions

-- Buckets that allow the first two requests.
abbrev two : Buckets ℕ
two = record { new = λ rate burst. 0; allow = λ now used. (ltb used 2, suc used) }

abbrev requests : List (ℕ × Bytes)
requests = (1, codes "a") ∷ (2, codes "b") ∷ (3, codes "a") ∷ (4, codes "a") ∷ []

abbrev limiter : Limiter ℕ
limiter = record { entries = []; rate = ℤ.pos 1; burst = ℤ.pos 2; lifetime = 300_000_000_000 }

new_limiter-limiter : new_limiter (ℤ.pos 1) (ℤ.pos 2) ≡ some limiter
unfolding new_limiter
new_limiter-limiter = refl

answers-alone_example :
    answers two (codes "a") requests limiter ≡ alone two (times_of (codes "a") requests) 0
answers-alone_example =
    answers-alone two (ℤ.pos 1) (ℤ.pos 2) 0 (codes "a") requests limiter new_limiter-limiter
      (omega arith)

is_allowed-lists_example :
    is_allowed (new_policy (codes "https://a.b" ∷ [])) (codes "https://a.b")
    ≡ (has_scheme (codes "https://a.b") && lists (codes "https://a.b" ∷ []) (codes "https://a.b"))
is_allowed-lists_example = is_allowed-lists (codes "https://a.b" ∷ []) (codes "https://a.b")
