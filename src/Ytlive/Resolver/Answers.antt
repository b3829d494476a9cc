-- ===== src/Ytlive/Resolver/Answers.antt =====
-- internal/ytlive/resolver.go: what Resolve asks for and returns.
use gnasty_chat.Prelude.{
  Bool, true, false, ◌⊎◌, Option, none, some, [], ◌∷◌, ◌≡◌, refl, ap, ◌∙◌, arith, List, inl, inr,
  Bool-cases, is_nil, leb, take,
}
use gnasty_chat.Text.{Bytes, codes, trim_space}
use gnasty_chat.Text.Trim.{trim_space_idem}
use gnasty_chat.Ytlive.Resolver.Assignment.{
  Search, found, absent, out_of_fuel, extract_json_assignment,
}
use gnasty_chat.Ytlive.Resolver.{
  canonical_watch_url, default_chat_url, extract_chat_url, contains_live_indicator, Player, Result,
  Answer, unanswered, broken, answered, Resolved, not_resolved, resolved, decode_page,
  extract_initial_player_state, with_player, by_text, first_state, state_of, state_in,
  parse_initial_player_json, player_state, read_answer, answer_of, request, resolve, max_body,
}
use gnasty_chat.Ytlive.Resolver.Urls.{
  Url, Packages, Normalized, not_normalized, normalized, youtube_host, normalize_youtube_url,
}
use gnasty_chat.Ytlive.Resolver.Hosts.{
  IsYoutube, IsBehind, IsChat, IsWatch, normalize_youtube_url-IsYoutube, extract_chat_url-IsChat,
  canonical_chat_from_video_id-IsBehind, canonical_watch_url-IsWatch,
  canonical_watch_from_video_id-IsWatch,
}

-- What is live has the URL of a video that has an id, and the URL of a chat; what is not has none of a chat.
abbrev pub IsRight : Packages → Result → Type 0
IsRight pk r = elim r.live [
  | true ↦
      ((id : Bytes) × IsWatch pk id r.watch_url)
      × IsBehind (codes "https://www.youtube.com/live_chat?") r.chat_url
  | false ↦ r.chat_url ≡ []
]

abbrev IsVideo : Option (Bytes × Bool) → Type 0
IsVideo none = Unit
IsVideo (some (id, live)) = is_nil (trim_space id) ≡ false

player_state-IsVideo : (p : Player) → IsVideo (player_state p)
unfolding player_state
player_state-IsVideo p = elim (Bool-cases (is_nil (trim_space p.video_id))) [
  | inl e ↦ rw e tt
  | inr e ↦ rw e (ap is_nil (trim_space_idem p.video_id) ∙ e)
]

module _ (pk : Packages) where
  chat-IsBehind :
      (s : Bytes)
      → IsChat s
      → is_nil s ≡ false
      → IsBehind (codes "https://www.youtube.com/live_chat?") s
  chat-IsBehind s (inl e) h = absurd (ground (arith, e))
  chat-IsBehind s (inr b) h = b

  by_text-live :
      (u : Url) (w text : Bytes)
      → IsWatch pk (pk.query_v u.raw_query) w
      → is_nil w ≡ false
      → IsRight pk (by_text pk u w text)
  unfolding by_text default_chat_url
  by_text-live u w text v n = elim (Bool-cases (is_nil (extract_chat_url pk text))) [
    | inr e ↦
        rw (n, e)
          (
            (pk.query_v u.raw_query, v),
            chat-IsBehind (extract_chat_url pk text) (extract_chat_url-IsChat pk text) e,
          )
    | inl e ↦ elim (Bool-cases (contains_live_indicator text)) [
      | inl l ↦
          rw (n, e, l)
            (
              (pk.query_v u.raw_query, v),
              canonical_chat_from_video_id-IsBehind pk (pk.query_v u.raw_query) v.1,
            )
      | inr l ↦ rw (n, e, l) refl
    ]
  ]

  by_text-IsRight :
      (u : Url) (w text : Bytes)
      → (w ≡ []) ⊎ IsWatch pk (pk.query_v u.raw_query) w
      → IsRight pk (by_text pk u w text)
  unfolding by_text
  by_text-IsRight u w text (inl e) = rw e refl
  by_text-IsRight u w text (inr v) = by_text-live u w text v (rw v.0 refl)

  with_player-IsRight :
      (w id : Bytes) (live : Bool)
      → is_nil (trim_space id) ≡ false
      → IsRight pk (with_player pk w id live)
  unfolding with_player
  with_player-IsRight w id true h = (
    (trim_space id, canonical_watch_from_video_id-IsWatch pk id h),
    canonical_chat_from_video_id-IsBehind pk id h,
  )
  with_player-IsRight w id false h = refl

module _ (pk : Packages) (read_root : Bytes → Option (Option Bytes))
    (read_payload : Bytes → Option Player) where
  state_in-IsVideo : (raw : Bytes) → IsVideo (state_in pk read_root read_payload raw)
  unfolding state_in
  state_in-IsVideo raw = in_payload (read_payload raw)
    where
      in_payload : (o : Option Player) → IsVideo (elim o [ none ↦ none | some p ↦ player_state p ])
      in_payload none = tt
      in_payload (some p) = player_state-IsVideo p

  parse-IsVideo : (raw : Bytes) → IsVideo (parse_initial_player_json pk read_root read_payload raw)
  unfolding parse_initial_player_json
  parse-IsVideo raw = in_root (read_root raw)
    where
      in_root :
          (o : Option (Option Bytes))
          → IsVideo (elim o [
            | none ↦ none
            | some none ↦ state_in pk read_root read_payload raw
            | some (some nested) ↦ state_in pk read_root read_payload nested
          ])
      in_root none = tt
      in_root (some none) = state_in-IsVideo raw
      in_root (some (some nested)) = state_in-IsVideo nested

  state_of-IsVideo : (s : Search) → IsVideo (state_of pk read_root read_payload s)
  unfolding state_of
  state_of-IsVideo (found raw) = parse-IsVideo raw
  state_of-IsVideo absent = tt
  state_of-IsVideo out_of_fuel = tt

  first_state-IsVideo :
      (markers : List Bytes) (body : Bytes)
      → IsVideo (first_state pk read_root read_payload markers body)
  unfolding first_state
  first_state-IsVideo [] body = tt
  first_state-IsVideo (marker ∷ markers) body =
      in_marker (state_of pk read_root read_payload (extract_json_assignment body marker))
        (state_of-IsVideo (extract_json_assignment body marker)) (first_state-IsVideo markers body)
    where
      in_marker :
          (o : Option (Bytes × Bool))
          → IsVideo o
          → IsVideo (first_state pk read_root read_payload markers body)
          → IsVideo (elim o [
            | none ↦ first_state pk read_root read_payload markers body
            | some state ↦ some state
          ])
      in_marker none h more = more
      in_marker (some (id, live)) h more = h

  read_answer-IsRight :
      (u : Url) (body : Bytes) → IsRight pk (read_answer pk read_root read_payload u body)
  unfolding read_answer extract_initial_player_state
  read_answer-IsRight u body = in_state _ (first_state-IsVideo _ body)
    where
      in_state :
          (o : Option (Bytes × Bool))
          → IsVideo o
          → IsRight pk (elim o [
            | none ↦ by_text pk u (canonical_watch_url pk u) (decode_page pk body)
            | some (id, live) ↦ with_player pk (canonical_watch_url pk u) id live
          ])
      in_state none h = by_text-IsRight pk u _ _ (canonical_watch_url-IsWatch pk u)
      in_state (some (id, live)) h = with_player-IsRight pk _ id live h

abbrev pub IsResolvedRight : Packages → Resolved → Type 0
IsResolvedRight pk (not_resolved e) = Unit
IsResolvedRight pk (resolved r) = IsRight pk r

module _ (pk : Packages) (read_root : Bytes → Option (Option Bytes))
    (read_payload : Bytes → Option Player) where
  answer_of-IsRight : (a : Answer) → IsResolvedRight pk (answer_of pk read_root read_payload a)
  unfolding answer_of
  answer_of-IsRight unanswered = tt
  answer_of-IsRight (broken status) = ground arith
  answer_of-IsRight (answered status u body) = elim (Bool-cases (leb 400 status)) [
    | inl e ↦ rw e tt
    | inr e ↦ rw e (read_answer-IsRight pk read_root read_payload u (take max_body body))
  ]

  request-IsRight :
      (ask : Url → Answer) (n : Normalized)
      → IsResolvedRight pk (request pk read_root read_payload ask n)
  unfolding request
  request-IsRight ask (not_normalized e) = tt
  request-IsRight ask (normalized u) = answer_of-IsRight (ask u)

  -- Whatever is asked for, answered and parsed: what is resolved as live has the URL of a video
  -- whose id is not blank, and the URL of a chat of www.youtube.com; what is not live has no URL
  -- of a chat.
  pub resolve-IsRight :
      (ask : Url → Answer) (raw : Bytes)
      → IsResolvedRight pk (resolve pk read_root read_payload ask raw)
  unfolding resolve
  resolve-IsRight ask raw = elim (Bool-cases (is_nil (trim_space raw))) [
    | inl e ↦ rw e tt
    | inr e ↦ rw e (request-IsRight ask (normalize_youtube_url pk raw))
  ]

  request-agrees :
      (ask ask' : Url → Answer) (n : Normalized)
      → ((u : Url) → u.scheme ≡ codes "https" → u.host ≡ youtube_host → ask u ≡ ask' u)
      → IsYoutube n
      → request pk read_root read_payload ask n ≡ request pk read_root read_payload ask' n
  unfolding request
  request-agrees ask ask' (not_normalized e) agree h = refl
  request-agrees ask ask' (normalized u) agree (s, h) =
      ap (answer_of pk read_root read_payload) (agree u s h)

  -- `Resolve` depends only on what is answered to https requests to www.youtube.com, whatever URL
  -- it is given.
  pub resolve_asks_youtube :
      (ask ask' : Url → Answer) (raw : Bytes)
      → ((u : Url) → u.scheme ≡ codes "https" → u.host ≡ youtube_host → ask u ≡ ask' u)
      → resolve pk read_root read_payload ask raw ≡ resolve pk read_root read_payload ask' raw
  unfolding resolve
  resolve_asks_youtube ask ask' raw agree = elim (Bool-cases (is_nil (trim_space raw))) [
    | inl e ↦ rw e refl
    | inr e ↦ rw e (
        request-agrees ask ask' (normalize_youtube_url pk raw) agree
          (normalize_youtube_url-IsYoutube pk raw))
  ]
