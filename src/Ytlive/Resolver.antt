-- ===== src/Ytlive/Resolver.antt =====
-- internal/ytlive/resolver.go: whether a channel is live, and where. The packages net/url, path and html,
-- encoding/json and the answer of net/http are parameters.
pub mod Assignment
pub mod Urls
pub mod Found
pub mod Hosts
pub mod Answers
use gnasty_chat.Prelude.{
  ℕ, zero, suc, ◌≤◌, Bool, true, false, ◌||◌, ◌&&◌, not, Option, none, some, List, [], ◌∷◌, ◌++◌,
  ◌==◌, ltb, leb, if◌then◌else◌, is_nil, take,
}
use gnasty_chat.Text.{
  Bytes, codes, beq, contains, cut, has_prefix, equal_fold, to_lower, trim_space, trim_left,
  trim_right, strip_prefix,
}
use gnasty_chat.Ytlive.Resolver.Assignment.{
  Search, found, absent, out_of_fuel, extract_json_assignment,
}
use gnasty_chat.Ytlive.Resolver.Urls.{
  Url, Packages, UrlError, Normalized, youtube_host, encode_v, normalize_youtube_url, empty_url,
  not_normalized, normalized,
}

unfoldable pub canonical_watch_from_video_id : Packages → Bytes → Bytes
canonical_watch_from_video_id pk raw =
    let id = trim_space raw in
    if is_nil id then [] else codes "https://www.youtube.com/watch?" ++ encode_v pk id

unfoldable pub canonical_chat_from_video_id : Packages → Bytes → Bytes
canonical_chat_from_video_id pk raw =
    let id = trim_space raw in
    if is_nil id then [] else codes "https://www.youtube.com/live_chat?" ++ encode_v pk id

-- The URL of the answer, after redirects.
unfoldable pub canonical_watch_url : Packages → Url → Bytes
canonical_watch_url pk u =
    let id = pk.query_v u.raw_query in
    if not (equal_fold u.path (codes "/watch")) || is_nil (trim_space id)
    then []
    else codes "https://www.youtube.com/watch?" ++ encode_v pk id

unfoldable pub default_chat_url : Packages → Url → Bytes
default_chat_url pk u = canonical_chat_from_video_id pk (pk.query_v u.raw_query)

-- The bytes before a quote or an angle bracket.
unfoldable pub until_quote : Bytes → Bytes
until_quote [] = []
until_quote (c ∷ s) =
    if c == 34 || (c == 39 || (c == b'<' || c == b'>')) then [] else c ∷ until_quote s

unfoldable pub parsed_chat_url : Packages → Option Url → Bytes
parsed_chat_url pk none = []
parsed_chat_url pk (some u) =
    pk.write_url (record u { scheme = codes "https"; host = youtube_host })

unfoldable pub chat_url_of : Packages → Bytes → Bytes
chat_url_of pk raw =
    if is_nil raw
    then []
    else if has_prefix (codes "http://") raw || has_prefix (codes "https://") raw
    then parsed_chat_url pk (pk.parse raw)
    else if has_prefix (codes "/") raw
    then codes "https://www.youtube.com" ++ raw
    else []

unfoldable pub chat_url_at : Packages → Bytes → Bytes → Bytes
chat_url_at pk marker after = chat_url_of pk (trim_space (until_quote (marker ++ after)))

unfoldable pub extract_long_chat_url : Packages → Bytes → Bytes
extract_long_chat_url pk body = elim (cut (codes "https://www.youtube.com/live_chat?") body) [
  | none ↦ []
  | some (before, after) ↦ chat_url_at pk (codes "https://www.youtube.com/live_chat?") after
]

unfoldable pub extract_chat_url : Packages → Bytes → Bytes
extract_chat_url pk body = elim (cut (codes "/live_chat?") body) [
  | none ↦ extract_long_chat_url pk body
  | some (before, after) ↦ chat_url_at pk (codes "/live_chat?") after
]

unfoldable pub contains_live_indicator : Bytes → Bool
contains_live_indicator body =
    let lowered = to_lower body in
    contains lowered (codes "\"islivenow\":true")
    || (contains lowered (codes "\"islive\":true")
        || (contains lowered (codes "\"islivecontent\":true")
            || contains lowered (codes "livechatrenderer")))

-- strings.ReplaceAll of `\/` by `/`
unfoldable pub replace_slashes : Bytes → Bytes
replace_slashes [] = []
replace_slashes (c ∷ []) = c ∷ []
replace_slashes (c ∷ d ∷ s) =
    let rest = replace_slashes (d ∷ s) in if c == 92 && d == b'/' then rest else c ∷ rest

-- strings.ReplaceAll of `\u0026` by `&`, after so many bytes that belong to the last one.
unfoldable pub replace_ampersands : ℕ → Bytes → Bytes
replace_ampersands skip [] = []
replace_ampersands zero (c ∷ s) =
    let behind = replace_ampersands 5 s in
    let rest = replace_ampersands 0 s in
    if has_prefix (92 ∷ codes "u0026") (c ∷ s) then b'&' ∷ behind else c ∷ rest
replace_ampersands (suc skip) (c ∷ s) = replace_ampersands skip s

unfoldable pub decode_page : Packages → Bytes → Bytes
decode_page pk body = pk.unescape_html (replace_ampersands 0 (replace_slashes body))

-- What json.Unmarshal reads of a player's response: the video's id, `isLive`, `isLiveContent`, and whether
-- there are streaming data.
pub record Player : Type 0 where
  pub video_id : Bytes
  pub is_live : Bool
  pub is_live_content : Bool
  pub streaming : Bool

unfoldable pub player_state : Player → Option (Bytes × Bool)
player_state p =
    if is_nil (trim_space p.video_id)
    then none
    else some (trim_space p.video_id, p.is_live_content || (p.is_live || p.streaming))

pub record Result : Type 0 where
  pub live : Bool
  pub watch_url : Bytes
  pub chat_url : Bytes

pub data ResolveError : Type 0 where
  bad_url : UrlError → ResolveError
  no_answer bad_status : ResolveError

-- No request or no answer, an answer of a status whose body cannot be read, or the status, the last URL and
-- the body.
pub data Answer : Type 0 where
  unanswered : Answer
  broken : ℕ → Answer
  answered : ℕ → Url → Bytes → Answer

pub data Resolved : Type 0 where
  not_resolved : ResolveError → Resolved
  resolved : Result → Resolved

module _ (pk : Packages) where
  unfoldable pub with_player : Bytes → Bytes → Bool → Result
  with_player watch_url id true = record {
    live = true;
    watch_url = canonical_watch_from_video_id pk id;
    chat_url = canonical_chat_from_video_id pk id;
  }
  with_player watch_url id false = record {
    live = false;
    watch_url = if is_nil watch_url then canonical_watch_from_video_id pk id else watch_url;
    chat_url = [];
  }

  -- Without a player's state, by the text of the page.
  unfoldable pub by_text : Url → Bytes → Bytes → Result
  by_text final_url watch_url text =
      let chat_url = extract_chat_url pk text in
      if is_nil watch_url
      then record { live = false; watch_url = watch_url; chat_url = [] }
      else if not (is_nil chat_url)
      then record { live = true; watch_url = watch_url; chat_url = chat_url }
      else if contains_live_indicator text
      then record { live = true; watch_url = watch_url; chat_url = default_chat_url pk final_url }
      else record { live = false; watch_url = watch_url; chat_url = [] }

-- The limit of the body: 5 MiB.
abbrev pub max_body : ℕ
max_body = 5242880

-- `read_root` unmarshals the object and returns what it has under `playerResponse`, if anything;
-- `read_payload` unmarshals a player's response.
module _ (pk : Packages) (read_root : Bytes → Option (Option Bytes))
    (read_payload : Bytes → Option Player) where
  unfoldable pub state_in : Bytes → Option (Bytes × Bool)
  state_in raw = elim (read_payload raw) [ none ↦ none | some p ↦ player_state p ]

  unfoldable pub parse_initial_player_json : Bytes → Option (Bytes × Bool)
  parse_initial_player_json raw = elim (read_root raw) [
    | none ↦ none
    | some none ↦ state_in raw
    | some (some nested) ↦ state_in nested
  ]

  unfoldable pub state_of : Search → Option (Bytes × Bool)
  state_of (found raw) = parse_initial_player_json raw
  state_of _ = none

  -- The state that the first of the markers gives.
  unfoldable pub first_state : List Bytes → Bytes → Option (Bytes × Bool)
  first_state [] body = none
  first_state (marker ∷ markers) body = elim (state_of (extract_json_assignment body marker)) [
    | none ↦ first_state markers body
    | some state ↦ some state
  ]

  unfoldable pub extract_initial_player_state : Bytes → Option (Bytes × Bool)
  extract_initial_player_state body =
      first_state (codes "ytInitialPlayerResponse" ∷ codes "ytInitialData" ∷ []) body

  -- The page's answer, once its body is read.
  unfoldable pub read_answer : Url → Bytes → Result
  read_answer final_url body =
      let watch_url = canonical_watch_url pk final_url in
      elim (extract_initial_player_state body) [
        | none ↦ by_text pk final_url watch_url (decode_page pk body)
        | some (id, live) ↦ with_player pk watch_url id live
      ]

  unfoldable pub answer_of : Answer → Resolved
  answer_of unanswered = not_resolved no_answer
  answer_of (broken status) =
      if leb 400 status then not_resolved bad_status else not_resolved no_answer
  answer_of (answered status final_url body) =
      if leb 400 status
      then not_resolved bad_status
      else resolved (read_answer final_url (take max_body body))

  unfoldable pub request : (Url → Answer) → Normalized → Resolved
  request ask (not_normalized e) = not_resolved (bad_url e)
  request ask (normalized u) = answer_of (ask u)

  unfoldable pub resolve : (Url → Answer) → Bytes → Resolved
  resolve ask raw =
      if is_nil (trim_space raw)
      then not_resolved (bad_url empty_url)
      else request ask (normalize_youtube_url pk raw)
