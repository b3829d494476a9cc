-- ===== src/Ytlive/Resolver/Urls.antt =====
-- internal/ytlive/resolver.go: the URL that is requested for an input.
use gnasty_chat.Prelude.{Bool, ◌||◌, Option, none, some, [], ◌∷◌, ◌++◌, ◌==◌, if◌then◌else◌, is_nil}
use gnasty_chat.Text.{
  Bytes, codes, beq, contains, has_prefix, equal_fold, to_lower, trim_space, trim_left, trim_right,
}

pub record Url : Type 0 where
  pub scheme : Bytes
  pub host : Bytes
  pub path : Bytes
  pub raw_query : Bytes

-- url.Parse, url.QueryEscape, path.Clean, the value of `v` in a query, html.UnescapeString, and String of a
-- URL that was parsed.
pub record Packages : Type 0 where
  pub parse : Bytes → Option Url
  pub escape : Bytes → Bytes
  pub clean : Bytes → Bytes
  pub query_v : Bytes → Bytes
  pub unescape_html : Bytes → Bytes
  pub write_url : Url → Bytes

pub data UrlError : Type 0 where
  empty_url unparsable no_video_id unsupported_host : UrlError

pub data Normalized : Type 0 where
  not_normalized : UrlError → Normalized
  normalized : Url → Normalized

unfoldable pub is_handle_path : Bytes → Bool
is_handle_path p = has_prefix (codes "/@") p

-- strings.TrimSuffix
unfoldable pub trim_suffix : Bytes → Bytes → Bytes
trim_suffix suffix [] = []
trim_suffix suffix (c ∷ s) =
    let rest = trim_suffix suffix s in if beq (c ∷ s) suffix then [] else c ∷ rest

unfoldable pub normalize_handle_path : Bytes → Bytes
normalize_handle_path p =
    let trimmed = trim_suffix (codes "/live") (trim_suffix (codes "/") p) in
    if has_prefix (codes "/@") trimmed then trimmed ++ codes "/live" else p

abbrev pub youtube_host : Bytes
youtube_host = codes "www.youtube.com"

unfoldable pub encode_v : Packages → Bytes → Bytes
encode_v pk id = codes "v=" ++ pk.escape id

unfoldable pub youtube_url : Bytes → Bytes → Url
youtube_url path raw_query = record {
  scheme = codes "https";
  host = youtube_host;
  path = path;
  raw_query = raw_query;
}

-- strings.Trim at "/"
unfoldable pub trim_slashes : Bytes → Bytes
trim_slashes p = trim_right (λ c. c == b'/') (trim_left (λ c. c == b'/') p)

unfoldable pub normalize_short : Packages → Url → Normalized
normalize_short pk u =
    let id = trim_slashes u.path in
    if is_nil id
    then not_normalized no_video_id
    else normalized (youtube_url (codes "/watch") (encode_v pk id))

unfoldable pub normalize_watch : Packages → Url → Normalized
normalize_watch pk u =
    let id = trim_space (pk.query_v u.raw_query) in
    if is_nil id
    then not_normalized no_video_id
    else normalized (youtube_url u.path (encode_v pk id))

unfoldable pub normalize_long : Packages → Url → Normalized
normalize_long pk u =
    if is_handle_path u.path
    then normalized (youtube_url (normalize_handle_path u.path) [])
    else if equal_fold u.path (codes "/watch")
    then normalize_watch pk u
    else normalized (youtube_url (pk.clean u.path) u.raw_query)

unfoldable pub normalize_host : Packages → Url → Normalized
normalize_host pk u =
    let host = to_lower u.host in
    if beq host (codes "youtu.be")
    then normalize_short pk u
    else if beq host (codes "youtube.com") || beq host youtube_host
    then normalize_long pk u
    else not_normalized unsupported_host

-- A handle gets the site in front of it, and what has no scheme gets one.
unfoldable pub with_scheme : Bytes → Bytes
with_scheme trimmed =
    let s =
      if has_prefix (codes "@") trimmed
      then codes "https://www.youtube.com/" ++ trimmed
      else trimmed in
    if contains s (codes "://") then s else codes "https://" ++ s

unfoldable pub normalize_parsed : Packages → Option Url → Normalized
normalize_parsed pk none = not_normalized unparsable
normalize_parsed pk (some u) = normalize_host pk u

unfoldable pub normalize_youtube_url : Packages → Bytes → Normalized
normalize_youtube_url pk raw =
    let trimmed = trim_space raw in
    if is_nil trimmed
    then not_normalized empty_url
    else normalize_parsed pk (pk.parse (with_scheme trimmed))
