-- ===== src/Ytlive/Tests/Resolving.antt =====
-- A small net/url, pages with and without a player, and instances of the theorems.
use gnasty_chat.Ytlive.Balanced.{
  in_string, close_bracket, outside_string, next, scan_from, slice_balanced,
}
use gnasty_chat.Text.{
  is_space, equal_fold, to_lower, has_prefix, contains, trim_space, Bytes, codes, cut, trim_prefix,
  beq,
}
use gnasty_chat.Ytlive.Resolver.{
  until_quote, chat_url_of, chat_url_at, canonical_watch_url, by_text, canonical_chat_from_video_id,
  canonical_watch_from_video_id, with_player, player_state, state_in, parse_initial_player_json,
  state_of, first_state, extract_initial_player_state, read_answer, answer_of, request,
  extract_chat_url, Player, Answer, unanswered, answered, resolved, not_resolved, bad_status,
  decode_page, resolve, replace_slashes, replace_ampersands,
}
use gnasty_chat.Ytlive.Resolver.Urls.{
  trim_suffix, youtube_url, trim_slashes, normalize_short, encode_v, is_handle_path, normalize_long,
  normalize_host, with_scheme, normalize_parsed, Url, youtube_host, Packages, normalized,
  not_normalized, unsupported_host, normalize_youtube_url, normalize_handle_path,
}
use gnasty_chat.Ytlive.Resolver.Assignment.{
  take_balanced, skip_spaces, value_at, is_space_byte, skip_to_equals, behind_equals, attempt,
  conclude, search_from, found, extract_json_assignment,
}
use gnasty_chat.Prelude.{true, false, Option, none, some, [], ◌++◌, ◌≡◌, refl, if◌then◌else◌}
use gnasty_chat.Ytlive.Resolver.Found.{IsFound, extract_json_assignment-IsFound}
use gnasty_chat.Ytlive.Resolver.Answers.{IsResolvedRight, resolve-IsRight, resolve_asks_youtube}

abbrev parse_path : Bytes → Bytes → Option Url
parse_path host rest = elim (cut (codes "?") rest) [
  | none ↦
      some record { scheme = codes "https"; host = host; path = codes "/" ++ rest; raw_query = [] }
  | some (path, query) ↦
      some
        record { scheme = codes "https"; host = host; path = codes "/" ++ path; raw_query = query }
]

abbrev parse_host : Bytes → Option Url
parse_host s = elim (cut (codes "/") s) [
  | none ↦ some record { scheme = codes "https"; host = s; path = []; raw_query = [] }
  | some (host, rest) ↦ parse_path host rest
]

abbrev parse : Bytes → Option Url
parse s = elim (cut (codes "://") s) [ none ↦ none | some (scheme, rest) ↦ parse_host rest ]

abbrev packages : Packages
packages = record {
  parse = parse;
  escape = λ s. s;
  clean = λ s. s;
  query_v = λ s. trim_prefix (codes "v=") s;
  unescape_html = λ s. s;
  write_url = λ u. u.path;
}

abbrev read_root : Bytes → Option (Option Bytes)
read_root s = some none

abbrev player : Player
player = record {
  video_id = codes "x ";
  is_live = false;
  is_live_content = false;
  streaming = true;
}

abbrev read_payload : Bytes → Option Player
read_payload s = some player

abbrev final : Url
final = record {
  scheme = codes "https";
  host = codes "www.youtube.com";
  path = codes "/watch";
  raw_query = codes "v=x";
}

abbrev live_page : Bytes
live_page = codes "var ytInitialPlayerResponse = {1};"

abbrev chat_page : Bytes
chat_page = codes "<a href='\\/live_chat?v=x\\u0026a'>"

live_resolve :
    resolve packages read_root read_payload (λ u. answered 200 final live_page) (codes "@a")
    ≡ resolved record {
      live = true;
      watch_url = codes "https://www.youtube.com/watch?v=x";
      chat_url = codes "https://www.youtube.com/live_chat?v=x";
    }
unfolding resolve trim_space request normalize_youtube_url normalize_parsed cut with_scheme contains
    has_prefix normalize_host beq to_lower normalize_long is_handle_path answer_of read_answer
    extract_initial_player_state first_state state_of extract_json_assignment search_from conclude
    attempt behind_equals skip_to_equals is_space_byte value_at skip_spaces take_balanced
    slice_balanced scan_from next outside_string close_bracket parse_initial_player_json state_in
    player_state with_player canonical_watch_from_video_id canonical_chat_from_video_id encode_v
live_resolve = refl

chat_resolve :
    resolve packages read_root read_payload (λ u. answered 200 final chat_page) (codes "@a")
    ≡ resolved record {
      live = true;
      watch_url = codes "https://www.youtube.com/watch?v=x";
      chat_url = codes "https://www.youtube.com/live_chat?v=x&a";
    }
unfolding resolve trim_space request normalize_youtube_url normalize_parsed cut with_scheme contains
    has_prefix normalize_host beq to_lower normalize_long is_handle_path answer_of read_answer
    extract_initial_player_state first_state state_of extract_json_assignment search_from by_text
    canonical_watch_url equal_fold trim_prefix extract_chat_url decode_page replace_ampersands
    replace_slashes chat_url_at chat_url_of until_quote encode_v
chat_resolve = refl

short_url :
    normalize_youtube_url packages (codes " youtu.be/x/ ")
    ≡ normalized record {
      scheme = codes "https";
      host = codes "www.youtube.com";
      path = codes "/watch";
      raw_query = codes "v=x";
    }
unfolding normalize_youtube_url trim_space normalize_parsed cut with_scheme contains has_prefix
    normalize_host beq to_lower normalize_short trim_slashes youtube_url encode_v
short_url = refl

handle_url :
    normalize_youtube_url packages (codes "YouTube.com/@a/")
    ≡ normalized record {
      scheme = codes "https";
      host = codes "www.youtube.com";
      path = codes "/@a/live";
      raw_query = [];
    }
unfolding normalize_youtube_url trim_space normalize_parsed cut with_scheme contains has_prefix
    normalize_host beq to_lower normalize_long is_handle_path youtube_url normalize_handle_path
    trim_suffix
handle_url = refl

other_host :
    normalize_youtube_url packages (codes "example.org/x") ≡ not_normalized unsupported_host
unfolding normalize_youtube_url trim_space normalize_parsed cut with_scheme contains has_prefix
    normalize_host beq to_lower
other_host = refl

failed_resolve :
    resolve packages read_root read_payload (λ u. answered 404 final live_page) (codes "@a")
    ≡ not_resolved bad_status
unfolding resolve trim_space request normalize_youtube_url normalize_parsed cut with_scheme contains
    has_prefix normalize_host beq to_lower normalize_long is_handle_path answer_of
failed_resolve = refl

named_twice :
    extract_json_assignment (codes "a ('d') ['a'] = [{\"]\"}]; b") (codes "a")
    ≡ found (codes "[{\"]\"}]")
unfolding extract_json_assignment search_from cut conclude attempt behind_equals skip_to_equals
    is_space_byte is_space value_at skip_spaces take_balanced slice_balanced scan_from next
    outside_string in_string close_bracket
named_twice = refl

extract_json_assignment-IsFound_example :
    IsFound live_page
      (codes "ytInitialPlayerResponse")
      (extract_json_assignment live_page (codes "ytInitialPlayerResponse"))
extract_json_assignment-IsFound_example =
    extract_json_assignment-IsFound b'y' (codes "tInitialPlayerResponse") live_page

resolve-IsRight_example :
    IsResolvedRight packages
      (resolve packages read_root read_payload (λ u. answered 200 final chat_page) (codes "@a"))
resolve-IsRight_example =
    resolve-IsRight packages read_root read_payload (λ u. answered 200 final chat_page) (codes "@a")

-- One that answers every host, and one that answers only www.youtube.com over https.
abbrev picky : Url → Answer
picky u = if beq u.host youtube_host then answered 200 final live_page else unanswered

picky_agrees :
    (u : Url)
    → u.scheme ≡ codes "https"
    → u.host ≡ youtube_host
    → answered 200 final live_page ≡ picky u
unfolding beq
picky_agrees u s h = rw h refl

resolve_asks_youtube_example :
    resolve packages read_root read_payload (λ u. answered 200 final live_page) (codes "youtu.be/x")
    ≡ resolve packages read_root read_payload picky (codes "youtu.be/x")
resolve_asks_youtube_example =
    resolve_asks_youtube packages read_root read_payload (λ u. answered 200 final live_page) picky
      (codes "youtu.be/x") picky_agrees
