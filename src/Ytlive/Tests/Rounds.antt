-- ===== src/Ytlive/Tests/Rounds.antt =====
-- Rounds of the loop: a page that cannot be had, a page with all that it needs, and polls that fail.
use gnasty_chat.Json.{as_str, as_obj, get, as_arr, Fields}
use gnasty_chat.Ytlive.Emotes.{string_field, dig_two}
use gnasty_chat.Ytlive.Continuation.{
  continuation_under, continuation_of_elem, first_continuation, field_children, children_of,
  children, endpoint_token, listed_continuation, continuation_from_node, is_live_chat_key,
  map_has_live_chat_key, offer_of, offer, size, search, find_initial_continuation, or_else,
}
use gnasty_chat.Text.{beq, to_lower, contains, cut_byte, cut, Bytes, codes}
use gnasty_chat.Ytlive.Page.{
  continuation_of, boot_with, read_data, next_depth, scan_braces, is_blank, skip_blank, object_here,
  object_text, extract_json_object, first_object, before_quote, extract_string, read_page, answered,
  unanswered, bootstrap, booted, no_answer,
}
use gnasty_chat.Prelude.{true, false, Option, some, List, [], ◌∷◌, ◌++◌, ◌≡◌, refl, ℤ, All}
use gnasty_chat.Ytlive.Tests.Polling.{page}
use gnasty_chat.Ytlive.Run.{poll, Config, Round, Effect, boots, polls, run, start}
use gnasty_chat.Ytlive.Run.Waits.{IsProper, start_run-IsProper}
use gnasty_chat.Ytlive.Run.Recovery.{
  IsFailing, IsUnpolled, outage, retries, run_recovers, run_retries,
}

abbrev config : Config
config = record {
  live_url = codes "https://www.youtube.com/watch?v=x";
  poll_timeout_secs = ℤ.pos 0;
  poll_interval_ms = ℤ.pos 0;
}

abbrev body : Bytes
body = codes "\"INNERTUBE_API_KEY\":\"k\",\"INNERTUBE_CLIENT_VERSION\":\"v\",ytInitialData = {};"

abbrev read : Bytes → Option Fields
read s = some page

abbrev down : Round
down = record { done = false; page = unanswered; answer = unanswered; now = ℤ.pos 0; awake = true }

abbrev up : Round
up = record down { page = answered 200 body }

boots_up : bootstrap read up.page ≡ booted (codes "k") (codes "v") (codes "c1")
unfolding bootstrap read_page extract_string cut before_quote cut_byte first_object or_else
    extract_json_object object_text object_here skip_blank is_blank scan_braces next_depth read_data
    boot_with continuation_of find_initial_continuation search size offer offer_of
    map_has_live_chat_key is_live_chat_key contains to_lower continuation_from_node
    listed_continuation as_arr get beq endpoint_token dig_two as_obj children children_of
    field_children first_continuation continuation_of_elem continuation_under string_field as_str
boots_up = refl

down-IsFailing : IsFailing read [] down
unfolding bootstrap
down-IsFailing = record { goes_on = refl; waits = refl; why = no_answer; fails = refl }

start_run-IsProper_example : All IsProper (run read [] (down ∷ up ∷ []) (start config))
start_run-IsProper_example = start_run-IsProper read [] config (down ∷ up ∷ [])

run_recovers_example :
    (ys : List Effect) × (run read [] (down ∷ down ∷ up ∷ []) (start config)
      ≡ outage 0 2 ++ boots ∷ polls (codes "k") (codes "v") (codes "c1") ∷ ys)
run_recovers_example =
    run_recovers read [] config (codes "k") (codes "v") (codes "c1") (down ∷ down ∷ []) up []
      (down-IsFailing, (down-IsFailing, tt)) refl boots_up

up-IsUnpolled : IsUnpolled read [] config (codes "k") (codes "v") (codes "c1") up
unfolding poll
up-IsUnpolled = record { goes_on = refl; waits = refl; boot = boots_up; fails = refl }

run_retries_example :
    run read [] (up ∷ up ∷ []) (start config)
    ≡ retries read [] config (codes "k") (codes "v") (codes "c1") 2
run_retries_example =
    run_retries read [] config (codes "k") (codes "v") (codes "c1") (up ∷ up ∷ [])
      (up-IsUnpolled, (up-IsUnpolled, tt))
