-- ===== src/Ytlive/Tests/Polling.antt =====
-- A chat's page and the answer of a poll, and instances of the theorems.
use gnasty_chat.Ytlive.Emotes.{message_text_and_emotes, string_field, dig_two}
use gnasty_chat.Ytlive.Messages.Build.{youtube_message, build_message}
use gnasty_chat.Ytlive.Page.{
  next_depth, scan_braces, is_blank, skip_blank, object_here, object_text, extract_json_object,
}
use gnasty_chat.Text.{cut, beq, to_lower, contains, Bytes, codes}
use gnasty_chat.Ytlive.Messages.{
  add_built, read_renderers, add_action, read_action, read_actions, extract_messages,
}
use gnasty_chat.Ytlive.Messages.Actions.{
  renderer_under, renderers_in, collect_text_renderers, continuation_actions, collect,
  collect_under, gather_actions,
}
use gnasty_chat.Json.{
  as_str, as_obj, get, as_arr, Json, str, arr, obj, nil, cons, Fields, end, field,
}
use gnasty_chat.Ytlive.Continuation.{
  continuation_under, continuation_of_elem, first_continuation, field_children, children_of,
  children, endpoint_token, listed_continuation, or_else, continuation_from_node, is_live_chat_key,
  map_has_live_chat_key, offer_of, size, search, find_initial_continuation, offer, QueueItem,
}
use gnasty_chat.Prelude.{◌≢◌, ◌+◌, some, [], ◌≡◌, refl, arith, ℤ, length, All, ◌⊎◌, ◌≤◌}
use gnasty_chat.Ytlive.Continuation.Search.{Reaches, root, find_initial_continuation_lem}
use gnasty_chat.Ytlive.Poll.{extract_continuation}
use gnasty_chat.Ytlive.Poll.First.{
  to_found, first_cont, first_timeout, maps_in, extract_continuation-eq,
}
use gnasty_chat.Ytlive.Messages.Counts.{IsSendable, extract_messages-IsCounted}
use gnasty_chat.Ytlive.Page.Objects.{IsCutFrom, extract_json_object-IsCutFrom}

-- {"liveChatRenderer":{"continuations":[{"timedContinuationData":{"continuation":"c1"}}]}}
abbrev pub page : Fields
page =
    field (codes "liveChatRenderer")
      (obj (
        field (codes "continuations")
          (arr (
            cons
              (obj (
                field (codes "timedContinuationData")
                  (obj (field (codes "continuation") (str (codes "c1")) end)) end))
              nil))
          end))
      end

find_page : find_initial_continuation page ≡ some (codes "c1")
unfolding find_initial_continuation search size offer offer_of map_has_live_chat_key
    is_live_chat_key contains to_lower continuation_from_node or_else listed_continuation as_arr get
    beq endpoint_token dig_two as_obj children children_of field_children first_continuation
    continuation_of_elem continuation_under string_field as_str
find_page = refl

find_initial_continuation_lem_example :
    ((find_initial_continuation page ≡ some [])
      × ((j : QueueItem) → Reaches (root page) j → offer j ≡ []))
    ⊎ ((c : Bytes) × (j : QueueItem) × (find_initial_continuation page ≡ some c)
        × (c ≢ [])
        × Reaches (root page) j
        × (offer j ≡ c))
find_initial_continuation_lem_example = find_initial_continuation_lem page

-- {"timeoutMs":"250","x":{"continuation":"c2"}}
abbrev timed : Fields
timed =
    field (codes "timeoutMs") (str (codes "250"))
      (field (codes "x") (obj (field (codes "continuation") (str (codes "c2")) end)) end)

extract_continuation-eq_example :
    extract_continuation timed
    ≡ to_found (first_cont (maps_in (obj timed))) (first_timeout (maps_in (obj timed)))
extract_continuation-eq_example = extract_continuation-eq timed

-- A message with two equal badges, a message without a text, and an action of another kind.
abbrev owner : Json
owner = obj (field (codes "tooltip") (str (codes "Owner")) end)

abbrev renderer : Fields
renderer =
    field (codes "message") (obj (field (codes "simpleText") (str (codes "hi")) end))
      (field (codes "authorBadges") (arr (cons owner (cons owner nil))) end)

abbrev answer : Fields
answer =
    field (codes "actions")
      (arr (
        cons (obj (field (codes "liveChatTextMessageRenderer") (obj renderer) end)) (
          cons (obj (field (codes "liveChatTextMessageRenderer") (obj end) end))
            (cons (obj (field (codes "markChatItemAsDeletedAction") (obj end) end)) nil))))
      end

count_messages : length (extract_messages [] (ℤ.pos 7) answer).0.messages ≡ 1
unfolding extract_messages read_actions gather_actions collect_under as_arr get beq collect
    continuation_actions dig_two as_obj read_action add_action collect_text_renderers renderers_in
    renderer_under read_renderers add_built build_message youtube_message message_text_and_emotes
    string_field as_str
count_messages = refl

extract_messages-IsCounted_example :
    ((extract_messages [] (ℤ.pos 7) answer).1.chat_messages
      ≡ (extract_messages [] (ℤ.pos 7) answer).1.stored
        + length (extract_messages [] (ℤ.pos 7) answer).0.failures)
    × ((extract_messages [] (ℤ.pos 7) answer).1.skipped
        ≤ length (extract_messages [] (ℤ.pos 7) answer).0.non_chats)
    × All IsSendable (extract_messages [] (ℤ.pos 7) answer).0.messages
extract_messages-IsCounted_example = extract_messages-IsCounted [] (ℤ.pos 7) answer

abbrev script : Bytes
script = codes "x = {\"a\":{}};"

cut_script : extract_json_object script (codes "x =") ≡ codes "{\"a\":{}}"
unfolding extract_json_object cut object_text object_here skip_blank is_blank scan_braces next_depth
cut_script = refl

cuts : extract_json_object script (codes "x =") ≢ []
unfolding extract_json_object
cuts = ground (arith, cut_script)

extract_json_object-IsCutFrom_example :
    IsCutFrom script (codes "x =") (extract_json_object script (codes "x ="))
extract_json_object-IsCutFrom_example = extract_json_object-IsCutFrom script (codes "x =") cuts
