-- ===== src/Ytlive/Messages/Actions.antt =====
-- internal/ytlive/client.go: the actions of an answer, and the renderers of messages in an action. A
-- map's children come in the order in which `range` visits them.
use gnasty_chat.Prelude.{ℕ, none, some, List, [], ◌∷◌, ◌++◌, if◌then◌else◌, is_nil, take}
use gnasty_chat.Text.{Bytes, codes, is_some, trim_space}
use gnasty_chat.Json.{
  Json, arr, obj, Items, nil, cons, Fields, end, field, get, as_obj, as_arr, marshal,
}
use gnasty_chat.Ytlive.Emotes.{string_field, dig_two}
use gnasty_chat.Ytlive.Continuation.{or_else}

-- The maps of a list.
unfoldable pub collect : Items → List Fields
collect nil = []
collect (cons (obj m) js) = m ∷ collect js
collect (cons _ js) = collect js

unfoldable pub collect_under : Bytes → Fields → List Fields
collect_under key m = elim (as_arr (get key m)) [ none ↦ [] | some js ↦ collect js ]

unfoldable pub continuation_actions : Fields → List Fields
continuation_actions payload =
    elim (dig_two payload (codes "continuationContents") (codes "liveChatContinuation")) [
      | none ↦ []
      | some lc ↦ collect_under (codes "actions") lc
    ]

unfoldable pub gather_actions : Fields → List Fields
gather_actions payload =
    collect_under (codes "actions") payload
    ++ (collect_under (codes "onResponseReceivedActions") payload ++ continuation_actions payload)

unfoldable pub renderer_under : Bytes → Fields → List Fields
renderer_under key m = elim (as_obj (get key m)) [ none ↦ [] | some renderer ↦ renderer ∷ [] ]

unfoldable pub renderers_of : Fields → List Fields
renderers_of m =
    renderer_under (codes "liveChatTextMessageRenderer") m
    ++ renderer_under (codes "liveChatLegacyTextMessageRenderer") m

unfoldable mutual
  unfolding renderers_of

  pub renderers_in : Json → List Fields
  renderers_in (obj m) = renderers_of m ++ renderers_in_fields m
  renderers_in (arr xs) = renderers_in_items xs
  renderers_in _ = []

  pub renderers_in_items : Items → List Fields
  renderers_in_items nil = []
  renderers_in_items (cons x xs) = renderers_in x ++ renderers_in_items xs

  pub renderers_in_fields : Fields → List Fields
  renderers_in_fields end = []
  renderers_in_fields (field k v m) = renderers_in v ++ renderers_in_fields m

unfoldable pub collect_text_renderers : Fields → List Fields
collect_text_renderers action = renderers_in (obj action)

abbrev pub known : List Bytes
known =
    codes "addChatItemAction"
    ∷ codes "addLiveChatTickerItemAction"
    ∷ codes "addLiveChatTickerHeaderAction"
    ∷ codes "addLiveChatItemAction"
    ∷ codes "markChatItemAsDeletedAction"
    ∷ codes "markChatItemsByAuthorAsDeletedAction"
    ∷ codes "liveChatItemListRenderer"
    ∷ codes "addLiveChatWarningMessageAction"
    ∷ codes "showLiveChatActionPanelAction"
    ∷ codes "showLiveChatTooltipAction"
    ∷ codes "updateLiveChatPollAction"
    ∷ codes "addLiveChatPollAction"
    ∷ []

unfoldable pub first_key : Fields → Bytes
first_key end = codes "unknown"
first_key (field k v m) = k

unfoldable pub action_type_among : List Bytes → Fields → Bytes
action_type_among [] action = first_key action
action_type_among (key ∷ keys) action =
    if is_some (get key action) then key else action_type_among keys action

unfoldable pub detect_action_type : Fields → Bytes
detect_action_type action = action_type_among known action

-- A text of the map that is not blank, under the first of the keys that has one.
unfoldable pub string_among : List Bytes → Fields → Bytes
string_among [] m = []
string_among (key ∷ keys) m =
    if is_nil (trim_space (string_field m key)) then string_among keys m else string_field m key

unfoldable mutual
  unfolding string_among or_else

  pub find_string : List Bytes → Json → Bytes
  find_string keys (obj m) = or_else (string_among keys m) (find_string_in_fields keys m)
  find_string keys (arr xs) = find_string_in_items keys xs
  find_string keys _ = []

  pub find_string_in_items : List Bytes → Items → Bytes
  find_string_in_items keys nil = []
  find_string_in_items keys (cons x xs) =
      or_else (find_string keys x) (find_string_in_items keys xs)

  pub find_string_in_fields : List Bytes → Fields → Bytes
  find_string_in_fields keys end = []
  find_string_in_fields keys (field k v m) =
      or_else (find_string keys v) (find_string_in_fields keys m)

unfoldable pub short_action_id : Json → Bytes
short_action_id v =
    let id =
      find_string (codes "id" ∷ codes "key" ∷ codes "clientMessageId" ∷ codes "actionId" ∷ []) v in
    if is_nil id then codes "unknown" else take 12 id

-- What is logged of an action that is no message.
unfoldable pub marshal_truncated : Fields → ℕ → Bytes
marshal_truncated v limit = take limit (marshal (obj v))
