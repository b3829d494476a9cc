-- ===== src/Ytlive/Continuation.antt =====
-- internal/ytlive/client.go: where the first continuation of a chat stands in the page's data. A map's
-- children come in the order in which `range` visits them.
pub mod Search
use gnasty_chat.Prelude.{
  ℕ, zero, suc, ◌+◌, Bool, true, false, ◌||◌, Option, none, some, List, [], ◌∷◌, ◌++◌, ◌*◌,
  if◌then◌else◌, is_nil, ℤ, is_positive, pos_part,
}
use gnasty_chat.Text.{Bytes, codes, contains, trim_space, to_lower}
use gnasty_chat.Text.Decimal.{parse_int}
use gnasty_chat.Json.{
  Json, num, str, arr, obj, Items, nil, cons, Fields, end, field, get, as_obj, as_arr,
}
use gnasty_chat.Ytlive.Emotes.{string_field, dig_two}

unfoldable pub is_live_chat_key : Bytes → Bool
is_live_chat_key key = contains (to_lower key) (codes "livechat")

unfoldable pub map_has_live_chat_key : Fields → Bool
map_has_live_chat_key end = false
map_has_live_chat_key (field k v m) = is_live_chat_key k || map_has_live_chat_key m

-- The first of two texts that is not empty.
unfoldable pub or_else : Bytes → Bytes → Bytes
or_else [] t = t
or_else (c ∷ s) t = c ∷ s

-- `next["continuation"]` of the map under a key.
unfoldable pub continuation_under : Fields → Bytes → Bytes
continuation_under m key = elim (as_obj (get key m)) [
  | none ↦ []
  | some next ↦ string_field next (codes "continuation")
]

unfoldable pub continuation_of_elem : Fields → Bytes
continuation_of_elem m = or_else (continuation_under m (codes "invalidationContinuationData")) (
    or_else (continuation_under m (codes "timedContinuationData"))
      (continuation_under m (codes "reloadContinuationData")))

unfoldable pub first_continuation : Items → Bytes
first_continuation nil = []
first_continuation (cons (obj m) js) = or_else (continuation_of_elem m) (first_continuation js)
first_continuation (cons _ js) = first_continuation js

unfoldable pub listed_continuation : Fields → Bytes
listed_continuation node = elim (as_arr (get (codes "continuations") node)) [
  | none ↦ []
  | some js ↦ first_continuation js
]

-- `token` of the command under an endpoint.
unfoldable pub endpoint_token : Bytes → Fields → Bytes
endpoint_token endpoint node = elim (dig_two node endpoint (codes "continuationCommand")) [
  | none ↦ []
  | some cmd ↦ string_field cmd (codes "token")
]

unfoldable pub continuation_from_node : Fields → Bytes
continuation_from_node node =
    or_else (listed_continuation node) (endpoint_token (codes "continuationEndpoint") node)

pub record QueueItem : Type 0 where
  pub value : Json
  pub in_live_chat : Bool

-- What the two `range` loops append to the queue.
unfoldable pub field_children : Bool → Fields → List QueueItem
field_children live end = []
field_children live (field k v m) =
    record { value = v; in_live_chat = live || is_live_chat_key k } ∷ field_children live m

unfoldable pub item_children : Bool → Items → List QueueItem
item_children live nil = []
item_children live (cons v xs) = record { value = v; in_live_chat = live } ∷ item_children live xs

unfoldable pub children_of : Json → Bool → List QueueItem
children_of (obj m) live = field_children (live || map_has_live_chat_key m) m
children_of (arr xs) live = item_children live xs
children_of _ live = []

unfoldable pub children : QueueItem → List QueueItem
children item = children_of item.value item.in_live_chat

-- What a visit of the item returns, if it returns.
unfoldable pub offer_of : Json → Bool → Bytes
offer_of (obj m) live = if live || map_has_live_chat_key m then continuation_from_node m else []
offer_of _ live = []

unfoldable pub offer : QueueItem → Bytes
offer item = offer_of item.value item.in_live_chat

-- The loop on a queue, with fuel for so many visits; without a result if that is too little.
unfoldable pub search : ℕ → List QueueItem → Option Bytes
search zero [] = some []
search zero (item ∷ queue) = none
search (suc fuel) [] = some []
search (suc fuel) (item ∷ queue) = elim (offer item) [
  | [] ↦ search fuel (queue ++ children item)
  | c ∷ s ↦ some (c ∷ s)
]

-- The number of values in a value, itself included.
unfoldable mutual
  pub size : Json → ℕ
  size (arr xs) = suc (size_items xs)
  size (obj m) = suc (size_fields m)
  size _ = 1

  pub size_items : Items → ℕ
  size_items nil = 0
  size_items (cons x xs) = size x + size_items xs

  pub size_fields : Fields → ℕ
  size_fields end = 0
  size_fields (field k v m) = size v + size_fields m

unfoldable pub find_initial_continuation : Fields → Option Bytes
find_initial_continuation data_ =
    search (size (obj data_)) (record { value = obj data_; in_live_chat = false } ∷ [])
