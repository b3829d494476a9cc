-- ===== src/Http/Hub.antt =====
-- internal/httpapi/server.go: the clients of the streams, under the lock of the server. A client is its
-- number; a channel is the messages that wait in it and whether it is closed. A receive by the client's
-- handler is a step of its own.
pub mod Stopped
pub mod Bounded
use gnasty_chat.Prelude.{
  ℕ, suc, ◌+◌, ◌≤◌, ◌<◌, Bool, true, false, ◌&&◌, ◌||◌, not, Option, none, some, List, [], ◌∷◌,
  ◌++◌, ltb, ◌==◌, if◌then◌else◌, length, map,
}
use gnasty_chat.Message.{ChatMessage}
use gnasty_chat.Http.Filters.{Filters, matches}

abbrev pub buffer_size : ℕ
buffer_size = 256

pub record Client : Type 0 where
  pub number : ℕ
  pub filters : Filters
  pub waiting : List ChatMessage
  pub drops : ℕ

-- The clients in the map of the server. Of the channels that it has closed it keeps how often each
-- was closed.
pub record Hub : Type 0 where
  pub clients : List Client
  pub closed : Bool
  pub closings : List ℕ

unfoldable pub new_hub : Hub
new_hub = record { clients = []; closed = false; closings = [] }

unfoldable pub new_client : ℕ → Filters → Client
new_client n filters = record { number = n; filters = filters; waiting = []; drops = 0 }

unfoldable pub add_client : Client → Hub → Bool × Hub
add_client c h = if h.closed then (false, h) else (true, record h { clients = c ∷ h.clients })

unfoldable pub has_client : ℕ → List Client → Bool
has_client n [] = false
has_client n (c ∷ cs) = c.number == n || has_client n cs

unfoldable pub delete_client : ℕ → List Client → List Client
delete_client n [] = []
delete_client n (c ∷ cs) = let rest = delete_client n cs in if c.number == n then rest else c ∷ rest

unfoldable pub remove_client : ℕ → Hub → Hub
remove_client n h =
    if has_client n h.clients
    then record h { clients = delete_client n h.clients; closings = n ∷ h.closings }
    else h

-- A send that does not block: the message waits, or is counted as dropped if the buffer is full.
unfoldable pub offer : ChatMessage → Client → Client
offer msg c =
    if not (matches c.filters msg)
    then c
    else if ltb (length c.waiting) buffer_size
    then record c { waiting = c.waiting ++ msg ∷ [] }
    else record c { drops = c.drops + 1 }

unfoldable pub broadcast : ChatMessage → Hub → Hub
broadcast msg h = record h { clients = map (offer msg) h.clients }

numbers : List Client → List ℕ
numbers [] = []
numbers (c ∷ cs) = c.number ∷ numbers cs

-- `Shutdown`, up to the unlock.
unfoldable pub shutdown : Hub → Hub
unfolding numbers
shutdown h =
    if h.closed
    then h
    else record { clients = []; closed = true; closings = numbers h.clients ++ h.closings }

-- The handler of a client takes the first message that waits.
unfoldable pub receive_first : ℕ → List Client → List Client
receive_first n [] = []
receive_first n (c ∷ cs) =
    let rest = receive_first n cs in
    if c.number == n
    then record c { waiting = elim c.waiting [ [] ↦ [] | m ∷ ms ↦ ms ] } ∷ rest
    else c ∷ rest

-- The steps of the server under its lock, and of the handlers.
pub data Action : Type 0 where
  joins : ℕ → Filters → Action
  leaves : ℕ → Action
  sends : ChatMessage → Action
  receives : ℕ → Action
  stops : Action

unfoldable pub act : Action → Hub → Hub
act (joins n f) h = (add_client (new_client n f) h).1
act (leaves n) h = remove_client n h
act (sends m) h = broadcast m h
act (receives n) h = record h { clients = receive_first n h.clients }
act stops h = shutdown h

unfoldable pub act_all : List Action → Hub → Hub
act_all [] h = h
act_all (a ∷ as') h = act_all as' (act a h)
