-- ===== src/Http/Hub/Stopped.antt =====
-- internal/httpapi/server.go: what Shutdown leaves behind, whatever comes before and after it.
use gnasty_chat.Prelude.{Bool, true, false, ◌||◌, List, [], ◌∷◌, ◌≡◌, refl, arith}
use gnasty_chat.Http.Hub.{
  Hub, new_hub, add_client, remove_client, broadcast, shutdown, Action, joins, leaves, sends,
  receives, stops, act, act_all,
}

is_stop : Action → Bool
is_stop stops = true
is_stop (joins n f) = false
is_stop (leaves n) = false
is_stop (sends m) = false
is_stop (receives n) = false

-- Was there a shutdown?
pub has_stop : List Action → Bool
has_stop [] = false
has_stop (a ∷ as') = is_stop a || has_stop as'

-- The server is closed by a shutdown, and by nothing else.
act-closed : (a : Action) (h : Hub) → (act a h).closed ≡ is_stop a || h.closed
unfolding act is_stop add_client remove_client broadcast shutdown
act-closed (joins n f) h = ground arith
act-closed (leaves n) h = ground arith
act-closed (sends m) h = refl
act-closed (receives n) h = refl
act-closed stops h = ground arith

act_all-closed : (as' : List Action) (h : Hub) → (act_all as' h).closed ≡ h.closed || has_stop as'
unfolding act_all has_stop
act_all-closed [] h = ground arith
act_all-closed (a ∷ as') h = ground (arith, act_all-closed as' (act a h), act-closed a h)

-- Closed as said, and without clients if it is.
abbrev pub IsStopped : Bool → Hub → Type 0
IsStopped true h = (h.closed ≡ true) × (h.clients ≡ [])
IsStopped false h = h.closed ≡ false

IsStopped-of :
    (h : Hub) (b : Bool) → h.closed ≡ b → (h.closed ≡ true → h.clients ≡ []) → IsStopped b h
IsStopped-of h true e empty = (e, empty e)
IsStopped-of h false e empty = e

pub act_all-IsStopped :
    (actions : List Action)
    → ((act_all actions new_hub).closed ≡ true → (act_all actions new_hub).clients ≡ [])
    → IsStopped (has_stop actions) (act_all actions new_hub)
unfolding new_hub
act_all-IsStopped actions empty =
    IsStopped-of (act_all actions new_hub) (has_stop actions) (act_all-closed actions new_hub) empty
