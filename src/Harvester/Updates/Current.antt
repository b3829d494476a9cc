-- ===== src/Harvester/Updates/Current.antt =====
-- cmd/harvester/main.go, runTwitchWithReload: one client at a time, with the newest token.
use gnasty_chat.Prelude.{
  Bool, true, false, Option, none, some, List, [], ◌∷◌, ◌≡◌, refl, arith, is_nil, if◌then◌else◌,
}
use gnasty_chat.Text.{Bytes, has_prefix}
use gnasty_chat.Text.Trim.{trim_space-eq_self}
use gnasty_chat.Token.{normalize_token, Loader, Loaded, token, load}
use gnasty_chat.Token.Loads.{IsToken}
use gnasty_chat.Harvester.Updates.{
  Event, starts, stops, Receiver, cache, Signal, cancelled, sets_state, sets_cached, ticks, updates,
  first_token,
}

-- The token of the client that runs.
abbrev pub running : List Event → Option Bytes
running [] = none
running (starts t ∷ es) = some t
running (stops ∷ es) = none

-- A client is started only when none runs, and stopped only when one does.
abbrev pub IsSingle : List Event → Type 0
IsSingle [] = Unit
IsSingle (starts t ∷ es) = (running es ≡ none) × IsSingle es
IsSingle (stops ∷ es) = ((t : Bytes) × (running es ≡ some t)) × IsSingle es

pub IsToken-ne-nil : (t : Bytes) → IsToken t → is_nil t ≡ false
unfolding has_prefix
IsToken-ne-nil [] h = let p = h.prefixed in absurd (ground (arith, p))
IsToken-ne-nil (c ∷ t) h = refl

pub normalize_token-IsToken_self : (t : Bytes) → IsToken t → normalize_token t ≡ t
unfolding normalize_token
normalize_token-IsToken_self t h =
    rw (trim_space-eq_self t h.trimmed, IsToken-ne-nil t h, h.prefixed) refl

-- The state's token after a token is set, if there is a state.
pub stored : Bytes → Option Bytes → Option Bytes
stored t none = none
stored t (some old) = let n = normalize_token t in if is_nil n then some old else some n

-- The token to run with, the loader and the state's token.
pub record Wanted : Type 0 where
  pub newest : Bytes
  pub loader : Option Loader
  pub state : Option Bytes

-- A token is offered, or the file is read.
pub offered : Bytes → Wanted → Wanted
offered u w =
    let n = normalize_token u in
    if is_nil n
    then w
    else record { newest = n; loader = cache n w.loader; state = stored n w.state }

when_loaded : Loaded → Wanted → Wanted
when_loaded (token u true) w = offered u w
when_loaded _ w = w

pub read_file : Option Bytes → Wanted → Wanted
read_file content w = elim w.loader [
  | none ↦ w
  | some l ↦ let (loaded, l') = load content l in when_loaded loaded (record w { loader = some l' })
]

-- The newest token that was offered by an update or read from the file, up to the end of the context,
-- and the token that was set last.
pub wanted : List Signal → Wanted → Wanted
wanted [] w = w
wanted (cancelled ∷ signals) w = w
wanted (sets_state t ∷ signals) w = wanted signals (record w { state = stored t w.state })
wanted (sets_cached t ∷ signals) w = wanted signals (record w { loader = cache t w.loader })
wanted (ticks content ∷ signals) w = wanted signals (read_file content w)
wanted (updates upd ∷ signals) w = wanted signals (offered upd.token w)

-- Was the context done?
pub is_cancelled : List Signal → Bool
is_cancelled [] = false
is_cancelled (cancelled ∷ signals) = true
is_cancelled (sets_state t ∷ signals) = is_cancelled signals
is_cancelled (sets_cached t ∷ signals) = is_cancelled signals
is_cancelled (ticks content ∷ signals) = is_cancelled signals
is_cancelled (updates upd ∷ signals) = is_cancelled signals

-- Every update asks for a new client.
abbrev pub AreForced : List Signal → Type 0
AreForced [] = Unit
AreForced (updates upd ∷ signals) = (upd.force ≡ true) × AreForced signals
AreForced (_ ∷ signals) = AreForced signals

-- While the loop runs: one client runs, with the token of the configuration, which is the newest.
record IsCurrent (w : Wanted) (r : Receiver) : Type 0 where
  runs : running r.events ≡ some w.newest
  same_token : r.cfg_token ≡ w.newest
  same_loader : r.loader ≡ w.loader
  same_state : r.state ≡ w.state
  single : IsSingle r.events

-- What the loop leaves, when the context is done or not.
abbrev pub IsLeft : Bool → Wanted → Receiver → Type 0
IsLeft done w r =
    (running r.events ≡ (if done then none else some w.newest))
    × (r.cfg_token ≡ w.newest)
    × (r.state ≡ w.state)
    × IsSingle r.events

abbrev pub first : Bytes → Option Loader → Option Bytes → Wanted
first base loader state = record { newest = first_token base state; loader = loader; state = state }
