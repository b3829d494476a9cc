-- ===== src/Harvester/Updates.antt =====
-- cmd/harvester/main.go: the token that the Twitch client runs with, and the updates of it. A client that
-- is started or stopped is an event, the newest first.
pub mod Current
pub mod Sent
use gnasty_chat.Prelude.{
  ℕ, ◌+◌, Bool, true, false, ◌||◌, ◌&&◌, not, Option, none, some, List, [], ◌∷◌, ◌++◌,
  if◌then◌else◌, is_nil, ltb, length,
}
use gnasty_chat.Text.{Bytes, codes, beq}
use gnasty_chat.Token.{normalize_token, Loader, Loaded, unreadable, empty, token, load, set_cached}

pub record TokenUpdate : Type 0 where
  pub token : Bytes
  pub force : Bool
  pub reason : Bytes

-- tokenState, which is its token.
unfoldable pub new_token_state : Bytes → Bytes
new_token_state initial = normalize_token initial

-- `Set`: whether the token changed, and the token.
unfoldable pub set_token : Bytes → Bytes → Bool × Bytes
set_token new old =
    let normalized = normalize_token new in
    if is_nil normalized || beq old normalized then (false, old) else (true, normalized)

-- The channel of updates, the oldest first, and its capacity.
abbrev pub capacity : ℕ
capacity = 4

unfoldable pub try_send : TokenUpdate → List TokenUpdate → Bool × List TokenUpdate
try_send upd ch = if ltb (length ch) capacity then (true, ch ++ upd ∷ []) else (false, ch)

unfoldable pub receive_one : List TokenUpdate → List TokenUpdate
receive_one [] = []
receive_one (u ∷ ch) = ch

-- What other goroutines do to the channel: a send that does not block, or a receive.
pub data ChannelStep : Type 0 where
  tries : TokenUpdate → ChannelStep
  takes : ChannelStep

unfoldable pub play : List ChannelStep → List TokenUpdate → List TokenUpdate
play [] ch = ch
play (tries upd ∷ steps) ch = play steps (try_send upd ch).1
play (takes ∷ steps) ch = play steps (receive_one ch)

-- The three `select`s, with what others do between the first two, and between the last two.
unfoldable pub send_token_update :
    TokenUpdate → List ChannelStep → List ChannelStep → List TokenUpdate → List TokenUpdate
send_token_update upd between later ch =
    if (try_send upd ch).0
    then (try_send upd ch).1
    else (try_send upd (play later (receive_one (play between ch)))).1

pub data Event : Type 0 where
  starts : Bytes → Event
  stops : Event

-- What runTwitchWithReload keeps: the loader of the token's file and the token's state, if there are
-- any, the token of the configuration, and what it did.
pub record Receiver : Type 0 where
  pub loader : Option Loader
  pub state : Option Bytes
  pub cfg_token : Bytes
  pub events : List Event

-- `changed = state.Set(token) || changed`
unfoldable pub set_state : Bytes → Option Bytes → Bool × Option Bytes
set_state t none = (false, none)
set_state t (some old) = let (changed, new) = set_token t old in (changed, some new)

unfoldable pub cache : Bytes → Option Loader → Option Loader
cache t none = none
cache t (some l) = some (set_cached t l)

unfoldable pub restart : Receiver → Receiver
restart r = record r { events = starts r.cfg_token ∷ stops ∷ r.events }

unfoldable pub take_token : Bytes → Bool → Receiver → Receiver
take_token t force r =
    let (changed, state) = set_state t r.state in
    let r' : Receiver = record r { loader = cache t r.loader; state = state; cfg_token = t } in
    if not force && not changed then r' else restart r'

unfoldable pub apply_token_update : TokenUpdate → Receiver → Receiver
apply_token_update upd r =
    let t = normalize_token upd.token in if is_nil t then r else take_token t upd.force r

-- What the loop selects: the context is done, the file is read at a tick, or an update comes. At any time
-- RefreshNow and the callback of StartAuto set the token of the state and of the loader.
pub data Signal : Type 0 where
  cancelled : Signal
  sets_state sets_cached : Bytes → Signal
  ticks : Option Bytes → Signal
  updates : TokenUpdate → Signal

unfoldable pub after_load : Loaded → Receiver → Receiver
after_load (token t true) r =
    if is_nil t
    then r
    else apply_token_update (record { token = t; force = true; reason = codes "file" }) r
after_load _ r = r

unfoldable pub on_tick : Option Bytes → Receiver → Receiver
on_tick content r = elim r.loader [
  | none ↦ r
  | some l ↦ let (loaded, l') = load content l in after_load loaded (record r { loader = some l' })
]

-- The loop over what it selects; it ends when the context is done.
unfoldable pub loop : List Signal → Receiver → Receiver
loop [] r = r
loop (cancelled ∷ signals) r = record r { events = stops ∷ r.events }
loop (sets_state t ∷ signals) r = loop signals (record r { state = (set_state t r.state).1 })
loop (sets_cached t ∷ signals) r = loop signals (record r { loader = cache t r.loader })
loop (ticks content ∷ signals) r = loop signals (on_tick content r)
loop (updates upd ∷ signals) r = loop signals (apply_token_update upd r)

-- `if cfg.Token == "" && state != nil { cfg.Token = state.Current() }`
unfoldable pub first_token : Bytes → Option Bytes → Bytes
first_token [] (some t) = t
first_token t _ = t

unfoldable pub run_twitch_with_reload :
    Bytes → Option Loader → Option Bytes → List Signal → Receiver
run_twitch_with_reload base loader state signals =
    let t = first_token base state in
    loop signals (record { loader = loader; state = state; cfg_token = t; events = starts t ∷ [] })
