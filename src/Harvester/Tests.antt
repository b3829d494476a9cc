-- ===== src/Harvester/Tests.antt =====
-- A client that is started, is told of a new token, and stops.
use gnasty_chat.Prelude.{arith, none, some, ◌++◌, List, [], ◌∷◌, ◌≡◌, refl, true}
use gnasty_chat.Harvester.Reload.{Harvester, Others, reload_twitch}
use gnasty_chat.Harvester.Reload.Reloads.{Fits, IsReloaded, reload_twitch-IsReloaded}
use gnasty_chat.Harvester.Updates.{
  first_token, on_tick, restart, take_token, apply_token_update, loop, Signal, cancelled,
  sets_state, ticks, updates, TokenUpdate, tries, play, try_send, receive_one, send_token_update,
  starts, stops, run_twitch_with_reload,
}
use gnasty_chat.Text.{Bytes, has_prefix, trim_space, codes}
use gnasty_chat.Token.{normalize_token}

abbrev signals : List Signal
signals =
    ticks none
    ∷ sets_state (codes "oauth:new")
    ∷ updates (record { token = codes " new "; force = true; reason = codes "refresh" })
    ∷ []

restarts :
    (run_twitch_with_reload (codes "oauth:old") none (some (codes "oauth:old")) signals).events
    ≡ starts (codes "oauth:new") ∷ stops ∷ starts (codes "oauth:old") ∷ []
unfolding run_twitch_with_reload loop apply_token_update normalize_token trim_space has_prefix
    take_token restart on_tick first_token
restarts = refl

abbrev ended : List Signal
ended = sets_state (codes "oauth:new") ∷ signals ++ cancelled ∷ []

abbrev har : Harvester
har = record {
  access_path = codes "/data/token";
  refresh_path = [];
  tw = some (record { channel = some []; nick = codes "bot" });
  refresh_token = none;
}

har-Fits : Fits har.tw
har-Fits ch h = ground (arith, h)

abbrev update : Bytes → TokenUpdate
update t = record { token = t; force = true; reason = codes "refresh" }

-- Another goroutine takes the room that was made.
abbrev others : Others
others = record { between = []; later = tries (update (codes "oauth:b")) ∷ [] }

abbrev full : List TokenUpdate
full = update [] ∷ update [] ∷ update [] ∷ update [] ∷ []

lost_update :
    send_token_update (update (codes "oauth:a")) others.between others.later full
    ≡ update [] ∷ update [] ∷ update [] ∷ update (codes "oauth:b") ∷ []
unfolding send_token_update play try_send receive_one
lost_update = refl

reload_twitch-IsReloaded_example :
    IsReloaded others
      (some (codes "oauth:abc\n"))
      har.tw
      (reload_twitch others (some (codes "oauth:abc\n")) none har).0
      (reload_twitch others (some (codes "oauth:abc\n")) none har).1.tw
reload_twitch-IsReloaded_example =
    reload_twitch-IsReloaded others (some (codes "oauth:abc\n")) none har har-Fits
