-- ===== src/Token/Tests.antt =====
-- Loads, refreshes, and instances of the theorems.
use gnasty_chat.Prelude.{true, false, Option, some, none, List, [], ◌∷◌, ◌++◌, ◌≡◌, refl, ℤ}
use gnasty_chat.Backoff.{grow}
use gnasty_chat.Text.{strip_prefix, Bytes, codes, trim_space, has_prefix, beq}
use gnasty_chat.Token.Refresh.{
  on_response, keep, after_write, write_token_file, write_open, expires_of, interval_from,
  first_wait, settle, auto, set_refresh_token, on_reply, reason, Manager, Response, Reply, replied,
  no_reply, no_fault, at_chmod, refused, failed, refreshed, refresh, ticks, sets, cancelled, Event,
  waits, updates, start_auto,
}
use gnasty_chat.Token.{Loader, load, token, normalize_token}
use gnasty_chat.Token.Refresh.Written.{IsRefreshed, refresh-IsRefreshed}
use gnasty_chat.Token.Refresh.Paced.{IsStarted, start_auto-IsStarted}
use gnasty_chat.Token.Loads.{IsLoaded, load-IsLoaded}

abbrev loader : Loader
loader = record { cached = codes "oauth:old" }

loads : (load (some (codes " new ")) loader).0 ≡ token (codes "oauth:new") true
unfolding load normalize_token trim_space has_prefix beq
loads = refl

load-IsLoaded_example : IsLoaded (codes " new ") loader (codes "oauth:new") true
load-IsLoaded_example = load-IsLoaded (codes " new ") loader (codes "oauth:new") true loads

abbrev manager : Manager
manager = record {
  client_id = codes "id";
  client_secret = codes "secret";
  refresh_token = codes " r ";
  token_file = codes "token";
  last_expires = ℤ.pos 0;
}

abbrev decode : Bytes → Option Response
decode s = some record {
  access_token = s;
  expires_in = ℤ.pos 0;
  message = [];
  error = codes "denied";
  error_desc = codes " ";
}

abbrev ask : Bytes → Bytes → Bytes → Reply
ask id secret r = replied 200 (codes "new")

abbrev times_85 : ℤ → ℤ
times_85 e = ℤ.pos 3_060_000_000_000

renewed : refresh decode ask no_fault manager none ≡ (
  refreshed (codes "new") (ℤ.pos 3_600_000_000_000),
  record manager { last_expires = ℤ.pos 3_600_000_000_000 },
  some (codes "oauth:new" ++ 10 ∷ []),
)
unfolding refresh trim_space on_reply on_response keep after_write write_token_file write_open
    expires_of normalize_token has_prefix
renewed = refl

denied :
    (refresh decode (λ id secret r. replied 400 []) no_fault manager none).0
    ≡ failed (refused (codes "denied"))
unfolding refresh trim_space on_reply on_response reason
denied = refl

abbrev hours : List Event
hours =
    ticks (λ id secret r. no_reply) no_fault false
    ∷ ticks ask at_chmod false
    ∷ sets (codes "r2")
    ∷ ticks ask no_fault false
    ∷ cancelled
    ∷ []

paced :
    start_auto decode times_85 manager none hours
    ≡ waits 60_000_000_000
      ∷ waits 1_000_000_000
      ∷ waits 2_000_000_000
      ∷ updates (codes "oauth:new")
      ∷ waits 3_060_000_000_000
      ∷ []
unfolding start_auto first_wait auto settle refresh trim_space on_reply on_response keep after_write
    write_token_file write_open expires_of normalize_token has_prefix interval_from grow
    set_refresh_token strip_prefix
paced = refl

refresh-IsRefreshed_example : IsRefreshed manager none (refresh decode ask no_fault manager none)
refresh-IsRefreshed_example = refresh-IsRefreshed decode ask no_fault manager none

start_auto-IsStarted_example : IsStarted (start_auto decode times_85 manager none hours)
start_auto-IsStarted_example = start_auto-IsStarted decode times_85 manager none hours
