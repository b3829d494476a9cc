-- ===== src/Harvester/Reload.antt =====
-- internal/harvester/harvester.go and internal/twitchauth/auth.go: ReloadTwitch. What the two files hold
-- when they are read is an argument, none for an error.
pub mod Reloads
use gnasty_chat.Prelude.{
  ℕ, Bool, true, false, Option, none, some, List, [], ◌∷◌, if◌then◌else◌, is_nil,
}
use gnasty_chat.Text.{Bytes, codes, trim_space, trim_prefix}
use gnasty_chat.Token.{prefix, normalize_token}
use gnasty_chat.Harvester.Updates.{TokenUpdate, ChannelStep, send_token_update}

-- twitchReloader: a channel of updates, if there is one, and the nick.
pub record TwitchReloader : Type 0 where
  pub channel : Option (List TokenUpdate)
  pub nick : Bytes

pub data ReloadError : Type 0 where
  no_connection no_access_path access_unread access_empty refresh_unread not_reconnected :
      ReloadError

pub data Reloaded : Type 0 where
  not_reloaded : ReloadError → Reloaded
  rejoined : Bytes → Reloaded

-- The paths, the connection, and the refresh token that the updater sets, if there is one.
pub record Harvester : Type 0 where
  pub access_path : Bytes
  pub refresh_path : Bytes
  pub tw : Option TwitchReloader
  pub refresh_token : Option Bytes

unfoldable pub read_access : Option Bytes → Option Bytes
read_access none = none
read_access (some content) = some (trim_prefix prefix (trim_space content))

unfoldable pub read_refresh : Option Bytes → Option Bytes
read_refresh none = none
read_refresh (some content) = some (trim_space content)

-- What others do to the channel during a reload: between the first two `select`s of sendTokenUpdate, and
-- between the last two.
pub record Others : Type 0 where
  pub between : List ChannelStep
  pub later : List ChannelStep

-- `Reconnect`: none for an error.
unfoldable pub reconnect_with :
    Others → Bytes → TwitchReloader → Option (List TokenUpdate) → Option TwitchReloader
reconnect_with o t r none = none
reconnect_with o t r (some ch) =
    if is_nil t
    then none
    else some (record r {
      channel = some (
          send_token_update (record { token = t; force = true; reason = codes "manual" }) o.between
            o.later ch);
    })

unfoldable pub reconnect : Others → Bytes → TwitchReloader → Option TwitchReloader
reconnect o access r = reconnect_with o (normalize_token access) r r.channel

-- SetRefreshToken of the manager, which is the updater of the program.
unfoldable pub update_refresh : Bytes → Option Bytes → Option Bytes
update_refresh [] updater = updater
update_refresh refresh none = none
update_refresh refresh (some old) = some (trim_space refresh)

unfoldable pub after_reconnect : Harvester → Option TwitchReloader → Reloaded × Harvester
after_reconnect h none = (not_reloaded not_reconnected, h)
after_reconnect h (some tw) = (rejoined tw.nick, record h { tw = some tw })

unfoldable pub with_refresh :
    Others → Bytes → TwitchReloader → Option Bytes → Harvester → Reloaded × Harvester
with_refresh o t tw none h = (not_reloaded refresh_unread, h)
with_refresh o t tw (some refresh) h =
    after_reconnect (record h { refresh_token = update_refresh refresh h.refresh_token })
      (reconnect o t tw)

unfoldable pub with_access :
    Others → Option Bytes → TwitchReloader → Option Bytes → Harvester → Reloaded × Harvester
with_access o none tw refresh h = (not_reloaded access_unread, h)
with_access o (some access) tw refresh h =
    let t = normalize_token access in
    if is_nil t
    then (not_reloaded access_empty, h)
    else if is_nil (trim_space h.refresh_path)
    then after_reconnect h (reconnect o t tw)
    else with_refresh o t tw (read_refresh refresh) h

unfoldable pub with_connection :
    Others → Option Bytes → Option Bytes → Harvester → Option TwitchReloader → Reloaded × Harvester
with_connection o access refresh h none = (not_reloaded no_connection, h)
with_connection o access refresh h (some tw) =
    if is_nil (trim_space h.access_path)
    then (not_reloaded no_access_path, h)
    else with_access o (read_access access) tw refresh h

unfoldable pub reload_twitch :
    Others → Option Bytes → Option Bytes → Harvester → Reloaded × Harvester
reload_twitch o access refresh h = with_connection o access refresh h h.tw
