-- ===== src/Harvester/Reload/Reloads.antt =====
-- internal/harvester/harvester.go: what a reload leaves behind, on every branch.
use gnasty_chat.Prelude.{
  ◌≤◌, true, Option, none, some, List, ◌≡◌, refl, ap, ◌∙◌, length, inl, inr, Bool-cases,
  Option-cases, is_nil,
}
use gnasty_chat.Text.{Bytes, codes, trim_space, trim_prefix}
use gnasty_chat.Token.{prefix, normalize_token}
use gnasty_chat.Token.Loads.{IsToken, normalize_token-IsToken}
use gnasty_chat.Harvester.Updates.Current.{normalize_token-IsToken_self, IsToken-ne-nil}
use gnasty_chat.Harvester.Updates.Sent.{IsSent, send_token_update-IsSent}
use gnasty_chat.Harvester.Updates.{TokenUpdate, send_token_update, capacity}
use gnasty_chat.Harvester.Reload.{
  TwitchReloader, Harvester, Others, Reloaded, not_reloaded, rejoined, read_access, read_refresh,
  reconnect_with, reconnect, after_reconnect, with_refresh, with_access, with_connection,
  reload_twitch,
}

abbrev pub manual : Bytes → TokenUpdate
manual t = record { token = t; force = true; reason = codes "manual" }

-- The channel of a connection, if it has one, holds no more than it can.
abbrev pub Fits : Option TwitchReloader → Type 0
Fits none = Unit
Fits (some tw) = (ch : List TokenUpdate) → tw.channel ≡ some ch → length ch ≤ capacity

-- A reload that fails leaves the connection as it was. One that succeeds returns its nick and has sent it
-- the token of the file, without white space and `oauth:` around it and with `oauth:` in front.
abbrev pub IsReloaded :
    Others → Option Bytes → Option TwitchReloader → Reloaded → Option TwitchReloader → Type 0
IsReloaded o access tw (not_reloaded why) tw' = tw' ≡ tw
IsReloaded o access tw (rejoined login) tw' =
    (content t : Bytes) × (old new : TwitchReloader) × (access ≡ some content)
    × (t ≡ normalize_token (trim_prefix prefix (trim_space content)))
    × IsToken t
    × (tw ≡ some old)
    × (tw' ≡ some new)
    × (old.nick ≡ login)
    × ((ch : List TokenUpdate) × (new.channel ≡ some ch) × IsSent (manual t) o.later ch)

module _ (o : Others) (t : Bytes) (tw : TwitchReloader) (k : IsToken t) where
  abbrev told : List TokenUpdate → TwitchReloader
  told ch = record tw { channel = some (send_token_update (manual t) o.between o.later ch) }

  reconnect-none : tw.channel ≡ none → reconnect o t tw ≡ none
  unfolding reconnect reconnect_with
  reconnect-none e = ap (reconnect_with o (normalize_token t) tw) e

  reconnect-some :
      (ch : List TokenUpdate) → tw.channel ≡ some ch → reconnect o t tw ≡ some (told ch)
  unfolding reconnect reconnect_with
  reconnect-some ch e =
      ap (reconnect_with o (normalize_token t) tw) e
      ∙ rw (normalize_token-IsToken_self t k, IsToken-ne-nil t k) refl

  after_reconnect-IsReloaded :
      (content : Bytes) (access : Option Bytes) (h : Harvester)
      → access ≡ some content
      → t ≡ normalize_token (trim_prefix prefix (trim_space content))
      → h.tw ≡ some tw
      → Fits (some tw)
      → let r = after_reconnect h (reconnect o t tw) in IsReloaded o access h.tw r.0 r.1.tw
  unfolding after_reconnect
  after_reconnect-IsReloaded content access h a f e fits = elim (Option-cases tw.channel) [
    | inl n ↦ rw (reconnect-none n) refl
    | inr (ch, n) ↦
        let sent = send_token_update-IsSent (manual t) o.between o.later ch (fits ch n) in
        rw (reconnect-some ch n) (content, t, tw, told ch, a, f, k, e, refl, refl, (_, refl, sent))
  ]

  with_refresh-IsReloaded :
      (content : Bytes) (access refresh : Option Bytes) (h : Harvester)
      → access ≡ some content
      → t ≡ normalize_token (trim_prefix prefix (trim_space content))
      → h.tw ≡ some tw
      → Fits (some tw)
      → let r = with_refresh o t tw refresh h in IsReloaded o access h.tw r.0 r.1.tw
  unfolding with_refresh
  with_refresh-IsReloaded content access none h a f e fits = refl
  with_refresh-IsReloaded content access (some refresh) h a f e fits =
      after_reconnect-IsReloaded content access _ a f e fits

with_access-IsReloaded :
    (o : Others) (access refresh : Option Bytes) (tw : TwitchReloader) (h : Harvester)
    → h.tw ≡ some tw
    → Fits (some tw)
    → let r = with_access o (read_access access) tw refresh h in IsReloaded o access h.tw r.0 r.1.tw
unfolding with_access read_access
with_access-IsReloaded o none refresh tw h e fits = refl
with_access-IsReloaded o (some content) refresh tw h e fits =
    let raw = trim_prefix prefix (trim_space content) in
    elim (normalize_token-IsToken raw) [
      | inl n ↦ rw n refl
      | inr k ↦ elim (Bool-cases (is_nil (trim_space h.refresh_path))) [
        | inl p ↦
            rw (IsToken-ne-nil (normalize_token raw) k, p)
              (after_reconnect-IsReloaded o (normalize_token raw) tw k content _ h refl refl e fits)
        | inr p ↦
            rw (IsToken-ne-nil (normalize_token raw) k, p)
              (with_refresh-IsReloaded o (normalize_token raw) tw k content _ (read_refresh refresh)
                h refl refl e fits)
      ]
    ]

with_connection-IsReloaded :
    (o : Others) (access refresh : Option Bytes) (h : Harvester) (tw : Option TwitchReloader)
    → h.tw ≡ tw
    → Fits tw
    → let r = with_connection o access refresh h tw in IsReloaded o access h.tw r.0 r.1.tw
unfolding with_connection
with_connection-IsReloaded o access refresh h none e fits = refl
with_connection-IsReloaded o access refresh h (some tw) e fits =
    elim (Bool-cases (is_nil (trim_space h.access_path))) [
      | inl p ↦ rw p refl
      | inr p ↦ rw p (with_access-IsReloaded o access refresh tw h e fits)
    ]

-- If the connection's channel holds no more than it can, whatever others send and receive in
-- between: a reload that fails leaves the connection as it was; one that succeeds returns the
-- nick, and the update by force with the normalized token of the access file is the newest in the
-- channel, or it is lost, which takes a send of another goroutine before the last attempt and a
-- full channel; the channel never holds more than it can.
pub reload_twitch-IsReloaded :
    (o : Others) (access refresh : Option Bytes) (h : Harvester)
    → Fits h.tw
    → let r = reload_twitch o access refresh h in IsReloaded o access h.tw r.0 r.1.tw
unfolding reload_twitch
reload_twitch-IsReloaded o access refresh h fits =
    with_connection-IsReloaded o access refresh h h.tw refl fits
