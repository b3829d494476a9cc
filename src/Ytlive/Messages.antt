-- ===== src/Ytlive/Messages.antt =====
-- internal/ytlive/client.go: the chat messages in the answer of a poll.
pub mod Badges
pub mod Build
pub mod Actions
pub mod Counts
use gnasty_chat.Prelude.{ℕ, zero, suc, ◌+◌, ◌-◌, List, [], ◌∷◌, ◌++◌, length, Option, none, some, ℤ}
use gnasty_chat.Text.{Bytes}
use gnasty_chat.Json.{obj, Fields}
use gnasty_chat.Message.{ChatMessage}
use gnasty_chat.Ytlive.Messages.Badges.{Pattern}
use gnasty_chat.Ytlive.Messages.Build.{Built, stored, dropped, build_message}
use gnasty_chat.Ytlive.Messages.Actions.{
  gather_actions, collect_text_renderers, detect_action_type, short_action_id,
}

pub record PollSummary : Type 0 where
  pub actions : ℕ
  pub chat_messages : ℕ
  pub stored : ℕ
  pub skipped : ℕ

pub record ChatFailure : Type 0 where
  pub id : Bytes
  pub reason : Bytes

pub record NonChatAction : Type 0 where
  pub action_type : Bytes
  pub key : Bytes
  pub raw : Fields

pub record Extracted : Type 0 where
  pub messages : List ChatMessage
  pub chat_messages : ℕ
  pub failures : List ChatFailure
  pub non_chats : List NonChatAction

unfoldable pub failure_of : Fields → Bytes → ChatFailure
failure_of renderer why = record { id = short_action_id (obj renderer); reason = why }

unfoldable pub non_chat_of : Fields → NonChatAction
non_chat_of action = record {
  action_type = detect_action_type action;
  key = short_action_id (obj action);
  raw = action;
}

-- The regular expressions of the badges' versions, and the clock while the answer is read.
module _ (patterns : List Pattern) (now : ℤ) where
  unfoldable pub add_built : Fields → Built → Extracted → Extracted
  add_built renderer (stored msg) r = record r { messages = r.messages ++ msg ∷ [] }
  add_built renderer (dropped why) r = record r {
    failures = r.failures ++ failure_of renderer why ∷ [];
  }

  unfoldable pub read_renderers : List Fields → Extracted → Extracted
  read_renderers [] r = r
  read_renderers (renderer ∷ rs) r =
      read_renderers rs (add_built renderer (build_message patterns now renderer) r)

  -- An action with the renderers that are in it.
  unfoldable pub add_action : Fields → List Fields → Extracted → Extracted
  add_action action [] r = record r { non_chats = r.non_chats ++ non_chat_of action ∷ [] }
  add_action action (m ∷ ms) r =
      read_renderers (m ∷ ms) (record r { chat_messages = r.chat_messages + length (m ∷ ms) })

  unfoldable pub read_action : Fields → Extracted → Extracted
  read_action action r = add_action action (collect_text_renderers action) r

  unfoldable pub read_actions : List Fields → Extracted → Extracted
  read_actions [] r = r
  read_actions (action ∷ rest) r = read_actions rest (read_action action r)

  unfoldable pub extract_messages : Fields → Extracted × PollSummary
  extract_messages payload =
      let actions = gather_actions payload in
      let r =
        read_actions actions
          (record { messages = []; chat_messages = 0; failures = []; non_chats = [] }) in
      (
        r,
        record {
          actions = length actions;
          chat_messages = r.chat_messages;
          stored = length r.messages;
          skipped = length actions - r.chat_messages;
        },
      )
