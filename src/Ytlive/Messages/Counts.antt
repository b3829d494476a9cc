-- ===== src/Ytlive/Messages/Counts.antt =====
-- internal/ytlive/client.go, extractMessages: the counts of the summary, and what every message has.
use gnasty_chat.Prelude.{
  ℕ, suc, ◌+◌, ◌≤◌, List, [], ◌∷◌, ◌≡◌, ◌≢◌, refl, arith, length, length-append, ℤ, All, All-append,
  inl, inr, is_nil, Bool-cases,
}
use gnasty_chat.Text.{Bytes, codes}
use gnasty_chat.Json.{Fields}
use gnasty_chat.Message.{ChatMessage}
use gnasty_chat.Ytlive.Emotes.{or_text, string_field, message_text_and_emotes}
use gnasty_chat.Ytlive.Messages.Badges.{Pattern}
use gnasty_chat.Ytlive.Messages.Build.{
  Built, stored, dropped, build_message, youtube_message, fallback_id,
}
use gnasty_chat.Ytlive.Messages.Actions.{gather_actions, collect_text_renderers}
use gnasty_chat.Ytlive.Messages.{
  Extracted, add_built, read_renderers, failure_of, non_chat_of, add_action, read_action,
  read_actions, extract_messages,
}

-- What a stored message has.
pub record IsSendable (m : ChatMessage) : Type 0 where
  pub has_text : m.text ≢ []
  pub has_id : m.id ≢ []
  pub same_id : m.platform_msg_id ≡ m.id
  pub of_youtube : m.platform ≡ codes "YouTube"

or_text-ne-nil : (s t : Bytes) → t ≢ [] → or_text s t ≢ []
unfolding or_text
or_text-ne-nil [] t h = h
or_text-ne-nil (c ∷ s) t h = ground arith

fallback_id-ne-nil : (now : ℤ) → fallback_id now ≢ []
unfolding fallback_id
fallback_id-ne-nil now = ground arith

abbrev AllSendable : Built → Type 0
AllSendable (stored m) = IsSendable m
AllSendable (dropped why) = Unit

-- After so many actions, with so many renderers of the last one to come.
pub record IsCounted (seen pending : ℕ) (r : Extracted) : Type 0 where
  pub outcomes : r.chat_messages ≡ length r.messages + length r.failures + pending
  pub actions : seen ≤ length r.non_chats + r.chat_messages
  pub sendable : All IsSendable r.messages

module _ (patterns : List Pattern) (now : ℤ) where
  build_message-AllSendable :
      (renderer : Fields) → AllSendable (build_message patterns now renderer)
  unfolding build_message youtube_message
  build_message-AllSendable renderer =
      elim (Bool-cases (is_nil (message_text_and_emotes renderer).0)) [
        | inl e ↦ rw e tt
        | inr e ↦ rw e (record {
          has_text = ground (arith, e);
          has_id =
              or_text-ne-nil (string_field renderer (codes "id")) (fallback_id now)
                (fallback_id-ne-nil now);
          same_id = refl;
          of_youtube = refl;
        })
      ]

  add_built-IsCounted :
      (seen pending : ℕ) (renderer : Fields) (b : Built) (r : Extracted)
      → AllSendable b
      → IsCounted seen (suc pending) r
      → IsCounted seen pending (add_built patterns now renderer b r)
  unfolding add_built
  add_built-IsCounted seen pending renderer (stored m) r p h = record {
    outcomes = omega (arith, length-append r.messages (m ∷ []), h.outcomes);
    actions = h.actions;
    sendable = All-append IsSendable r.messages (m ∷ []) h.sendable (p, tt);
  }
  add_built-IsCounted seen pending renderer (dropped why) r p h = record {
    outcomes = omega (arith, length-append r.failures (failure_of renderer why ∷ []), h.outcomes);
    actions = h.actions;
    sendable = h.sendable;
  }

  read_renderers-IsCounted :
      (seen : ℕ) (rs : List Fields) (r : Extracted)
      → IsCounted seen (length rs) r
      → IsCounted seen 0 (read_renderers patterns now rs r)
  unfolding read_renderers
  read_renderers-IsCounted seen [] r h = h
  read_renderers-IsCounted seen (f ∷ fs) r h =
      let b = build_message patterns now f in
      read_renderers-IsCounted seen fs (add_built patterns now f b r)
        (add_built-IsCounted seen (length fs) f b r (build_message-AllSendable f) h)

  add_action-IsCounted :
      (seen : ℕ) (action : Fields) (ms : List Fields) (r : Extracted)
      → IsCounted seen 0 r
      → IsCounted (suc seen) 0 (add_action patterns now action ms r)
  unfolding add_action
  add_action-IsCounted seen action [] r h = record {
    outcomes = h.outcomes;
    actions = omega (arith, length-append r.non_chats (non_chat_of action ∷ []), h.actions);
    sendable = h.sendable;
  }
  add_action-IsCounted seen action (m ∷ ms) r h =
      let r' : Extracted = record r { chat_messages = r.chat_messages + length (m ∷ ms) } in
      read_renderers-IsCounted (suc seen) (m ∷ ms) r' (record {
        outcomes = omega (arith, h.outcomes);
        actions = omega (arith, h.actions);
        sendable = h.sendable;
      })

  read_actions-IsCounted :
      (seen n : ℕ) (actions : List Fields) (r : Extracted)
      → seen + length actions ≡ n
      → IsCounted seen 0 r
      → IsCounted n 0 (read_actions patterns now actions r)
  unfolding read_actions read_action
  read_actions-IsCounted seen n [] r e h = let e' : seen ≡ n = omega (arith, e) in rw (← e') h
  read_actions-IsCounted seen n (a ∷ rest) r e h =
      read_actions-IsCounted (suc seen) n rest (read_action patterns now a r) (omega (arith, e))
        (add_action-IsCounted seen a (collect_text_renderers a) r h)

  -- Of every answer: the chat messages that are counted are those stored and the failures, at
  -- most as many actions count as skipped as are no chat messages, and every stored message has a
  -- text and an id, twice the same, and is of YouTube.
  pub extract_messages-IsCounted :
      (payload : Fields)
      → let (r, summary) = extract_messages patterns now payload in
        (summary.chat_messages ≡ summary.stored + length r.failures)
        × (summary.skipped ≤ length r.non_chats)
        × All IsSendable r.messages
  unfolding extract_messages
  extract_messages-IsCounted payload =
      let none_yet : Extracted = record {
        messages = [];
        chat_messages = 0;
        failures = [];
        non_chats = [];
      } in
      let actions = gather_actions payload in
      let h =
        read_actions-IsCounted 0 (length actions) actions none_yet (omega arith)
          (record { outcomes = refl; actions = omega arith; sendable = tt }) in
      (omega (arith, h.outcomes), omega (arith, h.actions), h.sendable)
