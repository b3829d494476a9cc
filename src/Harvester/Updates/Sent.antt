-- ===== src/Harvester/Updates/Sent.antt =====
-- internal/harvester/harvester.go and sendTokenUpdate of cmd/harvester/main.go: what the channel holds
-- when an update was sent.
use gnasty_chat.Prelude.{
  ◌≤◌, ◌<◌, Bool, true, false, List, [], ◌∷◌, ◌++◌, ◌≡◌, ◌⊎◌, refl, arith, ltb, length,
  length-append, inl, inr, Bool-cases,
}
use gnasty_chat.Harvester.Updates.{
  TokenUpdate, ChannelStep, tries, takes, play, try_send, receive_one, send_token_update, capacity,
}

-- Did others send?
pub has_try : List ChannelStep → Bool
has_try [] = false
has_try (tries upd ∷ steps) = true
has_try (takes ∷ steps) = has_try steps

-- The channel holds no more than it can, and either the update as the newest, or it is full, and others
-- sent in the meantime.
pub record IsSent (upd : TokenUpdate) (later : List ChannelStep) (ch : List TokenUpdate)
    : Type 0 where
  pub fits : length ch ≤ capacity
  pub newest_or_lost :
      ((kept : List TokenUpdate) × (ch ≡ kept ++ upd ∷ []))
      ⊎ ((length ch ≡ capacity) × (has_try later ≡ true))

try_send-le :
    (upd : TokenUpdate) (ch : List TokenUpdate)
    → length ch ≤ capacity
    → length (try_send upd ch).1 ≤ capacity
unfolding try_send
try_send-le upd ch h = ground (arith, h, length-append ch (upd ∷ []))

receive_one-le : (ch : List TokenUpdate) → length (receive_one ch) ≤ length ch
unfolding receive_one
receive_one-le [] = omega arith
receive_one-le (u ∷ ch) = omega arith

receive_one-lt : (ch : List TokenUpdate) → length ch ≤ capacity → length (receive_one ch) < capacity
unfolding receive_one
receive_one-lt [] h = omega arith
receive_one-lt (u ∷ ch) h = omega (arith, h)

play-le :
    (steps : List ChannelStep) (ch : List TokenUpdate)
    → length ch ≤ capacity
    → length (play steps ch) ≤ capacity
unfolding play
play-le [] ch h = h
play-le (tries upd ∷ steps) ch h = play-le steps (try_send upd ch).1 (try_send-le upd ch h)
play-le (takes ∷ steps) ch h = play-le steps (receive_one ch) (omega (arith, h, receive_one-le ch))

-- Room stays while nobody else sends.
play-room :
    (steps : List ChannelStep) (ch : List TokenUpdate)
    → has_try steps ≡ false
    → length ch < capacity
    → length (play steps ch) < capacity
unfolding play has_try
play-room [] ch n h = h
play-room (tries upd ∷ steps) ch n h = absurd cc
play-room (takes ∷ steps) ch n h =
    play-room steps (receive_one ch) n (omega (arith, h, receive_one-le ch))

try_send-IsSent :
    (upd : TokenUpdate) (later : List ChannelStep) (ch : List TokenUpdate)
    → length ch ≤ capacity
    → (has_try later ≡ false → length ch < capacity)
    → IsSent upd later (try_send upd ch).1
unfolding try_send
try_send-IsSent upd later ch h room = elim (Bool-cases (ltb (length ch) capacity)) [
  | inl e ↦ rw e (record {
    fits = ground (arith, e, length-append ch (upd ∷ []));
    newest_or_lost = inl (ch, refl);
  })
  | inr e ↦
      rw e (record { fits = h; newest_or_lost = inr (ground (arith, h, e), full later room e) })
]
  where
    full :
        (later : List ChannelStep)
        → (has_try later ≡ false → length ch < capacity)
        → ltb (length ch) capacity ≡ false
        → has_try later ≡ true
    full later room e = elim (Bool-cases (has_try later)) [
      | inl t ↦ t
      | inr n ↦ (let r = room n in absurd (ground (arith, e, r)))
    ]

try_send-lt :
    (upd : TokenUpdate) (ch : List TokenUpdate) → (try_send upd ch).0 ≡ true → length ch < capacity
unfolding try_send
try_send-lt upd ch h = ground (arith, h)

pub send_token_update-IsSent :
    (upd : TokenUpdate) (between later : List ChannelStep) (ch : List TokenUpdate)
    → length ch ≤ capacity
    → IsSent upd later (send_token_update upd between later ch)
unfolding send_token_update
send_token_update-IsSent upd between later ch h = elim (Bool-cases (try_send upd ch).0) [
  | inl e ↦ rw e (try_send-IsSent upd later ch h (λ n. try_send-lt upd ch e))
  | inr e ↦
      let gap = receive_one (play between ch) in
      let room : length gap < capacity = receive_one-lt (play between ch) (play-le between ch h) in
      rw e (
        try_send-IsSent upd later (play later gap) (play-le later gap (omega (arith, room)))
          (λ n. play-room later gap n room))
]
