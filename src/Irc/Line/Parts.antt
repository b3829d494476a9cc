-- ===== src/Irc/Line/Parts.antt =====
-- Which lines `parsePrivmsg` of internal/twitchirc/client.go accepts, and what it makes of them.
use gnasty_chat.Prelude.{true, false, List, [], ◌∷◌, ◌++◌, ◌≡◌, ◌≢◌, refl, arith}
use gnasty_chat.Text.{Bytes, has_prefix, to_upper, equal_fold, is_space}
use gnasty_chat.Text.Search.{Lacks, cut_byte-append}
use gnasty_chat.Text.Trim.{
  append-ne-nil, IsTrimmed, EndsClean, EndsClean-append, trim_space-eq_self,
}
use gnasty_chat.Irc.Tags.Escapes.{
  write_tags, tag_map, KeysOf, read_tags-write_tags, write_tags-Lacks,
}
use gnasty_chat.Irc.Line.{
  Env, ok, dropped, DropReason, privmsg, take_tags, take_prefix, take_command, take_channel,
  take_text, build_message, parse_privmsg,
}

-- A message as Twitch sends it: tags, sender, command, channel and text.
pub record Message : Type 0 where
  pub tag : Bytes × Bytes
  pub tags : List (Bytes × Bytes)
  pub prefix : Bytes
  pub name : Bytes
  pub text : Bytes

pub record IsSendable (m : Message) : Type 0 where
  pub keys : KeysOf (m.tag ∷ m.tags)
  pub prefix_plain : Lacks 32 m.prefix
  pub name_plain : Lacks 32 m.name
  pub text_ends : EndsClean (b':' ∷ m.text)

write_body : Message → Bytes
write_body m = b':' ∷ m.text

write_target : Message → Bytes
write_target m = m.name ++ 32 ∷ write_body m

write_command : Message → Bytes
write_command m = privmsg ++ write_target m

write_rest : Message → Bytes
write_rest m = b':' ∷ (m.prefix ++ 32 ∷ write_command m)

pub write_message : Message → Bytes
write_message m = b'@' ∷ (write_tags (m.tag ∷ m.tags) ++ 32 ∷ write_rest m)

write_body-IsTrimmed : (m : Message) → IsSendable m → IsTrimmed (write_body m)
unfolding write_body
write_body-IsTrimmed m s = record { starts = unfold is_space in refl; ends = s.text_ends }

write_target-ne-nil : (m : Message) → write_target m ≢ []
unfolding write_target
write_target-ne-nil m = append-ne-nil m.name (32 ∷ write_body m) cc

write_command-ne-nil : (m : Message) → write_command m ≢ []
unfolding write_command
write_command-ne-nil m = append-ne-nil privmsg (write_target m) (write_target-ne-nil m)

write_target-EndsClean : (m : Message) → IsSendable m → EndsClean (write_target m)
unfolding write_target write_body
write_target-EndsClean m s = EndsClean-append m.name (32 ∷ b':' ∷ m.text) (cc) s.text_ends

write_command-IsTrimmed : (m : Message) → IsSendable m → IsTrimmed (write_command m)
unfolding write_command
write_command-IsTrimmed m s = record {
  starts = unfold is_space in refl;
  ends =
      EndsClean-append privmsg (write_target m) (write_target-ne-nil m)
        (write_target-EndsClean m s);
}

write_rest-IsTrimmed : (m : Message) → IsSendable m → IsTrimmed (write_rest m)
unfolding write_rest
write_rest-IsTrimmed m s = record {
  starts = unfold is_space in refl;
  ends = EndsClean-append (b':' ∷ m.prefix) (32 ∷ write_command m) (cc) (
      EndsClean-append (32 ∷ []) (write_command m) (write_command-ne-nil m)
        (write_command-IsTrimmed m s).ends);
}

take_tags-write_message :
    (m : Message)
    → IsSendable m
    → take_tags (write_message m) ≡ ok (tag_map (m.tag ∷ m.tags), write_rest m)
unfolding write_message take_tags has_prefix
take_tags-write_message m s = rw (
  cut_byte-append 32 (b'@' ∷ write_tags (m.tag ∷ m.tags)) (write_rest m)
      (omega arith, write_tags-Lacks (m.tag ∷ m.tags) s.keys),
  trim_space-eq_self (write_rest m) (write_rest-IsTrimmed m s),
  read_tags-write_tags m.tag m.tags s.keys,
)

take_prefix-write_rest :
    (m : Message) → IsSendable m → take_prefix (write_rest m) ≡ ok (m.prefix, write_command m)
unfolding write_rest take_prefix has_prefix
take_prefix-write_rest m s = rw (
  cut_byte-append 32 m.prefix (write_command m) s.prefix_plain,
  trim_space-eq_self (write_command m) (write_command-IsTrimmed m s),
)

take_command-write_command : (m : Message) → take_command (write_command m) ≡ ok (write_target m)
unfolding write_command take_command has_prefix to_upper
take_command-write_command m = refl

take_channel-write_target :
    (channel : Bytes) (m : Message)
    → IsSendable m
    → equal_fold m.name channel ≡ true
    → take_channel channel (write_target m) ≡ ok (write_body m)
unfolding write_target take_channel
take_channel-write_target channel m s h =
    rw (cut_byte-append 32 m.name (write_body m) s.name_plain, take_channel)
      (rw (h, trim_space-eq_self (write_body m) (write_body-IsTrimmed m s)))

take_channel_other :
    (channel : Bytes) (m : Message)
    → IsSendable m
    → equal_fold m.name channel ≡ false
    → take_channel channel (write_target m) ≡ dropped DropReason.channel_mismatch
unfolding write_target take_channel
take_channel_other channel m s h =
    rw (cut_byte-append 32 m.name (write_body m) s.name_plain, take_channel) (rw h)

take_text-write_body : (m : Message) → take_text (write_body m) ≡ ok m.text
unfolding write_body take_text has_prefix
take_text-write_body m = refl

-- A message to the channel, in whatever case the channel is spelled, is accepted with exactly its
-- tags, sender and text, if its keys, sender and channel can be written and its text does not end
-- in white space.
pub parse_privmsg-write_message :
    (env : Env) (m : Message) (channel : Bytes)
    → IsSendable m
    → equal_fold m.name channel ≡ true
    → parse_privmsg env (write_message m) channel
      ≡ ok (build_message env (write_message m) channel (tag_map (m.tag ∷ m.tags)) m.prefix m.text)
unfolding parse_privmsg
parse_privmsg-write_message env m channel s h = rw (
  take_tags-write_message m s,
  take_prefix-write_rest m s,
  take_command-write_command m,
  take_channel-write_target channel m s h,
  take_text-write_body m,
)

-- A message that can be sent is dropped as one to another channel, if its channel is another one
-- even up to case.
pub parse_privmsg_other_channel :
    (env : Env) (m : Message) (channel : Bytes)
    → IsSendable m
    → equal_fold m.name channel ≡ false
    → parse_privmsg env (write_message m) channel ≡ dropped DropReason.channel_mismatch
unfolding parse_privmsg
parse_privmsg_other_channel env m channel s h = rw (
  take_tags-write_message m s,
  take_prefix-write_rest m s,
  take_command-write_command m,
  take_channel_other channel m s h,
)
