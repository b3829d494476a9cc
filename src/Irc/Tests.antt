-- ===== src/Irc/Tests.antt =====
-- Runs of the Twitch receiver on concrete lines, and instances of its theorems.
use gnasty_chat.Text.{cut_byte}
use gnasty_chat.Irc.Drops.Summary.{split_command}
use gnasty_chat.Text.{to_upper}
use gnasty_chat.Irc.Drops.Summary.{command_name}
use gnasty_chat.Text.{has_prefix}
use gnasty_chat.Prelude.{◌<◌, true, false, none, List, [], ◌∷◌, ◌++◌, ◌≡◌, ◌≢◌, refl, All, ℤ, map}
use gnasty_chat.Text.{Bytes, codes, join, equal_fold, is_space, trim_space, fields, replace_byte}
use gnasty_chat.Message.{unix_nano}
use gnasty_chat.Irc.Tags.{read_tags}
use gnasty_chat.Irc.Tags.Escapes.{write_tags, tag_map, read_tags-write_tags, KeysOf}
use gnasty_chat.Irc.Badges.{BadgePair, parse_badge_pairs}
use gnasty_chat.Irc.Badges.Pairs.{IsBadge, write_pair, parse_badge_pairs-join}
use gnasty_chat.Irc.Line.{Env, ok, parse_privmsg, build_message}
use gnasty_chat.Irc.Line.Parts.{Message, IsSendable, write_message, parse_privmsg-write_message}
use gnasty_chat.Irc.Line.Facts.{IsRead, IsStorable, parse_privmsg-IsStorable}
use gnasty_chat.Irc.Drops.{new_drop_logger, note}
use gnasty_chat.Irc.Drops.Counts.{IsValid, new_drop_logger-IsValid, note-IsValid}
use gnasty_chat.Irc.Drops.Sanitize.{oauth, is_secret, collapse, sanitize_and_truncate}
use gnasty_chat.Irc.Drops.Sanitize.Secrets.{IsSecret, sanitize_and_truncate_hides}
use gnasty_chat.Irc.Drops.Summary.{summarize_irc}
use gnasty_chat.Irc.Retry.{
  disconnected, auth_failed, refused, renewed, session, token, run, run_start, run-Allows, Allows,
}
use gnasty_chat.Irc.Session.{Event, reads, read_fails, loop, new_session}
use gnasty_chat.Irc.Session.Counts.{IsCounted, loop_counts}

abbrev env : Env
env = record { now = unix_nano (ℤ.pos 5); enrich = none; digest = λ s. s }

abbrev key_value : Bytes × Bytes
key_value = (codes "display-name", codes "A;b c")

tags_keys : KeysOf (key_value ∷ [])
tags_keys = (
  (
    (cc, (cc, (cc, (cc, (cc, (cc, (cc, (cc, (cc, (cc, (cc, (cc, tt)))))))))))),
    (cc, (cc, (cc, (cc, (cc, (cc, (cc, (cc, (cc, (cc, (cc, (cc, tt)))))))))))),
    (cc, (cc, (cc, (cc, (cc, (cc, (cc, (cc, (cc, (cc, (cc, (cc, tt)))))))))))),
  ),
  tt,
)

read_tags-write_tags_example : read_tags (write_tags (key_value ∷ [])) ≡ tag_map (key_value ∷ [])
read_tags-write_tags_example = read_tags-write_tags key_value [] tags_keys

abbrev pair : BadgePair
pair = record { id = codes "vip"; version = codes "1" }

pair-IsBadge : IsBadge pair
pair-IsBadge = record {
  named = cc;
  id_trimmed = record { starts = unfold is_space in refl; ends = unfold is_space in refl };
  id_plain = ((cc, (cc, (cc, tt))), (cc, (cc, (cc, tt))));
  version_trimmed = record { starts = unfold is_space in refl; ends = unfold is_space in refl };
  version_plain = (cc, tt);
}

parse_badge_pairs-join_example :
    parse_badge_pairs (join (b',' ∷ []) (map write_pair (pair ∷ []))) b',' ≡ pair ∷ []
parse_badge_pairs-join_example = parse_badge_pairs-join pair [] (pair-IsBadge, tt)

abbrev hello : Message
hello = record {
  tag = key_value;
  tags = [];
  prefix = codes "a!a@b";
  name = codes "Room";
  text = codes "hi";
}

hello-IsSendable : IsSendable hello
hello-IsSendable = record {
  keys = tags_keys;
  prefix_plain = (cc, (cc, (cc, (cc, (cc, tt)))));
  name_plain = (cc, (cc, (cc, (cc, tt))));
  text_ends = unfold is_space in refl;
}

parse_privmsg-write_message_example :
    parse_privmsg env (write_message hello) (codes "room")
    ≡ ok (
        build_message env
          (write_message hello)
          (codes "room")
          (tag_map (key_value ∷ []))
          hello.prefix
          hello.text)
parse_privmsg-write_message_example =
    parse_privmsg-write_message env hello (codes "room") hello-IsSendable
      (unfold equal_fold in refl)

parse_privmsg-IsStorable_example :
    (a : IsRead (write_message hello) (codes "room")) × IsStorable (codes "room") a.tags a.text (
      build_message env
        (write_message hello)
        (codes "room")
        (tag_map (key_value ∷ []))
        hello.prefix
        hello.text)
parse_privmsg-IsStorable_example =
    parse_privmsg-IsStorable env (write_message hello) (codes "room") _ (
      parse_privmsg-write_message env hello (codes "room") hello-IsSendable
        (unfold equal_fold in refl))

secret : All IsSecret (codes "ab") × (codes "ab" ≢ [])
unfolding is_secret
secret = ((refl, (refl, tt)), cc)

other-IsSecret : All IsSecret (codes "xyz") × (codes "xyz" ≢ [])
unfolding is_secret
other-IsSecret = ((refl, (refl, (refl, tt))), cc)

collapsed :
    collapse (codes "PASS" ++ (oauth ++ (codes "ab" ++ codes " x")))
    ≡ codes "PASS" ++ (oauth ++ (codes "ab" ++ codes " x"))
unfolding collapse trim_space fields join replace_byte
collapsed = refl

other_collapsed :
    collapse (codes "PASS" ++ (oauth ++ (codes "xyz" ++ codes " x")))
    ≡ codes "PASS" ++ (oauth ++ (codes "xyz" ++ codes " x"))
unfolding collapse trim_space fields join replace_byte
other_collapsed = refl

sanitize_and_truncate_hides_example :
    sanitize_and_truncate (codes "PASS" ++ (oauth ++ (codes "ab" ++ codes " x"))) 96
    ≡ sanitize_and_truncate (codes "PASS" ++ (oauth ++ (codes "xyz" ++ codes " x"))) 96
sanitize_and_truncate_hides_example =
    sanitize_and_truncate_hides (codes "PASS") (codes "ab") (codes "xyz") (codes " x") 96 secret
      other-IsSecret collapsed other_collapsed

-- The command is logged as it stands.
logged_token : (summarize_irc (codes "oauth:ab x")).command ≡ codes "OAUTH:AB"
unfolding summarize_irc trim_space has_prefix command_name to_upper split_command cut_byte
logged_token = refl

note-IsValid_example :
    IsValid (note 9 (codes "not_privmsg") (codes "JOIN #a") (new_drop_logger 0 true (ℤ.pos 7))).1
    × (9
        < (note 9
            (codes "not_privmsg")
            (codes "JOIN #a")
            (new_drop_logger 0 true (ℤ.pos 7))).1.next_emit)
note-IsValid_example =
    note-IsValid 9 (codes "not_privmsg") (codes "JOIN #a") (new_drop_logger 0 true (ℤ.pos 7))
      (new_drop_logger-IsValid 0 true (ℤ.pos 7))

run-Allows_example : Allows (
    run true
      (run_start (codes "room") (codes "me"))
      (session disconnected ∷ session auth_failed ∷ token refused ∷ token renewed ∷ []))
run-Allows_example =
    run-Allows true (codes "room") (codes "me")
      (session disconnected ∷ session auth_failed ∷ token refused ∷ token renewed ∷ [])

abbrev events : List Event
events = reads 3 4 true (codes "PING :x") ∷ reads 5 6 true (codes "nonsense") ∷ read_fails ∷ []

loop_counts_example : IsCounted (loop env (codes "room") 0 events (new_session 0 false) [])
loop_counts_example = loop_counts env (codes "room") 0 false events
