-- ===== src/Irc/Line/Facts.antt =====
-- What holds of every message that `parsePrivmsg` of internal/twitchirc/client.go accepts.
use gnasty_chat.Prelude.{
  ℕ, ◌≤◌, [], ◌∷◌, ◌≡◌, ◌≢◌, refl, subst, arith, length, length-take, Bool-cases, inl, inr, is_nil,
  if◌then◌else◌,
}
use gnasty_chat.Text.{Bytes, codes}
use gnasty_chat.Text.Trim.{append-ne-nil}
use gnasty_chat.Dict.{Dict, get_or}
use gnasty_chat.Message.{ChatMessage, Time}
use gnasty_chat.Trace.{MessageTrace, new_trace}
use gnasty_chat.Irc.Line.Shape.{
  IsTagged, IsPrefixed, IsCommand, IsTarget, take_tags-IsTagged, take_prefix-IsPrefixed,
  take_command-IsCommand, take_channel-IsTarget, take_text-eq,
}
use gnasty_chat.Irc.Line.{
  Env, Parsed, ok, dropped, take_tags, take_prefix, take_command, take_channel, take_text,
  build_message, parse_privmsg, ◌>>=◌, message_id, message_user, truncate, truncate_snippet,
}

ok-injective : {A : Type 0} {a b : A} → ◌≡◌ {A = Parsed A} (ok a) (ok b) → a ≡ b
ok-injective h = cc

>>=-eq-ok :
    {A B : Type 0} (p : Parsed A) (next : A → Parsed B) {r : B}
    → (p >>= next) ≡ ok r
    → (x : A) × (p ≡ ok x) × (next x ≡ ok r)
>>=-eq-ok (dropped reason) next e = cc
>>=-eq-ok (ok x) next e = (x, refl, e)

-- How an accepted line is written: tags, sender, command, channel and text, with white space between them.
pub record IsRead (line channel : Bytes) : Type 0 where
  pub tags : Dict Bytes
  pub rest : Bytes
  pub prefix : Bytes
  pub command : Bytes
  pub target : Bytes
  pub body : Bytes
  pub text : Bytes
  pub from_line : IsTagged line tags rest
  pub from_rest : IsPrefixed rest prefix command
  pub from_command : IsCommand command target
  pub from_target : IsTarget channel target body
  pub from_body : body ≡ b':' ∷ text

parse_privmsg-IsRead :
    (env : Env) (line channel : Bytes) {r : ChatMessage × MessageTrace}
    → parse_privmsg env line channel ≡ ok r
    → (a : IsRead line channel) × (build_message env line channel a.tags a.prefix a.text ≡ r)
unfolding parse_privmsg
parse_privmsg-IsRead env line channel h =
    let ((tags, rest), e1, h1) = >>=-eq-ok (take_tags line) _ h in
    let ((prefix, command), e2, h2) = >>=-eq-ok (take_prefix rest) _ h1 in
    let (target, e3, h3) = >>=-eq-ok (take_command command) _ h2 in
    let (body, e4, h4) = >>=-eq-ok (take_channel channel target) _ h3 in
    let (text, e5, h5) = >>=-eq-ok (take_text body) _ h4 in
    (
      record {
        tags = tags;
        rest = rest;
        prefix = prefix;
        command = command;
        target = target;
        body = body;
        text = text;
        from_line = take_tags-IsTagged line rest tags e1;
        from_rest = take_prefix-IsPrefixed rest prefix command e2;
        from_command = take_command-IsCommand command target e3;
        from_target = take_channel-IsTarget channel target body e4;
        from_body = take_text-eq body text e5;
      },
      ok-injective h5,
    )

truncate-le : (max : ℕ) (text : Bytes) → length (truncate max text) ≤ max
unfolding truncate
truncate-le max text = ground (arith, length-take max text)

truncate_snippet-le : (text : Bytes) → length (truncate_snippet text) ≤ 80
unfolding truncate_snippet
truncate_snippet-le text = truncate-le 80 text

message_id-ne-nil : (tags : Dict Bytes) (user : Bytes) (ts : Time) → message_id tags user ts ≢ []
unfolding message_id
message_id-ne-nil tags user ts = elim (Bool-cases (is_nil (get_or (codes "id") tags []))) [
  | inl e ↦ rw (e, message_id) (append-ne-nil user _ cc)
  | inr e ↦ rw (e, message_id) (λ h. ground arith)
]

-- The value of a tag that is not empty is taken.
abbrev pub IsTaken : Bytes → Bytes → Type 0
IsTaken [] s = Unit
IsTaken (c ∷ value) s = s ≡ c ∷ value

IsTaken-or : (value other : Bytes) → IsTaken value (if is_nil value then other else value)
IsTaken-or [] other = tt
IsTaken-or (c ∷ value) other = refl

message_id-IsTaken :
    (tags : Dict Bytes) (user : Bytes) (ts : Time)
    → IsTaken (get_or (codes "id") tags []) (message_id tags user ts)
unfolding message_id
message_id-IsTaken tags user ts = IsTaken-or (get_or (codes "id") tags []) _

message_user-IsTaken :
    (tags : Dict Bytes) (prefix : Bytes)
    → IsTaken (get_or (codes "display-name") tags []) (message_user tags prefix)
unfolding message_user
message_user-IsTaken tags prefix = IsTaken-or (get_or (codes "display-name") tags []) _

-- The text is that of the line; the id and the name are those of the tags, if they have any; there is an
-- id; and the trace names the channel that was asked for.
pub record IsStorable (channel : Bytes) (tags : Dict Bytes) (text : Bytes)
    (r : ChatMessage × MessageTrace) : Type 0 where
  pub same_text : r.0.text ≡ text
  pub tagged_id : IsTaken (get_or (codes "id") tags []) r.0.id
  pub tagged_name : IsTaken (get_or (codes "display-name") tags []) r.0.username
  pub has_id : r.0.platform_msg_id ≢ []
  pub same_id : r.0.id ≡ r.0.platform_msg_id
  pub from_twitch : r.0.platform ≡ codes "Twitch"
  pub traced_channel : r.1.channel ≡ channel
  pub traced_user : r.1.user ≡ r.0.username
  pub short_snippet : length r.1.snippet ≤ 80

build_message-IsStorable :
    (env : Env) (line channel : Bytes) (tags : Dict Bytes) (prefix text : Bytes)
    → IsStorable channel tags text (build_message env line channel tags prefix text)
unfolding build_message new_trace
build_message-IsStorable env line channel tags prefix text = record {
  same_text = refl;
  tagged_id = message_id-IsTaken tags _ _;
  tagged_name = message_user-IsTaken tags prefix;
  has_id = message_id-ne-nil tags _ _;
  same_id = refl;
  from_twitch = refl;
  traced_channel = refl;
  traced_user = refl;
  short_snippet = truncate_snippet-le text;
}

-- Every accepted line is written as optional `@` and tags, `:` and a sender, `PRIVMSG #` in
-- whatever case, the channel up to case, and `:` and the text, with spaces between them; the
-- message has exactly that text, the id and the display name of the tags if they have them, and
-- an id that is not empty; the trace names the channel, the user of the message and at most 80
-- bytes of the text.
pub parse_privmsg-IsStorable :
    (env : Env) (line channel : Bytes) (r : ChatMessage × MessageTrace)
    → parse_privmsg env line channel ≡ ok r
    → (a : IsRead line channel) × IsStorable channel a.tags a.text r
parse_privmsg-IsStorable env line channel r h =
    let (a, built) = parse_privmsg-IsRead env line channel h in
    (
      a,
      subst (IsStorable channel a.tags a.text) built
          (build_message-IsStorable env line channel a.tags a.prefix a.text),
    )
