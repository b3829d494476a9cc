-- ===== src/Irc/Drops/Sanitize.antt =====
-- internal/twitchirc/drop_logging.go: what is taken out of a sample before it is logged. The two
-- regular expressions are written out as scanners.
pub mod Secrets
pub mod Limits
use gnasty_chat.Prelude.{
  ℕ, zero, suc, ◌+◌, ◌-◌, ◌≤◌, Bool, true, false, ◌&&◌, ◌||◌, not, Option, none, some, List, [],
  ◌∷◌, ◌++◌, leb, ltb, ◌==◌, if◌then◌else◌, is_nil, length, take, drop,
}
use gnasty_chat.Text.{
  Bytes, codes, has_prefix, strip_prefix, trim_space, fields, join, to_lower, to_upper, beq,
  replace_byte,
}

-- `[^\s;]`
unfoldable pub is_secret : ℕ → Bool
is_secret c = not (c == 32 || (c == 9 || (c == 10 || (c == 12 || (c == 13 || c == b';')))))

abbrev pub oauth : Bytes
oauth = codes "oauth:"

abbrev pub redacted : Bytes
redacted = codes "[REDACTED]"

first_is_secret : Bytes → Bool
unfolding is_secret
first_is_secret [] = false
first_is_secret (c ∷ s) = is_secret c

-- Does `(?i)oauth:[^\s;]+` match here?
unfoldable pub starts_oauth : Bytes → Bool
unfolding first_is_secret
starts_oauth s = has_prefix oauth (to_lower (take 6 s)) && first_is_secret (drop 6 s)

-- Where the scanner stands: outside a match, in its first bytes, or in the token.
pub data Mode : Type 0 where
  outside : Mode
  within : ℕ → Mode
  token : Mode

abbrev pub past : ℕ → Mode
past zero = token
past (suc n) = within n

-- oauthTokenRe.ReplaceAllString(s, "oauth:[REDACTED]"), which leaves `oauth:` as it was written out.
unfoldable pub redact_oauth : Mode → Bytes → Bytes
redact_oauth m [] = []
redact_oauth outside (c ∷ s) =
    let hit = redact_oauth (within 4) s in
    let miss = redact_oauth outside s in
    if starts_oauth (c ∷ s) then oauth ++ (redacted ++ hit) else c ∷ miss
redact_oauth (within n) (c ∷ s) = redact_oauth (past n) s
redact_oauth token (c ∷ s) =
    let more = redact_oauth token s in
    let done = redact_oauth outside s in if is_secret c then more else c ∷ done

-- `[A-Za-z0-9+/_=\-]`
unfoldable pub is_token_byte : ℕ → Bool
is_token_byte c =
    (leb b'A' c && leb c b'Z')
    || ((leb b'a' c && leb c b'z')
        || ((leb b'0' c && leb c b'9')
            || (c == b'+' || (c == b'/' || (c == b'_' || (c == b'=' || c == b'-'))))))

-- The function that the match of longTokenRe is handed to.
unfoldable pub redact_run : Bytes → Bytes
redact_run v = if leb 24 (length v) then (if has_prefix (b'#' ∷ []) v then v else redacted) else v

-- longTokenRe.ReplaceAllStringFunc: `run` is the run of token bytes that is being read.
unfoldable pub redact_long : Bytes → Bytes → Bytes
redact_long run [] = redact_run run
redact_long run (c ∷ s) =
    let longer = redact_long (run ++ c ∷ []) s in
    let next = redact_long [] s in if is_token_byte c then longer else redact_run run ++ c ∷ next

abbrev pub newline_to_space : Bytes → Bytes
newline_to_space s = replace_byte 10 32 (replace_byte 13 32 s)

unfoldable pub collapse : Bytes → Bytes
collapse s = join (32 ∷ []) (fields (newline_to_space (trim_space s)))

-- A `PASS` line is replaced whole.
unfoldable pub redact_pass : Bytes → Bytes
redact_pass s =
    if has_prefix (codes "PASS ") (to_upper s) || beq (to_upper s) (codes "PASS")
    then codes "PASS [REDACTED]"
    else s

unfoldable pub redact_tokens : Bytes → Bytes
unfolding redact_oauth redact_long
redact_tokens s = redact_long [] (redact_oauth outside s)

-- `s[:max-3] + "..."`, if the text is longer; a limit of 0 is none.
unfoldable pub shorten : Bytes → ℕ → Bytes
shorten s max =
    if max == 0 || leb (length s) max
    then s
    else if leb max 3
    then take max s
    else take (max - 3) s ++ codes "..."

unfoldable pub sanitize_and_truncate : Bytes → ℕ → Bytes
sanitize_and_truncate s max =
    if is_nil (trim_space s) then [] else shorten (redact_tokens (redact_pass (collapse s))) max
