-- ===== src/Irc/Drops/Sanitize/Limits.antt =====
-- How long a sample of internal/twitchirc/drop_logging.go is, and what becomes of the name of a channel.
use gnasty_chat.Prelude.{
  ℕ, ◌-◌, ◌≤◌, ◌<◌, true, [], ◌∷◌, ◌++◌, ◌≡◌, inl, inr, sym, ap, is_nil, ◌∙◌, arith, All, length,
  length-append, length-take, take, Bool-cases, append_assoc, append-nil,
}
use gnasty_chat.Text.{Bytes, codes, has_prefix, trim_space}
use gnasty_chat.Irc.Drops.Sanitize.{
  redacted, redact_long, redact_run, is_token_byte, shorten, sanitize_and_truncate,
}

shorten-le : (s : Bytes) (max : ℕ) → 0 < max → length (shorten s max) ≤ max
unfolding shorten
shorten-le s max h = ground (
  arith,
  length-take max s,
  length-take (max - 3) s,
  length-append (take (max - 3) s) (codes "..."),
)

-- A logged sample or channel keeps within its limit, if that is positive.
pub sanitize_and_truncate-le :
    (s : Bytes) (max : ℕ) → 0 < max → length (sanitize_and_truncate s max) ≤ max
unfolding sanitize_and_truncate
sanitize_and_truncate-le s max h = elim (Bool-cases (is_nil (trim_space s))) [
  | inl e ↦ rw e (omega arith)
  | inr e ↦ rw e (shorten-le _ max h)
]

abbrev pub IsTokenByte : ℕ → Type 0
IsTokenByte c = is_token_byte c ≡ true

redact_long_run : (run s : Bytes) → All IsTokenByte s → redact_long run s ≡ redact_run (run ++ s)
unfolding redact_long
redact_long_run run [] h = ap redact_run (sym (append-nil run))
redact_long_run run (c ∷ s) h =
    rw h.0 (redact_long_run (run ++ c ∷ []) s h.1 ∙ ap redact_run (append_assoc run (c ∷ []) s))

redact_run_long : (s : Bytes) → All IsTokenByte s → 24 ≤ length s → redact_run s ≡ redacted
unfolding redact_run has_prefix is_token_byte
redact_run_long [] h long = absurd (omega arith)
redact_run_long (c ∷ s) h long = ground arith

-- A match of the expression for long tokens never begins with `#`: of a channel of 24 or more
-- plain bytes the replacement leaves `#[REDACTED]`.
pub redact_tokens_channel :
    (name : Bytes)
    → All IsTokenByte name
    → 24 ≤ length name
    → redact_long [] (b'#' ∷ name) ≡ b'#' ∷ redacted
unfolding redact_long redact_run is_token_byte
redact_tokens_channel name h long =
    ap (◌∷◌ b'#') (redact_long_run [] name h ∙ redact_run_long name h long)
