-- ===== src/Irc/Line/Shape.antt =====
-- internal/twitchirc/client.go: how a line that `parsePrivmsg` accepts is written.
use gnasty_chat.Prelude.{
  ℕ, zero, suc, true, false, [], ◌∷◌, ◌++◌, ◌≡◌, ◌⊎◌, refl, sym, ap, ◌∙◌, arith, length, take,
  subst, drop, Bool-cases, Option-cases, inl, inr,
}
use gnasty_chat.Text.{
  Bytes, codes, cut_byte, equal_fold, has_prefix, strip_prefix, to_upper, trim_space,
}
use gnasty_chat.Text.Search.{Lacks, cut_byte_sound}
use gnasty_chat.Dict.{Dict}
use gnasty_chat.Irc.Tags.{read_tags}
use gnasty_chat.Irc.Line.{
  ok, privmsg, take_tags, take_prefix, take_command, take_channel, take_text,
}

-- Does the text begin with the byte?
abbrev pub Starts : ℕ → Bytes → Type 0
Starts b [] = ⊥
Starts b (c ∷ s) = b ≡ c

-- `@tags rest`, or a line without tags.
abbrev pub IsTagged : Bytes → Dict Bytes → Bytes → Type 0
IsTagged line tags rest =
    ((raw after : Bytes) × (line ≡ b'@' ∷ raw ++ 32 ∷ after)
      × Lacks 32 raw
      × (tags ≡ read_tags raw)
      × (rest ≡ trim_space after))
    ⊎ ((Starts b'@' line → ⊥) × (tags ≡ []) × (rest ≡ line))

-- `:prefix command`
abbrev pub IsPrefixed : Bytes → Bytes → Bytes → Type 0
IsPrefixed rest prefix command =
    (after : Bytes) × (rest ≡ b':' ∷ prefix ++ 32 ∷ after)
    × Lacks 32 prefix
    × (command ≡ trim_space after)

-- `PRIVMSG #target`, in whatever case.
abbrev pub IsCommand : Bytes → Bytes → Type 0
IsCommand command target =
    (word : Bytes) × (command ≡ word ++ target) × (to_upper word ≡ codes "PRIVMSG #")

-- `name body`, where the name is the channel up to case.
abbrev pub IsTarget : Bytes → Bytes → Bytes → Type 0
IsTarget channel target body =
    (name after : Bytes) × (target ≡ name ++ 32 ∷ after)
    × Lacks 32 name
    × (equal_fold name channel ≡ true)
    × (body ≡ trim_space after)

first_byte : (b : ℕ) (s : Bytes) → has_prefix (b ∷ []) s ≡ true → s ≡ b ∷ drop 1 s
unfolding has_prefix strip_prefix
first_byte b [] h = absurd cc
first_byte b (c ∷ s) h = ground arith

other_byte : (b : ℕ) (s : Bytes) → has_prefix (b ∷ []) s ≡ false → Starts b s → ⊥
unfolding has_prefix strip_prefix
other_byte b [] h k = k
other_byte b (c ∷ s) h k = ground arith

upper_word : (p s : Bytes) → has_prefix p (to_upper s) ≡ true → to_upper (take (length p) s) ≡ p
unfolding has_prefix strip_prefix to_upper
upper_word [] s h = refl
upper_word (a ∷ p) [] h = absurd cc
upper_word (a ∷ p) (c ∷ s) h = ground (arith, upper_word p s)

take-append-drop : (n : ℕ) (s : Bytes) → take n s ++ drop n s ≡ s
take-append-drop zero s = refl
take-append-drop (suc n) [] = refl
take-append-drop (suc n) (c ∷ s) = ap (◌∷◌ c) (take-append-drop n s)

abbrev first : Bytes → ℕ
first [] = 0
first (c ∷ s) = c

tagged :
    (line before after rest : Bytes) (tags : Dict Bytes)
    → line ≡ before ++ 32 ∷ after
    → Lacks 32 before
    → line ≡ b'@' ∷ drop 1 line
    → tags ≡ read_tags (drop 1 before)
    → rest ≡ trim_space after
    → IsTagged line tags rest
tagged line [] after rest tags e l f t r =
    let clash : 32 ≡ b'@' = ap first (sym e ∙ f) in absurd (omega (arith, clash))
tagged line (c ∷ raw) after rest tags e l f t r =
    inl (raw, after, e ∙ ap (λ d. d ∷ raw ++ 32 ∷ after) (ap first (sym e ∙ f)), l.1, t, r)

pub take_tags-IsTagged :
    (line rest : Bytes) (tags : Dict Bytes)
    → take_tags line ≡ ok (tags, rest)
    → IsTagged line tags rest
unfolding take_tags
take_tags-IsTagged line rest tags h = elim (Bool-cases (has_prefix (b'@' ∷ []) line)) [
  | inl e ↦ elim (Option-cases (cut_byte 32 line)) [
    | inl n ↦ absurd (ground arith)
    | inr ((before, after), n) ↦
        let (written, lacks) = cut_byte_sound 32 line before after n in
        tagged line before after rest tags written lacks (first_byte b'@' line e) (ground arith)
          (ground arith)
  ]
  | inr e ↦ inr (other_byte b'@' line e, ground arith, ground arith)
]

pub take_prefix-IsPrefixed :
    (rest prefix command : Bytes)
    → take_prefix rest ≡ ok (prefix, command)
    → IsPrefixed rest prefix command
unfolding take_prefix
take_prefix-IsPrefixed rest prefix command h = elim (Bool-cases (has_prefix (b':' ∷ []) rest)) [
  | inr e ↦ absurd (ground arith)
  | inl e ↦ elim (Option-cases (cut_byte 32 (drop 1 rest))) [
    | inl n ↦ absurd (ground arith)
    | inr ((before, after), n) ↦
        let (written, lacks) = cut_byte_sound 32 (drop 1 rest) before after n in
        let same : before ≡ prefix = ground arith in
        (
          after,
          first_byte b':' rest e ∙ ap (◌∷◌ b':') (written ∙ ap (λ p. p ++ 32 ∷ after) same),
          subst (Lacks 32) same lacks,
          ground arith,
        )
  ]
]

pub take_command-IsCommand :
    (command target : Bytes) → take_command command ≡ ok target → IsCommand command target
unfolding take_command
take_command-IsCommand command target h =
    elim (Bool-cases (has_prefix privmsg (to_upper command))) [
      | inr e ↦ absurd (ground arith)
      | inl e ↦
          let same : drop (length privmsg) command ≡ target = ground arith in
          (
            take (length privmsg) command,
            sym (take-append-drop (length privmsg) command)
                ∙ ap (λ t. take (length privmsg) command ++ t) same,
            upper_word privmsg command e,
          )
    ]

pub take_channel-IsTarget :
    (channel target body : Bytes)
    → take_channel channel target ≡ ok body
    → IsTarget channel target body
unfolding take_channel
take_channel-IsTarget channel target body h = elim (Option-cases (cut_byte 32 target)) [
  | inl e ↦ absurd (ground arith)
  | inr ((name, after), e) ↦
      let (written, lacks) = cut_byte_sound 32 target name after e in
      (name, after, written, lacks, ground arith, ground arith)
]

pub take_text-eq : (body text : Bytes) → take_text body ≡ ok text → body ≡ b':' ∷ text
unfolding take_text
take_text-eq body text h = ground (arith, first_byte b':' body)
