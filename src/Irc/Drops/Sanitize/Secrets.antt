-- ===== src/Irc/Drops/Sanitize/Secrets.antt =====
-- What internal/twitchirc/drop_logging.go leaves of a token in a log line: nothing.
use gnasty_chat.Prelude.{
  ℕ, zero, suc, ◌≤◌, ◌<◌, Bool, true, ◌||◌, [], ◌∷◌, ◌++◌, ◌≡◌, ◌≢◌, inl, inr, refl, sym, ap,
  is_nil, ◌∙◌, arith, All, All-append, length, length-append, take, Bool-cases, if◌then◌else◌,
  append_assoc,
}
use mathlib.Core.Path.{ap₂}
use gnasty_chat.Text.{
  Bytes, codes, has_prefix, to_lower, to_upper, beq, trim_space, replace_byte, fields, join,
}
use gnasty_chat.Text.Trim.{append-ne-nil}
use gnasty_chat.Irc.Drops.Sanitize.{
  Mode, outside, within, token, is_secret, oauth, redacted, starts_oauth, redact_oauth, redact_long,
  collapse, redact_pass, redact_tokens, shorten, sanitize_and_truncate,
}

abbrev pub IsSecret : ℕ → Type 0
IsSecret c = is_secret c ≡ true

swallow_token :
    (t rest : Bytes) → All IsSecret t → redact_oauth token (t ++ rest) ≡ redact_oauth token rest
unfolding redact_oauth
swallow_token [] rest h = refl
swallow_token (c ∷ t) rest h = rw h.0 (swallow_token t rest h.1)

swallow_within :
    (n : ℕ) (t rest : Bytes)
    → All IsSecret t
    → n < length t
    → redact_oauth (within n) (t ++ rest) ≡ redact_oauth token rest
unfolding redact_oauth
swallow_within n [] rest h lt = absurd (omega arith)
swallow_within zero (c ∷ t) rest h lt = swallow_token t rest h.1
swallow_within (suc n) (c ∷ t) rest h lt = swallow_within n t rest h.1 (omega arith)

oauth-IsSecret : All IsSecret oauth
unfolding is_secret
oauth-IsSecret = (refl, (refl, (refl, (refl, (refl, (refl, tt))))))

-- The scanner looks at seven bytes.
starts_oauth-take : (s : Bytes) → starts_oauth (take 7 s) ≡ starts_oauth s
unfolding starts_oauth
starts_oauth-take [] = refl
starts_oauth-take (a ∷ []) = refl
starts_oauth-take (a ∷ b ∷ []) = refl
starts_oauth-take (a ∷ b ∷ c ∷ []) = refl
starts_oauth-take (a ∷ b ∷ c ∷ d ∷ []) = refl
starts_oauth-take (a ∷ b ∷ c ∷ d ∷ e ∷ []) = refl
starts_oauth-take (a ∷ b ∷ c ∷ d ∷ e ∷ f ∷ []) = refl
starts_oauth-take (a ∷ b ∷ c ∷ d ∷ e ∷ f ∷ g ∷ s) = refl

take-append_le : (n : ℕ) (x s : Bytes) → n ≤ length x → take n (x ++ s) ≡ take n x
take-append_le zero x s h = refl
take-append_le (suc n) [] s h = absurd (omega arith)
take-append_le (suc n) (c ∷ x) s h = ap (◌∷◌ c) (take-append_le n x s (omega arith))

starts_oauth-append :
    (c : ℕ) (x s s' : Bytes)
    → 6 ≤ length x
    → starts_oauth (c ∷ (x ++ s)) ≡ starts_oauth (c ∷ (x ++ s'))
starts_oauth-append c x s s' h =
    sym (starts_oauth-take (c ∷ (x ++ s)))
    ∙ (ap (λ y. starts_oauth (c ∷ y)) (take-append_le 6 x s h ∙ sym (take-append_le 6 x s' h))
        ∙ starts_oauth-take (c ∷ (x ++ s')))

-- The modes that the scanner meets.
abbrev pub IsMode : Mode → Type 0
IsMode outside = Unit
IsMode (within n) = n < 6
IsMode token = Unit

redact_oauth_match :
    (t rest : Bytes)
    → t ≢ []
    → All IsSecret t
    → redact_oauth outside (oauth ++ (t ++ rest)) ≡ oauth ++ (redacted ++ redact_oauth token rest)
unfolding redact_oauth starts_oauth has_prefix to_lower
redact_oauth_match [] rest n h = absurd (n refl)
redact_oauth_match (c ∷ t) rest n h =
    rw h.0 (ap (λ x. oauth ++ (redacted ++ x)) (swallow_token t rest h.1))

starts_alike :
    (c : ℕ) (pre s s' : Bytes)
    → starts_oauth (c ∷ (pre ++ (oauth ++ s))) ≡ starts_oauth (c ∷ (pre ++ (oauth ++ s')))
starts_alike c pre s s' =
    rw (← append_assoc pre oauth s, ← append_assoc pre oauth s')
      (starts_oauth-append c (pre ++ oauth) s s' (omega (arith, length-append pre oauth)))

-- Of two texts that differ only in a token behind `oauth:` the scanner makes the same.
pub redact_oauth_hides :
    (m : Mode) (pre t u rest : Bytes)
    → IsMode m
    → All IsSecret t × (t ≢ [])
    → All IsSecret u × (u ≢ [])
    → redact_oauth m (pre ++ (oauth ++ (t ++ rest)))
      ≡ redact_oauth m (pre ++ (oauth ++ (u ++ rest)))
unfolding redact_oauth
redact_oauth_hides outside [] t u rest ok (ht, nt) (hu, nu) =
    redact_oauth_match t rest nt ht ∙ sym (redact_oauth_match u rest nu hu)
redact_oauth_hides (within n) [] t u rest ok (ht, nt) (hu, nu) =
    swallow_within n (oauth ++ t) rest (All-append _ oauth t oauth-IsSecret ht) (omega arith)
    ∙ sym
        (swallow_within n (oauth ++ u) rest (All-append _ oauth u oauth-IsSecret hu) (omega arith))
redact_oauth_hides token [] t u rest ok (ht, nt) (hu, nu) =
    swallow_token (oauth ++ t) rest (All-append _ oauth t oauth-IsSecret ht)
    ∙ sym (swallow_token (oauth ++ u) rest (All-append _ oauth u oauth-IsSecret hu))
redact_oauth_hides outside (c ∷ pre) t u rest ok ht hu =
    rw (starts_alike c pre (t ++ rest) (u ++ rest)) (
      ap₂ (if◌then◌else◌ (starts_oauth (c ∷ (pre ++ (oauth ++ (u ++ rest))))))
        (ap (λ x. oauth ++ (redacted ++ x))
          (redact_oauth_hides (within 4) pre t u rest (omega arith) ht hu))
        (ap (◌∷◌ c) (redact_oauth_hides outside pre t u rest tt ht hu)))
redact_oauth_hides (within zero) (c ∷ pre) t u rest ok ht hu =
    redact_oauth_hides token pre t u rest tt ht hu
redact_oauth_hides (within (suc n)) (c ∷ pre) t u rest ok ht hu =
    redact_oauth_hides (within n) pre t u rest (omega arith) ht hu
redact_oauth_hides token (c ∷ pre) t u rest ok ht hu =
    ap₂ (if◌then◌else◌ (is_secret c)) (redact_oauth_hides token pre t u rest tt ht hu)
      (ap (◌∷◌ c) (redact_oauth_hides outside pre t u rest tt ht hu))

is_pass : Bytes → Bool
is_pass s = has_prefix (codes "PASS ") (to_upper s) || beq (to_upper s) (codes "PASS")

-- Whether a text is a `PASS` line is seen in front of the token.
is_pass-append : (pre s s' : Bytes) → is_pass (pre ++ (oauth ++ s)) ≡ is_pass (pre ++ (oauth ++ s'))
unfolding is_pass has_prefix to_upper beq
is_pass-append [] s s' = refl
is_pass-append (a ∷ []) s s' = refl
is_pass-append (a ∷ b ∷ []) s s' = refl
is_pass-append (a ∷ b ∷ c ∷ []) s s' = refl
is_pass-append (a ∷ b ∷ c ∷ d ∷ []) s s' = refl
is_pass-append (a ∷ b ∷ c ∷ d ∷ e ∷ pre) s s' = ground arith

redact_pass_hides :
    (pre t u rest : Bytes)
    → All IsSecret t × (t ≢ [])
    → All IsSecret u × (u ≢ [])
    → redact_tokens (redact_pass (pre ++ (oauth ++ (t ++ rest))))
      ≡ redact_tokens (redact_pass (pre ++ (oauth ++ (u ++ rest))))
unfolding redact_pass redact_tokens is_pass
redact_pass_hides pre t u rest ht hu =
    let alike = is_pass-append pre (t ++ rest) (u ++ rest) in
    elim (Bool-cases (is_pass (pre ++ (oauth ++ (u ++ rest))))) [
      | inl e ↦ rw (alike ∙ e, e) refl
      | inr e ↦
          rw (alike ∙ e, e) (ap (redact_long []) (redact_oauth_hides outside pre t u rest tt ht hu))
    ]

is_nil-eq : (s : Bytes) → is_nil s ≡ true → s ≡ []
is_nil-eq [] h = refl
is_nil-eq (c ∷ s) h = absurd cc

collapse-blank : (s : Bytes) → trim_space s ≡ [] → collapse s ≡ []
unfolding collapse replace_byte fields join
collapse-blank s h = rw (h, collapse) refl

-- A text whose white space is collapsed is cut and redacted only.
sanitize_collapsed :
    (s : Bytes) (max : ℕ)
    → s ≢ []
    → collapse s ≡ s
    → sanitize_and_truncate s max ≡ shorten (redact_tokens (redact_pass s)) max
unfolding sanitize_and_truncate
sanitize_collapsed s max n c = elim (Bool-cases (is_nil (trim_space s))) [
  | inl e ↦ absurd (n (sym c ∙ collapse-blank s (is_nil-eq (trim_space s) e)))
  | inr e ↦ rw e (ap (λ x. shorten (redact_tokens (redact_pass x)) max) c)
]

-- A sample or channel that has no white space to trim or to collapse is logged the same whatever
-- token stands behind `oauth:`, whatever stands around it and wherever it is cut off.
pub sanitize_and_truncate_hides :
    (pre t u rest : Bytes) (max : ℕ)
    → All IsSecret t × (t ≢ [])
    → All IsSecret u × (u ≢ [])
    → collapse (pre ++ (oauth ++ (t ++ rest))) ≡ pre ++ (oauth ++ (t ++ rest))
    → collapse (pre ++ (oauth ++ (u ++ rest))) ≡ pre ++ (oauth ++ (u ++ rest))
    → sanitize_and_truncate (pre ++ (oauth ++ (t ++ rest))) max
      ≡ sanitize_and_truncate (pre ++ (oauth ++ (u ++ rest))) max
sanitize_and_truncate_hides pre t u rest max ht hu ct cu =
    sanitize_collapsed _ max (append-ne-nil pre (oauth ++ (t ++ rest)) cc) ct
    ∙ ap (λ x. shorten x max) (redact_pass_hides pre t u rest ht hu)
    ∙ sym (sanitize_collapsed _ max (append-ne-nil pre (oauth ++ (u ++ rest)) cc) cu)
