-- ===== src/Text/Search.antt =====
-- What the searches of package strings find.
use gnasty_chat.Prelude.{ℕ, none, some, [], ◌∷◌, ◌++◌, ◌≡◌, ◌≢◌, refl, arith, All}
use gnasty_chat.Text.{Bytes, strip_prefix, cut, cut_byte}

-- The byte does not occur.
abbrev pub Lacks : ℕ → Bytes → Type 0
Lacks b = All λ c. c ≢ b

pub strip_prefix-append : (p s : Bytes) → strip_prefix p (p ++ s) ≡ some s
unfolding strip_prefix
strip_prefix-append [] s = refl
strip_prefix-append (c ∷ p) s = ground (arith, strip_prefix-append p s)

pub strip_prefix_sound : (p s : Bytes) (rest : Bytes) → strip_prefix p s ≡ some rest → s ≡ p ++ rest
unfolding strip_prefix
strip_prefix_sound [] s rest h = ground arith
strip_prefix_sound (c ∷ p) [] rest h = cc
strip_prefix_sound (c ∷ p) (d ∷ s) rest h = ground (arith, strip_prefix_sound p s rest)

-- `cut` finds an occurrence, and takes the text apart around it.
pub cut_sound :
    (sep s : Bytes) (before after : Bytes)
    → cut sep s ≡ some (before, after)
    → s ≡ before ++ (sep ++ after)
unfolding cut
cut_sound [] [] before after h = ground arith
cut_sound (p ∷ sep) [] before after h = cc
cut_sound sep (c ∷ s) [] after h = ground (arith, strip_prefix_sound sep (c ∷ s) after)
cut_sound sep (c ∷ s) (d ∷ before) after h = ground (arith, cut_sound sep s before after)

pub cut_byte_sound :
    (b : ℕ) (s : Bytes) (before after : Bytes)
    → cut_byte b s ≡ some (before, after)
    → (s ≡ before ++ b ∷ after) × Lacks b before
unfolding cut_byte
cut_byte_sound b [] before after h = cc
cut_byte_sound b (c ∷ s) [] after h = ground (arith, cut_byte_sound b s [] after)
cut_byte_sound b (c ∷ s) (d ∷ before) after h = ground (arith, cut_byte_sound b s before after)

pub cut_byte-none : (b : ℕ) (s : Bytes) → cut_byte b s ≡ none → Lacks b s
unfolding cut_byte
cut_byte-none b [] h = tt
cut_byte-none b (c ∷ s) h = ground (arith, cut_byte-none b s)

pub cut_byte-append :
    (b : ℕ) (before after : Bytes)
    → Lacks b before
    → cut_byte b (before ++ b ∷ after) ≡ some (before, after)
unfolding cut_byte
cut_byte-append b [] after h = ground arith
cut_byte-append b (c ∷ before) after h = ground (arith, cut_byte-append b before after h.1)

pub cut_byte-Lacks : (b : ℕ) (s : Bytes) → Lacks b s → cut_byte b s ≡ none
unfolding cut_byte
cut_byte-Lacks b [] h = refl
cut_byte-Lacks b (c ∷ s) h = ground (arith, cut_byte-Lacks b s h.1)

-- What does not occur does not occur behind a prefix either.
pub cut-drop : (sep p s : Bytes) → cut sep (p ++ s) ≡ none → cut sep s ≡ none
unfolding cut
cut-drop sep [] s h = h
cut-drop sep (c ∷ p) s h = cut-drop sep p s (ground arith)

pub cut-append-ne_none : (c : ℕ) (sep s : Bytes) → cut (c ∷ sep) (c ∷ sep ++ s) ≢ none
unfolding cut
cut-append-ne_none c sep s h = ground (arith, strip_prefix-append (c ∷ sep) s)
