-- ===== src/Ytlive/Page/Objects.antt =====
-- internal/ytlive/client.go: the object that is cut out of a page, and what a bootstrap returns.
use gnasty_chat.Prelude.{
  ℕ, ◌+◌, ◌<◌, true, none, some, [], ◌∷◌, ◌++◌, ◌==◌, ◌≡◌, ◌≢◌, refl, ap, sym, ◌∙◌, arith, inl, inr,
  Bool-cases, Option-cases, if◌then◌else◌, ==→eq, total, All,
}
use gnasty_chat.Text.{Bytes, cut}
use gnasty_chat.Text.Search.{cut_sound}
use gnasty_chat.Ytlive.Balanced.{prepend}
use gnasty_chat.Ytlive.Page.{
  is_blank, skip_blank, next_depth, scan_braces, object_here, object_text, extract_json_object,
}

abbrev opening : ℕ → ℕ
opening c = if c == b'{' then 1 else 0

abbrev closing : ℕ → ℕ
closing c = if c == b'}' then 1 else 0

-- As many braces close as open.
pub record IsObject (o : Bytes) : Type 0 where
  pub begins : (s : Bytes) × (o ≡ b'{' ∷ s)
  pub balanced : total opening o ≡ total closing o

-- A run of the scan from a depth: what it passes, and what is left.
Passed : ℕ → Bytes → Bytes → Type 0
Passed depth s o = (rest : Bytes) × (s ≡ o ++ rest) × (depth + total opening o ≡ total closing o)

next_depth-none : (c depth : ℕ) → next_depth c depth ≡ none → (depth + opening c ≡ closing c)
unfolding next_depth
next_depth-none c depth h = ground arith

next_depth-some :
    (c depth d : ℕ)
    → 0 < depth
    → next_depth c depth ≡ some d
    → (depth + opening c ≡ d + closing c) × (0 < d)
unfolding next_depth
next_depth-some c depth d p h = ground arith

pass_cons :
    (c depth d : ℕ) (s o : Bytes)
    → depth + opening c ≡ d + closing c
    → Passed d s o
    → Passed depth (c ∷ s) (c ∷ o)
unfolding Passed
pass_cons c depth d s o e (rest, f, h) = (rest, rw f refl, omega (arith, h, e))

module _ (c depth : ℕ) (s : Bytes) where
  scan_last : next_depth c depth ≡ none → scan_braces depth (c ∷ s) ≡ some (c ∷ [])
  unfolding scan_braces
  scan_last e = rw (scan_braces, e) refl

  scan_more :
      (d : ℕ)
      → next_depth c depth ≡ some d
      → scan_braces depth (c ∷ s) ≡ prepend (c ∷ []) (scan_braces d s)
  unfolding scan_braces
  scan_more d e = rw (scan_braces, e) refl

some_inj : (s t : Bytes) → some s ≡ some t → s ≡ t
some_inj s t h = ground (arith, h)

scan_braces_sound :
    (depth : ℕ) (s o : Bytes) → 0 < depth → scan_braces depth s ≡ some o → Passed depth s o
unfolding scan_braces Passed
scan_braces_sound depth [] o p h = absurd (ground (arith, h))
scan_braces_sound depth (c ∷ s) o p h = elim (Option-cases (next_depth c depth)) [
  | inl e ↦
      let h' : o ≡ c ∷ [] = some_inj o (c ∷ []) (sym h ∙ scan_last c depth s e) in
      rw h' (s, refl, omega (arith, next_depth-none c depth e))
  | inr (d, e) ↦
      let more = sym (scan_more c depth s d e) ∙ h in
      let step = next_depth-some c depth d p e in
      elim (Option-cases (scan_braces d s)) [
        | inl f ↦ absurd (ground (arith, more, f))
        | inr (o', f) ↦
            let ih = scan_braces_sound d s o' step.1 f in
            let h' : o ≡ c ∷ o' = some_inj o (c ∷ o') (sym more ∙ rw f refl) in
            rw h' (pass_cons c depth d s o' step.0 ih)
      ]
]

scan_first :
    (s o : Bytes)
    → scan_braces 0 (b'{' ∷ s) ≡ some o
    → (rest : Bytes) × (b'{' ∷ s ≡ o ++ rest) × IsObject o
unfolding scan_braces next_depth Passed
scan_first s o h = elim (Option-cases (scan_braces 1 s)) [
  | inl f ↦ absurd (ground (arith, h, f))
  | inr (o', f) ↦
      let (rest, g, k) = scan_braces_sound 1 s o' (omega arith) f in
      let h' : o ≡ b'{' ∷ o' = some_inj o (b'{' ∷ o') (sym h ∙ rw f refl) in
      rw h'
        (rest, ap (λ t. b'{' ∷ t) g, record { begins = (o', refl); balanced = omega (arith, k) })
]

object_here_sound :
    (s o : Bytes) → object_here s ≡ some o → (rest : Bytes) × (s ≡ o ++ rest) × IsObject o
unfolding object_here Passed
object_here_sound [] o h = absurd (ground (arith, h))
object_here_sound (c ∷ s) o h = elim (Bool-cases (c == b'{')) [
  | inr e ↦ absurd (ground (arith, h, e))
  | inl e ↦ let f : c ≡ b'{' = ==→eq c b'{' e in rw f (scan_first s o (rw f at h))
]

-- Where the white space ends.
skip_blank_sound :
    (s : Bytes) → (blank : Bytes) × (s ≡ blank ++ skip_blank s) × All (λ c. is_blank c ≡ true) blank
unfolding skip_blank
skip_blank_sound [] = ([], refl, tt)
skip_blank_sound (c ∷ s) = elim (Bool-cases (is_blank c)) [
  | inl e ↦ let (blank, f, h) = skip_blank_sound s in (c ∷ blank, rw (e, ← f) refl, (e, h))
  | inr e ↦ ([], rw e refl, tt)
]

-- An object of the text, behind the marker and white space.
pub record IsCutFrom (text marker o : Bytes) : Type 0 where
  pub before : Bytes
  pub blank : Bytes
  pub rest : Bytes
  pub parts : text ≡ before ++ (marker ++ (blank ++ (o ++ rest)))
  pub blanks : All (λ c. is_blank c ≡ true) blank
  pub whole : IsObject o

cut_object :
    (text marker before after : Bytes)
    → cut marker text ≡ some (before, after)
    → (o : Bytes) → object_here (skip_blank after) ≡ some o
    → IsCutFrom text marker o
cut_object text marker before after e o f =
    let (blank, g, h) = skip_blank_sound after in
    let (rest, k, w) = object_here_sound (skip_blank after) o f in
    record {
      before = before;
      blank = blank;
      rest = rest;
      parts = cut_sound marker text before after e ∙ rw (← k, ← g) refl;
      blanks = h;
      whole = w;
    }

object_after :
    (text marker before after : Bytes)
    → cut marker text ≡ some (before, after)
    → object_text after ≢ []
    → IsCutFrom text marker (object_text after)
unfolding object_text
object_after text marker before after e h = elim (Option-cases (object_here (skip_blank after))) [
  | inl f ↦ absurd (h (rw (f, object_text) refl))
  | inr (o, f) ↦ rw (f, object_text) (cut_object text marker before after e o f)
]

-- A text that is not empty stands in the page behind the marker and white space, begins with a
-- brace, and opens as many braces as it closes.
pub extract_json_object-IsCutFrom :
    (text marker : Bytes)
    → extract_json_object text marker ≢ []
    → IsCutFrom text marker (extract_json_object text marker)
unfolding extract_json_object
extract_json_object-IsCutFrom text marker h = elim (Option-cases (cut marker text)) [
  | inl e ↦ absurd (h (rw (e, extract_json_object) refl))
  | inr (p, e) ↦
      let q : extract_json_object text marker ≡ object_text p.1 =
        rw (e, extract_json_object) refl in
      rw q (object_after text marker p.0 p.1 e (rw q at h))
]
