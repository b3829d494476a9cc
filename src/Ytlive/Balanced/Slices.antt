-- ===== src/Ytlive/Balanced/Slices.antt =====
-- What sliceBalancedJSON of internal/ytlive/resolver.go returns.
use gnasty_chat.Prelude.{
  ℕ, Bool, true, false, Option, none, some, List, [], ◌∷◌, ◌++◌, ◌≡◌, ◌≢◌, refl, sym, ap, ◌∙◌,
  arith, append_assoc,
}
use gnasty_chat.Text.{Bytes}
use gnasty_chat.Ytlive.Balanced.{
  finishes, goes, close_bracket, outside_string, in_string, next, prepend, scan_from,
  slice_balanced,
}

-- A character of a string: one that stands for itself, or one behind a backslash.
pub data Letter : Type 0 where
  bare : ℕ → Letter
  escaped : ℕ → Letter

-- A text whose brackets match outside of its strings.
pub data Balanced : Type 0 where
  done : Balanced
  plain : ℕ → Balanced → Balanced
  quoted : List Letter → Balanced → Balanced
  braces : Balanced → Balanced → Balanced
  brackets : Balanced → Balanced → Balanced

pub write_letters : List Letter → Bytes
write_letters [] = []
write_letters (bare c ∷ ls) = c ∷ write_letters ls
write_letters (escaped c ∷ ls) = 92 ∷ c ∷ write_letters ls

pub write : Balanced → Bytes
write done = []
write (plain c b) = c ∷ write b
write (quoted ls b) = 34 ∷ (write_letters ls ++ 34 ∷ write b)
write (braces inner b) = b'{' ∷ (write inner ++ b'}' ∷ write b)
write (brackets inner b) = b'[' ∷ (write inner ++ b']' ∷ write b)

-- A bare letter is no quote and no backslash; a plain byte is no quote and no bracket.
abbrev pub AreLetters : List Letter → Type 0
AreLetters [] = Unit
AreLetters (bare c ∷ ls) = (c ≢ 34) × (c ≢ 92) × AreLetters ls
AreLetters (escaped c ∷ ls) = AreLetters ls

abbrev pub IsPlain : ℕ → Type 0
IsPlain c = (c ≢ 34) × (c ≢ b'{') × (c ≢ b'[') × (c ≢ b'}') × (c ≢ b']')

abbrev pub IsWritable : Balanced → Type 0
IsWritable done = Unit
IsWritable (plain c b) = IsPlain c × IsWritable b
IsWritable (quoted ls b) = AreLetters ls × IsWritable b
IsWritable (braces inner b) = IsWritable inner × IsWritable b
IsWritable (brackets inner b) = IsWritable inner × IsWritable b

prepend-append : (s t : Bytes) (o : Option Bytes) → prepend s (prepend t o) ≡ prepend (s ++ t) o
prepend-append s t none = refl
prepend-append s t (some u) = ap some (sym (append_assoc s t u))

prepend-nil : (o : Option Bytes) → prepend [] o ≡ o
prepend-nil none = refl
prepend-nil (some s) = refl

scan_from-goes :
    (c : ℕ) (s stack stack' : Bytes) (q e q' e' : Bool)
    → next c stack q e ≡ goes stack' q' e'
    → scan_from (c ∷ s) stack q e ≡ prepend (c ∷ []) (scan_from s stack' q' e')
unfolding scan_from
scan_from-goes c s stack stack' q e q' e' h = rw (h, scan_from) refl

next-bare :
    (c : ℕ) (stack : Bytes) → c ≢ 34 → c ≢ 92 → next c stack true false ≡ goes stack true false
unfolding next in_string
next-bare c stack n m = ground arith

scan_from-letters :
    (ls : List Letter) (rest stack : Bytes)
    → AreLetters ls
    → scan_from (write_letters ls ++ 34 ∷ rest) stack true false
      ≡ prepend (write_letters ls ++ 34 ∷ []) (scan_from rest stack false false)
unfolding write_letters
scan_from-letters [] rest stack h =
    scan_from-goes 34 rest stack stack true false false false
      (unfold next in unfold in_string in refl)
scan_from-letters (bare c ∷ ls) rest stack (n, m, h) =
    scan_from-goes c (write_letters ls ++ 34 ∷ rest) stack stack true false true false
      (next-bare c stack n m)
    ∙ ap (prepend (c ∷ [])) (scan_from-letters ls rest stack h)
    ∙ prepend-append (c ∷ []) (write_letters ls ++ 34 ∷ []) (scan_from rest stack false false)
scan_from-letters (escaped c ∷ ls) rest stack h =
    scan_from-goes 92 (c ∷ (write_letters ls ++ 34 ∷ rest)) stack stack true false true true
      (unfold next in unfold in_string in refl)
    ∙ ap (prepend (92 ∷ [])) (
        scan_from-goes c (write_letters ls ++ 34 ∷ rest) stack stack true true true false
          (unfold next in unfold in_string in refl)
        ∙ ap (prepend (c ∷ [])) (scan_from-letters ls rest stack h)
        ∙ prepend-append (c ∷ []) (write_letters ls ++ 34 ∷ []) (scan_from rest stack false false))
    ∙ prepend-append (92 ∷ []) (c ∷ (write_letters ls ++ 34 ∷ []))
        (scan_from rest stack false false)

-- A letter, a bracket or a quote outside of strings, with an open bracket `o`.
next-plain : (c : ℕ) (stack : Bytes) → IsPlain c → next c stack false false ≡ goes stack false false
unfolding next outside_string
next-plain c stack p = ground arith

-- A bracket that is opened and closed, from what the loop passes of its inside and of what follows.
scan_from-nested :
    (a z : ℕ) (inner b : Balanced) (rest : Bytes) (o : ℕ) (stack : Bytes)
    → next a (o ∷ stack) false false ≡ goes (a ∷ o ∷ stack) false false
    → next z (a ∷ o ∷ stack) false false ≡ goes (o ∷ stack) false false
    → scan_from (write inner ++ z ∷ (write b ++ rest)) (a ∷ o ∷ stack) false false
      ≡ prepend (write inner) (scan_from (z ∷ (write b ++ rest)) (a ∷ o ∷ stack) false false)
    → scan_from (write b ++ rest) (o ∷ stack) false false
      ≡ prepend (write b) (scan_from rest (o ∷ stack) false false)
    → scan_from (a ∷ ((write inner ++ z ∷ write b) ++ rest)) (o ∷ stack) false false
      ≡ prepend (a ∷ (write inner ++ z ∷ write b)) (scan_from rest (o ∷ stack) false false)
scan_from-nested a z inner b rest o stack begins ends within after =
    ap (λ t. scan_from (a ∷ t) (o ∷ stack) false false)
      (append_assoc (write inner) (z ∷ write b) rest)
    ∙ scan_from-goes a (write inner ++ z ∷ (write b ++ rest)) (o ∷ stack) (a ∷ o ∷ stack) false
        false false false begins
    ∙ ap (prepend (a ∷ [])) (
        within
        ∙ ap (prepend (write inner)) (
            scan_from-goes z (write b ++ rest) (a ∷ o ∷ stack) (o ∷ stack) false false false false
              ends
            ∙ ap (prepend (z ∷ [])) after
            ∙ prepend-append (z ∷ []) (write b) (scan_from rest (o ∷ stack) false false))
        ∙ prepend-append (write inner) (z ∷ write b) (scan_from rest (o ∷ stack) false false))
    ∙ prepend-append (a ∷ []) (write inner ++ z ∷ write b) (scan_from rest (o ∷ stack) false false)

-- What the loop passes of a balanced text, inside of an open bracket.
scan_from-write :
    (b : Balanced) (rest : Bytes) (o : ℕ) (stack : Bytes)
    → IsWritable b
    → scan_from (write b ++ rest) (o ∷ stack) false false
      ≡ prepend (write b) (scan_from rest (o ∷ stack) false false)
unfolding write
scan_from-write done rest o stack h = sym (prepend-nil _)
scan_from-write (plain c b) rest o stack (p, h) =
    scan_from-goes c (write b ++ rest) (o ∷ stack) (o ∷ stack) false false false false
      (next-plain c (o ∷ stack) p)
    ∙ ap (prepend (c ∷ [])) (scan_from-write b rest o stack h)
    ∙ prepend-append (c ∷ []) (write b) (scan_from rest (o ∷ stack) false false)
scan_from-write (quoted ls b) rest o stack (p, h) =
    ap (λ t. scan_from (34 ∷ t) (o ∷ stack) false false)
      (append_assoc (write_letters ls) (34 ∷ write b) rest)
    ∙ scan_from-goes 34 (write_letters ls ++ 34 ∷ (write b ++ rest)) (o ∷ stack) (o ∷ stack) false
        false true false (unfold next in unfold outside_string in refl)
    ∙ ap (prepend (34 ∷ [])) (
        scan_from-letters ls (write b ++ rest) (o ∷ stack) p
        ∙ ap (prepend (write_letters ls ++ 34 ∷ [])) (scan_from-write b rest o stack h)
        ∙ prepend-append (write_letters ls ++ 34 ∷ []) (write b)
            (scan_from rest (o ∷ stack) false false))
    ∙ prepend-append (34 ∷ []) ((write_letters ls ++ 34 ∷ []) ++ write b)
        (scan_from rest (o ∷ stack) false false)
    ∙ ap (λ t. prepend (34 ∷ t) (scan_from rest (o ∷ stack) false false))
        (append_assoc (write_letters ls) (34 ∷ []) (write b))
scan_from-write (braces inner b) rest o stack (p, h) =
    scan_from-nested b'{' b'}' inner b rest o stack (unfold next in unfold outside_string in refl)
      (unfold next in unfold outside_string in unfold close_bracket in refl)
      (scan_from-write inner (b'}' ∷ (write b ++ rest)) b'{' (o ∷ stack) p)
      (scan_from-write b rest o stack h)
scan_from-write (brackets inner b) rest o stack (p, h) =
    scan_from-nested b'[' b']' inner b rest o stack (unfold next in unfold outside_string in refl)
      (unfold next in unfold outside_string in unfold close_bracket in refl)
      (scan_from-write inner (b']' ∷ (write b ++ rest)) b'[' (o ∷ stack) p)
      (scan_from-write b rest o stack h)

-- An object or an array is what a text begins with.
pub data Whole : Type 0 where
  object array : Balanced → Whole

pub write_whole : Whole → Bytes
write_whole (object b) = b'{' ∷ (write b ++ b'}' ∷ [])
write_whole (array b) = b'[' ∷ (write b ++ b']' ∷ [])

abbrev pub IsWritableWhole : Whole → Type 0
IsWritableWhole (object b) = IsWritable b
IsWritableWhole (array b) = IsWritable b

scan_from-finishes :
    (c : ℕ) (s stack : Bytes)
    → next c stack false false ≡ finishes
    → scan_from (c ∷ s) stack false false ≡ some (c ∷ [])
unfolding scan_from
scan_from-finishes c s stack h = rw (h, scan_from) refl

slice_balanced-bracket :
    (a z : ℕ) (b : Balanced) (rest : Bytes)
    → IsWritable b
    → next a [] false false ≡ goes (a ∷ []) false false
    → next z (a ∷ []) false false ≡ finishes
    → slice_balanced (a ∷ (write b ++ z ∷ rest)) ≡ some (a ∷ (write b ++ z ∷ []))
unfolding slice_balanced
slice_balanced-bracket a z b rest h begins ends =
    scan_from-goes a (write b ++ z ∷ rest) [] (a ∷ []) false false false false begins
    ∙ ap (prepend (a ∷ [])) (
        scan_from-write b (z ∷ rest) a [] h
        ∙ ap (prepend (write b)) (scan_from-finishes z rest (a ∷ []) ends))

-- From a text that begins with an object or an array whose brackets match outside of its strings,
-- exactly that object or array is cut off, whatever follows it and whatever brackets and escaped
-- quotes its strings hold.
pub slice_balanced-write_whole :
    (w : Whole) (rest : Bytes)
    → IsWritableWhole w
    → slice_balanced (write_whole w ++ rest) ≡ some (write_whole w)
unfolding write_whole
slice_balanced-write_whole (object b) rest h =
    ap (λ t. slice_balanced (b'{' ∷ t)) (append_assoc (write b) (b'}' ∷ []) rest)
    ∙ slice_balanced-bracket b'{' b'}' b rest h (unfold next in unfold outside_string in refl)
        (unfold next in unfold outside_string in unfold close_bracket in refl)
slice_balanced-write_whole (array b) rest h =
    ap (λ t. slice_balanced (b'[' ∷ t)) (append_assoc (write b) (b']' ∷ []) rest)
    ∙ slice_balanced-bracket b'[' b']' b rest h (unfold next in unfold outside_string in refl)
        (unfold next in unfold outside_string in unfold close_bracket in refl)
