-- ===== src/Text/Trim.antt =====
-- Trimming: what remains has no space at its ends, and such a text stays as it is.
use gnasty_chat.Prelude.{
  ℕ, ◌≤◌, Bool, true, false, [], ◌∷◌, ◌++◌, ◌≡◌, ◌≢◌, refl, ap, arith, length, ◌∙◌,
}
use gnasty_chat.Text.{Bytes, is_space, trim_left, trim_right, trim_space}

-- The first byte, if there is one, is no space; the same of the last.
abbrev pub StartsClean : Bytes → Type 0
StartsClean [] = Unit
StartsClean (c ∷ s) = is_space c ≡ false

abbrev pub EndsClean : Bytes → Type 0
EndsClean [] = Unit
EndsClean (c ∷ []) = is_space c ≡ false
EndsClean (c ∷ d ∷ s) = EndsClean (d ∷ s)

pub record IsTrimmed (s : Bytes) : Type 0 where
  pub starts : StartsClean s
  pub ends : EndsClean s

trim_left-StartsClean : (s : Bytes) → StartsClean (trim_left is_space s)
unfolding trim_left
trim_left-StartsClean [] = tt
trim_left-StartsClean (c ∷ s) = ground (arith, trim_left-StartsClean s)

trim_right-EndsClean : (s : Bytes) → EndsClean (trim_right is_space s)
unfolding trim_right
trim_right-EndsClean [] = tt
trim_right-EndsClean (c ∷ s) = ground (arith, trim_right-EndsClean s)

trim_right-StartsClean : (s : Bytes) → StartsClean s → StartsClean (trim_right is_space s)
unfolding trim_right
trim_right-StartsClean [] h = tt
trim_right-StartsClean (c ∷ s) h = ground arith

pub trim_space-IsTrimmed : (s : Bytes) → IsTrimmed (trim_space s)
unfolding trim_space
trim_space-IsTrimmed s = record {
  starts = trim_right-StartsClean _ (trim_left-StartsClean s);
  ends = trim_right-EndsClean (trim_left is_space s);
}

trim_left_clean : (s : Bytes) → StartsClean s → trim_left is_space s ≡ s
unfolding trim_left
trim_left_clean [] h = refl
trim_left_clean (c ∷ s) h = ground arith

trim_right_clean : (s : Bytes) → EndsClean s → trim_right is_space s ≡ s
unfolding trim_right
trim_right_clean [] h = refl
trim_right_clean (c ∷ []) h = ground arith
trim_right_clean (c ∷ d ∷ s) h = ground (arith, trim_right_clean (d ∷ s) h)

pub trim_space-eq_self : (s : Bytes) → IsTrimmed s → trim_space s ≡ s
unfolding trim_space
trim_space-eq_self s h =
    ap (trim_right is_space) (trim_left_clean s h.starts) ∙ trim_right_clean s h.ends

pub trim_space_idem : (s : Bytes) → trim_space (trim_space s) ≡ trim_space s
trim_space_idem s = trim_space-eq_self _ (trim_space-IsTrimmed s)

trim_left-le : (p : ℕ → Bool) (s : Bytes) → length (trim_left p s) ≤ length s
unfolding trim_left
trim_left-le p [] = omega arith
trim_left-le p (c ∷ s) = ground (arith, trim_left-le p s)

trim_right-le : (p : ℕ → Bool) (s : Bytes) → length (trim_right p s) ≤ length s
unfolding trim_right
trim_right-le p [] = omega arith
trim_right-le p (c ∷ s) = ground (arith, trim_right-le p s)

pub trim_space-le : (s : Bytes) → length (trim_space s) ≤ length s
unfolding trim_space
trim_space-le s =
    omega (arith, trim_left-le is_space s, trim_right-le is_space (trim_left is_space s))

pub EndsClean-cons : (c : ℕ) (s : Bytes) → is_space c ≡ false → EndsClean s → EndsClean (c ∷ s)
EndsClean-cons c [] h e = h
EndsClean-cons c (d ∷ s) h e = e

EndsClean-behind : (c : ℕ) (s : Bytes) → s ≢ [] → EndsClean s → EndsClean (c ∷ s)
EndsClean-behind c [] n e = absurd (n refl)
EndsClean-behind c (d ∷ s) n e = e

pub append-ne-nil : (s t : Bytes) → t ≢ [] → s ++ t ≢ []
append-ne-nil [] t n e = n e
append-ne-nil (c ∷ s) t n e = cc

pub EndsClean-append : (s t : Bytes) → t ≢ [] → EndsClean t → EndsClean (s ++ t)
EndsClean-append [] t n e = e
EndsClean-append (c ∷ s) t n e =
    EndsClean-behind c (s ++ t) (append-ne-nil s t n) (EndsClean-append s t n e)

pub StartsClean-append : (s t : Bytes) → s ≢ [] → StartsClean s → StartsClean (s ++ t)
StartsClean-append [] t n h = absurd (n refl)
StartsClean-append (c ∷ s) t n h = h

trim_right-append :
    (s : Bytes) (c : ℕ)
    → is_space c ≡ true
    → trim_right is_space (s ++ c ∷ []) ≡ trim_right is_space s
unfolding trim_right
trim_right-append [] c h = ground arith
trim_right-append (d ∷ s) c h = ground (arith, trim_right-append s c h)

-- White space behind a trimmed text is trimmed off.
pub trim_space-append :
    (s : Bytes) (c : ℕ) → IsTrimmed s → s ≢ [] → is_space c ≡ true → trim_space (s ++ c ∷ []) ≡ s
unfolding trim_space
trim_space-append s c t n h =
    ap (trim_right is_space)
      (trim_left_clean (s ++ c ∷ []) (StartsClean-append s (c ∷ []) n t.starts))
    ∙ trim_right-append s c h
    ∙ trim_right_clean s t.ends
