-- ===== src/Ytlive/Balanced/Prefixes.antt =====
-- internal/ytlive/resolver.go: what sliceBalancedJSON cuts off is the beginning of the text.
use gnasty_chat.Prelude.{Bool, false, Option, none, some, [], ◌∷◌, ◌++◌, ◌≡◌, ℕ, refl, sym, ap, ◌∙◌}
use gnasty_chat.Text.{Bytes}
use gnasty_chat.Ytlive.Balanced.{
  Next, fails, finishes, goes, next, prepend, scan_from, slice_balanced,
}

prepend_sound :
    (p : Bytes) (o : Option Bytes) (t : Bytes)
    → prepend p o ≡ some t
    → (u : Bytes) × (o ≡ some u) × (t ≡ p ++ u)
prepend_sound p none t h = absurd cc
prepend_sound p (some u) t h = (u, refl, cc)

behind_next :
    (n : Next) (c : ℕ) (s t : Bytes)
    → ((stack : Bytes) (q e : Bool) (u : Bytes)
        → scan_from s stack q e ≡ some u
        → (r : Bytes) × (s ≡ u ++ r))
    → elim n [
      | fails ↦ none
      | finishes ↦ some (c ∷ [])
      | goes stack q e ↦ prepend (c ∷ []) (scan_from s stack q e)
    ]
      ≡ some t
    → (r : Bytes) × (c ∷ s ≡ t ++ r)
behind_next fails c s t more h = absurd cc
behind_next finishes c s t more h = let same : c ∷ [] ≡ t = cc in (s, ap (λ u. u ++ s) same)
behind_next (goes stack q e) c s t more h =
    let (u, found, t_eq) = prepend_sound (c ∷ []) (scan_from s stack q e) t h in
    let (r, s_eq) = more stack q e u found in
    (r, ap (λ v. c ∷ v) s_eq ∙ ap (λ v. v ++ r) (sym t_eq))

scan_from_sound :
    (s stack : Bytes) (q e : Bool) (t : Bytes)
    → scan_from s stack q e ≡ some t
    → (r : Bytes) × (s ≡ t ++ r)
unfolding scan_from
scan_from_sound [] stack q e t h = absurd cc
scan_from_sound (c ∷ s) stack q e t h =
    behind_next (next c stack q e) c s t (λ stack' q' e' u. scan_from_sound s stack' q' e' u) h

pub slice_balanced_sound : (s t : Bytes) → slice_balanced s ≡ some t → (r : Bytes) × (s ≡ t ++ r)
unfolding slice_balanced
slice_balanced_sound s t h = scan_from_sound s [] false false t h
